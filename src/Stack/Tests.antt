-- ===== src/Stack/Tests.antt =====
-- Runs of the stack operations, and the theorems at concrete inputs.
use ymd.Common.{ℕ, ◌+◌, ◌-◌, ◌≡◌, refl, arith, some, ◌∷◌, ◌++◌, take, replicate, length-replicate}
use ymd.Common.Int.{pos, negsuc}
use ymd.Stack.{Stack, ymd_top, ymd_adjust, ymd_move}
use ymd.Stack.Contents.{IsValid, values, ymd_adjust_lem}

-- Three values above one that stays.
abbrev four : Stack ℕ
four = record { stk = 1 ∷ 2 ∷ 3 ∷ 4 ∷ replicate 124 0; top = 4 }

four-IsValid : IsValid four
four-IsValid = record { whole = omega (arith, length-replicate {A = ℕ} 124 0); fits = omega arith }

move_second :
    ymd_move four (pos 2) ≡ some (record { stk = 1 ∷ 3 ∷ 4 ∷ 2 ∷ replicate 124 0; top = 4 })
unfolding ymd_move
move_second = refl

-- The index -1 leads to the third slot from the bottom.
top_negative : ymd_top four (negsuc 0) ≡ some 2
unfolding ymd_top
top_negative = refl

ymd_adjust_lem_example :
    (l : Stack ℕ) × (ymd_adjust 0 four 5 3 ≡ some l)
    × IsValid l
    × (values l ≡ take (4 - 3 + 5) (values four) ++ replicate (5 - 3) 0)
ymd_adjust_lem_example = ymd_adjust_lem 0 four 5 3 four-IsValid (omega arith) (omega arith)
