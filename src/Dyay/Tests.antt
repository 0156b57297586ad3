-- ===== src/Dyay/Tests.antt =====
-- Runs of the array, and its theorems at a concrete one.
use ymd.Common.{
  ℕ, ◌-◌, ◌≡◌, refl, arith, ltb, ◌==◌, if◌then◌else◌, some, [], ◌∷◌, replicate, length-replicate,
}
use ymd.Dyay.{Dyay, Memory, store, dyay_get, dyay_add, dyay_insert}
use ymd.Dyay.Contents.{IsValid}
use ymd.Dyay.Order.{dyay_get-dyay_add, dyay_insert_lem}

abbrev memory : Memory ℕ
memory = record { slots = λ n. replicate n 99; length-slots = λ n. length-replicate n 99 }

abbrev two : Dyay ℕ
two = record { count = 2; max = 2; elem = 5 ∷ 6 ∷ [] }

two-IsValid : IsValid two
two-IsValid = record { fits = omega arith; whole = refl }

dyay_get-dyay_add_example :
    dyay_get (store (dyay_add memory 0 two).0 (dyay_add memory 0 two).1 7) 2 ≡ some 7
dyay_get-dyay_add_example = dyay_get-dyay_add memory two two-IsValid 0 7 2

dyay_insert_lem_example :
    (out : Dyay ℕ) × (dyay_insert memory two 1 ≡ some (out, 1))
    × IsValid out
    × ((x : ℕ) (k : ℕ)
        → dyay_get (store out 1 x) k
          ≡ (if k == 1 then some x else if ltb k 1 then dyay_get two k else dyay_get two (k - 1)))
dyay_insert_lem_example = dyay_insert_lem memory two two-IsValid 1 (omega arith)
