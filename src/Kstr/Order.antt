-- ===== src/Kstr/Order.antt =====
-- kz_compare against the lexicographic order.
use ymd.Common.{ℕ, ◌<◌, ◌≡◌, refl, sym, ap, subst, arith, ◌⊎◌, inl, inr, false, List, [], ◌∷◌}
use ymd.Common.Int.{ℤ, pos, negsuc}
use ymd.Kstr.{kz_compare, first_difference}

-- The first string stands before the second in the lexicographic order.
abbrev pub Before : List ℕ → List ℕ → Type 0
Before z1 [] = ⊥
Before [] (d ∷ z2) = Unit
Before (c ∷ z1) (d ∷ z2) = (c < d) ⊎ ((c ≡ d) × Before z1 z2)

-- What each result of a comparison says.
pub data Compared (z1 z2 : List ℕ) : ℤ → Type 0 where
  before : Before z1 z2 → Compared z1 z2 (negsuc 0)
  equal : z1 ≡ z2 → Compared z1 z2 (pos 0)
  behind : Before z2 z1 → Compared z1 z2 (pos 1)

Compared-tail :
    (c : ℕ) {z1 z2 : List ℕ} {rv : ℤ} → Compared z1 z2 rv → Compared (c ∷ z1) (c ∷ z2) rv
Compared-tail c (before p) = before (inr (refl, p))
Compared-tail c (equal e) = equal (ap (◌∷◌ c) e)
Compared-tail c (behind p) = behind (inr (refl, p))

kz_compare-tail :
    (c : ℕ) (z1 z2 : List ℕ) → kz_compare false (c ∷ z1) (c ∷ z2) ≡ kz_compare false z1 z2
unfolding kz_compare first_difference
kz_compare-tail c z1 z2 = ground arith

kz_compare-before :
    (c d : ℕ) (z1 z2 : List ℕ) → c < d → kz_compare false (c ∷ z1) (d ∷ z2) ≡ negsuc 0
unfolding kz_compare first_difference
kz_compare-before c d z1 z2 h = ground arith

kz_compare-behind : (c d : ℕ) (z1 z2 : List ℕ) → d < c → kz_compare false (c ∷ z1) (d ∷ z2) ≡ pos 1
unfolding kz_compare first_difference
kz_compare-behind c d z1 z2 h = ground arith

-- kz_compare on two strings that are not the same object returns -1 when the first stands before the
-- second in the lexicographic order of their bytes, 0 when they are equal, and 1 otherwise.
pub kz_compare-Compared : (z1 z2 : List ℕ) → Compared z1 z2 (kz_compare false z1 z2)
unfolding kz_compare first_difference
kz_compare-Compared [] [] = equal refl
kz_compare-Compared [] (d ∷ z2) = subst (Compared [] (d ∷ z2)) (ground arith) (before tt)
kz_compare-Compared (c ∷ z1) [] = subst (Compared (c ∷ z1) []) (ground arith) (behind tt)
kz_compare-Compared (c ∷ z1) (d ∷ z2) = elim (trichotomy c d) [
  | inl l ↦
      subst (Compared (c ∷ z1) (d ∷ z2)) (sym (kz_compare-before c d z1 z2 l)) (before (inl l))
  | inr (inl e) ↦
      subst (λ t. Compared (c ∷ z1) (t ∷ z2) (kz_compare false (c ∷ z1) (t ∷ z2))) e
        (subst (Compared (c ∷ z1) (c ∷ z2)) (sym (kz_compare-tail c z1 z2))
          (Compared-tail c (kz_compare-Compared z1 z2)))
  | inr (inr l) ↦
      subst (Compared (c ∷ z1) (d ∷ z2)) (sym (kz_compare-behind c d z1 z2 l)) (behind (inl l))
]
  where
    trichotomy : (a b : ℕ) → (a < b) ⊎ ((a ≡ b) ⊎ (b < a))
    trichotomy a b = omega arith
