-- ===== src/SkipList/Precedes.antt =====
-- What compare of value.c looks at in a scalar or a string, and its order of them.
use ymd.Common.{
  ℕ, zero, suc, ◌<◌, ◌≡◌, ◌≢◌, refl, sym, ap, subst, ◌∙◌, arith, ◌⊎◌, inl, inr, ◌==◌, ==_iff,
  Bool-cases, Bool, true, false, List, [], ◌∷◌,
}
use ymd.Common.Int.{ℤ, pos, negsuc, ltb_ℤ}
use ymd.Kstr.{Kstr, kz_compare, kstr_compare}
use ymd.Kstr.Order.{Before, Compared, before, equal, behind, kz_compare-Compared}
use ymd.Chunk.{Variable, int, bool, kstr}
use ymd.Value.{usable}
use ymd.Value.Lawful.{kstr-usable}
use ymd.Value.Order.{opposite, type_of, safe_compare}

-- What compare looks at: the type, the number of a scalar, the bytes of a string.
abbrev pub number_of : Variable → ℤ
number_of (int i) = i
number_of (bool i) = i
number_of _ = pos 0

abbrev pub bytes_of : Variable → List ℕ
bytes_of (kstr kz) = kz.land
bytes_of _ = []

-- The lexicographic order of the three.
abbrev pub Precedes : Variable → Variable → Type 0
Precedes a b =
    (type_of a < type_of b)
    ⊎ ((type_of a ≡ type_of b)
        × ((ltb_ℤ (number_of a) (number_of b) ≡ true)
            ⊎ ((number_of a ≡ number_of b) × Before (bytes_of a) (bytes_of b))))

Before-trans : (x y z : List ℕ) → Before x y → Before y z → Before x z
Before-trans x y [] p q = q
Before-trans [] y (e ∷ z) p q = tt
Before-trans (c ∷ x) [] (e ∷ z) p q = absurd p
Before-trans (c ∷ x) (d ∷ y) (e ∷ z) (inl p) (inl q) = inl (omega arith)
Before-trans (c ∷ x) (d ∷ y) (e ∷ z) (inl p) (inr (q, _)) = inl (omega arith)
Before-trans (c ∷ x) (d ∷ y) (e ∷ z) (inr (p, _)) (inl q) = inl (omega arith)
Before-trans (c ∷ x) (d ∷ y) (e ∷ z) (inr (p, r)) (inr (q, s)) = inr (p ∙ q, Before-trans x y z r s)

Before-irreflexive : (x : List ℕ) → Before x x → ⊥
Before-irreflexive [] p = p
Before-irreflexive (c ∷ x) (inl p) = absurd (omega arith)
Before-irreflexive (c ∷ x) (inr (_, p)) = Before-irreflexive x p

ltb_ℤ-trans : (i j k : ℤ) → ltb_ℤ i j ≡ true → ltb_ℤ j k ≡ true → ltb_ℤ i k ≡ true
ltb_ℤ-trans i j k p q = ground arith

pub Precedes-trans : (a b c : Variable) → Precedes a b → Precedes b c → Precedes a c
Precedes-trans a b c (inl p) (inl q) = inl (omega arith)
Precedes-trans a b c (inl p) (inr (q, _)) = inl (omega arith)
Precedes-trans a b c (inr (p, _)) (inl q) = inl (omega arith)
Precedes-trans a b c (inr (p, inl m)) (inr (q, inl n)) =
    inr (p ∙ q, inl (ltb_ℤ-trans (number_of a) (number_of b) (number_of c) m n))
Precedes-trans a b c (inr (p, inl m)) (inr (q, inr (n, _))) =
    inr (p ∙ q, inl (subst (λ t. ltb_ℤ (number_of a) t ≡ true) n m))
Precedes-trans a b c (inr (p, inr (m, _))) (inr (q, inl n)) =
    inr (p ∙ q, inl (subst (λ t. ltb_ℤ t (number_of c) ≡ true) (sym m) n))
Precedes-trans a b c (inr (p, inr (m, r))) (inr (q, inr (n, s))) =
    inr (p ∙ q, inr (m ∙ n, Before-trans (bytes_of a) (bytes_of b) (bytes_of c) r s))

abbrev pub negative : ℤ → Bool
negative i = ltb_ℤ i (pos 0)

kz_compare→Before : (x y : List ℕ) → negative (kz_compare false x y) ≡ true → Before x y
kz_compare→Before x y e = found (kz_compare false x y) (kz_compare-Compared x y) e
  where
    found : (rv : ℤ) → Compared x y rv → negative rv ≡ true → Before x y
    found rv (before p) e = p
    found rv (equal p) e = cc e
    found rv (behind p) e = cc e

Before→kz_compare : (x y : List ℕ) → Before x y → negative (kz_compare false x y) ≡ true
Before→kz_compare x y b = found (kz_compare false x y) (kz_compare-Compared x y)
  where
    found : (rv : ℤ) → Compared x y rv → negative rv ≡ true
    found rv (before p) = refl
    found rv (equal p) = absurd (Before-irreflexive x (subst (Before x) (sym p) b))
    found rv (behind p) = absurd (Before-irreflexive x (Before-trans x y x b p))

pub safe_compare-ltb_ℤ : (i j : ℤ) → negative (safe_compare i j) ≡ ltb_ℤ i j
unfolding safe_compare
safe_compare-ltb_ℤ i j = ground arith

pub negative-opposite : (i : ℤ) → negative i ≡ true → negative (opposite i) ≡ true → ⊥
negative-opposite (pos zero) p q = cc p
negative-opposite (pos (suc n)) p q = absurd (ground arith)
negative-opposite (negsuc n) p q = absurd (ground arith)

pub opposite-negative : (i : ℤ) → negative i ≡ false → i ≢ pos 0 → negative (opposite i) ≡ true
opposite-negative (pos zero) p n = absurd (n refl)
opposite-negative (pos (suc m)) p n = ground arith
opposite-negative (negsuc m) p n = absurd (ground arith)

module _ (text : ℕ → List ℕ) where
  pub kstr_compare→Before :
      (kz rhs : Kstr) → negative (kstr_compare kz rhs) ≡ true → Before kz.land rhs.land
  unfolding kstr_compare
  kstr_compare→Before kz rhs e = elim (Bool-cases (kz.address == rhs.address)) [
    | inl s ↦ cc (rw s at e)
    | inr s ↦ kz_compare→Before kz.land rhs.land (rw s at e)
  ]

  pub Before→kstr_compare :
      (kz rhs : Kstr)
      → usable text (kstr kz) ≡ true
      → usable text (kstr rhs) ≡ true
      → Before kz.land rhs.land
      → negative (kstr_compare kz rhs) ≡ true
  unfolding kstr_compare
  Before→kstr_compare kz rhs u u' b = elim (Bool-cases (kz.address == rhs.address)) [
    | inl s ↦
        let same : kz.land ≡ rhs.land =
          sym (kstr-usable text kz u).0
          ∙ ap text ((==_iff kz.address rhs.address).0 s)
          ∙ (kstr-usable text rhs u').0 in
        absurd (Before-irreflexive kz.land (subst (Before kz.land) (sym same) b))
    | inr s ↦ rw s (Before→kz_compare kz.land rhs.land b)
  ]
