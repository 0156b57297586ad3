-- ===== src/HashMap/Chains.antt =====
-- The chains of a hash map as lists of indices, and the loops that walk along one.
use ymd.Common.{
  ℕ, suc, ◌≡◌, ◌≢◌, ◌⊎◌, inl, inr, refl, sym, ap, subst, arith, ◌==◌, if◌then◌else◌, ==_iff, Option,
  none, some, List, [], ◌∷◌, ◌++◌, length, map, In, IsDistinct,
}
use ymd.HashMap.{Item}
use mathlib.Core.Option as O
use native.Mathlib.Decide.{ℕ_discrete}

abbrev pub first : List ℕ → Option ℕ
first [] = none
first (i ∷ is) = some i

-- Each item of the list points to the following one, and the last to none.
abbrev pub Linked : (ℕ → Item) → List ℕ → Type 0
Linked item [] = Unit
Linked item (i ∷ is) = ((item i).next ≡ first is) × Linked item is

pub In-append_left : (i : ℕ) (is js : List ℕ) → In i is → In i (is ++ js)
In-append_left i [] js h = elim h [ ]
In-append_left i (j ∷ is) js (inl e) = inl e
In-append_left i (j ∷ is) js (inr h) = inr (In-append_left i is js h)

pub In-append_last : (i j : ℕ) (is : List ℕ) → In i (is ++ j ∷ []) → In i is ⊎ (i ≡ j)
In-append_last i j [] (inl e) = inr e
In-append_last i j [] (inr h) = elim h [ ]
In-append_last i j (k ∷ is) (inl e) = inl (inl e)
In-append_last i j (k ∷ is) (inr h) = elim (In-append_last i j is h) [
  | inl p ↦ inl (inr p)
  | inr e ↦ inr e
]

pub In-last : (i : ℕ) (is : List ℕ) → In i (is ++ i ∷ [])
In-last i [] = inl refl
In-last i (j ∷ is) = inr (In-last i is)

pub IsDistinct-append_last :
    (is : List ℕ) (j : ℕ) → IsDistinct is → (In j is → ⊥) → IsDistinct (is ++ j ∷ [])
IsDistinct-append_last [] j d new = ((λ h. elim h [ ]), tt)
IsDistinct-append_last (i ∷ is) j (out, d) new = (
  (λ h. elim (In-append_last i j is h) [ inl p ↦ out p | inr e ↦ new (inl (sym e)) ]),
  IsDistinct-append_last is j d (λ h. new (inr h)),
)

-- The map that puts `fnd` in the place of `s`.
abbrev pub moved : ℕ → ℕ → ℕ → ℕ
moved s fnd i = if i == s then fnd else i

module _ (f : ℕ → ℕ) where
  pub In-map : (i : ℕ) (is : List ℕ) → In i is → In (f i) (map f is)
  In-map i [] h = elim h [ ]
  In-map i (j ∷ is) (inl e) = inl (ap f e)
  In-map i (j ∷ is) (inr h) = inr (In-map i is h)

  pub In-map_inv : (i : ℕ) (is : List ℕ) → In i (map f is) → (j : ℕ) × In j is × (i ≡ f j)
  In-map_inv i [] h = elim h [ ]
  In-map_inv i (j ∷ is) (inl e) = (j, inl refl, e)
  In-map_inv i (j ∷ is) (inr h) = let r = In-map_inv i is h in (r.0, inr r.1, r.2)

  pub length-map : (is : List ℕ) → length (map f is) ≡ length is
  length-map [] = refl
  length-map (i ∷ is) = ap suc (length-map is)

  pub first-map : (is : List ℕ) → first (map f is) ≡ O.map f (first is)
  first-map [] = refl
  first-map (i ∷ is) = refl

  pub IsDistinct-map :
      (is : List ℕ)
      → ((i j : ℕ) → In i is → In j is → f i ≡ f j → i ≡ j)
      → IsDistinct is
      → IsDistinct (map f is)
  IsDistinct-map [] inj d = tt
  IsDistinct-map (i ∷ is) inj (out, d) = (
    (λ h.
        let r = In-map_inv (f i) is h in
        out (subst (λ t. In t is) (sym (inj i r.0 (inl refl) (inr r.1) r.2)) r.1)),
    IsDistinct-map is (λ j k p q. inj j k (inr p) (inr q)) d,
  )

-- The chains with the one of `i` replaced.
abbrev pub place : (ℕ → List ℕ) → ℕ → List ℕ → ℕ → List ℕ
place chains i is p = if p == i then is else chains p

module _ (chains : ℕ → List ℕ) (i : ℕ) (is : List ℕ) where
  pub place_self : place chains i is i ≡ is
  place_self = rw ((==_iff i i).1 refl)

  pub place-ne : (p : ℕ) → p ≢ i → place chains i is p ≡ chains p
  place-ne p n = ground arith

  -- A statement about each chain, from that of the new one and those of the others.
  pub place-each :
      (P : ℕ → List ℕ → Type 0)
      → P i is
      → ((p : ℕ) → p ≢ i → P p (chains p))
      → (p : ℕ) → P p (place chains i is p)
  place-each P new old p = elim (ℕ_discrete p i) [
    | yes e ↦ subst (λ q. P q (place chains i is q)) (sym e) (subst (P i) (sym place_self) new)
    | no n ↦ subst (P p) (sym (place-ne p n)) (old p n)
  ]
