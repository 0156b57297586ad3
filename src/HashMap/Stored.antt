-- ===== src/HashMap/Stored.antt =====
-- What a store under one key does to the items of a hash map, whichever way the code took.
use ymd.Common.{
  ℕ, ◌≡◌, ◌≢◌, ◌⊎◌, inl, inr, sym, ap, subst, ◌∙◌, if◌then◌else◌, Bool-cases, true, false, some,
  List,
}
use native.Mathlib.Decide.{ℕ_discrete}
use ymd.Chunk.{Variable}
use ymd.HashMap.{taken, Item, Hmap, Keys, hfind}
use ymd.HashMap.Valid.{IsLawful, IsChained, Holds-cases, hfind_hit, hfind_miss}

-- The second item is in use, for the same key with the same value.
pub record IsCopy (a b : Item) : Type 0 where
  pub used : taken b.flag ≡ true
  pub same_k : b.k ≡ a.k
  pub same_v : b.v ≡ a.v
  pub same_hash : b.hash ≡ a.hash

-- The item `x` holds the key and the value; the items of the other keys are kept, each at `f` of its
-- index, and there are no others.
pub record IsStored (keys : Keys) (map map' : Hmap) (f : ℕ → ℕ) (x : ℕ) (key v : Variable)
    : Type 0 where
  pub used : taken (map'.item x).flag ≡ true
  pub has_k : (map'.item x).k ≡ key
  pub has_v : (map'.item x).v ≡ v
  pub has_hash : (map'.item x).hash ≡ keys.hash key
  pub kept :
      (i : ℕ)
      → taken (map.item i).flag ≡ true
      → keys.equals (map.item i).k key ≡ false
      → IsCopy (map.item i) (map'.item (f i))
  pub onto :
      (i : ℕ)
      → taken (map'.item i).flag ≡ true
      → i ≢ x
      → (j : ℕ) × (taken (map.item j).flag ≡ true)
        × (keys.equals (map.item j).k key ≡ false)
        × (i ≡ f j)

module _ (keys : Keys) (laws : IsLawful keys) (map map' : Hmap) {chains : ℕ → List ℕ}
    (c : IsChained keys map chains) (f : ℕ → ℕ) (x : ℕ) (key v : Variable)
    (ok : keys.usable key ≡ true) (s : IsStored keys map map' f x key v) where
  -- Each item in use is the new one, or the copy of one with another key.
  pub onto-cases :
      (i : ℕ)
      → taken (map'.item i).flag ≡ true
      → (i ≡ x)
        ⊎ ((j : ℕ) × (taken (map.item j).flag ≡ true)
            × (keys.equals (map.item j).k key ≡ false)
            × (i ≡ f j)
            × IsCopy (map.item j) (map'.item i))
  onto-cases i t = elim (ℕ_discrete i x) [
    | yes e ↦ inl e
    | no n ↦
        let (j, u, d, e) = s.onto i t n in
        inr (j, u, d, e, subst (λ k. IsCopy (map.item j) (map'.item k)) (sym e) (s.kept j u d))
  ]

  pub Stored-hashed :
      (i : ℕ) → taken (map'.item i).flag ≡ true → (map'.item i).hash ≡ keys.hash (map'.item i).k
  Stored-hashed i t = elim (onto-cases i t) [
    | inl e ↦
        subst (λ k. (map'.item k).hash ≡ keys.hash (map'.item k).k) (sym e)
          (s.has_hash ∙ ap keys.hash (sym s.has_k))
    | inr (j, u, d, e, copy) ↦ copy.same_hash ∙ c.hashed j u ∙ ap keys.hash (sym copy.same_k)
  ]

  pub Stored-usable : (i : ℕ) → taken (map'.item i).flag ≡ true → keys.usable (map'.item i).k ≡ true
  Stored-usable i t = elim (onto-cases i t) [
    | inl e ↦ ap keys.usable (ap (λ (j : ℕ). (map'.item j).k) e ∙ s.has_k) ∙ ok
    | inr (j, u, _, _, copy) ↦ ap keys.usable copy.same_k ∙ c.usable j u
  ]

  pub Stored-unique :
      (i j : ℕ)
      → taken (map'.item i).flag ≡ true
      → taken (map'.item j).flag ≡ true
      → keys.equals (map'.item i).k (map'.item j).k ≡ true
      → i ≡ j
  Stored-unique i j t u h = elim (onto-cases i t) [
    | inl e ↦ elim (onto-cases j u) [
      | inl e' ↦ e ∙ sym e'
      | inr (b, w, d, _, copy) ↦
          absurd (other b w d (subst2 (ap (λ (n : ℕ). (map'.item n).k) e ∙ s.has_k) copy.same_k h))
    ]
    | inr (a, w, d, e, copy) ↦ elim (onto-cases j u) [
      | inl e' ↦ absurd (
          other a w d (
            laws.equals_sym _ _ (c.usable a w) ok
              (subst2 copy.same_k (ap (λ (n : ℕ). (map'.item n).k) e' ∙ s.has_k) h)))
      | inr (b, w', _, e', copy') ↦
          e ∙ ap f (c.unique a b w w' (subst2 copy.same_k copy'.same_k h)) ∙ sym e'
    ]
  ]
    where
      subst2 :
          {p q r t : Variable} → p ≡ q → r ≡ t → keys.equals p r ≡ true → keys.equals q t ≡ true
      subst2 e e' m = rw (← e, ← e') m

      other :
          (b : ℕ)
          → taken (map.item b).flag ≡ true
          → keys.equals (map.item b).k key ≡ false
          → keys.equals key (map.item b).k ≡ true
          → ⊥
      other b w d m = cc (d, laws.equals_sym _ _ ok (c.usable b w) m)

  module _ {chains' : ℕ → List ℕ} (c' : IsChained keys map' chains') (key' : Variable)
      (ok' : keys.usable key' ≡ true) where
    -- The key finds the value, and another key what it found before.
    pub Stored-hfind :
        hfind keys map' key' ≡ (if keys.equals key key' then some v else hfind keys map key')
    Stored-hfind = elim (Bool-cases (keys.equals key key')) [
      | inl e ↦
          rw e (hfind_hit keys laws map' c' key' ok' x (s.used, rw s.has_k e) ∙ ap some s.has_v)
      | inr n ↦ rw n (elim (Holds-cases keys laws map c key' ok') [
        | inl (i, (t, e)) ↦
            let other : keys.equals (map.item i).k key ≡ false =
              elim (Bool-cases (keys.equals (map.item i).k key)) [
                | inl m ↦ cc (
                  n,
                  laws.equals_trans _ _ _ ok (c.usable i t) ok'
                      (laws.equals_sym _ _ (c.usable i t) ok m) e,
                )
                | inr m ↦ m
              ] in
            let copy = s.kept i t other in
            hfind_hit keys laws map' c' key' ok' (f i) (copy.used, rw copy.same_k e)
            ∙ ap some copy.same_v
            ∙ sym (hfind_hit keys laws map c key' ok' i (t, e))
        | inr out ↦
            hfind_miss keys laws map' c' key' ok' (λ i held. elim (onto-cases i held.0) [
              | inl e ↦ cc (
                n,
                ap (λ (k : Variable). keys.equals k key')
                    (ap (λ (j : ℕ). (map'.item j).k) e ∙ s.has_k),
                held.1,
              )
              | inr (j, u, _, _, copy) ↦ out j (u, rw (← copy.same_k) held.1)
            ])
            ∙ sym (hfind_miss keys laws map c key' ok' out)
      ])
    ]
