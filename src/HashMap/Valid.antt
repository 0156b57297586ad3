-- ===== src/HashMap/Valid.antt =====
-- What holds of a hash map between its operations, and what hfind then finds.
use ymd.Common.{
  ℕ, zero, suc, ◌+◌, ◌-◌, ◌^◌, ◌≤◌, ◌<◌, ◌≡◌, ◌≢◌, ◌⊎◌, inl, inr, refl, sym, ap, subst, ◌∙◌, arith,
  ◌%◌, bit_or, ◌==◌, ==_iff, true, false, none, some, List, [], ◌∷◌, length, In, IsDistinct,
}
use ymd.Chunk.{Variable, nil}
use ymd.HashMap.{
  Flag, free, slot, node, taken, Item, Hmap, Keys, position, hmap_count, count_below, matches,
  hfind, search_chain, is_nil,
}
use ymd.HashMap.Chains.{Linked}
use ymd.HashMap.Walk.{IsHit, IsMiss, search_chain_lem}

pub pow_pos : (n : ℕ) → 0 < 2 ^ n
pow_pos zero = omega arith
pow_pos (suc n) = omega (arith, pow_pos n)

pub position_lt : (shift h : ℕ) → position shift h < 2 ^ shift
unfolding position
position_lt shift h =
    let p = pow_pos shift in let x = bit_or ((h + (2 ^ 64 - 1)) % 2 ^ 64) 1 in grind arith

-- What the map needs of the keys: equal ones have one hash.
pub record IsLawful (keys : Keys) : Type 0 where
  pub usable_not_nil : (a : Variable) → keys.usable a ≡ true → is_nil a ≡ false
  pub equals_sym :
      (a b : Variable)
      → keys.usable a ≡ true
      → keys.usable b ≡ true
      → keys.equals a b ≡ true
      → keys.equals b a ≡ true
  pub equals_trans :
      (a b c : Variable)
      → keys.usable a ≡ true
      → keys.usable b ≡ true
      → keys.usable c ≡ true
      → keys.equals a b ≡ true
      → keys.equals b c ≡ true
      → keys.equals a c ≡ true
  pub equals-hash :
      (a b : Variable)
      → keys.usable a ≡ true
      → keys.usable b ≡ true
      → keys.equals a b ≡ true
      → keys.hash a ≡ keys.hash b

abbrev pub home : Keys → Hmap → ℕ → ℕ
home keys map i = position map.shift (keys.hash (map.item i).k)

-- The items are linked into chains, one from each slot that is the position of some hash; the chain
-- of a slot holds the items whose keys have that position.
pub record IsChained (keys : Keys) (map : Hmap) (chains : ℕ → List ℕ) : Type 0 where
  pub linked : (p : ℕ) → Linked map.item (chains p)
  pub distinct : (p : ℕ) → IsDistinct (chains p)
  pub headed : (p : ℕ) → (map.item p).flag ≡ slot → (is : List ℕ) × (chains p ≡ p ∷ is)
  pub headless : (p : ℕ) → (map.item p).flag ≢ slot → chains p ≡ []
  pub belongs :
      (p i : ℕ) → In i (chains p) → (taken (map.item i).flag ≡ true) × (home keys map i ≡ p)
  pub covered : (i : ℕ) → taken (map.item i).flag ≡ true → In i (chains (home keys map i))
  pub short : (p : ℕ) → length (chains p) ≤ hmap_count map
  pub hashed :
      (i : ℕ) → taken (map.item i).flag ≡ true → (map.item i).hash ≡ keys.hash (map.item i).k
  pub unique :
      (i j : ℕ)
      → taken (map.item i).flag ≡ true
      → taken (map.item j).flag ≡ true
      → keys.equals (map.item i).k (map.item j).k ≡ true
      → i ≡ j
  pub usable : (i : ℕ) → taken (map.item i).flag ≡ true → keys.usable (map.item i).k ≡ true
  pub below : (i : ℕ) → taken (map.item i).flag ≡ true → i < 2 ^ map.shift
  pub clear : (i : ℕ) → taken (map.item i).flag ≡ false → (map.item i).next ≡ none

-- A map that an operation left.
pub record IsValid (keys : Keys) (map : Hmap) : Type 0 where
  pub chains : ℕ → List ℕ
  pub chained : IsChained keys map chains
  pub last : map.free ≡ 2 ^ map.shift - 1
  pub grown : 0 < map.shift

pub count_below_le : (item : ℕ → Item) (n : ℕ) → count_below item n ≤ n
unfolding count_below
count_below_le item zero = omega arith
count_below_le item (suc n) = ground (arith, count_below_le item n)

-- An item holds the key.
abbrev pub Holds : Keys → Hmap → Variable → ℕ → Type 0
Holds keys map key i = (taken (map.item i).flag ≡ true) × (keys.equals (map.item i).k key ≡ true)

pub Flag-cases : (f : Flag) → (f ≡ slot) ⊎ (f ≢ slot)
Flag-cases free = inr (λ e. cc e)
Flag-cases slot = inl refl
Flag-cases node = inr (λ e. cc e)

module _ (keys : Keys) (laws : IsLawful keys) (map : Hmap) {chains : ℕ → List ℕ}
    (c : IsChained keys map chains) (key : Variable) (ok : keys.usable key ≡ true) where
  -- An item with the key stands in the chain of the key's position.
  pub Holds-In : (i : ℕ) → Holds keys map key i → In i (chains (position map.shift (keys.hash key)))
  Holds-In i (t, e) =
      subst (λ (h : ℕ). In i (chains (position map.shift h)))
        (laws.equals-hash _ _ (c.usable i t) ok e) (c.covered i t)

  pub Holds-matches :
      (i : ℕ) → Holds keys map key i → matches keys (map.item i) (keys.hash key) key ≡ true
  Holds-matches i (t, e) =
      let same : ((map.item i).hash == keys.hash key) ≡ true =
        (==_iff _ _).1 (c.hashed i t ∙ laws.equals-hash _ _ (c.usable i t) ok e) in
      rw (same, e)

  -- The search from a slot.
  pub search_slot :
      (p h : ℕ)
      → (map.item p).flag ≡ slot
      → IsHit keys map.item h key (chains p) (search_chain keys (2 ^ map.shift) map.item h key p)
        ⊎ IsMiss keys map.item h key (chains p) (search_chain keys (2 ^ map.shift) map.item h key p)
  unfolding hmap_count
  search_slot p h f =
      let (is, e) = c.headed p f in
      subst
        (λ (js : List ℕ).
          IsHit keys map.item h key js (search_chain keys (2 ^ map.shift) map.item h key p)
          ⊎ IsMiss keys map.item h key js (search_chain keys (2 ^ map.shift) map.item h key p))
        (sym e)
        (search_chain_lem keys map.item h key (2 ^ map.shift) p is
          (omega (arith, c.short p, count_below_le map.item (2 ^ map.shift), ap (length {A = ℕ}) e))
          (subst (Linked map.item) e (c.linked p)))

  -- A matching item holds the key.
  pub matches-Holds :
      (p i h : ℕ) → In i (chains p) → matches keys (map.item i) h key ≡ true → Holds keys map key i
  matches-Holds p i h inside m = ((c.belongs p i inside).0, ground arith)

  pub Holds-unique : (i j : ℕ) → Holds keys map key i → Holds keys map key j → i ≡ j
  Holds-unique i j (t, e) (u, f) = c.unique i j t u (
      laws.equals_trans _ key _ (c.usable i t) ok (c.usable j u) e
        (laws.equals_sym _ key (c.usable j u) ok f))

  pub hfind_hit : (i : ℕ) → Holds keys map key i → hfind keys map key ≡ some (map.item i).v
  unfolding hfind
  hfind_hit i held =
      let p = position map.shift (keys.hash key) in
      elim (Flag-cases (map.item p).flag) [
        | inr n ↦ elim (subst (In i) (c.headless p n) (Holds-In i held)) [ ]
        | inl f ↦ elim (search_slot p (keys.hash key) f) [
          | inl r ↦
              rw (f, hfind)
                (rw r.ends (
                  ap (λ (j : ℕ). some (map.item j).v)
                    (Holds-unique r.at i (matches-Holds p r.at (keys.hash key) r.inside r.hit)
                      held)))
          | inr r ↦ cc (r.none_hit i (Holds-In i held), Holds-matches i held)
        ]
      ]

  -- Either an item holds the key, or none does.
  pub Holds-cases : ((i : ℕ) × Holds keys map key i) ⊎ ((i : ℕ) → Holds keys map key i → ⊥)
  Holds-cases =
      let p = position map.shift (keys.hash key) in
      elim (Flag-cases (map.item p).flag) [
        | inr n ↦ inr (λ i held. elim (subst (In i) (c.headless p n) (Holds-In i held)) [ ])
        | inl f ↦ elim (search_slot p (keys.hash key) f) [
          | inl r ↦ inl (r.at, matches-Holds p r.at (keys.hash key) r.inside r.hit)
          | inr r ↦ inr (λ i held. cc (r.none_hit i (Holds-In i held), Holds-matches i held))
        ]
      ]

  pub hfind_miss : ((i : ℕ) → Holds keys map key i → ⊥) → hfind keys map key ≡ some nil
  unfolding hfind
  hfind_miss out =
      let p = position map.shift (keys.hash key) in
      elim (Flag-cases (map.item p).flag) [
        | inr n ↦ ground arith
        | inl f ↦ elim (search_slot p (keys.hash key) f) [
          | inl r ↦ absurd (out r.at (matches-Holds p r.at (keys.hash key) r.inside r.hit))
          | inr r ↦ rw (f, hfind) (rw r.ends)
        ]
      ]
