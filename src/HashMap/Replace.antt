-- ===== src/HashMap/Replace.antt =====
-- A store under a key that the hash map holds already.
use ymd.Common.{ℕ, ◌^◌, ◌≡◌, ◌≢◌, inl, inr, refl, sym, ap, subst, ◌∙◌, Bool-cases, true, List}
use native.Mathlib.Decide.{ℕ_discrete}
use ymd.Chunk.{Variable}
use ymd.HashMap.{taken, Item, Hmap, Keys, position, hmap_count}
use ymd.HashMap.Walk.{Linked-same}
use ymd.HashMap.Count.{count_below_same}
use ymd.HashMap.Valid.{IsLawful, IsChained, Holds, Holds-unique, home}
use ymd.HashMap.Stored.{IsStored, Stored-hashed, Stored-usable, Stored-unique}

-- The item `x` holds the key, and gets the new key and the value.
pub record Replaces (keys : Keys) (map map' : Hmap) (x : ℕ) (key v : Variable) : Type 0 where
  pub held : Holds keys map key x
  pub same_shift : map'.shift ≡ map.shift
  pub new_item : map'.item x ≡ record (map.item x) { k = key; v = v }
  pub others : (i : ℕ) → i ≢ x → map'.item i ≡ map.item i

module _ (keys : Keys) (laws : IsLawful keys) (m m' : Hmap) {chains : ℕ → List ℕ}
    (c : IsChained keys m chains) (x : ℕ) (key v : Variable) (ok : keys.usable key ≡ true)
    (r : Replaces keys m m' x key v) where
  -- A statement about each item, from that of the new one and those of the others.
  at :
      (P : ℕ → Item → Type 0)
      → P x (record (m.item x) { k = key; v = v })
      → ((i : ℕ) → i ≢ x → P i (m.item i))
      → (i : ℕ) → P i (m'.item i)
  at P new old i = elim (ℕ_discrete i x) [
    | yes e ↦ subst (λ j. P j (m'.item j)) (sym e) (subst (P x) (sym r.new_item) new)
    | no n ↦ subst (P i) (sym (r.others i n)) (old i n)
  ]

  same_flag : (i : ℕ) → (m'.item i).flag ≡ (m.item i).flag
  same_flag = at (λ i y. y.flag ≡ (m.item i).flag) refl (λ i n. refl)

  same_next : (i : ℕ) → (m'.item i).next ≡ (m.item i).next
  same_next = at (λ i y. y.next ≡ (m.item i).next) refl (λ i n. refl)

  was_taken : (i : ℕ) → taken (m'.item i).flag ≡ true → taken (m.item i).flag ≡ true
  was_taken i t = rw (← same_flag i) t

  pub Replaces-count : hmap_count m' ≡ hmap_count m
  unfolding hmap_count
  Replaces-count =
      rw r.same_shift (count_below_same m.item m'.item (2 ^ m.shift) (λ i. ap taken (same_flag i)))

  held_at : (i : ℕ) → i ≡ x → keys.equals (m.item i).k key ≡ true
  held_at i e = subst (λ j. keys.equals (m.item j).k key ≡ true) (sym e) r.held.1

  pub Replaces-IsStored : IsStored keys m m' (λ i. i) x key v
  Replaces-IsStored = record {
    used = rw r.new_item r.held.0;
    has_k = rw r.new_item;
    has_v = rw r.new_item;
    has_hash =
        rw r.new_item
          (c.hashed x r.held.0 ∙ laws.equals-hash _ _ (c.usable x r.held.0) ok r.held.1);
    kept = λ i t d.
        rw (r.others i (λ e. cc (d, held_at i e)))
          (record { used = t; same_k = refl; same_v = refl; same_hash = refl });
    onto = λ i t n. (
      i,
      was_taken i t,
      elim (Bool-cases (keys.equals (m.item i).k key)) [
        | inl e ↦ absurd (n (Holds-unique keys laws m c key ok i x (was_taken i t, e) r.held))
        | inr e ↦ e
      ],
      refl,
    );
  }

  home_same : (i : ℕ) → home keys m' i ≡ home keys m i
  home_same i = rw r.same_shift (
      ap (position m.shift) (
        at (λ i y. keys.hash y.k ≡ keys.hash (m.item i).k)
          (sym (laws.equals-hash _ _ (c.usable x r.held.0) ok r.held.1)) (λ i n. refl) i))

  pub Replaces-IsChained : IsChained keys m' chains
  Replaces-IsChained = record {
    linked = λ p. Linked-same m.item m'.item (chains p) (λ j _. same_next j) (c.linked p);
    distinct = c.distinct;
    headed = λ p e. c.headed p (sym (same_flag p) ∙ e);
    headless = λ p n. c.headless p (λ e. n (same_flag p ∙ e));
    belongs = λ p i h. (rw (same_flag i) (c.belongs p i h).0, home_same i ∙ (c.belongs p i h).1);
    covered = λ i t. rw (home_same i) (c.covered i (was_taken i t));
    short = λ p. rw Replaces-count (c.short p);
    hashed = Stored-hashed keys laws m m' c (λ i. i) x key v ok Replaces-IsStored;
    usable = Stored-usable keys laws m m' c (λ i. i) x key v ok Replaces-IsStored;
    unique = Stored-unique keys laws m m' c (λ i. i) x key v ok Replaces-IsStored;
    below = λ i t. rw r.same_shift (c.below i (was_taken i t));
    clear = λ i t. same_next i ∙ c.clear i (sym (ap taken (same_flag i)) ∙ t);
  }
