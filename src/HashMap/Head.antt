-- ===== src/HashMap/Head.antt =====
-- A store that opens a new chain: the slot at the key's position is free, or is cleared for it by
-- moving another chain's item to a free one.
use ymd.Common.{
  ℕ, ◌+◌, ◌^◌, ◌≤◌, ◌<◌, ◌≡◌, ◌≢◌, inl, inr, refl, sym, ap, subst, ◌∙◌, arith, Bool-cases, true,
  false, none, List, [], ◌∷◌, length, map, In, IsDistinct,
}
use mathlib.Core.Option as O
use native.Mathlib.Decide.{ℕ_discrete}
use ymd.Chunk.{Variable}
use ymd.HashMap.{slot, taken, Hmap, Keys, position, hmap_count}
use ymd.HashMap.Chains.{
  place, place_self, place-ne, place-each, Linked, In-map, In-map_inv, length-map, IsDistinct-map,
}
use ymd.HashMap.Walk.{Linked-map}
use ymd.HashMap.Valid.{IsLawful, IsChained, Holds-In, home, position_lt}
use ymd.HashMap.Stored.{IsCopy, IsStored, Stored-hashed, Stored-usable, Stored-unique}

-- The slot `s` becomes the head of a chain for the key, and the item at `j` in use moves to `f j`.
pub record Opens (keys : Keys) (map map' : Hmap) (f : ℕ → ℕ) (s : ℕ) (key v : Variable)
    : Type 0 where
  pub no_head : (map.item s).flag ≢ slot
  pub at_home : position map.shift (keys.hash key) ≡ s
  pub same_shift : map'.shift ≡ map.shift
  pub new_item :
      map'.item s ≡ record { next = none; hash = keys.hash key; k = key; v = v; flag = slot }
  pub copies : (j : ℕ) → taken (map.item j).flag ≡ true → IsCopy (map.item j) (map'.item (f j))
  pub next_copies :
      (j : ℕ) → taken (map.item j).flag ≡ true → (map'.item (f j)).next ≡ O.map f (map.item j).next
  pub elsewhere : (j : ℕ) → taken (map.item j).flag ≡ true → f j ≢ s
  pub injective :
      (i j : ℕ)
      → taken (map.item i).flag ≡ true
      → taken (map.item j).flag ≡ true
      → f i ≡ f j
      → i ≡ j
  pub heads : (p : ℕ) → p ≢ s → (map'.item p).flag ≡ slot → (map.item p).flag ≡ slot
  pub kept_heads : (p : ℕ) → (map.item p).flag ≡ slot → ((map'.item p).flag ≡ slot) × (f p ≡ p)
  pub onto :
      (i : ℕ)
      → taken (map'.item i).flag ≡ true
      → i ≢ s
      → (j : ℕ) × (taken (map.item j).flag ≡ true) × (i ≡ f j)
  pub inside : (j : ℕ) → taken (map.item j).flag ≡ true → f j < 2 ^ map.shift
  pub clear : (i : ℕ) → taken (map'.item i).flag ≡ false → (map'.item i).next ≡ none
  pub counted : hmap_count map' ≡ hmap_count map + 1

module _ (keys : Keys) (laws : IsLawful keys) (m m' : Hmap) {chains : ℕ → List ℕ}
    (c : IsChained keys m chains) (f : ℕ → ℕ) (s : ℕ) (key v : Variable)
    (ok : keys.usable key ≡ true) (o : Opens keys m m' f s key v) where
  -- No item holds the key.
  absent : (i : ℕ) → taken (m.item i).flag ≡ true → keys.equals (m.item i).k key ≡ false
  absent i t = elim (Bool-cases (keys.equals (m.item i).k key)) [
    | inl e ↦
        elim (subst (In i) (ap chains o.at_home ∙ c.headless s o.no_head)
          (Holds-In keys laws m c key ok i (t, e))) [ ]
    | inr e ↦ e
  ]

  not_new : (j p : ℕ) → In j (chains p) → p ≢ s
  not_new j p h e = elim (subst (In j) (ap chains e ∙ c.headless s o.no_head) h) [ ]

  new_home : home keys m' s ≡ s
  new_home = rw (o.same_shift, o.new_item) o.at_home

  pub Opens-IsStored : IsStored keys m m' f s key v
  Opens-IsStored = record {
    used = rw o.new_item;
    has_k = rw o.new_item;
    has_v = rw o.new_item;
    has_hash = rw o.new_item;
    kept = λ i t d. o.copies i t;
    onto = λ i t n. let r = o.onto i t n in (r.0, r.1, absent r.0 r.1, r.2);
  }

  abbrev chains' : ℕ → List ℕ
  chains' = place (λ p. map f (chains p)) s (s ∷ [])

  home_copy : (j : ℕ) → taken (m.item j).flag ≡ true → home keys m' (f j) ≡ home keys m j
  home_copy j t = rw (o.same_shift, (o.copies j t).same_k)

  each :
      (P : ℕ → List ℕ → Type 0)
      → P s (s ∷ [])
      → ((p : ℕ) → p ≢ s → P p (map f (chains p)))
      → (p : ℕ) → P p (chains' p)
  each P new old = place-each (λ p. map f (chains p)) s (s ∷ []) P new old

  pub Opens-IsChained : IsChained keys m' chains'
  Opens-IsChained = record {
    linked =
        each (λ p is. Linked m'.item is) (rw o.new_item, tt)
          (λ p n.
            Linked-map m.item m'.item f (chains p) (λ j h. o.next_copies j (c.belongs p j h).0)
              (c.linked p));
    distinct =
        each (λ p is. IsDistinct is) ((λ h. elim h [ ]), tt)
          (λ p n.
            IsDistinct-map f (chains p)
              (λ i j h h'. o.injective i j (c.belongs p i h).0 (c.belongs p j h').0)
              (c.distinct p));
    headed =
        each (λ p is. (m'.item p).flag ≡ slot → (js : List ℕ) × (is ≡ p ∷ js)) (λ _. ([], refl))
          (λ p n e.
            let (is, e') = c.headed p (o.heads p n e) in
            (
              map f is,
              ap (map f) e' ∙ ap (λ (t : ℕ). t ∷ map f is) (o.kept_heads p (o.heads p n e)).1,
            ));
    headless =
        each (λ p is. (m'.item p).flag ≢ slot → is ≡ []) (λ h. absurd (h (rw o.new_item)))
          (λ p n h. ap (map f) (c.headless p (λ e. h (o.kept_heads p e).0)));
    belongs =
        each (λ p is. (i : ℕ) → In i is → (taken (m'.item i).flag ≡ true) × (home keys m' i ≡ p))
          (λ i h. elim h [
            | inl e ↦
                subst (λ k. (taken (m'.item k).flag ≡ true) × (home keys m' k ≡ s)) (sym e)
                  (rw o.new_item, new_home)
            | inr w ↦ elim w [ ]
          ])
          (λ p n i h.
            let (j, h', e) = In-map_inv f i (chains p) h in
            let (t, a) = c.belongs p j h' in
            subst (λ k. (taken (m'.item k).flag ≡ true) × (home keys m' k ≡ p)) (sym e)
              ((o.copies j t).used, home_copy j t ∙ a));
    covered = λ i t. elim (ℕ_discrete i s) [
      | yes e ↦
          subst (λ k. In k (chains' (home keys m' k))) (sym e)
            (subst (λ p. In s (chains' p)) (sym new_home)
              (rw (place_self (λ p. map f (chains p)) s (s ∷ [])) (inl refl)))
      | no n ↦
          let (j, u, e) = o.onto i t n in
          let h = c.covered j u in
          subst (λ k. In k (chains' (home keys m' k))) (sym e)
            (subst (λ p. In (f j) (chains' p)) (sym (home_copy j u))
              (subst (In (f j))
                (sym (
                  place-ne (λ p. map f (chains p)) s (s ∷ []) (home keys m j)
                    (not_new j (home keys m j) h)))
                (In-map f j (chains (home keys m j)) h)))
    ];
    short =
        each (λ p is. length is ≤ hmap_count m') (omega (arith, o.counted))
          (λ p n. omega (arith, o.counted, length-map f (chains p), c.short p));
    hashed = Stored-hashed keys laws m m' c f s key v ok Opens-IsStored;
    usable = Stored-usable keys laws m m' c f s key v ok Opens-IsStored;
    unique = Stored-unique keys laws m m' c f s key v ok Opens-IsStored;
    below = λ i t. rw o.same_shift (elim (ℕ_discrete i s) [
      | yes e ↦ rw (e, ← o.at_home) (position_lt m.shift (keys.hash key))
      | no n ↦ let (j, u, e) = o.onto i t n in rw e (o.inside j u)
    ]);
    clear = o.clear;
  }
