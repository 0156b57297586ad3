-- ===== src/HashMap/Put.antt =====
-- hindex and hmap_put on a table with room: which of the ways of storing the code takes.
use ymd.Common.{
  ℕ, ◌+◌, ◌-◌, ◌^◌, ◌≤◌, ◌<◌, ◌≡◌, ◌≢◌, ◌⊎◌, inl, inr, refl, sym, ap, ◌∙◌, arith, ==_iff, true,
  false, Option, none, some, List, In, Option-cases,
}
use ymd.Chunk.{Variable}
use ymd.HashMap.{
  Flag, free, slot, node, taken, Item, Hmap, Keys, modify, written, position, hmap_count,
  alloc_free, hindex_with, matches, index_if_head,
}
use ymd.HashMap.Count.{alloc_from-some}
use ymd.HashMap.Valid.{
  IsLawful, IsChained, Holds, Holds-In, Holds-matches, matches-Holds, search_slot, pow_pos,
}
use ymd.HashMap.Stored.{IsStored}
use ymd.HashMap.Head.{Opens, Opens-IsStored, Opens-IsChained}
use ymd.HashMap.Append.{Appends, Appends-IsStored, Appends-IsChained, Appends-count}
use ymd.HashMap.Replace.{Replaces, Replaces-IsStored, Replaces-IsChained, Replaces-count}
use ymd.HashMap.Displace.{Opens-free}

-- What a store of `v` under the key made of the map.
pub record Puts (keys : Keys) (m : Hmap) (key v : Variable) (m' : Hmap) : Type 0 where
  pub chains : ℕ → List ℕ
  pub chained : IsChained keys m' chains
  pub moves : ℕ → ℕ
  pub at : ℕ
  pub stored : IsStored keys m m' moves at key v
  pub counted : hmap_count m' ≤ hmap_count m + 1
  pub same_shift : m'.shift ≡ m.shift
  pub same_free : m'.free ≡ m.free

module _ (item : ℕ → Item) (i : ℕ) (write : Item → Item) where
  pub modify_self : modify item i write i ≡ write (item i)
  unfolding modify
  modify_self = rw ((==_iff i i).1 refl)

  pub modify-ne : (j : ℕ) → j ≢ i → modify item i write j ≡ item j
  unfolding modify
  modify-ne j n = ground arith

pub three : (f : Flag) → (f ≡ free) ⊎ ((f ≡ slot) ⊎ (f ≡ node))
three free = inl refl
three slot = inr (inl refl)
three node = inr (inr refl)

module _ (keys : Keys) (laws : IsLawful keys) (m : Hmap) {chains : ℕ → List ℕ}
    (c : IsChained keys m chains) (last : m.free ≡ 2 ^ m.shift - 1) (key : Variable)
    (ok : keys.usable key ≡ true) where
  pub Puts-Opens :
      (m' : Hmap) (f : ℕ → ℕ) (s : ℕ) (v : Variable)
      → m'.free ≡ m.free
      → Opens keys m m' f s key v
      → Puts keys m key v m'
  Puts-Opens m' f s v e o = record {
    chains = _;
    chained = Opens-IsChained keys laws m m' c f s key v ok o;
    moves = f;
    at = s;
    stored = Opens-IsStored keys laws m m' c f s key v ok o;
    counted = omega (arith, o.counted);
    same_shift = o.same_shift;
    same_free = e;
  }

  -- An item of the key that points to `next`.
  abbrev pub with_next : ℕ → Variable → Flag → Option ℕ → Item
  with_next h v flag next = record { next = next; hash = h; k = key; v = v; flag = flag }

  -- What hindex_with returns is a place to store, or the table is full.
  abbrev pub Indexes : (Hmap → Option (Hmap × ℕ)) → Option (Hmap × ℕ) → Type 0
  Indexes grow r =
      ((m' : Hmap) × (i : ℕ) × (r ≡ some (m', i))
        × ((v : Variable) → Puts keys m key v (written m' i key v)))
      ⊎ ((r ≡ grow m) × (alloc_free m ≡ none))

  module _ (grow : Hmap → Option (Hmap × ℕ)) where
    abbrev pub s : ℕ
    s = position m.shift (keys.hash key)

    pub Indexes-free : (m.item s).flag ≡ free → Indexes grow (hindex_with keys grow m key)
    unfolding hindex_with
    Indexes-free e =
        let opened = λ (x : Item). record x { flag = slot; hash = keys.hash key } in
        let m' : Hmap = record m { item = modify m.item s opened } in
        inl (
          m',
          s,
          rw (e, hindex_with),
          λ v.
              let stored = λ (x : Item). record x { k = key; v = v } in
              Puts-Opens (written m' s key v) (λ i. i) s v refl
                (Opens-free keys m (written m' s key v) c s key v refl refl
                  (modify_self m'.item s stored
                    ∙ ap stored (modify_self m.item s opened)
                    ∙ ap (with_next (keys.hash key) v slot) (c.clear s (rw e)))
                  e (λ i n. modify-ne m'.item s stored i n ∙ modify-ne m.item s opened i n)),
        )

    -- The writes of index_if_head to the free item `fnd`, and to the last one of the chain.
    abbrev fresh : ℕ → Item → Item
    fresh pos x = record x { hash = keys.hash key; flag = node; next = (m.item pos).next }

    abbrev link_to : ℕ → Item → Item
    link_to fnd x = record x { next = some fnd }

    abbrev appended : ℕ → ℕ → Hmap
    appended pos fnd = record m { item = modify (modify m.item fnd (fresh pos)) pos (link_to fnd) }

    no_hit :
        (m.item s).flag ≡ slot
        → ((j : ℕ) → In j (chains s) → matches keys (m.item j) (keys.hash key) key ≡ false)
        → (i : ℕ) → Holds keys m key i
        → ⊥
    no_hit e out i held =
        cc (out i (Holds-In keys laws m c key ok i held), Holds-matches keys laws m c key ok i held)

    pub alloc_lem :
        (fnd : ℕ)
        → alloc_free m ≡ some fnd
        → (fnd < 2 ^ m.shift) × (taken (m.item fnd).flag ≡ false)
    unfolding alloc_free
    alloc_lem fnd a =
        let r = alloc_from-some m.item m.free fnd a in let p = pow_pos m.shift in (omega arith, r.1)

    Puts-append :
        (m.item s).flag ≡ slot
        → (pos fnd : ℕ) (v : Variable) → In pos (chains s)
        → (m.item pos).next ≡ none
        → ((j : ℕ) → In j (chains s) → (m.item j).next ≡ none → j ≡ pos)
        → ((i : ℕ) → Holds keys m key i → ⊥)
        → alloc_free m ≡ some fnd
        → Puts keys m key v (written (appended pos fnd) fnd key v)
    Puts-append e pos fnd v inside end last_one new a =
        let m' = written (appended pos fnd) fnd key v in
        let (below, unused) = alloc_lem fnd a in
        let t = (c.belongs s pos inside).0 in
        let stored = λ (x : Item). record x { k = key; v = v } in
        let item = modify m.item fnd (fresh pos) in
        let item' = modify item pos (link_to fnd) in
        let ne : pos ≢ fnd = λ same. cc (t, unused, ap (λ (j : ℕ). taken (m.item j).flag) same) in
        let p : Appends keys m m' (chains s) s pos fnd key v = record {
          head = e;
          at_home = refl;
          new = new;
          end = end;
          inside = inside;
          last = last_one;
          unused = unused;
          below = below;
          same_shift = refl;
          new_item =
              modify_self item' fnd stored
              ∙ ap stored (
                  modify-ne item pos (link_to fnd) fnd (λ e. ne (sym e))
                  ∙ modify_self m.item fnd (fresh pos))
              ∙ ap (with_next (keys.hash key) v node) end;
          link =
              modify-ne item' fnd stored pos ne
              ∙ modify_self item pos (link_to fnd)
              ∙ ap (link_to fnd) (modify-ne m.item fnd (fresh pos) pos ne);
          others = λ i n n'.
              modify-ne item' fnd stored i n
              ∙ modify-ne item pos (link_to fnd) i n'
              ∙ modify-ne m.item fnd (fresh pos) i n;
        } in
        record {
          chains = _;
          chained = Appends-IsChained keys laws m m' c s pos fnd key v ok p;
          moves = _;
          at = fnd;
          stored = Appends-IsStored keys laws m m' c s pos fnd key v ok p;
          counted = omega (arith, Appends-count keys laws m m' c s pos fnd key v ok p);
          same_shift = refl;
          same_free = refl;
        }

    pub Indexes-slot : (m.item s).flag ≡ slot → Indexes grow (hindex_with keys grow m key)
    unfolding hindex_with index_if_head
    Indexes-slot e = elim (search_slot keys laws m c key ok s (keys.hash key) e) [
      | inl r ↦
          let held = matches-Holds keys laws m c key ok s r.at (keys.hash key) r.inside r.hit in
          inl (
            m,
            r.at,
            rw (e, hindex_with) (rw (r.ends, index_if_head)),
            λ v.
                let p : Replaces keys m (written m r.at key v) r.at key v = record {
                  held = held;
                  same_shift = refl;
                  new_item = modify_self m.item r.at (λ (x : Item). record x { k = key; v = v });
                  others =
                      λ i n. modify-ne m.item r.at (λ (x : Item). record x { k = key; v = v }) i n;
                } in
                record {
                  chains = _;
                  chained = Replaces-IsChained keys laws m (written m r.at key v) c r.at key v ok p;
                  moves = _;
                  at = r.at;
                  stored = Replaces-IsStored keys laws m (written m r.at key v) c r.at key v ok p;
                  counted =
                      omega (
                        arith,
                        Replaces-count keys laws m (written m r.at key v) c r.at key v ok p,
                      );
                  same_shift = refl;
                  same_free = refl;
                },
          )
      | inr r ↦ elim (Option-cases (alloc_free m)) [
        | inl full ↦ inr (rw (e, hindex_with) (rw (r.ends, index_if_head) (rw full)), full)
        | inr (fnd, a) ↦ inl (
          appended r.at fnd,
          fnd,
          rw (e, hindex_with) (rw (r.ends, index_if_head) (rw a)),
          λ v. Puts-append e r.at fnd v r.inside r.end r.last (no_hit e r.none_hit) a,
        )
      ]
    ]
