-- ===== src/HashMap/Move.antt =====
-- hindex on a table with room: the item that stands at the key's position moves away.
use ymd.Common.{
  ℕ, ◌-◌, ◌^◌, ◌≡◌, ◌≢◌, inl, inr, refl, sym, ap, subst, ◌∙◌, arith, true, Option, none, some, List,
  In, Option-cases, length,
}
use ymd.Chunk.{Variable}
use ymd.HashMap.{
  slot, node, taken, Item, Hmap, Keys, modify, written, position, hmap_count, alloc_free, find_prev,
  hindex_with, index_if_node,
}
use ymd.HashMap.Chains.{Linked, moved}
use ymd.HashMap.Walk.{next-ne_self, find_prev_lem}
use ymd.HashMap.Valid.{IsLawful, IsChained, Flag-cases, home, count_below_le}
use ymd.HashMap.Displace.{Opens-node}
use ymd.HashMap.Put.{
  Puts, Indexes, modify_self, modify-ne, three, Puts-Opens, alloc_lem, Indexes-free, Indexes-slot,
}

module _ (keys : Keys) (laws : IsLawful keys) (m : Hmap) {chains : ℕ → List ℕ}
    (c : IsChained keys m chains) (last : m.free ≡ 2 ^ m.shift - 1) (key : Variable)
    (ok : keys.usable key ≡ true) where
  abbrev s : ℕ
  s = position m.shift (keys.hash key)

  is_head : (q i : ℕ) → In i (chains q) → (m.item q).flag ≡ slot
  is_head q i h = elim (Flag-cases (m.item q).flag) [
    | inl f ↦ f
    | inr n ↦ elim (subst (In i) (c.headless q n) h) [ ]
  ]

  -- The item before the one at the slot, as the loop of index_if_node finds it.
  prev_lem :
      (m.item s).flag ≡ node
      → (prev : ℕ) × (find_prev (2 ^ m.shift) m.item s (home keys m s) ≡ some prev)
        × In prev (chains (home keys m s))
        × ((m.item prev).next ≡ some s)
  unfolding hmap_count
  prev_lem e =
      let q = home keys m s in
      let h = c.covered s (rw e) in
      let (is, e') = c.headed q (is_head q s h) in
      let later : In s is = elim (subst (In s) e' h) [
        | inl same ↦ cc (ap (λ (j : ℕ). (m.item j).flag) same, e, is_head q s h)
        | inr h' ↦ h'
      ] in
      let (j, f, inside, link) =
        find_prev_lem m.item (2 ^ m.shift) s q is
          (omega (arith, c.short q, count_below_le m.item (2 ^ m.shift), ap (length {A = ℕ}) e'))
          (subst (Linked m.item) e' (c.linked q)) later in
      (j, f, subst (In j) (sym e') inside, link)

  taken-s : (m.item s).flag ≡ node → (fnd : ℕ) → s ≡ fnd → taken (m.item fnd).flag ≡ true
  taken-s e fnd same = subst (λ j. taken (m.item j).flag ≡ true) same (rw e)

  module _ (fnd prev : ℕ) where
    abbrev goes : Item → Item
    goes _ = record (m.item s) { hash = keys.hash (m.item s).k; flag = node }

    abbrev link_to : Item → Item
    link_to x = record x { next = some fnd }

    abbrev opened : Item → Item
    opened x = record x { hash = keys.hash key; flag = slot; next = none }

    abbrev displaced : Hmap
    displaced = record m { item = modify (modify (modify m.item fnd goes) prev link_to) s opened }

    Puts-node :
        (m.item s).flag ≡ node
        → alloc_free m ≡ some fnd
        → In prev (chains (home keys m s))
        → (m.item prev).next ≡ some s
        → (v : Variable) → Puts keys m key v (written displaced s key v)
    Puts-node e a inside link v =
        let m' = written displaced s key v in
        let stored = λ (x : Item). record x { k = key; v = v } in
        let (below, unused) = alloc_lem keys laws m c last key ok (λ _. none) fnd a in
        let item = modify m.item fnd goes in
        let item' = modify item prev link_to in
        let item'' = modify item' s opened in
        let t = (c.belongs (home keys m s) prev inside).0 in
        let prev_fnd : prev ≢ fnd =
          λ same. cc (t, unused, ap (λ (j : ℕ). taken (m.item j).flag) same) in
        let s_fnd : s ≢ fnd = λ same. cc (unused, taken-s e fnd same) in
        let prev_s : prev ≢ s = λ same.
          next-ne_self m.item s (chains (home keys m s)) (c.linked (home keys m s))
            (c.distinct (home keys m s)) (subst (λ j. In j (chains (home keys m s))) same inside)
            (subst (λ j. (m.item j).next ≡ some s) same link) in
        Puts-Opens keys laws m c last key ok m' (moved s fnd) s v refl (
          Opens-node keys m m' c s key v refl refl
            (modify_self item'' s stored ∙ ap stored (modify_self item' s opened)) fnd prev e unused
            below inside link
            (modify-ne item'' s stored fnd (λ r. s_fnd (sym r))
              ∙ modify-ne item' s opened fnd (λ r. s_fnd (sym r))
              ∙ modify-ne item prev link_to fnd (λ r. prev_fnd (sym r))
              ∙ modify_self m.item fnd goes)
            (modify-ne item'' s stored prev prev_s
              ∙ modify-ne item' s opened prev prev_s
              ∙ modify_self item prev link_to
              ∙ ap link_to (modify-ne m.item fnd goes prev prev_fnd))
            (λ i n n' n''.
              modify-ne item'' s stored i n
              ∙ modify-ne item' s opened i n
              ∙ modify-ne item prev link_to i n''
              ∙ modify-ne m.item fnd goes i n'))

  module _ (grow : Hmap → Option (Hmap × ℕ)) where
    Indexes-node :
        (m.item s).flag ≡ node
        → Indexes keys laws m c last key ok grow (hindex_with keys grow m key)
    unfolding hindex_with index_if_node
    Indexes-node e = elim (Option-cases (alloc_free m)) [
      | inl full ↦ inr (rw (e, hindex_with) (rw (full, index_if_node)), full)
      | inr (fnd, a) ↦
          let (prev, f, inside, link) = prev_lem e in
          inl (
            displaced fnd prev,
            s,
            rw (e, hindex_with) (rw (a, index_if_node) (rw f)),
            Puts-node fnd prev e a inside link,
          )
    ]

    pub Indexes-hindex_with : Indexes keys laws m c last key ok grow (hindex_with keys grow m key)
    Indexes-hindex_with = elim (three (m.item s).flag) [
      | inl e ↦ Indexes-free keys laws m c last key ok grow e
      | inr (inl e) ↦ Indexes-slot keys laws m c last key ok grow e
      | inr (inr e) ↦ Indexes-node e
    ]
