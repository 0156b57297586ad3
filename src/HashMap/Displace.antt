-- ===== src/HashMap/Displace.antt =====
-- How a slot is cleared for the head of a new chain: it is free, or the item in it, of another
-- chain, moves to a free one.
use ymd.Common.{
  ℕ, ◌^◌, ◌<◌, ◌≡◌, ◌≢◌, refl, sym, ap, subst, ◌∙◌, arith, ==_iff, true, false, Option, none, some,
  List, In,
}
use mathlib.Core.Option as O
use native.Mathlib.Decide.{ℕ_discrete}
use ymd.Chunk.{Variable}
use ymd.HashMap.{free, slot, node, taken, Item, Hmap, Keys, position, hmap_count}
use ymd.HashMap.Chains.{moved}
use ymd.HashMap.Walk.{In-linked, next_unique, next-ne_self}
use ymd.HashMap.Count.{count_below_more}
use ymd.HashMap.Valid.{IsChained, home, position_lt}
use ymd.HashMap.Stored.{IsCopy}
use ymd.HashMap.Head.{Opens}

moved_self : (s fnd : ℕ) → moved s fnd s ≡ fnd
moved_self s fnd = rw ((==_iff s s).1 refl)

moved-ne : (s fnd i : ℕ) → i ≢ s → moved s fnd i ≡ i
moved-ne s fnd i n = ground arith

map_moved : (s fnd : ℕ) (o : Option ℕ) → o ≢ some s → O.map (moved s fnd) o ≡ o
map_moved s fnd none n = refl
map_moved s fnd (some i) n = ap some (moved-ne s fnd i (λ e. n (ap some e)))

map_same : (o : Option ℕ) → o ≡ O.map (λ (i : ℕ). i) o
map_same none = refl
map_same (some i) = refl

module _ (keys : Keys) (m m' : Hmap) {chains : ℕ → List ℕ} (c : IsChained keys m chains) (s : ℕ)
    (key v : Variable) (at_home : position m.shift (keys.hash key) ≡ s)
    (same_shift : m'.shift ≡ m.shift)
    (new_item : m'.item s
      ≡ record { next = none; hash = keys.hash key; k = key; v = v; flag = slot }) where
  below_s : s < 2 ^ m.shift
  below_s = rw (← at_home) (position_lt m.shift (keys.hash key))

  -- The slot is free.
  module _ (is_free : (m.item s).flag ≡ free)
      (others : (i : ℕ) → i ≢ s → m'.item i ≡ m.item i) where
    ne_s : (i : ℕ) → taken (m.item i).flag ≡ true → i ≢ s
    ne_s i t e = cc (t, is_free, ap (λ (j : ℕ). taken (m.item j).flag) e)

    new_taken : taken (m'.item s).flag ≡ true
    new_taken = rw new_item

    pub Opens-free : Opens keys m m' (λ i. i) s key v
    unfolding hmap_count
    Opens-free = record {
      no_head = λ e. cc (e, is_free);
      at_home = at_home;
      same_shift = same_shift;
      new_item = new_item;
      copies = λ j t.
          rw (others j (ne_s j t))
            (record { used = t; same_k = refl; same_v = refl; same_hash = refl });
      next_copies = λ j t. rw (others j (ne_s j t)) (map_same (m.item j).next);
      elsewhere = ne_s;
      injective = λ i j t u e. e;
      heads = λ p n e. sym (ap (λ (y : Item). y.flag) (others p n)) ∙ e;
      kept_heads = λ p e. (ap (λ (y : Item). y.flag) (others p (ne_s p (rw e))) ∙ e, refl);
      onto = λ i t n. (i, rw (← others i n) t, refl);
      inside = c.below;
      clear = λ i t. elim (ℕ_discrete i s) [
        | yes e ↦ let t' : taken (m'.item i).flag ≡ true = rw e new_taken in cc (t, t')
        | no n ↦ rw (others i n) (c.clear i (rw (← others i n) t))
      ];
      counted = rw same_shift (
          count_below_more m.item m'.item (2 ^ m.shift) s below_s (rw is_free) (rw new_item)
            (λ j n. rw (others j n)));
    }

  -- The item in the slot is of another chain, where it follows `prev`.
  module _ (fnd prev : ℕ) (is_node : (m.item s).flag ≡ node)
      (unused : taken (m.item fnd).flag ≡ false) (below : fnd < 2 ^ m.shift)
      (inside : In prev (chains (home keys m s))) (link : (m.item prev).next ≡ some s)
      (moved_item : m'.item fnd ≡ record (m.item s) { hash = keys.hash (m.item s).k; flag = node })
      (relinked : m'.item prev ≡ record (m.item prev) { next = some fnd })
      (others : (i : ℕ) → i ≢ s → i ≢ fnd → i ≢ prev → m'.item i ≡ m.item i) where
    -- A statement about each item.
    at :
        (P : ℕ → Item → Type 0)
        → P s (record { next = none; hash = keys.hash key; k = key; v = v; flag = slot })
        → P fnd (record (m.item s) { hash = keys.hash (m.item s).k; flag = node })
        → P prev (record (m.item prev) { next = some fnd })
        → ((i : ℕ) → i ≢ s → i ≢ fnd → i ≢ prev → P i (m.item i))
        → (i : ℕ) → P i (m'.item i)
    at P new mv link' old i = elim (ℕ_discrete i s) [
      | yes e ↦ subst (λ j. P j (m'.item j)) (sym e) (subst (P s) (sym new_item) new)
      | no n ↦ elim (ℕ_discrete i fnd) [
        | yes e ↦ subst (λ j. P j (m'.item j)) (sym e) (subst (P fnd) (sym moved_item) mv)
        | no n' ↦ elim (ℕ_discrete i prev) [
          | yes e ↦ subst (λ j. P j (m'.item j)) (sym e) (subst (P prev) (sym relinked) link')
          | no n'' ↦ subst (P i) (sym (others i n n' n'')) (old i n n' n'')
        ]
      ]
    ]

    taken-s : taken (m.item s).flag ≡ true
    taken-s = rw is_node

    prev_taken : taken (m.item prev).flag ≡ true
    prev_taken = (c.belongs (home keys m s) prev inside).0

    ne_fnd : (i : ℕ) → taken (m.item i).flag ≡ true → i ≢ fnd
    ne_fnd i t e = cc (t, unused, ap (λ (j : ℕ). taken (m.item j).flag) e)

    -- Only `prev` points to the slot.
    only_prev : (j : ℕ) → taken (m.item j).flag ≡ true → (m.item j).next ≡ some s → j ≡ prev
    only_prev j t e =
        let h = c.covered j t in
        let a =
          (c.belongs (home keys m j) s
            (In-linked m.item j s (chains (home keys m j)) (c.linked (home keys m j)) h e)).1 in
        next_unique m.item j prev s (chains (home keys m j)) (c.linked (home keys m j))
          (c.distinct (home keys m j)) h (subst (λ q. In prev (chains q)) a inside) e link

    same_flag : (i : ℕ) → i ≢ s → i ≢ fnd → (m'.item i).flag ≡ (m.item i).flag
    same_flag =
        at (λ i y. i ≢ s → i ≢ fnd → y.flag ≡ (m.item i).flag) (λ n. absurd (n refl))
          (λ n n'. absurd (n' refl)) (λ n n'. refl) (λ i n n' n'' _ _. refl)

    -- The item at `j` is the copy of the one at `i`, and points to the copy of what that points to.
    abbrev Copied : ℕ → ℕ → Type 0
    Copied i j =
        IsCopy (m.item i) (m'.item j) × ((m'.item j).next ≡ O.map (moved s fnd) (m.item i).next)

    Copied-s : Copied s fnd
    Copied-s = (
      rw moved_item (record {
        used = refl;
        same_k = refl;
        same_v = refl;
        same_hash = sym (c.hashed s taken-s);
      }),
      ap (λ (y : Item). y.next) moved_item
          ∙ sym (
              map_moved s fnd (m.item s).next (
                next-ne_self m.item s (chains (home keys m s)) (c.linked (home keys m s))
                  (c.distinct (home keys m s)) (c.covered s taken-s))),
    )

    Copied-other : (i : ℕ) → i ≢ s → taken (m.item i).flag ≡ true → Copied i i
    Copied-other =
        at
          (λ i y.
            i ≢ s
            → taken (m.item i).flag ≡ true
            → IsCopy (m.item i) y × (y.next ≡ O.map (moved s fnd) (m.item i).next))
          (λ n t. absurd (n refl)) (λ n t. absurd (ne_fnd fnd t refl))
          (λ n t. (
            record { used = t; same_k = refl; same_v = refl; same_hash = refl },
            sym (ap (O.map (moved s fnd)) link ∙ ap some (moved_self s fnd)),
          ))
          (λ i n n' n'' _ t. (
            record { used = t; same_k = refl; same_v = refl; same_hash = refl },
            sym (map_moved s fnd (m.item i).next (λ e. n'' (only_prev i t e))),
          ))

    copies : (i : ℕ) → taken (m.item i).flag ≡ true → Copied i (moved s fnd i)
    copies i t = elim (ℕ_discrete i s) [
      | yes e ↦
          subst (λ j. Copied j (moved s fnd j)) (sym e)
            (subst (Copied s) (sym (moved_self s fnd)) Copied-s)
      | no n ↦ subst (Copied i) (sym (moved-ne s fnd i n)) (Copied-other i n t)
    ]

    moved_elsewhere : (j : ℕ) → taken (m.item j).flag ≡ true → moved s fnd j ≢ s
    moved_elsewhere j t e = elim (ℕ_discrete j s) [
      | yes same ↦ ne_fnd s taken-s (sym e ∙ ap (moved s fnd) same ∙ moved_self s fnd)
      | no n ↦ n (sym (moved-ne s fnd j n) ∙ e)
    ]

    moved_inj :
        (i j : ℕ)
        → taken (m.item i).flag ≡ true
        → taken (m.item j).flag ≡ true
        → moved s fnd i ≡ moved s fnd j
        → i ≡ j
    moved_inj i j t u e = let n = ne_fnd i t in let n' = ne_fnd j u in ground arith

    head_ne : (p : ℕ) → (m.item p).flag ≡ slot → p ≢ s
    head_ne p e same = cc (e, is_node, ap (λ (j : ℕ). (m.item j).flag) same)

    pub Opens-node : Opens keys m m' (moved s fnd) s key v
    unfolding hmap_count
    Opens-node = record {
      no_head = λ e. cc (e, is_node);
      at_home = at_home;
      same_shift = same_shift;
      new_item = new_item;
      copies = λ j t. (copies j t).0;
      next_copies = λ j t. (copies j t).1;
      elsewhere = moved_elsewhere;
      injective = moved_inj;
      heads =
          at (λ p y. p ≢ s → y.flag ≡ slot → (m.item p).flag ≡ slot) (λ n. absurd (n refl))
            (λ n e. cc e) (λ n e. e) (λ p n n' n'' _ e. e);
      kept_heads = λ p e.
          let n : p ≢ s = head_ne p e in (same_flag p n (ne_fnd p (rw e)) ∙ e, moved-ne s fnd p n);
      onto = λ i t n. elim (ℕ_discrete i fnd) [
        | yes e ↦ (s, taken-s, e ∙ sym (moved_self s fnd))
        | no n' ↦ (i, rw (← same_flag i n n') t, sym (moved-ne s fnd i n))
      ];
      inside = λ j t. elim (ℕ_discrete j s) [
        | yes e ↦ rw (ap (moved s fnd) e ∙ moved_self s fnd) below
        | no n ↦ rw (moved-ne s fnd j n) (c.below j t)
      ];
      clear =
          at (λ i y. taken y.flag ≡ false → y.next ≡ none) (λ t. cc) (λ t. cc)
            (λ t. cc (t, prev_taken)) (λ i n n' n'' t. c.clear i t);
      counted = rw same_shift (
          count_below_more m.item m'.item (2 ^ m.shift) fnd below unused (rw moved_item) (
            at (λ j y. j ≢ fnd → taken y.flag ≡ taken (m.item j).flag) (λ n. sym taken-s)
              (λ n. absurd (n refl)) (λ n. refl) (λ i n n' n'' _. refl)));
    }
