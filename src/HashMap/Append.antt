-- ===== src/HashMap/Append.antt =====
-- A store that appends an item to the chain at the key's position.
use ymd.Common.{
  ℕ, ◌+◌, ◌^◌, ◌≤◌, ◌<◌, ◌≡◌, ◌≢◌, inl, inr, refl, sym, ap, subst, ◌∙◌, arith, Bool-cases, true,
  false, none, some, List, [], ◌∷◌, ◌++◌, length, length-append, In, IsDistinct,
}
use native.Mathlib.Decide.{ℕ_discrete}
use ymd.Chunk.{Variable}
use ymd.HashMap.{slot, node, taken, Item, Hmap, Keys, position, hmap_count}
use ymd.HashMap.Chains.{
  Linked, In-append_left, In-append_last, In-last, IsDistinct-append_last, place, place_self,
  place-each,
}
use ymd.HashMap.Walk.{Linked-same, Linked-append_last}
use ymd.HashMap.Count.{count_below_more}
use ymd.HashMap.Valid.{IsLawful, IsChained, Holds, home}
use ymd.HashMap.Stored.{IsCopy, IsStored, Stored-hashed, Stored-usable, Stored-unique}

-- The free item `fnd` follows `pos`, the last item of the chain at the slot `p`.
pub record Appends (keys : Keys) (map map' : Hmap) (chain : List ℕ) (p pos fnd : ℕ)
    (key v : Variable) : Type 0 where
  pub head : (map.item p).flag ≡ slot
  pub at_home : position map.shift (keys.hash key) ≡ p
  pub new : (i : ℕ) → Holds keys map key i → ⊥
  pub end : (map.item pos).next ≡ none
  pub inside : In pos chain
  pub last : (j : ℕ) → In j chain → (map.item j).next ≡ none → j ≡ pos
  pub unused : taken (map.item fnd).flag ≡ false
  pub below : fnd < 2 ^ map.shift
  pub same_shift : map'.shift ≡ map.shift
  pub new_item :
      map'.item fnd ≡ record { next = none; hash = keys.hash key; k = key; v = v; flag = node }
  pub link : map'.item pos ≡ record (map.item pos) { next = some fnd }
  pub others : (i : ℕ) → i ≢ fnd → i ≢ pos → map'.item i ≡ map.item i

module _ (keys : Keys) (laws : IsLawful keys) (m m' : Hmap) {chains : ℕ → List ℕ}
    (c : IsChained keys m chains) (p pos fnd : ℕ) (key v : Variable) (ok : keys.usable key ≡ true)
    (r : Appends keys m m' (chains p) p pos fnd key v) where
  -- A statement about each item.
  at :
      (P : ℕ → Item → Type 0)
      → P fnd (record { next = none; hash = keys.hash key; k = key; v = v; flag = node })
      → P pos (record (m.item pos) { next = some fnd })
      → ((i : ℕ) → i ≢ fnd → i ≢ pos → P i (m.item i))
      → (i : ℕ) → P i (m'.item i)
  at P new link old i = elim (ℕ_discrete i fnd) [
    | yes e ↦ subst (λ j. P j (m'.item j)) (sym e) (subst (P fnd) (sym r.new_item) new)
    | no n ↦ elim (ℕ_discrete i pos) [
      | yes e ↦ subst (λ j. P j (m'.item j)) (sym e) (subst (P pos) (sym r.link) link)
      | no n' ↦ subst (P i) (sym (r.others i n n')) (old i n n')
    ]
  ]

  pos_taken : taken (m.item pos).flag ≡ true
  pos_taken = (c.belongs p pos r.inside).0

  ne_fnd : (i : ℕ) → taken (m.item i).flag ≡ true → i ≢ fnd
  ne_fnd i t e = cc (t, r.unused, ap (λ (j : ℕ). taken (m.item j).flag) e)

  absent : (i : ℕ) → taken (m.item i).flag ≡ true → keys.equals (m.item i).k key ≡ false
  absent i t = elim (Bool-cases (keys.equals (m.item i).k key)) [
    | inl e ↦ absurd (r.new i (t, e))
    | inr e ↦ e
  ]

  same_flag : (i : ℕ) → i ≢ fnd → (m'.item i).flag ≡ (m.item i).flag
  same_flag =
      at (λ i y. i ≢ fnd → y.flag ≡ (m.item i).flag) (λ n. absurd (n refl)) (λ n. refl)
        (λ i n n' _. refl)

  same_k : (i : ℕ) → i ≢ fnd → (m'.item i).k ≡ (m.item i).k
  same_k =
      at (λ i y. i ≢ fnd → y.k ≡ (m.item i).k) (λ n. absurd (n refl)) (λ n. refl) (λ i n n' _. refl)

  was_taken : (i : ℕ) → i ≢ fnd → taken (m'.item i).flag ≡ true → taken (m.item i).flag ≡ true
  was_taken i n t = rw (← same_flag i n) t

  pub Appends-count : hmap_count m' ≡ hmap_count m + 1
  unfolding hmap_count
  Appends-count = rw r.same_shift (
      count_below_more m.item m'.item (2 ^ m.shift) fnd r.below r.unused (rw r.new_item)
        (λ j n. ap taken (same_flag j n)))

  pub Appends-IsStored : IsStored keys m m' (λ i. i) fnd key v
  Appends-IsStored = record {
    used = rw r.new_item;
    has_k = rw r.new_item;
    has_v = rw r.new_item;
    has_hash = rw r.new_item;
    kept = λ i t d.
        at (λ j y. j ≢ fnd → taken (m.item j).flag ≡ true → IsCopy (m.item j) y)
          (λ n. absurd (n refl))
          (λ n u. record { used = u; same_k = refl; same_v = refl; same_hash = refl })
          (λ j n n' _ u. record { used = u; same_k = refl; same_v = refl; same_hash = refl }) i
          (ne_fnd i t) t;
    onto = λ i t n. (i, was_taken i n t, absent i (was_taken i n t), refl);
  }

  home_same : (i : ℕ) → i ≢ fnd → home keys m' i ≡ home keys m i
  home_same i n = rw (r.same_shift, same_k i n)

  home_new : home keys m' fnd ≡ p
  home_new = rw (r.same_shift, r.new_item) r.at_home

  out : (q : ℕ) → In fnd (chains q) → ⊥
  out q h = ne_fnd fnd (c.belongs q fnd h).0 refl

  -- What is linked to an item stays so.
  keep : (j t : ℕ) → (m.item j).next ≡ some t → (m'.item j).next ≡ some t
  keep j t =
      at (λ i y. (m.item i).next ≡ some t → y.next ≡ some t) (λ e. cc (e, c.clear fnd r.unused))
        (λ e. cc (e, r.end)) (λ i n n' e. e) j

  Linked-new : Linked m'.item (chains p ++ fnd ∷ [])
  Linked-new =
      let (is, e) = c.headed p r.head in
      subst (λ (t : List ℕ). Linked m'.item (t ++ fnd ∷ [])) (sym e)
        (Linked-append_last m.item m'.item fnd p is keep
          (λ j h n.
            subst (λ k. (m'.item k).next ≡ some fnd) (sym (r.last j (subst (In j) (sym e) h) n))
              (rw r.link))
          (rw r.new_item) (subst (Linked m.item) e (c.linked p)))

  abbrev chains' : ℕ → List ℕ
  chains' = place chains p (chains p ++ fnd ∷ [])

  each :
      (P : ℕ → List ℕ → Type 0)
      → P p (chains p ++ fnd ∷ [])
      → ((q : ℕ) → q ≢ p → P q (chains q))
      → (q : ℕ) → P q (chains' q)
  each P = place-each chains p (chains p ++ fnd ∷ []) P

  next_old : (q j : ℕ) → q ≢ p → In j (chains q) → (m'.item j).next ≡ (m.item j).next
  next_old q j n h =
      let (t, a) = c.belongs q j h in
      ap (λ (y : Item). y.next)
        (r.others j (ne_fnd j t)
          (λ e. n (sym a ∙ ap (home keys m) e ∙ (c.belongs p pos r.inside).1)))

  head_ne : (q : ℕ) → (m'.item q).flag ≡ slot → q ≢ fnd
  head_ne q e same =
      cc (e, ap (λ (j : ℕ). (m'.item j).flag) same, ap (λ (y : Item). y.flag) r.new_item)

  belongs_old : (q i : ℕ) → In i (chains q) → (taken (m'.item i).flag ≡ true) × (home keys m' i ≡ q)
  belongs_old q i h =
      let (t, a) = c.belongs q i h in
      (rw (same_flag i (ne_fnd i t)) t, home_same i (ne_fnd i t) ∙ a)

  In-grown : (i q : ℕ) → In i (chains q) → In i (chains' q)
  In-grown i =
      each (λ q is. In i (chains q) → In i is) (λ h. In-append_left i (chains p) (fnd ∷ []) h)
        (λ q n h. h)

  pub Appends-IsChained : IsChained keys m' chains'
  Appends-IsChained = record {
    linked =
        each (λ q is. Linked m'.item is) Linked-new
          (λ q n. Linked-same m.item m'.item (chains q) (λ j h. next_old q j n h) (c.linked q));
    distinct =
        each (λ q is. IsDistinct is) (IsDistinct-append_last (chains p) fnd (c.distinct p) (out p))
          (λ q n. c.distinct q);
    headed =
        each (λ q is. (m'.item q).flag ≡ slot → (js : List ℕ) × (is ≡ q ∷ js))
          (λ e.
            let (is, e') = c.headed p r.head in
            (is ++ fnd ∷ [], ap (λ (t : List ℕ). t ++ fnd ∷ []) e'))
          (λ q n e. c.headed q (sym (same_flag q (head_ne q e)) ∙ e));
    headless =
        each (λ q is. (m'.item q).flag ≢ slot → is ≡ [])
          (λ n. absurd (n (same_flag p (ne_fnd p (rw r.head)) ∙ r.head)))
          (λ q n n'. c.headless q (λ e. n' (same_flag q (ne_fnd q (rw e)) ∙ e)));
    belongs =
        each (λ q is. (i : ℕ) → In i is → (taken (m'.item i).flag ≡ true) × (home keys m' i ≡ q))
          (λ i h. elim (In-append_last i fnd (chains p) h) [
            | inl h' ↦ belongs_old p i h'
            | inr e ↦
                subst (λ j. (taken (m'.item j).flag ≡ true) × (home keys m' j ≡ p)) (sym e)
                  (rw r.new_item, home_new)
          ])
          (λ q n i h. belongs_old q i h);
    covered = λ i t. elim (ℕ_discrete i fnd) [
      | yes e ↦
          subst (λ j. In j (chains' (home keys m' j))) (sym e)
            (rw (home_new, place_self chains p (chains p ++ fnd ∷ [])) (In-last fnd (chains p)))
      | no n ↦ rw (home_same i n) (In-grown i (home keys m i) (c.covered i (was_taken i n t)))
    ];
    short =
        each (λ q is. length is ≤ hmap_count m')
          (omega (arith, c.short p, Appends-count, length-append (chains p) (fnd ∷ [])))
          (λ q n. omega (arith, c.short q, Appends-count));
    hashed = Stored-hashed keys laws m m' c (λ i. i) fnd key v ok Appends-IsStored;
    usable = Stored-usable keys laws m m' c (λ i. i) fnd key v ok Appends-IsStored;
    unique = Stored-unique keys laws m m' c (λ i. i) fnd key v ok Appends-IsStored;
    below =
        at (λ i y. taken y.flag ≡ true → i < 2 ^ m'.shift) (λ _. rw r.same_shift r.below)
          (λ t. rw r.same_shift (c.below pos t)) (λ i n n' t. rw r.same_shift (c.below i t));
    clear =
        at (λ i y. taken y.flag ≡ false → y.next ≡ none) (λ t. cc) (λ t. cc (t, pos_taken))
          (λ i n n' t. c.clear i t);
  }
