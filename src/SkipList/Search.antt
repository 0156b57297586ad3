-- ===== src/SkipList/Search.antt =====
-- The search of a skip list ends, at the last node before the key on each level.
use ymd.Common.{
  ℕ, zero, suc, ◌+◌, ◌≤◌, ◌<◌, ◌≡◌, ◌⊎◌, inl, inr, refl, sym, ap, subst, ◌∙◌, arith, ◌==◌, ==_iff,
  if◌then◌else◌, Bool-cases, Option-cases, true, false, Option, some, List, [], ◌∷◌, length, In,
}
use native.Mathlib.Decide.{ℕ_discrete}
use ymd.Chunk.{Variable}
use ymd.SkipList.{Skls, Order, advance, descend}
use ymd.SkipList.Ordered.{
  Less, less, IsLawful, IsOrdered, Along, Ascending, above, above_lt, above_lt_length,
}

set_other : (update : ℕ → ℕ) (i y j : ℕ) → suc i ≤ j → (if j == i then y else update j) ≡ update j
set_other update i y j h = ground arith

module _ (order : Order) (laws : IsLawful order) (list : Skls) {nodes : List ℕ}
    (o : IsOrdered order list nodes) (key : Variable) (ok : order.usable key ≡ true) where
  -- The head, or a node before the key.
  pub record IsBefore (x : ℕ) : Type 0 where
    pub inside : In x (list.head ∷ nodes)
    pub lower : In x nodes → Less order (list.node x).k key

  -- The following node on the level, if there is one, is not before the key.
  abbrev pub Stops : ℕ → ℕ → Type 0
  Stops i x = (t : ℕ) → (list.node x).fwd i ≡ some t → less order (list.node t).k key ≡ false

  irreflexive : (y : ℕ) → In y nodes → less order (list.node y).k (list.node y).k ≡ false
  irreflexive y p = elim (Bool-cases (less order (list.node y).k (list.node y).k)) [
    | inl e ↦ absurd (laws.asym _ _ (o.usable y p) (o.usable y p) e e)
    | inr e ↦ e
  ]

  -- The number of rounds that are left falls with each step.
  abbrev Bound : ℕ → ℕ → ℕ → Type 0
  Bound i x b =
      (y : ℕ) → (list.node x).fwd i ≡ some y → above order list.node (list.node y).k nodes < b

  next_Bound : (i y : ℕ) → In y nodes → Bound i y (above order list.node (list.node y).k nodes)
  next_Bound i y p z e =
      let q = o.inside i y z (inr p) e in
      let l = o.forward i y z p e in
      above_lt order list.node (list.node y).k (list.node z).k z nodes
        (λ w r m. laws.trans _ _ _ (o.usable y p) (o.usable z q) (o.usable w r) l m) q l
        (irreflexive z q)

  first_Bound : (i x : ℕ) → In x (list.head ∷ nodes) → Bound i x (length nodes)
  first_Bound i x p y e =
      let q = o.inside i x y p e in
      above_lt_length order list.node (list.node y).k y nodes q (irreflexive y q)

  pub advance_lem :
      (fuel i x b : ℕ)
      → b < fuel
      → Bound i x b
      → IsBefore x
      → (y : ℕ) × (advance order fuel list.node i key x ≡ some y) × IsBefore y × Stops i y
  unfolding advance
  advance_lem zero i x b h bound p = absurd (omega arith)
  advance_lem (suc fuel) i x b h bound p = elim (Option-cases ((list.node x).fwd i)) [
    | inl e ↦ (x, rw (e, advance), p, λ t f. cc (e, f))
    | inr (t, e) ↦
        let q = o.inside i x t p.inside e in
        elim (Bool-cases (less order (list.node t).k key)) [
          | inl l ↦
              let here : IsBefore t = record { inside = inr q; lower = λ _. l } in
              let shorter = bound t e in
              let (y, f, p', s) =
                advance_lem fuel i t (above order list.node (list.node t).k nodes) (omega arith)
                  (next_Bound i t q) here in
              (y, rw (e, advance) (rw l f), p', s)
          | inr n ↦ (
            x,
            rw (e, advance) (rw n),
            p,
            λ t' f. subst (λ z. less order (list.node z).k key ≡ false) (cc (e, f)) n,
          )
        ]
  ]

  -- Where each of the `i` levels of the search stopped.
  pub record IsDescent (i x : ℕ) (update : ℕ → ℕ) (r : Option (ℕ × (ℕ → ℕ))) : Type 0 where
    pub at : ℕ
    pub last : ℕ → ℕ
    pub returns : r ≡ some (at, last)
    pub here : IsBefore at
    pub levels : (j : ℕ) → j < i → IsBefore (last j) × Stops j (last j)
    pub others : (j : ℕ) → i ≤ j → last j ≡ update j
    pub lowest : 0 < i → last 0 ≡ at
    pub start : i ≡ 0 → at ≡ x

  pub descend_lem :
      (i x : ℕ) (update : ℕ → ℕ)
      → IsBefore x
      → IsDescent i x update (descend order (list.count + 1) list.node key i x update)
  unfolding descend
  descend_lem zero x update p = record {
    at = x;
    last = update;
    returns = refl;
    here = p;
    levels = λ j h. absurd (omega arith);
    others = λ j h. refl;
    lowest = λ h. absurd (omega arith);
    start = λ h. refl;
  }
  descend_lem (suc i) x update p =
      let size = o.size in
      let (y, e, q, s) =
        advance_lem (list.count + 1) i x (length nodes) (omega arith) (first_Bound i x p.inside)
          p in
      let update' = λ (j : ℕ). if j == i then y else update j in
      let same : update' i ≡ y = rw ((==_iff i i).1 refl) in
      let r = descend_lem i y update' q in
      record {
        at = r.at;
        last = r.last;
        returns = rw e r.returns;
        here = r.here;
        levels = λ j h. elim (ℕ_discrete j i) [
          | no n ↦ r.levels j (omega arith)
          | yes n ↦
              subst (λ k. IsBefore (r.last k) × Stops k (r.last k)) (sym n)
                (subst (λ z. IsBefore z × Stops i z) (sym (r.others i (omega arith) ∙ same)) (q, s))
        ];
        others = λ j h. r.others j (omega arith) ∙ set_other update i y j h;
        lowest = λ h. elim (ℕ_discrete i 0) [
          | no n ↦ r.lowest (omega arith)
          | yes n ↦
              let e' : 0 ≡ i = sym n in
              ap r.last e' ∙ r.others i (omega arith) ∙ same ∙ sym (r.start n)
        ];
        start = λ h. absurd (omega arith);
      }

  -- The lowest level leads past a node before `z`, to `z` or to a node before it.
  pub next_lem :
      (x z : ℕ) (xs : List ℕ)
      → ((w : ℕ) → In w xs → In w nodes)
      → Along list.node x xs
      → Ascending order list.node xs
      → In z xs
      → (y : ℕ) → (y ≡ x) ⊎ (In y xs × Less order (list.node y).k (list.node z).k)
      → (t : ℕ) × ((list.node y).fwd 0 ≡ some t)
        × In t nodes
        × ((t ≡ z) ⊎ Less order (list.node t).k (list.node z).k)
  next_lem x z [] sub l a h y c = elim h [ ]
  next_lem x z (w ∷ ws) sub (e, l) (first, a) h y (inl c) = (
    w,
    ap (λ (t : ℕ). (list.node t).fwd 0) c ∙ e,
    sub w (inl refl),
    elim h [ inl same ↦ inl (sym same) | inr h' ↦ inr (first z h') ],
  )
  next_lem x z (w ∷ ws) sub (e, l) (first, a) h y (inr (inl c, m)) =
      next_lem w z ws (λ t q. sub t (inr q)) l a
        (elim h [
          | inr h' ↦ h'
          | inl same ↦ absurd (
              laws.asym _ _ (o.usable w (sub w (inl refl))) (o.usable w (sub w (inl refl)))
                (at_w m same) (at_w m same))
        ])
        y (inl c)
    where
      at_w :
          Less order (list.node y).k (list.node z).k
          → z ≡ w
          → Less order (list.node w).k (list.node w).k
      at_w m same =
          subst (λ t. Less order (list.node t).k (list.node w).k) c
            (subst (λ t. Less order (list.node y).k (list.node t).k) same m)
  next_lem x z (w ∷ ws) sub (e, l) (first, a) h y (inr (inr p, m)) =
      next_lem w z ws (λ t q. sub t (inr q)) l a
        (elim h [
          | inr h' ↦ h'
          | inl same ↦ absurd (
              laws.asym _ _ (o.usable w (sub w (inl refl))) (o.usable y (sub y (inr p))) (first y p)
                (subst (λ t. Less order (list.node y).k (list.node t).k) same m))
        ])
        y (inr (p, m))
