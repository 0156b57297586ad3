-- ===== src/SkipList/Rewrite.antt =====
-- skls_put of a key that the list has: the node keeps its place with the new key.
use ymd.Common.{
  ℕ, ◌≡◌, ◌≢◌, inl, inr, refl, sym, ap, subst, ◌∙◌, Bool-cases, true, false, some, List, [], ◌∷◌,
  In,
}
use native.Mathlib.Decide.{ℕ_discrete}
use ymd.Chunk.{Variable}
use ymd.HashMap.{is_nil}
use ymd.SkipList.{Sknd, Skls, Order, skindex, skls_put}
use ymd.SkipList.Ordered.{Less, less, IsLawful, IsOrdered, Along, Ascending}
use ymd.SkipList.Find.{search_lem, search_next}
use ymd.SkipList.Append.{written, set_node_self, set_node_ne}

module _ (order : Order) (laws : IsLawful order) where
  -- A key equal to a smaller one is smaller.
  less_left :
      (a b c : Variable)
      → order.usable a ≡ true
      → order.usable b ≡ true
      → order.usable c ≡ true
      → Less order a b
      → order.equals a c ≡ true
      → Less order c b
  less_left a b c ua ub uc l e = elim (Bool-cases (less order c b)) [
    | inl h ↦ h
    | inr n ↦ elim (Bool-cases (order.equals c b)) [
      | inl q ↦
          let m = laws.less_equals a b c ua ub uc l q in
          let m' = laws.less_equals a c a ua uc ua m e in absurd (laws.asym a a ua ua m' m')
      | inr q ↦
          let m = laws.less_equals b c a ub uc ua (laws.total c b uc ub n q) e in
          absurd (laws.asym a b ua ub l m)
    ]
  ]

module _ (order : Order) (laws : IsLawful order) (list : Skls) {nodes : List ℕ}
    (o : IsOrdered order list nodes) (key v : Variable) (ok : order.usable key ≡ true) (x : ℕ)
    (there : In x nodes) (e : order.equals (list.node x).k key ≡ true) where
  abbrev pub rewritten : Skls
  rewritten = written list x key v

  pub new_node : rewritten.node x ≡ record (list.node x) { k = key; v = v }
  new_node = set_node_self list.node x (record (list.node x) { k = key; v = v })

  pub other : (z : ℕ) → z ≢ x → rewritten.node z ≡ list.node z
  other = set_node_ne list.node x (record (list.node x) { k = key; v = v })

  same_fwd : (i z : ℕ) → (rewritten.node z).fwd i ≡ (list.node z).fwd i
  same_fwd i z = elim (ℕ_discrete z x) [
    | no n ↦ ap (λ (y : Sknd). y.fwd i) (other z n)
    | yes m ↦
        subst (λ t. (rewritten.node t).fwd i ≡ (list.node t).fwd i) (sym m)
          (ap (λ (y : Sknd). y.fwd i) new_node)
  ]

  irreflexive : (z : ℕ) → In z nodes → Less order (list.node z).k (list.node z).k → ⊥
  irreflexive z h l = laws.asym _ _ (o.usable z h) (o.usable z h) l l

  -- The order of two nodes is kept.
  less_rewritten :
      (z w : ℕ)
      → In z nodes
      → In w nodes
      → Less order (list.node z).k (list.node w).k
      → Less order (rewritten.node z).k (rewritten.node w).k
  less_rewritten z w p q l = elim (ℕ_discrete z x) [
    | yes m ↦ elim (ℕ_discrete w x) [
      | yes m' ↦
          absurd (
            irreflexive z p
              (subst (λ t. Less order (list.node z).k (list.node t).k) (m' ∙ sym m) l))
      | no n' ↦
          rw (ap (λ (t : ℕ). (rewritten.node t).k) m ∙ ap (λ (y : Sknd). y.k) new_node, other w n')
            (less_left order laws (list.node x).k (list.node w).k key (o.usable x there)
              (o.usable w q) ok (subst (λ t. Less order (list.node t).k (list.node w).k) m l) e)
    ]
    | no n ↦ elim (ℕ_discrete w x) [
      | yes m' ↦
          rw (ap (λ (t : ℕ). (rewritten.node t).k) m' ∙ ap (λ (y : Sknd). y.k) new_node, other z n)
            (laws.equals_less (list.node z).k (list.node x).k key (o.usable z p) (o.usable x there)
              ok (subst (λ t. Less order (list.node z).k (list.node t).k) m' l) e)
      | no n' ↦ rw (other z n, other w n') l
    ]
  ]

  Along-rewritten : (w : ℕ) (xs : List ℕ) → Along list.node w xs → Along rewritten.node w xs
  Along-rewritten w [] l = same_fwd 0 w ∙ l
  Along-rewritten w (t ∷ ts) (f, l) = (same_fwd 0 w ∙ f, Along-rewritten t ts l)

  Ascending-rewritten :
      (xs : List ℕ)
      → ((w : ℕ) → In w xs → In w nodes)
      → Ascending order list.node xs
      → Ascending order rewritten.node xs
  Ascending-rewritten [] sub a = tt
  Ascending-rewritten (t ∷ ts) sub (first, a) = (
    λ z h. less_rewritten t z (sub t (inl refl)) (sub z (inr h)) (first z h),
    Ascending-rewritten ts (λ w h. sub w (inr h)) a,
  )

  usable-rewritten : (z : ℕ) → In z nodes → order.usable (rewritten.node z).k ≡ true
  usable-rewritten z h = elim (ℕ_discrete z x) [
    | yes m ↦ rw (ap (λ (t : ℕ). (rewritten.node t).k) m ∙ ap (λ (y : Sknd). y.k) new_node) ok
    | no n ↦ rw (other z n) (o.usable z h)
  ]

  pub rewritten-IsOrdered : IsOrdered order rewritten nodes
  rewritten-IsOrdered = record {
    along = Along-rewritten list.head nodes o.along;
    ascending = Ascending-rewritten nodes (λ z h. h) o.ascending;
    usable = usable-rewritten;
    inside = λ i z w h f. o.inside i z w h (sym (same_fwd i z) ∙ f);
    forward = λ i z w h f.
        let f' = sym (same_fwd i z) ∙ f in
        less_rewritten z w h (o.inside i z w (inr h) f') (o.forward i z w h f');
    high = λ i z h q. same_fwd i z ∙ o.high i z h q;
    apart = o.apart;
    old = o.old;
    size = o.size;
  }

  pub skls_put_old :
      (draws : ℕ → ℕ × ℕ) → is_nil key ≡ false → skls_put order draws list key v ≡ some rewritten
  unfolding skls_put skindex
  skls_put_old draws real = rw real (
      rw (search_lem order laws list o key ok).returns
        (rw (search_next order laws list o key ok x there e) (rw e)))
