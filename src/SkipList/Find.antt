-- ===== src/SkipList/Find.antt =====
-- skls_get on a skip list in order.
use ymd.Common.{
  ℕ, ◌+◌, ◌≡◌, ◌⊎◌, inl, inr, refl, ap, subst, ◌∙◌, arith, Option-cases, true, false, some, List,
  In,
}
use native.Mathlib.Decide.{ℕ_discrete}
use ymd.Chunk.{Variable, nil}
use ymd.SkipList.{Skls, Order, descend, skfind}
use ymd.SkipList.Ordered.{Less, IsLawful, IsOrdered}
use ymd.SkipList.Search.{IsDescent, Stops, descend_lem, next_lem}

module _ (order : Order) (laws : IsLawful order) (list : Skls) {nodes : List ℕ}
    (o : IsOrdered order list nodes) (key : Variable) (ok : order.usable key ≡ true) where
  -- The descent from the head through all levels.
  pub search_lem :
      IsDescent order laws list o key ok list.lv list.head
        (λ _. list.head)
        (descend order (list.count + 1) list.node key list.lv list.head (λ _. list.head))
  search_lem =
      descend_lem order laws list o key ok list.lv list.head (λ _. list.head)
        (record { inside = inl refl; lower = λ h. absurd (o.apart h) })

  pub search_Stops : Stops order laws list o key ok 0 search_lem.at
  search_Stops = elim (ℕ_discrete list.lv 0) [
    | yes e ↦ λ t f. cc (f, o.high 0 search_lem.at (omega arith) search_lem.here.inside)
    | no n ↦
        subst (Stops order laws list o key ok 0) (search_lem.lowest (omega arith))
          (search_lem.levels 0 (omega arith)).1
  ]

  -- The node behind the last one before the key is the one with the key.
  pub search_next :
      (z : ℕ)
      → In z nodes
      → order.equals (list.node z).k key ≡ true
      → (list.node search_lem.at).fwd 0 ≡ some z
  search_next z h e =
      let y = search_lem.at in
      let before : (y ≡ list.head) ⊎ (In y nodes × Less order (list.node y).k (list.node z).k) =
        elim (search_lem.here.inside) [
          | inl p ↦ inl p
          | inr p ↦ inr (
            p,
            laws.less_equals _ _ _ (o.usable y p) ok (o.usable z h) (search_lem.here.lower p) e,
          )
        ] in
      let (t, f, it, c) =
        next_lem order laws list o key ok list.head z nodes (λ w q. q) o.along o.ascending h y
          before in
      elim c [
        | inl same ↦ f ∙ ap some same
        | inr l ↦
            cc (search_Stops t f, laws.equals_less _ _ _ (o.usable t it) (o.usable z h) ok l e)
      ]

  pub skfind_hit :
      (z : ℕ)
      → In z nodes
      → order.equals (list.node z).k key ≡ true
      → skfind order list key ≡ some (list.node z).v
  unfolding skfind
  skfind_hit z h e = rw search_lem.returns (rw (search_next z h e) (rw e))

  pub skfind_miss :
      ((z : ℕ) → In z nodes → order.equals (list.node z).k key ≡ false)
      → skfind order list key ≡ some nil
  unfolding skfind
  skfind_miss out = elim (Option-cases ((list.node search_lem.at).fwd 0)) [
    | inl e ↦ rw search_lem.returns (rw e)
    | inr (t, e) ↦
        rw search_lem.returns
          (rw e (rw (out t (o.inside 0 search_lem.at t search_lem.here.inside e))))
  ]
