-- ===== src/SkipList/Stored.antt =====
-- skls_get after skls_put on a skip list in order.
use ymd.Common.{
  ℕ, ◌≡◌, ◌≢◌, ◌⊎◌, inl, inr, refl, sym, ap, subst, ◌∙◌, arith, if◌then◌else◌, Bool-cases, true,
  false, some, List, [], ◌∷◌, In,
}
use native.Mathlib.Decide.{ℕ_discrete}
use ymd.Chunk.{Variable}
use ymd.HashMap.{is_nil}
use ymd.SkipList.{Sknd, Skls, Order, skfind, skls_put}
use ymd.SkipList.Ordered.{IsLawful, IsOrdered}
use ymd.SkipList.Find.{skfind_hit, skfind_miss}
use ymd.SkipList.Put.{
  added, added-IsOrdered, added-In, In-added, inserted, nodes_added, skls_put_new,
}
use ymd.SkipList.Rewrite.{rewritten, rewritten-IsOrdered, skls_put_old, new_node, other}

module _ (order : Order) (list : Skls) (nodes : List ℕ) (key : Variable) where
  -- A node with the key, or the knowledge that there is none.
  pub node_of :
      (xs : List ℕ)
      → ((z : ℕ) × In z xs × (order.equals (list.node z).k key ≡ true))
        ⊎ ((z : ℕ) → In z xs → order.equals (list.node z).k key ≡ false)
  node_of [] = inr (λ z h. elim h [ ])
  node_of (x ∷ xs) = elim (Bool-cases (order.equals (list.node x).k key)) [
    | inl e ↦ inl (x, inl refl, e)
    | inr n ↦ elim (node_of xs) [
      | inl (z, h, e) ↦ inl (z, inr h, e)
      | inr out ↦ inr (λ z h. elim h [
        | inl same ↦ subst (λ w. order.equals (list.node w).k key ≡ false) (sym same) n
        | inr h' ↦ out z h'
      ])
    ]
  ]

-- What a store leaves: the node `x` has the key and the value, and the others are as they were.
pub record IsStored (order : Order) (list list' : Skls) (nodes nodes' : List ℕ) (key v : Variable)
    (x : ℕ) : Type 0 where
  pub ordered : IsOrdered order list' nodes'
  pub has : In x nodes'
  pub has_k : (list'.node x).k ≡ key
  pub has_v : (list'.node x).v ≡ v
  pub was : In x nodes → order.equals (list.node x).k key ≡ true
  pub same : (z : ℕ) → z ≢ x → In z nodes → (list'.node z).k ≡ (list.node z).k
  pub same_v : (z : ℕ) → z ≢ x → In z nodes → (list'.node z).v ≡ (list.node z).v
  pub into : (z : ℕ) → In z nodes → In z nodes'
  pub from : (z : ℕ) → z ≢ x → In z nodes' → In z nodes

module _ (order : Order) (laws : IsLawful order) (list : Skls) {nodes : List ℕ}
    (o : IsOrdered order list nodes) (key v : Variable) (ok : order.usable key ≡ true) where
  pub skls_put_lem :
      (draws : ℕ → ℕ × ℕ)
      → is_nil key ≡ false
      → (list' : Skls) × (nodes' : List ℕ) × (x : ℕ) × (skls_put order draws list key v
          ≡ some list')
        × IsStored order list list' nodes nodes' key v x
  skls_put_lem draws real = elim (node_of order list nodes key nodes) [
    | inl (x, h, e) ↦ (
      rewritten order laws list o key v ok x h e,
      nodes,
      x,
      skls_put_old order laws list o key v ok x h e draws real,
      record {
        ordered = rewritten-IsOrdered order laws list o key v ok x h e;
        has = h;
        has_k = ap (λ (y : Sknd). y.k) (new_node order laws list o key v ok x h e);
        has_v = ap (λ (y : Sknd). y.v) (new_node order laws list o key v ok x h e);
        was = λ _. e;
        same = λ z n _. ap (λ (y : Sknd). y.k) (other order laws list o key v ok x h e z n);
        same_v = λ z n _. ap (λ (y : Sknd). y.v) (other order laws list o key v ok x h e z n);
        into = λ z q. q;
        from = λ z n q. q;
      },
    )
    | inr out ↦
        let p = inserted order laws list o key v ok real draws out in
        (
          added order laws list o key v ok real draws out,
          nodes_added order laws list o key v ok real draws out,
          list.fresh,
          skls_put_new order laws list o key v ok real draws out,
          record {
            ordered = added-IsOrdered order laws list o key v ok real draws out;
            has = added-In order laws list o key v ok real draws out list.fresh (inl refl);
            has_k = p.new_k;
            has_v = p.new_v;
            was = λ h. let b = o.old list.fresh (inr h) in absurd (omega arith);
            same = λ z n _. p.same_k z n;
            same_v = λ z n _. p.same_v z n;
            into = λ z q. added-In order laws list o key v ok real draws out z (inr q);
            from = λ z n q. elim (In-added order laws list o key v ok real draws out z q) [
              | inl e ↦ absurd (n e)
              | inr r ↦ r
            ];
          },
        )
  ]

  pub skfind-IsStored :
      (list' : Skls) (nodes' : List ℕ) (x : ℕ) (p : IsStored order list list' nodes nodes' key v x)
      (wanted : Variable)
      → order.usable wanted ≡ true
      → skfind order list' wanted
        ≡ (if order.equals key wanted then some v else skfind order list wanted)
  skfind-IsStored list' nodes' x p wanted ok' = elim (Bool-cases (order.equals key wanted)) [
    | inl e ↦ rw e (
        skfind_hit order laws list' p.ordered wanted ok' x p.has
          (ap (λ (k : Variable). order.equals k wanted) p.has_k ∙ e)
        ∙ ap some p.has_v)
    | inr n ↦
        let apart : (z : ℕ) → In z nodes → order.equals (list.node z).k wanted ≡ true → z ≢ x =
          λ z h q same.
            let h' : In x nodes = subst (λ w. In w nodes) same h in
            let q' : order.equals (list.node x).k wanted ≡ true =
              subst (λ w. order.equals (list.node w).k wanted ≡ true) same q in
            cc (laws.same _ _ _ (o.usable x h') ok ok' (p.was h'), q', n) in
        elim (node_of order list nodes wanted nodes) [
          | inl (z, h, q) ↦
              let d = apart z h q in
              rw n (
                skfind_hit order laws list' p.ordered wanted ok' z (p.into z h)
                  (ap (λ (k : Variable). order.equals k wanted) (p.same z d h) ∙ q)
                ∙ ap some (p.same_v z d h)
                ∙ sym (skfind_hit order laws list o wanted ok' z h q))
          | inr out ↦ rw n (
              skfind_miss order laws list' p.ordered wanted ok' (λ z h. elim (ℕ_discrete z x) [
                | yes e ↦
                    ap (λ (w : ℕ). order.equals (list'.node w).k wanted) e
                    ∙ ap (λ (k : Variable). order.equals k wanted) p.has_k
                    ∙ n
                | no d ↦
                    let h' = p.from z d h in
                    ap (λ (k : Variable). order.equals k wanted) (p.same z d h') ∙ out z h'
              ])
              ∙ sym (skfind_miss order laws list o wanted ok' out))
        ]
  ]
