-- ===== src/SkipList/Place.antt =====
-- A new node takes its place in the order.
use ymd.Common.{
  ℕ, ◌+◌, ◌≤◌, ◌<◌, ◌≡◌, ◌≢◌, ◌⊎◌, inl, inr, refl, sym, ap, subst, ◌∙◌, arith, if◌then◌else◌,
  Bool-cases, true, false, none, some, List, [], ◌∷◌, In, length,
}
use native.Mathlib.Decide.{ℕ_discrete, dec_lt}
use ymd.Chunk.{Variable}
use ymd.SkipList.{Skls, Order}
use ymd.SkipList.Ordered.{Less, less, IsLawful, IsOrdered, Along, Ascending}
use ymd.SkipList.Search.{IsBefore, Stops}

-- The node `x` for the key stands in `lvl` levels of the new list, behind the nodes of `update`.
pub record Inserts (order : Order) (list list' : Skls) (update : ℕ → ℕ) (x lvl : ℕ)
    (key v : Variable) : Type 0 where
  pub new_k : (list'.node x).k ≡ key
  pub new_v : (list'.node x).v ≡ v
  pub same_k : (z : ℕ) → z ≢ x → (list'.node z).k ≡ (list.node z).k
  pub same_v : (z : ℕ) → z ≢ x → (list'.node z).v ≡ (list.node z).v
  pub new_fwd : (j : ℕ) → j < lvl → (list'.node x).fwd j ≡ (list.node (update j)).fwd j
  pub new_high : (j : ℕ) → lvl ≤ j → (list'.node x).fwd j ≡ none
  pub led : (j : ℕ) → j < lvl → (list'.node (update j)).fwd j ≡ some x
  pub kept :
      (z j : ℕ) → z ≢ x → (j < lvl → z ≢ update j) → (list'.node z).fwd j ≡ (list.node z).fwd j
  pub same_head : list'.head ≡ list.head
  pub highest : (list.lv ≤ list'.lv) × (lvl ≤ list'.lv)
  pub counted : list'.count ≡ list.count + 1
  pub newer : (list.fresh ≤ list'.fresh) × (x < list'.fresh)
  pub is_fresh : list.fresh ≡ x
  pub levels : 0 < lvl

module _ (order : Order) (laws : IsLawful order) (list list' : Skls) {nodes : List ℕ}
    (o : IsOrdered order list nodes) (key v : Variable) (ok : order.usable key ≡ true)
    (update : ℕ → ℕ) (x lvl : ℕ) (p : Inserts order list list' update x lvl key v)
    (before : (j : ℕ)
      → j < lvl
      → IsBefore order laws list o key ok (update j) × Stops order laws list o key ok j (update j))
    (out : (z : ℕ) → In z nodes → order.equals (list.node z).k key ≡ false) where
  -- The nodes with `x` in front of the first that is not before the key.
  abbrev pub placed : List ℕ → List ℕ
  placed [] = x ∷ []
  placed (t ∷ ts) =
      let rest = placed ts in if less order (list.node t).k key then t ∷ rest else x ∷ t ∷ ts

  placed_low :
      (t : ℕ) (ts : List ℕ) → Less order (list.node t).k key → placed (t ∷ ts) ≡ t ∷ placed ts
  placed_low t ts l = rw l

  placed_high :
      (t : ℕ) (ts : List ℕ) → less order (list.node t).k key ≡ false → placed (t ∷ ts) ≡ x ∷ t ∷ ts
  placed_high t ts n = rw n

  pub In-placed : (z : ℕ) (xs : List ℕ) → In z (placed xs) → (z ≡ x) ⊎ In z xs
  In-placed z [] (inl e) = inl e
  In-placed z [] (inr h) = elim h [ ]
  In-placed z (t ∷ ts) h = elim (Bool-cases (less order (list.node t).k key)) [
    | inl l ↦
        let h' : In z (t ∷ placed ts) = subst (In z) (placed_low t ts l) h in
        elim h' [
          | inl e ↦ inr (inl e)
          | inr q ↦ elim (In-placed z ts q) [ inl e ↦ inl e | inr r ↦ inr (inr r) ]
        ]
    | inr n ↦ subst (In z) (placed_high t ts n) h
  ]

  pub placed-In : (z : ℕ) (xs : List ℕ) → (z ≡ x) ⊎ In z xs → In z (placed xs)
  placed-In z [] (inl e) = inl e
  placed-In z [] (inr h) = elim h [ ]
  placed-In z (t ∷ ts) h = elim (Bool-cases (less order (list.node t).k key)) [
    | inl l ↦ rw l (elim h [
      | inl e ↦ inr (placed-In z ts (inl e))
      | inr (inl e) ↦ inl e
      | inr (inr q) ↦ inr (placed-In z ts (inr q))
    ])
    | inr n ↦ rw n h
  ]

  length-placed : (xs : List ℕ) → length (placed xs) ≡ length xs + 1
  length-placed [] = omega arith
  length-placed (t ∷ ts) = ground (arith, length-placed ts)

  ne_new : (z : ℕ) → In z (list.head ∷ nodes) → z ≢ x
  ne_new z h e = let b = o.old z h in let f = p.is_fresh in absurd (omega arith)

  key_of : (z : ℕ) → In z nodes → (list'.node z).k ≡ (list.node z).k
  key_of z h = p.same_k z (ne_new z (inr h))

  -- None of the nodes from `t` on is before the key.
  after :
      (t z : ℕ) (ts : List ℕ)
      → less order (list.node t).k key ≡ false
      → ((w : ℕ) → In w (t ∷ ts) → In w nodes)
      → ((w : ℕ) → In w ts → Less order (list.node t).k (list.node w).k)
      → In z (t ∷ ts)
      → less order (list.node z).k key ≡ false
  after t z ts n sub first (inl e) = subst (λ w. less order (list.node w).k key ≡ false) (sym e) n
  after t z ts n sub first (inr h) = elim (Bool-cases (less order (list.node z).k key)) [
    | inr f ↦ f
    | inl l ↦ cc (
      n,
      laws.trans _ _ _ (o.usable t (sub t (inl refl))) (o.usable z (sub z (inr h))) ok (first z h)
          l,
    )
  ]

  Ascending-same :
      (xs : List ℕ)
      → ((w : ℕ) → In w xs → In w nodes)
      → Ascending order list.node xs
      → Ascending order list'.node xs
  Ascending-same [] sub a = tt
  Ascending-same (t ∷ ts) sub (first, a) = (
    λ z h. rw (key_of t (sub t (inl refl)), key_of z (sub z (inr h))) (first z h),
    Ascending-same ts (λ w h. sub w (inr h)) a,
  )

  Ascending-placed :
      (xs : List ℕ)
      → ((w : ℕ) → In w xs → In w nodes)
      → Ascending order list.node xs
      → Ascending order list'.node (placed xs)
  Ascending-placed [] sub a = ((λ z h. elim h [ ]), tt)
  Ascending-placed (t ∷ ts) sub (first, a) = elim (Bool-cases (less order (list.node t).k key)) [
    | inl l ↦ rw l (
      λ z h. elim (In-placed z ts h) [
        | inl e ↦ rw (key_of t (sub t (inl refl)), e, p.new_k) l
        | inr q ↦ rw (key_of t (sub t (inl refl)), key_of z (sub z (inr q))) (first z q)
      ],
      Ascending-placed ts (λ w h. sub w (inr h)) a,
    )
    | inr n ↦ rw n (
      λ z h.
          rw (p.new_k, key_of z (sub z h))
            (laws.total _ _ (o.usable z (sub z h)) ok (after t z ts n sub first h)
              (out z (sub z h))),
      Ascending-same (t ∷ ts) sub (first, a),
    )
  ]

  Along-same :
      (w : ℕ) (xs : List ℕ)
      → ((z : ℕ) → In z (w ∷ xs) → (list'.node z).fwd 0 ≡ (list.node z).fwd 0)
      → Along list.node w xs
      → Along list'.node w xs
  Along-same w [] same l = same w (inl refl) ∙ l
  Along-same w (t ∷ ts) same (e, l) =
      (same w (inl refl) ∙ e, Along-same t ts (λ z h. same z (inr h)) l)

  low_differs :
      (w t : ℕ) → (list.node w).fwd 0 ≡ some t → Less order (list.node t).k key → w ≡ update 0 → ⊥
  low_differs w t e l same =
      cc ((before 0 p.levels).1 t (sym (ap (λ (z : ℕ). (list.node z).fwd 0) same) ∙ e), l)

  high_differs :
      (t z : ℕ) (ts : List ℕ)
      → less order (list.node t).k key ≡ false
      → ((w : ℕ) → In w (t ∷ ts) → In w nodes)
      → ((w : ℕ) → In w ts → Less order (list.node t).k (list.node w).k)
      → In z (t ∷ ts)
      → z ≡ update 0
      → ⊥
  high_differs t z ts n sub first q same =
      let h : In (update 0) nodes = subst (λ y. In y nodes) same (sub z q) in
      let l : Less order (list.node z).k key =
        subst (λ y. Less order (list.node y).k key) (sym same) ((before 0 p.levels).0.lower h) in
      cc (after t z ts n sub first q, l)

  Along-placed :
      (w : ℕ) (xs : List ℕ)
      → ((z : ℕ) → In z (w ∷ xs) → In z (list.head ∷ nodes))
      → ((z : ℕ) → In z xs → In z nodes)
      → Along list.node w xs
      → Ascending order list.node xs
      → In (update 0) (w ∷ xs)
      → Along list'.node w (placed xs)
  Along-placed w [] sub sub' l a (inr h) = elim h [ ]
  Along-placed w [] sub sub' l a (inl e) = (
    subst (λ z. (list'.node z).fwd 0 ≡ some x) e (p.led 0 p.levels),
    p.new_fwd 0 p.levels ∙ ap (λ (z : ℕ). (list.node z).fwd 0) e ∙ l,
  )
  Along-placed w (t ∷ ts) sub sub' (e, l) (first, a) h =
      elim (Bool-cases (less order (list.node t).k key)) [
        | inl m ↦ rw m (
          p.kept w 0 (ne_new w (sub w (inl refl))) (λ _ same. low_differs w t e m same) ∙ e,
          Along-placed t ts (λ z q. sub z (inr q)) (λ z q. sub' z (inr q)) l a
              (elim h [ inl same ↦ absurd (low_differs w t e m (sym same)) | inr q ↦ q ]),
        )
        | inr n ↦
            let here : update 0 ≡ w = elim h [
              | inl same ↦ same
              | inr q ↦ absurd (high_differs t (update 0) ts n sub' first q refl)
            ] in
            rw n (
              subst (λ z. (list'.node z).fwd 0 ≡ some x) here (p.led 0 p.levels),
              (
                p.new_fwd 0 p.levels ∙ ap (λ (z : ℕ). (list.node z).fwd 0) here ∙ e,
                Along-same t ts
                    (λ z q.
                      p.kept z 0 (ne_new z (sub z (inr q)))
                        (λ _ same. high_differs t z ts n sub' first q same))
                    l,
              ),
            )
      ]

  was_there : (z : ℕ) → In z (list'.head ∷ placed nodes) → (z ≡ x) ⊎ In z (list.head ∷ nodes)
  was_there z (inl e) = inr (inl (e ∙ p.same_head))
  was_there z (inr h) = elim (In-placed z nodes h) [ inl e ↦ inl e | inr q ↦ inr (inr q) ]

  -- Each link of the new list comes from the new node, leads to it, or was there.
  edge :
      (i z w : ℕ)
      → (z ≡ x) ⊎ In z (list.head ∷ nodes)
      → (list'.node z).fwd i ≡ some w
      → ((z ≡ x) × (i < lvl) × ((list.node (update i)).fwd i ≡ some w))
        ⊎ (((i < lvl) × (z ≡ update i) × (w ≡ x))
            ⊎ (In z (list.head ∷ nodes) × ((list.node z).fwd i ≡ some w)))
  edge i z w (inl e) f =
      let f' : (list'.node x).fwd i ≡ some w = sym (ap (λ (y : ℕ). (list'.node y).fwd i) e) ∙ f in
      elim (dec_lt i lvl) [
        | yes h ↦ inl (e, h, sym (p.new_fwd i h) ∙ f')
        | no h ↦ cc (p.new_high i (omega arith), f')
      ]
  edge i z w (inr q) f = elim (dec_lt i lvl) [
    | no h ↦ inr (inr (q, sym (p.kept z i (ne_new z q) (λ h'. absurd (h h'))) ∙ f))
    | yes h ↦ elim (ℕ_discrete z (update i)) [
      | no n ↦ inr (inr (q, sym (p.kept z i (ne_new z q) (λ _. n)) ∙ f))
      | yes e ↦
          let f' : (list'.node (update i)).fwd i ≡ some w =
            sym (ap (λ (y : ℕ). (list'.node y).fwd i) e) ∙ f in
          inr (inl (h, e, cc (f', p.led i h)))
    ]
  ]

  lowered : (i t : ℕ) → i < lvl → (list.node (update i)).fwd i ≡ some t → In t nodes
  lowered i t h f = o.inside i (update i) t (before i h).0.inside f

  old_node : (z : ℕ) → In z (placed nodes) → In z (list.head ∷ nodes) → In z nodes
  old_node z h q = elim (In-placed z nodes h) [ inl e ↦ absurd (ne_new z q e) | inr r ↦ r ]

  led_forward :
      (i z w : ℕ)
      → i < lvl
      → z ≡ update i
      → w ≡ x
      → In z (placed nodes)
      → Less order (list'.node z).k (list'.node w).k
  led_forward i z w h e e' q =
      let b = (before i h).0 in
      let r : In z nodes = old_node z q (subst (λ y. In y (list.head ∷ nodes)) (sym e) b.inside) in
      let l : Less order (list.node z).k key =
        subst (λ y. Less order (list.node y).k key) (sym e)
          (b.lower (subst (λ y. In y nodes) e r)) in
      rw (key_of z r, e', p.new_k) l

  pub Inserts-IsOrdered : IsOrdered order list' (placed nodes)
  Inserts-IsOrdered = record {
    along = rw p.same_head (
        Along-placed list.head nodes (λ z h. h) (λ z h. h) o.along o.ascending
          (before 0 p.levels).0.inside);
    ascending = Ascending-placed nodes (λ z h. h) o.ascending;
    usable = λ z h. elim (In-placed z nodes h) [
      | inl e ↦ rw (e, p.new_k) ok
      | inr q ↦ rw (key_of z q) (o.usable z q)
    ];
    inside = λ i z w h f. placed-In w nodes (elim (edge i z w (was_there z h) f) [
      | inl (_, h', f') ↦ inr (lowered i w h' f')
      | inr (inl (_, _, e)) ↦ inl e
      | inr (inr (q, f')) ↦ inr (o.inside i z w q f')
    ]);
    forward = λ i z w h f. elim (edge i z w (was_there z (inr h)) f) [
      | inl (e, h', f') ↦
          let q = lowered i w h' f' in
          rw (e, p.new_k, key_of w q)
            (laws.total _ _ (o.usable w q) ok ((before i h').1 w f') (out w q))
      | inr (inl (h', e, e')) ↦ led_forward i z w h' e e' h
      | inr (inr (q, f')) ↦
          rw (p.same_k z (ne_new z q), key_of w (o.inside i z w q f'))
            (o.forward i z w (old_node z h q) f')
    ];
    high = λ i z h q. elim (was_there z q) [
      | inl e ↦
          let l = p.highest.1 in ap (λ (y : ℕ). (list'.node y).fwd i) e ∙ p.new_high i (omega arith)
      | inr q' ↦
          let l = p.highest in
          p.kept z i (ne_new z q') (λ h'. absurd (omega arith)) ∙ o.high i z (omega arith) q'
    ];
    apart = λ h. elim (In-placed list'.head nodes h) [
      | inl e ↦ ne_new list.head (inl refl) (sym p.same_head ∙ e)
      | inr q ↦ o.apart (subst (λ z. In z nodes) p.same_head q)
    ];
    old = λ z h. elim (was_there z h) [
      | inl e ↦ rw e p.newer.1
      | inr q ↦ let b = o.old z q in let n = p.newer.0 in omega arith
    ];
    size = omega (arith, o.size, p.counted, length-placed nodes);
  }
