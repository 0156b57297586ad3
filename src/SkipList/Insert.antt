-- ===== src/SkipList/Insert.antt =====
-- A new node in a skip list in order.
use ymd.Common.{
  ℕ, zero, suc, ◌≤◌, ◌<◌, ◌≡◌, ◌≢◌, ◌⊎◌, inl, inr, refl, sym, ap, subst, ◌∙◌, arith, ◌==◌, ==_iff,
  true, false, Option, some,
}
use native.Mathlib.Decide.{ℕ_discrete}
use ymd.SkipList.{Sknd, set_node, set_fwd, link_levels}

-- What append has linked on the levels below `n`.
pub record Linked (node0 : ℕ → Sknd) (update : ℕ → ℕ) (x n : ℕ) (node : ℕ → Sknd) : Type 0 where
  pub same_k : (z : ℕ) → (node z).k ≡ (node0 z).k
  pub same_v : (z : ℕ) → (node z).v ≡ (node0 z).v
  pub new_fwd : (j : ℕ) → j < n → (node x).fwd j ≡ (node0 (update j)).fwd j
  pub new_high : (j : ℕ) → n ≤ j → (node x).fwd j ≡ (node0 x).fwd j
  pub led : (j : ℕ) → j < n → (node (update j)).fwd j ≡ some x
  pub kept : (z j : ℕ) → z ≢ x → (j < n → z ≢ update j) → (node z).fwd j ≡ (node0 z).fwd j

module _ (node : ℕ → Sknd) (x i : ℕ) (y : Option ℕ) where
  fwd_self : (set_fwd node x i y x).fwd i ≡ y
  unfolding set_fwd set_node
  fwd_self = rw ((==_iff x x).1 refl) (rw ((==_iff i i).1 refl))

  fwd_ne : (z j : ℕ) → (z ≢ x) ⊎ (j ≢ i) → (set_fwd node x i y z).fwd j ≡ (node z).fwd j
  unfolding set_fwd set_node
  fwd_ne z j n = elim (ℕ_discrete z x) [
    | no m ↦ let f : (z == x) ≡ false = ground arith in rw f
    | yes m ↦ elim n [
      | inl out ↦ absurd (out m)
      | inr out ↦
          let t : (z == x) ≡ true = (==_iff z x).1 m in
          let f : (j == i) ≡ false = ground arith in
          rw t (rw f (ap (λ (w : ℕ). (node w).fwd j) (sym m)))
    ]
  ]

  k_same : (z : ℕ) → (set_fwd node x i y z).k ≡ (node z).k
  unfolding set_fwd set_node
  k_same z = elim (ℕ_discrete z x) [
    | no m ↦ let f : (z == x) ≡ false = ground arith in rw f
    | yes m ↦
        let t : (z == x) ≡ true = (==_iff z x).1 m in rw t (ap (λ (w : ℕ). (node w).k) (sym m))
  ]

  v_same : (z : ℕ) → (set_fwd node x i y z).v ≡ (node z).v
  unfolding set_fwd set_node
  v_same z = elim (ℕ_discrete z x) [
    | no m ↦ let f : (z == x) ≡ false = ground arith in rw f
    | yes m ↦
        let t : (z == x) ≡ true = (==_iff z x).1 m in rw t (ap (λ (w : ℕ). (node w).v) (sym m))
  ]

module _ (node0 : ℕ → Sknd) (update : ℕ → ℕ) (x : ℕ) (apart : (j : ℕ) → update j ≢ x) where
  above : (i j : ℕ) → suc i ≤ j → j ≢ i
  above i j h e = absurd (omega arith)

  off : (z j i : ℕ) → (j < suc i → z ≢ update j) → (z ≢ update i) ⊎ (j ≢ i)
  off z j i h = elim (ℕ_discrete j i) [
    | no n ↦ inr n
    | yes e ↦ inl (subst (λ k. z ≢ update k) e (h (omega arith)))
  ]

  pub link_levels_lem : (n : ℕ) → Linked node0 update x n (link_levels update x n node0)
  unfolding link_levels
  link_levels_lem zero = record {
    same_k = λ z. refl;
    same_v = λ z. refl;
    new_fwd = λ j h. absurd (omega arith);
    new_high = λ j h. refl;
    led = λ j h. absurd (omega arith);
    kept = λ z j n h. refl;
  }
  link_levels_lem (suc i) =
      let r = link_levels_lem i in
      let base = link_levels update x i node0 in
      let taken = (base (update i)).fwd i in
      let a = set_fwd base x i taken in
      record {
        same_k = λ z. k_same a (update i) i (some x) z ∙ k_same base x i taken z ∙ r.same_k z;
        same_v = λ z. v_same a (update i) i (some x) z ∙ v_same base x i taken z ∙ r.same_v z;
        new_fwd = λ j h.
            fwd_ne a (update i) i (some x) x j (inl (λ e. apart i (sym e)))
            ∙ elim (ℕ_discrete j i) [
              | yes e ↦
                  subst (λ k. (a x).fwd k ≡ (node0 (update k)).fwd k) (sym e)
                    (fwd_self base x i taken
                      ∙ r.kept (update i) i (apart i) (λ h'. absurd (omega arith)))
              | no n ↦ fwd_ne base x i taken x j (inr n) ∙ r.new_fwd j (omega arith)
            ];
        new_high = λ j h.
            fwd_ne a (update i) i (some x) x j (inr (above i j h))
            ∙ fwd_ne base x i taken x j (inr (above i j h))
            ∙ r.new_high j (omega arith);
        led = λ j h. elim (ℕ_discrete j i) [
          | yes e ↦
              subst (λ k. (set_fwd a (update i) i (some x) (update k)).fwd k ≡ some x) (sym e)
                (fwd_self a (update i) i (some x))
          | no n ↦
              fwd_ne a (update i) i (some x) (update j) j (inr n)
              ∙ fwd_ne base x i taken (update j) j (inr n)
              ∙ r.led j (omega arith)
        ];
        kept = λ z j n h.
            fwd_ne a (update i) i (some x) z j (off z j i h)
            ∙ fwd_ne base x i taken z j (inl n)
            ∙ r.kept z j n (λ h'. h (omega arith));
      }
