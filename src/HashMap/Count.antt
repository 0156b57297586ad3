-- ===== src/HashMap/Count.antt =====
-- How many items of a hash map are in use, and what alloc_free gives out.
use ymd.Common.{
  ℕ, zero, suc, ◌+◌, ◌≤◌, ◌<◌, ◌≡◌, ◌≢◌, refl, arith, true, false, Bool-cases, inl, inr, none, some,
}
use native.Mathlib.Decide.{ℕ_discrete}
use ymd.HashMap.{taken, Item, count_below, alloc_from}

module _ (item item' : ℕ → Item) where
  pub count_below_same :
      (n : ℕ)
      → ((j : ℕ) → taken (item' j).flag ≡ taken (item j).flag)
      → count_below item' n ≡ count_below item n
  unfolding count_below
  count_below_same zero same = refl
  count_below_same (suc n) same = rw (same n, count_below_same n same)

  count_below_until :
      (n : ℕ)
      → ((j : ℕ) → j < n → taken (item' j).flag ≡ taken (item j).flag)
      → count_below item' n ≡ count_below item n
  unfolding count_below
  count_below_until zero same = refl
  count_below_until (suc n) same =
      rw (same n (omega arith), count_below_until n (λ j h. same j (omega arith)))

  -- One item more is in use.
  pub count_below_more :
      (n i : ℕ)
      → i < n
      → taken (item i).flag ≡ false
      → taken (item' i).flag ≡ true
      → ((j : ℕ) → j ≢ i → taken (item' j).flag ≡ taken (item j).flag)
      → count_below item' n ≡ count_below item n + 1
  unfolding count_below
  count_below_more zero i h was is same = absurd (omega arith)
  count_below_more (suc n) i h was is same = elim (ℕ_discrete n i) [
    | yes e ↦
        let before = count_below_until n (λ j below. same j (λ eq. absurd (omega arith))) in
        let was' : taken (item n).flag ≡ false = rw e was in
        let is' : taken (item' n).flag ≡ true = rw e is in rw (was', is') (omega arith)
    | no ne ↦
        let before = count_below_more n i (omega arith) was is same in
        rw (same n ne) (ground (arith))
  ]

module _ (item : ℕ → Item) where
  -- Where alloc_free finds nothing, all items but the first are in use.
  pub alloc_from-none : (i : ℕ) → alloc_from item i ≡ none → i ≤ count_below item (suc i)
  unfolding alloc_from count_below
  alloc_from-none zero e = omega arith
  alloc_from-none (suc i) e = ground (arith, alloc_from-none i)

  pub alloc_from-some :
      (i j : ℕ) → alloc_from item i ≡ some j → (j ≤ i) × (taken (item j).flag ≡ false)
  unfolding alloc_from
  alloc_from-some zero j e = cc
  alloc_from-some (suc i) j e = elim (Bool-cases (taken (item (suc i)).flag)) [
    | inl t ↦ let r = alloc_from-some i j (ground arith) in (omega arith, r.1)
    | inr t ↦ ground arith
  ]
