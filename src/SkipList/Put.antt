-- ===== src/SkipList/Put.antt =====
-- skls_put of a key that the list does not have.
use ymd.Common.{
  ℕ, ◌≡◌, ◌≢◌, ◌⊎◌, inl, inr, refl, arith, Bool-cases, Option-cases, ltb, true, false, some, List,
  In,
}
use ymd.Chunk.{Variable}
use ymd.HashMap.{is_nil}
use ymd.SkipList.{randlv, Skls, Order, append, skindex, skls_put}
use ymd.SkipList.Ordered.{IsLawful, IsOrdered}
use ymd.SkipList.Search.{IsBefore, Stops}
use ymd.SkipList.Find.{search_lem}
use ymd.SkipList.Place.{Inserts, Inserts-IsOrdered, placed, placed-In, In-placed}
use ymd.SkipList.Append.{update_all, written, append-Inserts}

module _ (order : Order) (laws : IsLawful order) (list : Skls) {nodes : List ℕ}
    (o : IsOrdered order list nodes) (key v : Variable) (ok : order.usable key ≡ true)
    (real : is_nil key ≡ false) (draws : ℕ → ℕ × ℕ)
    (out : (z : ℕ) → In z nodes → order.equals (list.node z).k key ≡ false) where
  abbrev last : ℕ → ℕ
  last = (search_lem order laws list o key ok).last

  pub before :
      (j : ℕ)
      → IsBefore order laws list o key ok (update_all list last j)
        × Stops order laws list o key ok j (update_all list last j)
  before j = elim (Bool-cases (ltb j list.lv)) [
    | inl e ↦ rw e ((search_lem order laws list o key ok).levels j (ground arith))
    | inr e ↦ rw e (
      record { inside = inl refl; lower = λ h. absurd (o.apart h) },
      λ t f. cc (f, o.high j list.head (ground arith) (inl refl)),
    )
  ]

  pub apart : (j : ℕ) → update_all list last j ≢ list.fresh
  apart j e = let b = o.old (update_all list last j) (before j).0.inside in absurd (omega arith)

  abbrev pub added : Skls
  added = written (append draws list last).0 list.fresh key v

  pub skls_put_new : skls_put order draws list key v ≡ some added
  unfolding skls_put skindex append
  skls_put_new = elim (Option-cases ((list.node (search_lem order laws list o key ok).at).fwd 0)) [
    | inl e ↦ rw real (rw (search_lem order laws list o key ok).returns (rw e))
    | inr (t, e) ↦ rw real (
        rw (search_lem order laws list o key ok).returns (
          rw e (
            rw (
              out t (
                o.inside 0 (search_lem order laws list o key ok).at t
                  (search_lem order laws list o key ok).here.inside e)))))
  ]

  pub inserted : Inserts order list added (update_all list last) list.fresh (randlv draws) key v
  inserted = append-Inserts order list last draws key v apart

  abbrev pub nodes_added : List ℕ
  nodes_added =
      placed order laws list added o key v ok (update_all list last) list.fresh (randlv draws)
        inserted (λ j _. before j) out nodes

  pub added-In : (z : ℕ) → (z ≡ list.fresh) ⊎ In z nodes → In z nodes_added
  added-In z h =
      placed-In order laws list added o key v ok (update_all list last) list.fresh (randlv draws)
        inserted (λ j _. before j) out z nodes h

  pub In-added : (z : ℕ) → In z nodes_added → (z ≡ list.fresh) ⊎ In z nodes
  In-added z h =
      In-placed order laws list added o key v ok (update_all list last) list.fresh (randlv draws)
        inserted (λ j _. before j) out z nodes h

  pub added-IsOrdered : IsOrdered order added nodes_added
  added-IsOrdered =
      Inserts-IsOrdered order laws list added o key v ok (update_all list last) list.fresh
        (randlv draws) inserted (λ j _. before j) out
