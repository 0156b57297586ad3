-- ===== src/SkipList/Refine.antt =====
-- A skip list is the map that the stores describe.
use ymd.Common.{
  ℕ, ◌≡◌, inl, inr, ap, ◌∙◌, arith, if◌then◌else◌, Bool-cases, true, Option, none, some, ◌>>=◌,
  List, [], ◌∷◌,
}
use ymd.Chunk.{Variable, nil}
use ymd.SkipList.{Skls, Order, mknode, skls_new, skfind, skls_put, skls_get, max_level}
use ymd.SkipList.Ordered.{IsLawful, IsOrdered}
use ymd.SkipList.Append.{set_node_self}
use ymd.SkipList.Find.{skfind_miss}
use ymd.SkipList.Stored.{skls_put_lem, skfind-IsStored}

-- skls_new is in order, without a node.
skls_new-IsOrdered : (order : Order) (address : ℕ) → IsOrdered order (skls_new address) []
unfolding skls_new
skls_new-IsOrdered order address =
    let ends : (i : ℕ) → ((skls_new address).node address).fwd i ≡ none =
      λ i. ap (λ y. y.fwd i) (set_node_self (λ _. mknode 0) address (mknode max_level)) in
    record {
      along = ends 0;
      ascending = tt;
      usable = λ x h. elim h [ ];
      inside = λ i x y h e. elim h [
        | inl same ↦ cc (ap (λ (z : ℕ). ((skls_new address).node z).fwd i) same, ends i, e)
        | inr h' ↦ elim h' [ ]
      ];
      forward = λ i x y h e. elim h [ ];
      high = λ i x l h. elim h [
        | inl same ↦ ap (λ (z : ℕ). ((skls_new address).node z).fwd i) same ∙ ends i
        | inr h' ↦ elim h' [ ]
      ];
      apart = λ h. elim h [ ];
      old = λ x h. elim h [ inl same ↦ rw same (omega arith) | inr h' ↦ elim h' [ ] ];
      size = omega arith;
    }

-- The draws, the key and the value.
abbrev pub Store : Type 0
Store = (ℕ → ℕ × ℕ) × Variable × Variable

module _ (order : Order) where
  -- Stores, each with what rand and time return while the level of a new node is drawn.
  abbrev pub put_all : Skls → List Store → Option Skls
  put_all list [] = some list
  put_all list ((draws, key, v) ∷ puts) =
      skls_put order draws list key v >>= λ list'. put_all list' puts

  -- The value that the last store with an equal key gave.
  abbrev pub last_value : List Store → Variable → Variable → Variable
  last_value [] key d = d
  last_value ((_, k, v) ∷ puts) key d = last_value puts key (if order.equals k key then v else d)

  -- The keys can be compared.
  abbrev pub Usable : List Store → Type 0
  Usable [] = Unit
  Usable ((_, k, _) ∷ puts) = (order.usable k ≡ true) × Usable puts

module _ (order : Order) (laws : IsLawful order) (key : Variable)
    (ok : order.usable key ≡ true) where
  skls_get-skfind : (list : Skls) → skls_get order list key ≡ skfind order list key
  unfolding skls_get
  skls_get-skfind list = rw (laws.not_nil key ok)

  find_all :
      (list : Skls) (nodes : List ℕ) (puts : List Store) (d : Variable)
      → IsOrdered order list nodes
      → Usable order puts
      → skfind order list key ≡ some d
      → (put_all order list puts >>= λ list'. skls_get order list' key)
        ≡ some (last_value order puts key d)
  find_all list nodes [] d o u e = skls_get-skfind list ∙ e
  find_all list nodes ((draws, k, v) ∷ puts) d o (ok_k, u) e =
      let (list', nodes', x, put, stored) =
        skls_put_lem order laws list o k v ok_k draws (laws.not_nil k ok_k) in
      let found = skfind-IsStored order laws list o k v ok_k list' nodes' x stored key ok in
      let next : skfind order list' key ≡ some (if order.equals k key then v else d) =
        found ∙ elim (Bool-cases (order.equals k key)) [ inl q ↦ rw q | inr q ↦ rw q e ] in
      rw put
        (find_all list' nodes' puts (if order.equals k key then v else d) stored.ordered u next)

  -- The stores to a new list succeed, and skls_get gives the value of the last one with an equal key.
  pub skls_get-lawful :
      (address : ℕ) (puts : List Store)
      → Usable order puts
      → (put_all order (skls_new address) puts >>= λ list. skls_get order list key)
        ≡ some (last_value order puts key nil)
  skls_get-lawful address puts u =
      find_all (skls_new address) [] puts nil (skls_new-IsOrdered order address) u (
        skfind_miss order laws (skls_new address) (skls_new-IsOrdered order address) key ok
          (λ z h. elim h [ ]))
