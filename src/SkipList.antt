-- ===== src/SkipList.antt =====
-- skip_list.c: the skip list. A node is found by its address, and a block that the allocator hands out
-- has the address `fresh`. The forward pointers of a node are a function of the level, with none from
-- the node's own number of levels on. rand and time are the draws that a level is made of.
pub mod Ordered
pub mod Search
pub mod Find
pub mod Insert
pub mod Place
pub mod Append
pub mod Put
pub mod Rewrite
pub mod Stored
pub mod Refine
pub mod Precedes
pub mod Keys
mod Tests
use ymd.Common.{
  ℕ, zero, suc, ◌+◌, ◌-◌, ◌*◌, ◌/◌, ◌%◌, ◌^◌, ◌≡◌, bit_and, bit_or, bit_xor, ltb, ◌==◌,
  if◌then◌else◌, Bool, true, false, not, Option, none, some, ◌>>=◌, ◌>>◌, guard,
}
use ymd.Common.Int.{ℤ, pos, negsuc, ltb_ℤ}
use ymd.Chunk.{Variable, nil}
use ymd.HashMap.{is_nil}

-- struct sknd
pub record Sknd : Type 0 where
  pub k : Variable
  pub v : Variable
  pub n : ℕ
  pub fwd : ℕ → Option ℕ

-- struct skls, with the nodes of the heap.
pub record Skls : Type 0 where
  pub count : ℕ
  pub lv : ℕ
  pub head : ℕ
  pub node : ℕ → Sknd
  pub fresh : ℕ

-- `compare` and `equals` of two variables, with the variables that the list is used with as keys.
pub record Order : Type 0 where
  pub compare : Variable → Variable → ℤ
  pub equals : Variable → Variable → Bool
  pub usable : Variable → Bool

-- MAX_LEVEL
abbrev pub max_level : ℕ
max_level = 16

-- rand_range, from what rand and time return.
unfoldable pub rand_range : ℕ → ℕ → ℕ → ℕ
rand_range raw time mod_by =
    let high = bit_xor (bit_and raw 0xfffff000 / 2 ^ 12) (time % 2 ^ 32) in
    bit_or high (bit_and raw 0x00000fff * 2 ^ 20 % 2 ^ 32) % mod_by

-- The loop of randlv, with `r` rounds to go before the level is the greatest one. `draws` gives what
-- rand and time return in the round of a level.
unfoldable pub randlv_loop : (ℕ → ℕ × ℕ) → ℕ → ℕ → ℕ
randlv_loop draws zero lvl = lvl
randlv_loop draws (suc r) lvl =
    let more = randlv_loop draws r (lvl + 1) in
    let (raw, time) = draws lvl in if ltb (rand_range raw time 100) 50 then more else lvl

unfoldable pub randlv : (ℕ → ℕ × ℕ) → ℕ
randlv draws = randlv_loop draws (max_level - 1) 1

-- A node of zero bytes with `lv` levels, as mknode makes it.
abbrev pub mknode : ℕ → Sknd
mknode lv = record { k = nil; v = nil; n = lv; fwd = λ _. none }

-- The write to one node.
unfoldable pub set_node : (ℕ → Sknd) → ℕ → Sknd → ℕ → Sknd
set_node node x y z = if z == x then y else node z

-- x->fwd[i] = y
unfoldable pub set_fwd : (ℕ → Sknd) → ℕ → ℕ → Option ℕ → ℕ → Sknd
set_fwd node x i y =
    set_node node x (record (node x) { fwd = λ j. if j == i then y else (node x).fwd j })

-- skls_new, with the address of the head.
unfoldable pub skls_new : ℕ → Skls
unfolding set_node
skls_new address = record {
  count = 0;
  lv = 0;
  head = address;
  node = set_node (λ _. mknode 0) address (mknode max_level);
  fresh = address + 1;
}

-- The loop of append over the levels below `n`.
unfoldable pub link_levels : (ℕ → ℕ) → ℕ → ℕ → (ℕ → Sknd) → ℕ → Sknd
link_levels update x zero node = node
link_levels update x (suc i) node =
    let before = link_levels update x i node in
    let linked = set_fwd before x i ((before (update i)).fwd i) in
    set_fwd linked (update i) i (some x)

-- append, with what rand and time return in the rounds of randlv; the address of the new node is
-- `fresh`.
unfoldable pub append : (ℕ → ℕ × ℕ) → Skls → (ℕ → ℕ) → Skls × ℕ
append draws list update =
    let lvl = randlv draws in
    let update' = λ (i : ℕ). if ltb i list.lv then update i else list.head in
    let x = list.fresh in
    (
      record list {
        count = list.count + 1;
        lv = if ltb list.lv lvl then lvl else list.lv;
        node = link_levels update' x lvl (set_node list.node x (mknode lvl));
        fresh = x + 1;
      },
      x,
    )

-- skls_count, along the lowest level.
unfoldable pub skls_count : ℕ → (ℕ → Sknd) → ℕ → ℕ → Option ℕ
skls_count zero node i rv = none
skls_count (suc fuel) node i rv = elim ((node i).fwd 0) [
  | some j ↦ skls_count fuel node j (rv + 1)
  | none ↦ some rv
]

module _ (order : Order) where
  -- The inner loop of skindex and of skfind: forward on the level i while the keys are less.
  unfoldable pub advance : ℕ → (ℕ → Sknd) → ℕ → Variable → ℕ → Option ℕ
  advance zero node i key x = none
  advance (suc fuel) node i key x =
      let step = λ (y : ℕ). advance fuel node i key y in
      elim ((node x).fwd i) [
        | some y ↦ if ltb_ℤ (order.compare (node y).k key) (pos 0) then step y else some x
        | none ↦ some x
      ]

  -- The outer loop, from the level i - 1 down to 0; `update` has the last node of each level.
  unfoldable pub descend : ℕ → (ℕ → Sknd) → Variable → ℕ → ℕ → (ℕ → ℕ) → Option (ℕ × (ℕ → ℕ))
  descend fuel node key zero x update = some (x, update)
  descend fuel node key (suc i) x update = advance fuel node i key x >>= λ y.
      descend fuel node key i y (λ j. if j == i then y else update j)

  -- skfind, as the value that the returned pointer is the address of; `none` is the end of the fuel.
  unfoldable pub skfind : Skls → Variable → Option Variable
  skfind list key = do
    (x, _) ← descend (list.count + 1) list.node key list.lv list.head (λ _. list.head)
    elim ((list.node x).fwd 0) [
      | some y ↦ if order.equals (list.node y).k key then some (list.node y).v else some nil
      | none ↦ some nil
    ]

  unfoldable pub skindex : (ℕ → ℕ × ℕ) → Skls → Variable → Option (Skls × ℕ)
  skindex draws list key = do
    (x, update) ← descend (list.count + 1) list.node key list.lv list.head (λ _. list.head)
    elim ((list.node x).fwd 0) [
      | some y ↦
          if order.equals (list.node y).k key
          then some (list, y)
          else some (append draws list update)
      | none ↦ some (append draws list update)
    ]

  -- *skls_put(vm, list, key) = v
  unfoldable pub skls_put : (ℕ → ℕ × ℕ) → Skls → Variable → Variable → Option Skls
  skls_put draws list key v = do
    guard (not (is_nil key))
    (list', x) ← skindex draws list key
    some (record list' { node = set_node list'.node x (record (list'.node x) { k = key; v = v }) })

  unfoldable pub skls_get : Skls → Variable → Option Variable
  skls_get list key = guard (not (is_nil key)) >> skfind list key
