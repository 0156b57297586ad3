-- ===== src/HashMap.antt =====
-- hash_map.c: the hash map with chains inside one block of items. A slot is an index into the block,
-- which is a function from an index to its item: every index that the code computes is below
-- 2 ^ shift. The addresses of items in hmap_put and hmap_get are the indices.
pub mod Chains
pub mod Walk
pub mod Valid
pub mod Stored
pub mod Count
pub mod Head
pub mod Append
pub mod Replace
pub mod Displace
pub mod Put
pub mod Move
pub mod Resize
pub mod Refine
use ymd.Common.{
  ℕ, zero, suc, ◌+◌, ◌-◌, ◌%◌, ◌^◌, bit_or, ltb, ◌==◌, if◌then◌else◌, Bool, true, false, not, ◌&&◌,
  Option, none, some, ◌>>=◌, ◌>>◌, guard,
}
use ymd.Chunk.{Variable, nil}

-- KVI_FREE, KVI_SLOT and KVI_NODE
pub data Flag : Type 0 where
  free : Flag
  slot : Flag
  node : Flag

-- flag != KVI_FREE
abbrev pub taken : Flag → Bool
taken free = false
taken slot = true
taken node = true

-- struct kvi
pub record Item : Type 0 where
  pub next : Option ℕ
  pub hash : ℕ
  pub k : Variable
  pub v : Variable
  pub flag : Flag

-- struct hmap, where `free` is the index of the last item.
pub record Hmap : Type 0 where
  pub shift : ℕ
  pub item : ℕ → Item
  pub free : ℕ

-- `hash` and `equals` of two variables, on the heap as it stands, with the variables that the map is
-- used with as keys.
pub record Keys : Type 0 where
  pub hash : Variable → ℕ
  pub equals : Variable → Variable → Bool
  pub usable : Variable → Bool

-- An item of zero bytes, as mm_zalloc hands it out.
abbrev pub zeroed : Item
zeroed = record { next = none; hash = 0; k = nil; v = nil; flag = free }

-- The writes through a pointer to one item.
unfoldable pub modify : (ℕ → Item) → ℕ → (Item → Item) → ℕ → Item
modify item i write j = if i == j then write (item i) else item j

-- The loop of log2x, with `r` of its 32 rounds to go; `none` is the failed assertion. The int
-- 1 << 31 is negative.
unfoldable pub log2x_loop : ℕ → ℕ → ℕ → Option ℕ
log2x_loop zero i n = none
log2x_loop (suc r) i n =
    let rest = log2x_loop r (i + 1) n in if ltb i 31 && ltb n (2 ^ i) then some i else rest

unfoldable pub log2x : ℕ → Option ℕ
log2x n = log2x_loop 32 0 n

-- position: h - 1 wraps for the hash 0.
unfoldable pub position : ℕ → ℕ → ℕ
position shift h = bit_or ((h + (2 ^ 64 - 1)) % 2 ^ 64) 1 % 2 ^ shift

abbrev pub is_nil : Variable → Bool
is_nil nil = true
is_nil _ = false

-- hmap_new; a count that is not positive is 0. `none` is a failed assertion.
unfoldable pub hmap_new : ℕ → Option Hmap
hmap_new count = do
  shift ← if count == 0 then some 5 else log2x count
  guard (ltb 0 shift)
  some (record { shift = shift; item = λ _. zeroed; free = 2 ^ shift - 1 })

-- The loop of hmap_count over the first `n` items.
unfoldable pub count_below : (ℕ → Item) → ℕ → ℕ
count_below item zero = 0
count_below item (suc n) =
    let rest = count_below item n in if taken (item n).flag then rest + 1 else rest

unfoldable pub hmap_count : Hmap → ℕ
hmap_count map = count_below map.item (2 ^ map.shift)

-- The loop of alloc_free from the index `i` down to 1: the first item is never given out.
unfoldable pub alloc_from : (ℕ → Item) → ℕ → Option ℕ
alloc_from item zero = none
alloc_from item (suc i) =
    let rest = alloc_from item i in if taken (item (suc i)).flag then rest else some (suc i)

unfoldable pub alloc_free : Hmap → Option ℕ
alloc_free map = alloc_from map.item map.free

-- prev->next == slot
abbrev pub links_to : Option ℕ → ℕ → Bool
links_to none i = false
links_to (some j) i = j == i

-- The loop of index_if_node that finds the item before `i`; `none` is the failed assertion, or
-- the end of the fuel.
unfoldable pub find_prev : ℕ → (ℕ → Item) → ℕ → ℕ → Option ℕ
find_prev zero item i prev = none
find_prev (suc fuel) item i prev =
    let rest : Option ℕ = elim ((item prev).next) [
      | some j ↦ find_prev fuel item i j
      | none ↦ none
    ] in
    if links_to (item prev).next i then some prev else rest

-- How a loop over a chain ends: at the item with the key, or behind the last item `pos`.
pub data Search : Type 0 where
  found : ℕ → Search
  missed : ℕ → Search
  unfinished : Search

-- The write of the key, and of the value through the pointer that hmap_put returned.
abbrev pub written : Hmap → ℕ → Variable → Variable → Hmap
written map i key v = record map {
  item = modify map.item i (λ (x : Item). record x { k = key; v = v });
}

-- *hmap_put(vm, map, key) = v, where `index` is hindex.
unfoldable pub put_with :
    (Hmap → Variable → Option (Hmap × ℕ)) → Hmap → Variable → Variable → Option Hmap
put_with index map key v = do
  guard (not (is_nil key))
  (map', i) ← index map key
  some (written map' i key v)

module _ (index : Hmap → Variable → Option (Hmap × ℕ)) where
  -- The loop of resize over the first `n` items of the old block.
  unfoldable pub rehash : (ℕ → Item) → ℕ → Hmap → Option Hmap
  rehash bak zero map = some map
  rehash bak (suc n) map = rehash bak n map >>= λ map'.
      if taken (bak n).flag then put_with index map' (bak n).k (bak n).v else some map'

  unfoldable pub resize : Hmap → ℕ → Option Hmap
  resize map shift =
      guard (ltb map.shift shift)
      >> rehash map.item (if map.shift == 0 then 0 else 2 ^ map.shift)
          (record { shift = shift; item = λ _. zeroed; free = 2 ^ shift - 1 })

module _ (keys : Keys) where
  -- i->hash == h && equals(&i->k, key)
  abbrev pub matches : Item → ℕ → Variable → Bool
  matches x h key = (x.hash == h) && keys.equals x.k key

  -- The loop of hfind and of index_if_head.
  unfoldable pub search_chain : ℕ → (ℕ → Item) → ℕ → Variable → ℕ → Search
  search_chain zero item h key i = unfinished
  search_chain (suc fuel) item h key i =
      let rest : Search = elim ((item i).next) [
        | some j ↦ search_chain fuel item h key j
        | none ↦ missed i
      ] in
      if matches (item i) h key then found i else rest

  -- hfind, as the value that the returned pointer is the address of; `none` is the end of the fuel.
  unfoldable pub hfind : Hmap → Variable → Option Variable
  hfind map key =
      let i = position map.shift (keys.hash key) in
      elim ((map.item i).flag) [
        | slot ↦ elim (search_chain (2 ^ map.shift) map.item (keys.hash key) key i) [
          | found j ↦ some (map.item j).v
          | missed pos ↦ some nil
          | unfinished ↦ none
        ]
        | _ ↦ some nil
      ]

  -- hmap_get; `none` is the failed assertion.
  unfoldable pub hmap_get : Hmap → Variable → Option Variable
  hmap_get map key = guard (not (is_nil key)) >> hfind map key

  -- What follows a failed alloc_free: the resize, and the second hindex.
  module _ (grow : Hmap → Option (Hmap × ℕ)) where
    unfoldable pub index_if_head : Hmap → Variable → ℕ → ℕ → Option (Hmap × ℕ)
    index_if_head map key i h = elim (search_chain (2 ^ map.shift) map.item h key i) [
      | found j ↦ some (map, j)
      | missed pos ↦ elim (alloc_free map) [
        | some fnd ↦
            let next = (map.item pos).next in
            let item =
              modify map.item fnd λ (x : Item). record x { hash = h; flag = node; next = next } in
            some (
              record map { item = modify item pos (λ (x : Item). record x { next = some fnd }) },
              fnd,
            )
        | none ↦ grow map
      ]
      | unfinished ↦ none
    ]

    unfoldable pub index_if_node : Hmap → Variable → ℕ → ℕ → Option (Hmap × ℕ)
    index_if_node map key i h = elim (alloc_free map) [
      | some fnd ↦ do
        let slot_h = keys.hash (map.item i).k
        prev ← find_prev (2 ^ map.shift) map.item i (position map.shift slot_h)
        let x = map.item i
        let item = modify map.item fnd (λ (_ : Item). record x { hash = slot_h; flag = node })
        let item' = modify item prev (λ (y : Item). record y { next = some fnd })
        some (
          record map {
            item = modify item' i (λ (y : Item). record y { hash = h; flag = slot; next = none });
          },
          i,
        )
      | none ↦ grow map
    ]

    -- hindex, as the index of the item for the key.
    unfoldable pub hindex_with : Hmap → Variable → Option (Hmap × ℕ)
    hindex_with map key =
        let h = keys.hash key in
        let i = position map.shift h in
        elim ((map.item i).flag) [
          | free ↦ some (
            record map {
              item = modify map.item i (λ (x : Item). record x { flag = slot; hash = h });
            },
            i,
          )
          | slot ↦ index_if_head map key i h
          | node ↦ index_if_node map key i h
        ]

  -- hindex and resize call one another: `fuel` bounds the depth of the calls, and at its end the
  -- result is `none`.
  unfoldable pub hindex : ℕ → Hmap → Variable → Option (Hmap × ℕ)
  hindex zero map key = none
  hindex (suc fuel) map key =
      hindex_with
        (λ (full : Hmap).
          resize (hindex fuel) full (full.shift + 1) >>= λ map'. hindex fuel map' key)
        map key

  -- *hmap_put(vm, map, key) = v. A table is grown once at most, which is a depth of two.
  unfoldable pub hmap_put : Hmap → Variable → Variable → Option Hmap
  hmap_put map key v = put_with (hindex 2) map key v
