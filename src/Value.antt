-- ===== src/Value.antt =====
-- hash_map.c, value.c and dynamic_array.c: the hash, the equality and the order of two variables at
-- different addresses. An object of the heap is found by its address; a skip list stands here as its
-- pairs in the order of the lowest level, with its own comparisons as given. The functions call one
-- another through the containers: `depth` bounds that nesting, below which they return 0. Where the
-- assertion of a default case fails, the value is the 0 that stands behind it.
pub mod Lawful
pub mod Order
mod Tests
use ymd.Common.{
  ℕ, zero, suc, ◌+◌, ◌-◌, ◌*◌, ◌/◌, ◌%◌, ◌^◌, bit_xor, ltb, ◌==◌, if◌then◌else◌, Bool, true, false,
  ◌&&◌, ◌||◌, Option, none, some, List, [], ◌∷◌, get_elem?, length,
}
use ymd.Common.Int.{ℤ, pos, negsuc, ltb_ℤ, pos_part, neg_part, sub_ℕ}
use ymd.Kstr.{Kstr, kz_hash, kz_compare, same_bytes, kstr_equals, kstr_compare}
use ymd.Dyay.{Dyay, dyay_equals}
use ymd.Chunk.{Variable, nil, int, bool, ext, kstr, func, dyay, hmap, skls, mand, same_int}
use ymd.HashMap.{Hmap, Item, Keys, taken, hfind, hmap_count}

-- struct mand, without its type name and its metatable.
pub record Mand : Type 0 where
  pub final : ℕ
  pub land : List ℕ

pub record Heap : Type 0 where
  pub dyay_at : ℕ → Dyay Variable
  pub hmap_at : ℕ → Hmap
  pub skls_at : ℕ → List (Variable × Variable)
  pub mand_at : ℕ → Mand
  pub skls_equals : ℕ → ℕ → Bool
  pub skls_compare : ℕ → ℕ → ℤ

-- hash_int: an ymd_int_t made a size_t.
abbrev pub hash_int : ℤ → ℕ
hash_int (pos n) = n % 2 ^ 64
hash_int (negsuc n) = 2 ^ 64 - 1 - n

abbrev pub hash_bool : ℤ → ℕ
hash_bool (pos zero) = 2
hash_bool _ = 3

-- hash_ext: sizeof(void*) is 8.
abbrev pub hash_ext : ℕ → ℕ
hash_ext p = p / 8

-- hash_kstr: the hash is computed when it is first asked for.
abbrev pub hash_of_kstr : Kstr → ℕ
hash_of_kstr kz = if kz.hash == 0 then kz_hash kz.land else kz.hash

unfoldable pub hash_mand : Mand → ℕ
hash_mand pm = bit_xor (hash_ext pm.final) (kz_hash pm.land)

module _ (hash : Variable → ℕ) where
  -- The loop of hash_dyay, with `n` elements to go.
  unfoldable pub hash_elems : ℕ → List Variable → ℕ → ℕ
  hash_elems zero elem h = h
  hash_elems (suc i) elem h = hash_elems i elem (elim (get_elem? elem i) [
    | some v ↦ if i % 2 == 0 then (h + hash v) % 2 ^ 64 else bit_xor h (hash v)
    | none ↦ h
  ])

  -- i * i as an int that wraps around, made a size_t.
  abbrev int_square : ℕ → ℕ
  int_square i = let p = i * i % 2 ^ 32 in if ltb p (2 ^ 31) then p else p + (2 ^ 64 - 2 ^ 32)

  unfoldable pub hash_dyay : Dyay Variable → ℕ
  unfolding hash_elems
  hash_dyay arr = hash_elems arr.count arr.elem (int_square arr.count)

  abbrev mix : Variable → Variable → ℕ → ℕ
  mix k v h = bit_xor ((h + hash k) % 2 ^ 64) (hash v)

  -- The loop of hash_hmap, with `n` items to go.
  unfoldable pub hash_items : ℕ → (ℕ → Item) → ℕ → ℕ
  hash_items zero item h = h
  hash_items (suc i) item h =
      hash_items i item (if taken (item i).flag then mix (item i).k (item i).v h else h)

  unfoldable pub hash_hmap : Hmap → ℕ
  unfolding hash_items
  hash_hmap map = hash_items (2 ^ map.shift) map.item 0

  -- The loop of hash_skls along the lowest level.
  unfoldable pub hash_skls : List (Variable × Variable) → ℕ → ℕ
  hash_skls [] h = h
  hash_skls ((k, v) ∷ list) h = hash_skls list (mix k v h)

  abbrev pub hash_with : Heap → Variable → ℕ
  hash_with heap nil = 0
  hash_with heap (int i) = hash_int i
  hash_with heap (bool i) = hash_bool i
  hash_with heap (ext p) = hash_ext p
  hash_with heap (kstr kz) = hash_of_kstr kz
  hash_with heap (func p) = 0
  hash_with heap (dyay p) = hash_dyay (heap.dyay_at p)
  hash_with heap (hmap p) = hash_hmap (heap.hmap_at p)
  hash_with heap (skls p) = hash_skls (heap.skls_at p) 0
  hash_with heap (mand p) = hash_mand (heap.mand_at p)

module _ (keys : Keys) where
  -- The loop of hmap_equals, with `n` items to go; the number of equal ones, or `none` at an
  -- unequal one.
  unfoldable pub equal_items : ℕ → Hmap → Hmap → ℕ → Option ℕ
  equal_items zero map rhs count = some count
  equal_items (suc i) map rhs count =
      let rest = equal_items i map rhs count in
      let rest' = equal_items i map rhs (count + 1) in
      if taken (map.item i).flag
      then elim (hfind keys rhs (map.item i).k) [
        | some v ↦ if keys.equals (map.item i).v v then rest' else none
        | none ↦ none
      ]
      else rest

  -- hmap_equals, where `same` tells whether the two pointers are equal.
  unfoldable pub hmap_equals : Bool → Hmap → Hmap → Bool
  unfolding equal_items
  hmap_equals same map rhs =
      if same
      then true
      else if 2 ^ map.shift == 2 ^ rhs.shift
      then elim (equal_items (2 ^ map.shift) map rhs 0) [
        | some count ↦ count == hmap_count rhs
        | none ↦ false
      ]
      else false

  unfoldable pub equals_with : Heap → Variable → Variable → Bool
  unfolding hmap_equals
  equals_with heap nil nil = true
  equals_with heap (int i) (int j) = same_int i j
  equals_with heap (bool i) (bool j) = same_int i j
  equals_with heap (kstr kz) (kstr rhs) = kstr_equals kz rhs
  equals_with heap (func p) (func q) = p == q
  equals_with heap (ext p) (ext q) = p == q
  equals_with heap (dyay p) (dyay q) =
      dyay_equals (p == q) keys.equals (heap.dyay_at p) (heap.dyay_at q)
  equals_with heap (hmap p) (hmap q) = hmap_equals (p == q) (heap.hmap_at p) (heap.hmap_at q)
  equals_with heap (skls p) (skls q) = heap.skls_equals p q
  equals_with heap _ _ = false

-- The scalars, and the strings as they stand on the heap: `text` is what is stored at an address.
abbrev pub usable : (ℕ → List ℕ) → Variable → Bool
usable text (int i) = true
usable text (bool i) = true
usable text (ext p) = true
usable text (kstr kz) =
    same_bytes (text kz.address) kz.land && ((kz.hash == 0) || (kz.hash == kz_hash kz.land))
usable text _ = false

-- hash and equals, as a map uses them.
unfoldable pub keys_of : ℕ → (ℕ → List ℕ) → Heap → Keys
keys_of zero text heap = record { hash = λ v. 0; equals = λ a b. false; usable = usable text }
keys_of (suc depth) text heap =
    let inner = keys_of depth text heap in
    record {
      hash = hash_with inner.hash heap;
      equals = equals_with inner heap;
      usable = usable text;
    }
