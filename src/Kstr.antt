-- ===== src/Kstr.antt =====
-- value.c and string.c: the hash and the order of strings, and the pool of interned strings. A
-- string object has the address that the allocator gave it; its marks for the collector are left out.
-- A bucket is the list of its nodes, the newest first.
pub mod Order
pub mod Buckets
pub mod Copies
pub mod Pool
pub mod Concat
mod Tests
use ymd.Common.{
  ℕ, zero, suc, ◌+◌, ◌-◌, ◌*◌, ◌/◌, ◌%◌, ◌^◌, bit_xor, ltb, leb, ◌==◌, if◌then◌else◌, Bool, true,
  false, ◌&&◌, Option, none, some, List, [], ◌∷◌, length, get_elem?, set, replicate,
}
use ymd.Common.Int.{ℤ, pos, negsuc}

-- struct kstr, whose `len` is the length of `land`; `hash` is 0 before it is computed.
pub record Kstr : Type 0 where
  pub address : ℕ
  pub hash : ℕ
  pub land : List ℕ

-- *z++ in kz_hash: a signed char, made a size_t.
abbrev size_of_char : ℕ → ℕ
size_of_char c = if ltb c 128 then c else c + (2 ^ 64 - 256)

unfoldable pub kz_hash_loop : List ℕ → ℕ → ℕ
kz_hash_loop [] n = n
kz_hash_loop (c ∷ z) n =
    kz_hash_loop z (bit_xor n ((n * 2 ^ 5 % 2 ^ 64 + size_of_char c + n / 2 ^ 2) % 2 ^ 64))

unfoldable pub kz_hash : List ℕ → ℕ
unfolding kz_hash_loop
kz_hash z = kz_hash_loop z 1315423911

-- The loop of kz_compare over the common length; `none` when no byte differs.
unfoldable pub first_difference : List ℕ → List ℕ → Option ℤ
first_difference [] z2 = none
first_difference (c ∷ z1) [] = none
first_difference (c ∷ z1) (d ∷ z2) =
    let rest = first_difference z1 z2 in
    if ltb c d then some (negsuc 0) else if ltb d c then some (pos 1) else rest

-- kz_compare: `same` tells whether the two pointers are equal.
unfoldable pub kz_compare : Bool → List ℕ → List ℕ → ℤ
kz_compare true z1 z2 = pos 0
kz_compare false z1 z2 = elim (first_difference z1 z2) [
  | some rv ↦ rv
  | none ↦
      if ltb (length z1) (length z2)
      then negsuc 0
      else if ltb (length z2) (length z1)
      then pos 1
      else pos 0
]

-- The lengths are equal, and memcmp finds no difference.
unfoldable pub same_bytes : List ℕ → List ℕ → Bool
same_bytes [] [] = true
same_bytes [] (d ∷ z2) = false
same_bytes (c ∷ z1) [] = false
same_bytes (c ∷ z1) (d ∷ z2) = (c == d) && same_bytes z1 z2

unfoldable pub kstr_equals : Kstr → Kstr → Bool
unfolding same_bytes
kstr_equals kz rhs = if kz.address == rhs.address then true else same_bytes kz.land rhs.land

unfoldable pub kstr_compare : Kstr → Kstr → ℤ
unfolding kz_compare
kstr_compare kz rhs = kz_compare (kz.address == rhs.address) kz.land rhs.land

-- kstr_hash: the object with its hash computed.
unfoldable pub kstr_hash : Kstr → Kstr
kstr_hash kz = if kz.hash == 0 then record kz { hash = kz_hash kz.land } else kz

-- struct kpool
pub record Kpool : Type 0 where
  pub slot : List (List Kstr)
  pub used : ℕ
  pub shift : ℕ

-- The list of slot i.
abbrev pub bucket : List (List Kstr) → ℕ → List Kstr
bucket slot i = elim (get_elem? slot i) [ some list ↦ list | none ↦ [] ]

-- kpool_copy2; kpool_insert puts a new node in the same way.
unfoldable pub kpool_copy2 : List (List Kstr) → Kstr → ℕ → List (List Kstr)
unfolding kstr_hash
kpool_copy2 slot x shift =
    let kz = kstr_hash x in let i = kz.hash % 2 ^ shift in set slot i (kz ∷ bucket slot i)

-- The loops of kpool_resize.
unfoldable pub copy_list : List Kstr → List (List Kstr) → ℕ → List (List Kstr)
copy_list [] slot shift = slot
copy_list (x ∷ next) slot shift = copy_list next (kpool_copy2 slot x shift) shift

unfoldable pub copy_slots : List (List Kstr) → List (List Kstr) → ℕ → List (List Kstr)
copy_slots [] slot shift = slot
copy_slots (list ∷ bak) slot shift = copy_slots bak (copy_list list slot shift) shift

unfoldable pub kpool_resize : Kpool → ℕ → Kpool
unfolding copy_slots copy_list kpool_copy2
kpool_resize kt shift = record kt {
  slot = copy_slots kt.slot (replicate (2 ^ shift) []) shift;
  shift = shift;
}

-- kstr_new: `address` is that of the block that the allocator hands out.
abbrev pub kstr_new : ℕ → List ℕ → Kstr
kstr_new address z = record { address = address; hash = 0; land = z }

abbrev pub with_room : Kpool → Kpool
with_room kt = if leb (2 ^ kt.shift) kt.used then kpool_resize kt (kt.shift + 1) else kt

unfoldable pub kpool_insert : ℕ → List ℕ → Kpool → Kstr × Kpool
unfolding kpool_resize kpool_copy2 kstr_hash
kpool_insert address z kt =
    let r = with_room kt in
    let kz = kstr_new address z in
    (kstr_hash kz, record r { slot = kpool_copy2 r.slot kz r.shift; used = r.used + 1 })

-- The loop of kpool_index.
unfoldable pub find : List ℕ → List Kstr → Option Kstr
find z [] = none
find z (x ∷ next) = let rest = find z next in if same_bytes x.land z then some x else rest

unfoldable pub kpool_index : ℕ → List ℕ → Kpool → Kstr × Kpool
unfolding find kpool_insert
kpool_index address z kt = elim (find z (bucket kt.slot (kz_hash z % 2 ^ kt.shift))) [
  | some x ↦ (x, kt)
  | none ↦ kpool_insert address z kt
]

-- MAX_KPOOL_LEN
abbrev pub max_kpool_len : ℕ
max_kpool_len = 40

-- kstr_fetch, where `z` has the `count` characters, or all up to the NUL for a negative `count`.
unfoldable pub kstr_fetch : ℕ → List ℕ → Kpool → Kstr × Kpool
unfolding kpool_index
kstr_fetch address z kt =
    if ltb (length z) max_kpool_len then kpool_index address z kt else (kstr_new address z, kt)

unfoldable pub kpool_init : Kpool
kpool_init = record { slot = replicate (2 ^ 8) []; used = 0; shift = 8 }

-- The loops of kpool_final, which count the nodes that they delete.
unfoldable pub count_slots : List (List Kstr) → ℕ
count_slots [] = 0
count_slots (list ∷ slot) = length list + count_slots slot

-- kpool_final; `none` is the failed assertion that no node is left.
unfoldable pub kpool_final : Kpool → Option Kpool
unfolding count_slots
kpool_final kt =
    if count_slots kt.slot == kt.used
    then some (record { slot = []; used = 0; shift = 0 })
    else none
