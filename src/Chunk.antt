-- ===== src/Chunk.antt =====
-- closure.c: the chunk of byte code that the compiler fills: instructions with their lines, constants
-- and the names of the locals. An array is the list of its entries in use, so its growth and its
-- shrinking are left out; the 16-bit counts wrap. Objects of the heap are their addresses.
pub mod Constants
pub mod Growth
mod Tests
use ymd.Common.{
  ℕ, zero, suc, ◌+◌, ◌%◌, ◌^◌, ltb, leb, ◌==◌, if◌then◌else◌, Bool, true, false, ◌&&◌, Option, none,
  some, List, [], ◌∷◌, ◌++◌, length, get_elem?, take,
}
use ymd.Common.Int.{ℤ, pos, negsuc}
use ymd.Asm.{asm_op}
use ymd.Kstr.{Kstr, Kpool, same_bytes, kstr_fetch}

-- struct variable, with the types T_NIL to T_MAND.
pub data Variable : Type 0 where
  nil : Variable
  int : ℤ → Variable
  bool : ℤ → Variable
  ext : ℕ → Variable
  kstr : Kstr → Variable
  func : ℕ → Variable
  dyay : ℕ → Variable
  hmap : ℕ → Variable
  skls : ℕ → Variable
  mand : ℕ → Variable

pub record Chunk : Type 0 where
  pub inst : List ℕ
  pub line : List ℕ
  pub kval : List Variable
  pub kkval : ℕ
  pub lz : List Kstr
  pub klz : ℕ
  pub kargs : ℕ

-- blk_emit; `none` is the failed assertion. The result is the number of instructions.
unfoldable pub blk_emit : Chunk → ℕ → ℕ → Option (Chunk × ℕ)
blk_emit core inst line =
    if asm_op inst % 5 == 0
    then some (
      record core { inst = core.inst ++ inst ∷ []; line = core.line ++ line ∷ [] },
      length core.inst + 1,
    )
    else none

unfoldable pub same_int : ℤ → ℤ → Bool
same_int (pos m) (pos n) = m == n
same_int (negsuc m) (negsuc n) = m == n
same_int (pos m) (negsuc n) = false
same_int (negsuc m) (pos n) = false

-- The tests in the loops of blk_kz, blk_ki and blk_kf.
unfoldable pub is_kstr : List ℕ → Variable → Bool
is_kstr z (kstr kz) = same_bytes kz.land z
is_kstr z _ = false

unfoldable pub is_int : ℤ → Variable → Bool
unfolding same_int
is_int n (int i) = same_int i n
is_int n _ = false

unfoldable pub is_func : ℕ → Variable → Bool
is_func p (func fn) = fn == p
is_func p _ = false

-- while (i--), on the constants below i.
unfoldable pub find_constant : (Variable → Bool) → ℕ → List Variable → Option ℕ
find_constant test zero kval = none
find_constant test (suc i) kval =
    let rest = find_constant test i kval in
    elim (get_elem? kval i) [ some var ↦ if test var then some i else rest | none ↦ rest ]

-- The write behind blk_klast, and core->kkval++.
abbrev pub add_constant : Chunk → Variable → Chunk × ℕ
add_constant core var = (
  record core { kval = take core.kkval core.kval ++ var ∷ []; kkval = (core.kkval + 1) % 2 ^ 16 },
  core.kkval,
)

unfoldable pub blk_ki : Chunk → ℤ → Chunk × ℕ
unfolding find_constant is_int
blk_ki core n = elim (find_constant (is_int n) core.kkval core.kval) [
  | some i ↦ (core, i)
  | none ↦ add_constant core (int n)
]

unfoldable pub blk_kf : Chunk → ℕ → Chunk × ℕ
unfolding find_constant is_func
blk_kf core p = elim (find_constant (is_func p) core.kkval core.kval) [
  | some i ↦ (core, i)
  | none ↦ add_constant core (func p)
]

-- blk_kz also fetches the string from the pool. `counted` tells whether `k` is the length of `z`: with
-- -1 for it the test of the length fails at every constant.
unfoldable pub blk_kz : ℕ → Bool → Chunk → Kpool → List ℕ → Kpool × Chunk × ℕ
unfolding find_constant is_kstr
blk_kz address counted core kt z =
    elim (find_constant (λ var. counted && is_kstr z var) core.kkval core.kval) [
      | some i ↦ (kt, core, i)
      | none ↦
          let (kz, kt') = kstr_fetch address z kt in
          let (core', i) = add_constant core (kstr kz) in (kt', core', i)
    ]

-- kz_find: the index of the first name equal to `z`, or the count.
unfoldable pub kz_find : List Kstr → List ℕ → ℕ
kz_find [] z = 0
kz_find (x ∷ kz) z = let rest = kz_find kz z in if same_bytes x.land z then 0 else rest + 1

unfoldable pub blk_find_lz : Chunk → List ℕ → ℤ
unfolding kz_find
blk_find_lz core z =
    let rv = kz_find (take core.klz core.lz) z in if leb core.klz rv then negsuc 0 else pos rv

unfoldable pub blk_add_lz : ℕ → Chunk → Kpool → List ℕ → Kpool × Chunk × ℤ
unfolding blk_find_lz
blk_add_lz address core kt z = elim (blk_find_lz core z) [
  | pos rv ↦ (kt, core, negsuc 0)
  | negsuc n ↦
      let (kz, kt') = kstr_fetch address z kt in
      let klz = (core.klz + 1) % 2 ^ 16 in
      let core' = record core { lz = take core.klz core.lz ++ kz ∷ []; klz = klz } in
      (kt', core', if klz == 0 then negsuc 0 else pos core.klz)
]
