-- ===== src/Stream.antt =====
-- zstream.h: the output buffer, which starts with a fixed block and moves to the heap, and the input
-- cursor. A copy past the end of a block and a failed assertion are `none`; the error texts and the
-- context of the input are left out.
pub mod Output
pub mod Writes
pub mod RoundTrip
mod Tests
use ymd.Common.{
  ℕ, zero, suc, ◌+◌, ◌-◌, ◌*◌, ◌^◌, leb, if◌then◌else◌, Option, none, some, ◌>>=◌, List, [], ◌∷◌,
  ◌++◌, length, take, drop, replicate,
}
use ymd.Common.Int.{ℤ}
use ymd.Dyay.{Memory}
use ymd.Encoding.{
  uint64encode, uint32encode, sint64encode, uint64decode, uint32decode, sint64decode,
}

-- MAX_STATIC_LEN, MAX_VARINT32_LEN and MAX_VARINT64_LEN
abbrev pub max_static_len : ℕ
max_static_len = 4096

abbrev pub max_varint32_len : ℕ
max_varint32_len = 5

abbrev pub max_varint64_len : ℕ
max_varint64_len = 10

-- struct zostream; `buf` is none for the null pointer.
pub record Zostream : Type 0 where
  pub kbuf : List ℕ
  pub buf : Option (List ℕ)
  pub last : ℕ
  pub max : ℕ

-- struct zistream
pub record Zistream : Type 0 where
  pub buf : List ℕ
  pub last : ℕ
  pub max : ℕ

-- ZOS_INIT
unfoldable pub zos_init : Zostream
zos_init = record { kbuf = replicate 4096 0; buf = none; last = 0; max = 4096 }

-- zos_final does not clear `err`, which is left out.
unfoldable pub zos_final : Zostream → Zostream
zos_final os = record { kbuf = replicate 4096 0; buf = none; last = 0; max = 4096 }

abbrev pub block : Option (List ℕ) → List ℕ → List ℕ
block (some buf) kbuf = buf
block none kbuf = kbuf

-- zos_buf
abbrev pub zos_buf : Zostream → List ℕ
zos_buf os = block os.buf os.kbuf

abbrev pub zos_remain : Zostream → ℕ
zos_remain os = os.max - os.last

-- A copy of `z` over the bytes from `at` on.
abbrev pub splice : List ℕ → ℕ → List ℕ → List ℕ
splice buf at z = take at buf ++ z ++ drop (at + length z) buf

abbrev pub overwrite : Option (List ℕ) → Zostream → List ℕ → Zostream
overwrite none os z = record os { kbuf = splice os.kbuf os.last z }
overwrite (some buf) os z = record os { buf = some (splice buf os.last z) }

-- memcpy(zos_last(os), z, k)
unfoldable pub copy_in : Zostream → List ℕ → Option Zostream
copy_in os z =
    if leb (os.last + length z) (length (zos_buf os)) then some (overwrite os.buf os z) else none

module _ (m : Memory ℕ) where
  -- calloc, or realloc of the block.
  abbrev pub enlarged : Option (List ℕ) → List ℕ → ℕ → ℕ → List ℕ
  enlarged none kbuf last max = take last kbuf ++ replicate (max - last) 0
  enlarged (some buf) kbuf last max = buf ++ m.slots (max - length buf)

  unfoldable pub zos_reserved : Zostream → ℕ → Zostream
  zos_reserved os k =
      let max = os.max * 2 in
      if leb (os.last + k) max_static_len
      then os
      else if leb (os.last + k) os.max
      then os
      else record os { max = max; buf = some (enlarged os.buf os.kbuf os.last max) }

  unfoldable pub zos_advance : Zostream → ℕ → Zostream
  unfolding zos_reserved
  zos_advance os k = let r = zos_reserved os k in record r { last = r.last + k }

  -- What the writers share: a reservation, the copy and the advance; the number of bytes is returned.
  abbrev pub put : Zostream → ℕ → List ℕ → Option (Zostream × ℕ)
  put os room z = do r ← copy_in (zos_reserved os room) z; some (zos_advance r (length z), length z)

  unfoldable pub zos_append : Zostream → List ℕ → Option Zostream
  unfolding zos_advance copy_in
  zos_append os z = do (r, k) ← put os (length z) z; some r

  unfoldable pub zos_u32 : Zostream → ℕ → Option (Zostream × ℕ)
  unfolding zos_advance copy_in
  zos_u32 os x = put os max_varint32_len (uint32encode x)

  unfoldable pub zos_u64 : Zostream → ℕ → Option (Zostream × ℕ)
  unfolding zos_advance copy_in
  zos_u64 os x = put os max_varint64_len (uint64encode x)

  unfoldable pub zos_i64 : Zostream → ℤ → Option (Zostream × ℕ)
  unfolding zos_advance copy_in
  zos_i64 os x = put os max_varint64_len (sint64encode x)

unfoldable pub zis_final : Zistream → Zistream
zis_final is = record is { last = 0 }

-- zis_reset calls zis_final, and sets the other fields.
abbrev pub zis_reset : List ℕ → ℕ → Zistream
zis_reset z k = record { buf = z; last = 0; max = k }

unfoldable pub zis_pipe : Zostream → Zistream
zis_pipe os = zis_reset (zos_buf os) os.last

abbrev pub zis_last : Zistream → List ℕ
zis_last is = drop is.last is.buf

unfoldable pub zis_advance : Zistream → ℕ → Option Zistream
zis_advance is k =
    if leb k (is.max - is.last) then some (record is { last = is.last + k }) else none

-- zis_fetch: the bytes copied out.
unfoldable pub zis_fetch : Zistream → ℕ → Option (List ℕ × Zistream)
unfolding zis_advance
zis_fetch is k = do r ← zis_advance is k; some (take k (zis_last is), r)

unfoldable pub zis_u32 : Zistream → Option (ℕ × Zistream)
unfolding zis_advance
zis_u32 is = do (x, k) ← uint32decode (zis_last is); r ← zis_advance is k; some (x, r)

unfoldable pub zis_u64 : Zistream → Option (ℕ × Zistream)
unfolding zis_advance
zis_u64 is = do (x, k) ← uint64decode (zis_last is); r ← zis_advance is k; some (x, r)

unfoldable pub zis_i64 : Zistream → Option (ℤ × Zistream)
unfolding zis_advance
zis_i64 is = do (x, k) ← sint64decode (zis_last is); r ← zis_advance is k; some (x, r)
