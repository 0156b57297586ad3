-- ===== src/Stream/Writes.antt =====
-- What the writers of the output buffer do to its contents.
use ymd.Common.{ℕ, ◌+◌, ◌^◌, ◌≤◌, ◌<◌, ◌≡◌, ◌∙◌, ap, arith, some, List, ◌++◌, length, ◌>>=◌}
use ymd.Dyay.{Memory}
use ymd.Encoding.{uint64encode}
use ymd.Encoding.RoundTrip.{uint64encode-NeedsGroups}
use ymd.Stream.{
  Zostream, max_static_len, overwrite, zos_reserved, zos_advance, zos_append, put, zos_u64,
}
use ymd.Stream.Output.{
  IsValid, contents, Reserved, written, zos_reserved_lem, zos_advance_lem, copy_in_lem, same_last,
  written_lem,
}

-- What a write of the bytes `z` comes to.
pub record Puts (os : Zostream) (z : List ℕ) (next : Zostream) : Type 0 where
  pub valid : IsValid next
  pub appended : contents next ≡ contents os ++ z

module _ (m : Memory ℕ) where
  -- A reservation, the copy and the advance.
  pub put_lem :
      (os : Zostream) (room : ℕ) (z : List ℕ)
      → IsValid os
      → room ≤ max_static_len
      → length z ≤ room
      → (next : Zostream) × (put m os room z ≡ some (next, length z)) × Puts os z next
  put_lem os room z v h fits = (
    written r z,
    rw (copy_in_lem r z done.valid enough, advanced),
    record { valid = kept.0; appended = kept.1 ∙ ap (λ c. c ++ z) done.same },
  )
    where
      r : Zostream
      r = zos_reserved m os room

      done : Reserved m os r room
      done = zos_reserved_lem m os room v h

      enough : r.last + length z ≤ r.max
      enough = omega (arith, done.room)

      kept : IsValid (written r z) × (contents (written r z) ≡ contents r ++ z)
      kept = written_lem r z done.valid enough

      advanced : zos_advance m (overwrite r.buf r z) (length z) ≡ written r z
      advanced =
          zos_advance_lem m (overwrite r.buf r z) (length z)
            (omega (arith, (same_last r.buf r z).0, (same_last r.buf r z).1, enough))
          ∙ ap (λ (n : ℕ). record (overwrite r.buf r z) { last = n + length z })
              (same_last r.buf r z).0

  -- On a valid buffer zos_append of at most 4096 bytes goes through, and puts them behind the bytes
  -- written before, also where the buffer moves to the heap or is enlarged.
  pub zos_append_lem :
      (os : Zostream) (z : List ℕ)
      → IsValid os
      → length z ≤ max_static_len
      → (next : Zostream) × (zos_append m os z ≡ some next) × Puts os z next
  unfolding zos_append
  zos_append_lem os z v h =
      let (next, e, puts) = put_lem os (length z) z v h (omega arith) in
      (next, ap (λ o. o >>= λ (r : Zostream × ℕ). some r.0) e, puts)

  -- zos_u64 puts the encoding of the number behind the contents.
  pub zos_u64_lem :
      (os : Zostream) (x : ℕ)
      → IsValid os
      → x < 2 ^ 64
      → (next : Zostream) × (zos_u64 m os x ≡ some (next, length (uint64encode x)))
        × Puts os (uint64encode x) next
  unfolding zos_u64
  zos_u64_lem os x v h =
      put_lem os 10 (uint64encode x) v (omega arith) (uint64encode-NeedsGroups x h).1
