-- ===== src/Stream/Tests.antt =====
-- Runs of the streams, and the theorems at concrete inputs.
use ymd.Common.{ℕ, ◌≡◌, refl, arith, none, some, [], ◌∷◌, replicate, length-replicate}
use ymd.Dyay.{Memory}
use ymd.Stream.{Zostream, zos_init, zos_append, copy_in, zos_reserved, zos_advance, zis_pipe}
use ymd.Stream.Output.{zos_init-IsValid}
use ymd.Stream.Writes.{Puts, zos_append_lem}
use ymd.Stream.RoundTrip.{write_all, read_all, read_all-write_all}

abbrev memory : Memory ℕ
memory = record { slots = λ n. replicate n 9; length-slots = λ n. length-replicate n 9 }

-- One doubling makes a block of 8192 bytes, too small for 9000: the copy runs past its end.
append_overrun : zos_append memory zos_init (replicate 9000 1) ≡ none
unfolding zos_append zos_init copy_in zos_reserved zos_advance
append_overrun = refl

zos_append_lem_example :
    (next : Zostream) × (zos_append memory zos_init (1 ∷ 2 ∷ []) ≡ some next)
    × Puts zos_init (1 ∷ 2 ∷ []) next
zos_append_lem_example = zos_append_lem memory zos_init (1 ∷ 2 ∷ []) zos_init-IsValid (omega arith)

last_of_zos_init : zos_init.last ≡ 0
unfolding zos_init
last_of_zos_init = refl

read_all-write_all_example :
    (next : Zostream) × (write_all memory zos_init (300 ∷ 7 ∷ []) ≡ some next)
    × (read_all 2 (zis_pipe next) ≡ some (300 ∷ 7 ∷ []))
read_all-write_all_example =
    read_all-write_all memory zos_init (300 ∷ 7 ∷ []) zos_init-IsValid last_of_zos_init
      (omega arith)
