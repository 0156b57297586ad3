-- ===== src/Stream/RoundTrip.antt =====
-- Numbers written to an output buffer are read back from it.
use ymd.Common.{
  ℕ, zero, suc, ◌+◌, ◌-◌, ◌^◌, ◌≤◌, ◌<◌, ◌≡◌, ◌∙◌, refl, sym, ap, arith, leb, true, Option, some,
  List, [], ◌∷◌, ◌++◌, length, take, drop, ◌>>=◌, All, length-append, drop_all, take-append-drop,
  length-take,
}
use mathlib.Core.List.{append_assoc, append-nil}
use ymd.Dyay.{Memory}
use ymd.Encoding.{uint64encode}
use ymd.Encoding.RoundTrip.{uint64decode-uint64encode}
use ymd.Stream.{Zostream, Zistream, zos_buf, zos_u64, zis_u64, zis_advance, zis_last, zis_pipe}
use ymd.Stream.Output.{IsValid, contents}
use ymd.Stream.Writes.{Puts, zos_u64_lem}

-- The calls of zos_u64 for each number in turn, and as many calls of zis_u64.
module _ (m : Memory ℕ) where
  abbrev pub write_all : Zostream → List ℕ → Option Zostream
  write_all os [] = some os
  write_all os (x ∷ xs) = do (r, k) ← zos_u64 m os x; write_all r xs

abbrev pub read_all : ℕ → Zistream → Option (List ℕ)
read_all zero is = some []
read_all (suc n) is = do (x, r) ← zis_u64 is; xs ← read_all n r; some (x ∷ xs)

abbrev encodings : List ℕ → List ℕ
encodings [] = []
encodings (x ∷ xs) = uint64encode x ++ encodings xs

write_all_lem :
    (m : Memory ℕ) (os : Zostream) (xs : List ℕ)
    → IsValid os
    → All (λ x. x < 2 ^ 64) xs
    → (next : Zostream) × (write_all m os xs ≡ some next) × Puts os (encodings xs) next
write_all_lem m os [] v h = (os, refl, record { valid = v; appended = sym (append-nil _) })
write_all_lem m os (x ∷ xs) v (small, rest) =
    let (next, e, puts) = zos_u64_lem m os x v small in
    let (last, e', puts') = write_all_lem m next xs puts.valid rest in
    (
      last,
      ap (λ o. o >>= λ (r : Zostream × ℕ). write_all m r.0 xs) e ∙ e',
      record {
        valid = puts'.valid;
        appended =
            puts'.appended
            ∙ ap (λ c. c ++ encodings xs) puts.appended
            ∙ append_assoc (contents os) (uint64encode x) (encodings xs);
      },
    )

drop_nil : (n : ℕ) → drop {A = ℕ} n [] ≡ []
drop_nil zero = refl
drop_nil (suc n) = refl

drop-drop : (a b : ℕ) (xs : List ℕ) → drop (a + b) xs ≡ drop b (drop a xs)
drop-drop zero b xs = ap (λ (n : ℕ). drop n xs) (omega arith)
drop-drop (suc a) b [] = drop_nil (suc a + b) ∙ sym (drop_nil b)
drop-drop (suc a) b (x ∷ xs) = ap (λ (n : ℕ). drop n (x ∷ xs)) shifted ∙ drop-drop a b xs
  where
    shifted : suc a + b ≡ suc (a + b)
    shifted = omega arith

zis_u64_lem :
    (is : Zistream) (x : ℕ) (rest : List ℕ)
    → x < 2 ^ 64
    → zis_last is ≡ uint64encode x ++ rest
    → is.last + length (uint64encode x) ≤ is.max
    → zis_u64 is ≡ some (x, record is { last = is.last + length (uint64encode x) })
unfolding zis_u64 zis_advance
zis_u64_lem is x rest small e h = rw (e, uint64decode-uint64encode x rest small, fits)
  where
    fits : leb (length (uint64encode x)) (is.max - is.last) ≡ true
    fits = ground arith

read_all_lem :
    (is : Zistream) (xs : List ℕ) (rest : List ℕ)
    → All (λ x. x < 2 ^ 64) xs
    → zis_last is ≡ encodings xs ++ rest
    → is.last + length (encodings xs) ≤ is.max
    → read_all (length xs) is ≡ some xs
read_all_lem is [] rest h e fits = refl
read_all_lem is (x ∷ xs) rest (small, h) e fits =
    let size = length-append (uint64encode x) (encodings xs) in
    let split : zis_last is ≡ uint64encode x ++ (encodings xs ++ rest) =
      e ∙ append_assoc (uint64encode x) (encodings xs) rest in
    let next = record is { last = is.last + length (uint64encode x) } in
    let left : zis_last next ≡ encodings xs ++ rest =
      drop-drop is.last (length (uint64encode x)) is.buf
      ∙ ap (drop (length (uint64encode x))) split
      ∙ drop_all (uint64encode x) (encodings xs ++ rest) in
    rw (
      zis_u64_lem is x _ small split (omega (arith, size)),
      read_all_lem next xs rest h left (omega (arith, size)),
    )

-- Numbers below 2 ^ 64 written by zos_u64 in turn to an empty, valid output buffer all go through, and
-- zis_u64 reads them back in order from the input that zis_pipe makes of the buffer.
pub read_all-write_all :
    (m : Memory ℕ) (os : Zostream) (xs : List ℕ)
    → IsValid os
    → os.last ≡ 0
    → All (λ x. x < 2 ^ 64) xs
    → (next : Zostream) × (write_all m os xs ≡ some next)
      × (read_all (length xs) (zis_pipe next) ≡ some xs)
unfolding zis_pipe
read_all-write_all m os xs v empty h =
    let (next, e, puts) = write_all_lem m os xs v h in
    let bytes : contents next ≡ encodings xs =
      puts.appended ∙ ap (λ (n : ℕ). take n (zos_buf os) ++ encodings xs) empty in
    let whole : zos_buf next ≡ encodings xs ++ drop next.last (zos_buf next) =
      sym (take-append-drop next.last (zos_buf next))
      ∙ ap (λ c. c ++ drop next.last (zos_buf next)) bytes in
    (
      next,
      e,
      read_all_lem (zis_pipe next) xs (drop next.last (zos_buf next)) h whole
          (omega (arith, ap length bytes, length-take next.last (zos_buf next))),
    )
