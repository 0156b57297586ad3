-- ===== src/Encoding/Literal/Numbers.antt =====
-- The numbers that xtoll and dtoll read, against the positional value of their digits.
use ymd.Common.{
  ℕ, ◌+◌, ◌-◌, ◌*◌, ◌%◌, ◌^◌, ◌≤◌, ◌<◌, ◌≡◌, ◌∙◌, refl, sym, ap, arith, bit_or, ltb, if◌then◌else◌,
  Bool, some, List, [], ◌∷◌, ◌++◌, map, reverse, length, length-append, All,
}
use ymd.Common.Bits.{bit_or-disjoint, bit_or_comm}
use mathlib.Core.List.{reverse-cons, map-append}
use native.Mathlib.Nat.{div-add-mod, mod-eq_of_lt, pow-zero, pow-suc, pow-le-pow_right}
use native.Mathlib.Numerals.{towards_suc}
use ymd.Encoding.Literal.{returns, xtol, dtol, xtoll_loop, xtoll, dtoll_loop, dtoll}

-- The positional value of digits, the highest first, and the lowest first.
abbrev pub value : ℕ → List ℕ → ℕ
value base [] = 0
value base (d ∷ ds) = d * base ^ length ds + value base ds

abbrev places : ℕ → List ℕ → ℕ
places base [] = 0
places base (d ∷ ds) = d + base * places base ds

abbrev pub Below : ℕ → List ℕ → Type 0
Below base ds = All (λ d. d < base) ds

places-append :
    (base d : ℕ) (ds : List ℕ) → places base (ds ++ d ∷ []) ≡ d * base ^ length ds + places base ds
places-append base d [] = omega (arith, ap (λ (t : ℕ). d * t) (pow-zero base))
places-append base d (e ∷ ds) = omega (
  arith,
  ap (λ (t : ℕ). base * t) (places-append base d ds),
  ap (λ (t : ℕ). d * t) (pow-suc base (length ds)),
)

length-reverse : (ds : List ℕ) → length (reverse ds) ≡ length ds
length-reverse [] = refl
length-reverse (d ∷ ds) =
    ap length (reverse-cons d ds)
    ∙ length-append (reverse ds) (d ∷ [])
    ∙ omega (arith, length-reverse ds)

places-reverse : (base : ℕ) (ds : List ℕ) → places base (reverse ds) ≡ value base ds
places-reverse base [] = refl
places-reverse base (d ∷ ds) =
    ap (places base) (reverse-cons d ds)
    ∙ places-append base d (reverse ds)
    ∙ omega (arith, places-reverse base ds, ap (λ (t : ℕ). d * base ^ t) (length-reverse ds))

map-reverse : (f : ℕ → ℕ) (ds : List ℕ) → map f (reverse ds) ≡ reverse (map f ds)
map-reverse f [] = refl
map-reverse f (d ∷ ds) =
    ap (map f) (reverse-cons d ds)
    ∙ map-append f (reverse ds) (d ∷ [])
    ∙ ap (λ (t : List ℕ). t ++ f d ∷ []) (map-reverse f ds)
    ∙ sym (reverse-cons (f d) (map f ds))

Below-append : (base : ℕ) (ds es : List ℕ) → Below base ds → Below base es → Below base (ds ++ es)
Below-append base [] es h k = k
Below-append base (d ∷ ds) es (hd, hs) k = (hd, Below-append base ds es hs k)

Below-reverse : (base : ℕ) (ds : List ℕ) → Below base ds → Below base (reverse ds)
Below-reverse base [] h = tt
Below-reverse base (d ∷ ds) (hd, hs) =
    rw (reverse-cons d ds)
      (Below-append base (reverse ds) (d ∷ []) (Below-reverse base ds hs) (hd, tt))

-- The characters of a decimal and of a hexadecimal digit, in either case.
abbrev pub dec_char : ℕ → ℕ
dec_char d = b'0' + d

abbrev pub hex_char : Bool → ℕ → ℕ
hex_char upper d = if ltb d 10 then b'0' + d else if upper then b'A' + (d - 10) else b'a' + (d - 10)

pub xtol-hex_char : (upper : Bool) (d : ℕ) → d < 16 → xtol (hex_char upper d) ≡ some d
unfolding xtol
xtol-hex_char upper d h = ground arith

dtol-dec_char : (d : ℕ) → d < 10 → dtol (dec_char d) ≡ some d
unfolding dtol
dtol-dec_char d h = ground arith

-- The loop of dtoll, from any power and any sum so far.
dtoll_loop-places :
    (ds : List ℕ) (pow rv : ℕ)
    → Below 10 ds
    → rv < 2 ^ 64
    → dtoll_loop (map dec_char ds) (pow % 2 ^ 64) rv ≡ some ((rv + pow * places 10 ds) % 2 ^ 64)
unfolding dtoll_loop
dtoll_loop-places [] pow rv h fits = ap some (omega arith)
dtoll_loop-places (d ∷ ds) pow rv (hd, hs) fits = rw (dtol-dec_char d hd) (
    ap (λ (t : ℕ). dtoll_loop (map dec_char ds) t rv') (omega arith)
    ∙ dtoll_loop-places ds (pow * 10) rv' hs (omega arith)
    ∙ ap some (omega (arith, ap (λ (t : ℕ). d * t) (div-add-mod pow (2 ^ 64)))))
  where
    rv' : ℕ
    rv' = (rv + d * (pow % 2 ^ 64)) % 2 ^ 64

dtoll_loop-value :
    (ds : List ℕ)
    → Below 10 ds
    → dtoll_loop (reverse (map dec_char ds)) 1 0 ≡ some (value 10 ds % 2 ^ 64)
dtoll_loop-value ds h =
    ap (λ (t : List ℕ). dtoll_loop t 1 0) (sym (map-reverse dec_char ds))
    ∙ dtoll_loop-places (reverse ds) 1 0 (Below-reverse 10 ds h) (omega arith)
    ∙ ap some (omega (arith, places-reverse 10 ds))

-- dtoll reads a run of decimal digits as its value modulo 2 ^ 64.
pub dtoll-value :
    (ds : List ℕ) → Below 10 ds → dtoll (map dec_char ds) ≡ some (value 10 ds % 2 ^ 64)
unfolding dtoll
dtoll-value [] h = dtoll_loop-value [] h
dtoll-value (d ∷ []) h = dtoll_loop-value (d ∷ []) h
dtoll-value (d ∷ e ∷ ds) h = ground (arith, dtoll_loop-value (d ∷ e ∷ ds) h)

-- A minus sign in front of one digit or more negates the value modulo 2 ^ 64.
pub dtoll-minus :
    (d : ℕ) (ds : List ℕ)
    → Below 10 (d ∷ ds)
    → dtoll (b'-' ∷ map dec_char (d ∷ ds)) ≡ some ((2 ^ 64 - value 10 (d ∷ ds) % 2 ^ 64) % 2 ^ 64)
unfolding dtoll
dtoll-minus d ds h = rw (dtoll_loop-value (d ∷ ds) h)

shift_four : (s : ℕ) → 2 ^ (s + 4) ≡ 16 * 2 ^ s
shift_four s = simp towards_suc (omega arith)

xtoll_loop-places :
    (upper : Bool) (ds : List ℕ) (shift rv : ℕ)
    → Below 16 ds
    → rv < 2 ^ shift
    → shift + 4 * length ds ≤ 64
    → xtoll_loop (map (hex_char upper) ds) shift rv ≡ some (rv + 2 ^ shift * places 16 ds)
unfolding xtoll_loop
xtoll_loop-places upper [] shift rv h fits room = ap some (omega arith)
xtoll_loop-places upper (d ∷ ds) shift rv (hd, hs) fits room = rw (xtol-hex_char upper d hd) (
    ap (λ (t : ℕ). xtoll_loop (map (hex_char upper) ds) (shift + 4) t) digit
    ∙ xtoll_loop-places upper ds (shift + 4) (rv + 2 ^ shift * d) hs
        (omega (arith, shift_four shift, product)) (omega arith)
    ∙ ap some (omega (arith, ap (λ (t : ℕ). t * places 16 ds) (shift_four shift))))
  where
    product : 2 ^ shift * d ≤ 2 ^ shift * 15
    product = grind arith

    word : d * 2 ^ shift < 2 ^ 64
    word = omega (
      arith,
      product,
      fits,
      shift_four shift,
      pow-le-pow_right {n = 2} (omega arith) {i = shift + 4} {j = 64} (omega arith),
    )

    digit : bit_or rv (d * 2 ^ shift % 2 ^ 64) ≡ rv + 2 ^ shift * d
    digit =
        ap (bit_or rv) (mod-eq_of_lt word)
        ∙ bit_or_comm rv (d * 2 ^ shift)
        ∙ bit_or-disjoint shift d rv fits
        ∙ omega arith

-- xtoll reads one to sixteen hexadecimal digits behind "0x", all in upper or all in lower case, as their value.
pub xtoll-value :
    (upper : Bool) (d : ℕ) (ds : List ℕ)
    → Below 16 (d ∷ ds)
    → length (d ∷ ds) ≤ 16
    → xtoll (b'0' ∷ b'x' ∷ map (hex_char upper) (d ∷ ds)) ≡ returns (some (value 16 (d ∷ ds)))
unfolding xtoll
xtoll-value upper d ds h room = ap returns (
    ap (λ (t : List ℕ). xtoll_loop t 0 0) (sym (map-reverse (hex_char upper) (d ∷ ds)))
    ∙ xtoll_loop-places upper (reverse (d ∷ ds)) 0 0 (Below-reverse 16 (d ∷ ds) h) (omega arith)
        (omega (arith, length-reverse (d ∷ ds)))
    ∙ ap some (omega (arith, places-reverse 16 (d ∷ ds))))
