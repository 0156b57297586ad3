-- ===== src/Encoding/RoundTrip.antt =====
-- Decoding reads back what encoding wrote, and leaves what follows it.
use ymd.Common.{
  ℕ, zero, suc, ◌+◌, ◌*◌, ◌/◌, ◌^◌, ◌≤◌, ◌<◌, ◌≡◌, ◌≢◌, ◌⊎◌, ◌∙◌, refl, sym, ap, subst, ==_iff,
  bit_and, bit_or, arith, ◌==◌, Bool-cases, inl, inr, List, ◌∷◌, ◌++◌, length, some,
}
use ymd.Common.Bits.{one-le-two_pow, bit_and-field, bit_or-disjoint, bit_or_comm}
use native.Mathlib.Nat.{div-div-eq-div-mul, div-eq_of_lt, div-mul-le_self, div-lt_iff_lt-mul}
use native.Mathlib.Numerals.{towards_suc}
use ymd.Encoding.{
  group, fill, try_group, uint64encode, uint32encode, uint64decode_loop, uint64decode, uint32decode,
}
use ymd.Encoding.Varint.{group_lem, skip_group, leading, uint64encode-leading, uint32encode-leading}

pow_seven : (c : ℕ) → 2 ^ (suc c * 7) ≡ 2 ^ (c * 7) * 128
pow_seven c = ap (λ (t : ℕ). 2 ^ t) sevens ∙ simp towards_suc (omega arith)
  where
    sevens : suc c * 7 ≡ c * 7 + 7
    sevens = omega arith

-- The groups above the next one are those above it shifted by seven bits.
next_groups : (x c : ℕ) → x / 2 ^ (suc c * 7) ≡ x / 2 ^ (c * 7) / 128
next_groups x c = ap (λ (t : ℕ). x / t) (pow_seven c) ∙ sym (div-div-eq-div-mul x (2 ^ (c * 7)) 128)

flagged : (by : ℕ) → by < 128 → bit_or by 0x80 ≡ by + 128
flagged by h = bit_or_comm by 0x80 ∙ bit_or-disjoint 7 1 by h ∙ omega arith

masked : (by : ℕ) → by < 128 → bit_and (bit_or by 0x80) 0x7f ≡ by
masked by h = omega (arith, flagged by h, bit_and-field 7 0 (bit_or by 0x80))

module _ (rest : List ℕ) where
  last_byte :
      (a by i : ℕ)
      → by < 128
      → uint64decode_loop (by ∷ rest) i (a * 2 ^ 7) ≡ some (a * 2 ^ 7 + by, i + 1)
  unfolding uint64decode_loop
  last_byte a by i h = ground (arith, bit_or-disjoint 7 a by h)

  inner_byte :
      (a by i : ℕ) (more : List ℕ)
      → by < 128
      → (a * 2 ^ 7 + by) * 2 ^ 7 < 2 ^ 64
      → uint64decode_loop (bit_or by 0x80 ∷ more) i (a * 2 ^ 7)
        ≡ uint64decode_loop more (i + 1) ((a * 2 ^ 7 + by) * 2 ^ 7)
  unfolding uint64decode_loop
  inner_byte a by i more h fits = ground (
    arith,
    flagged by h,
    bit_and-field 7 0 (bit_or by 0x80),
    bit_or-disjoint 7 a by h,
    ap (λ (t : ℕ). bit_or (a * 2 ^ 7) t) (masked by h),
  )

  decode-fill :
      (c x a by i : ℕ)
      → by < 128
      → x < 2 ^ 64
      → a * 2 ^ 7 + by ≡ x / 2 ^ (c * 7)
      → uint64decode_loop (fill c x by ++ rest) i (a * 2 ^ 7) ≡ some (x, i + suc c)
  unfolding fill
  decode-fill zero x a by i h fits e =
      last_byte a by i h ∙ ap (λ (t : ℕ). some (t, i + 1)) (omega arith)
  decode-fill (suc c) x a by i h fits e =
      inner_byte a by i _ h (omega (arith, shifted, div-mul-le_self x (2 ^ (c * 7))))
      ∙ decode-fill c x (a * 2 ^ 7 + by) (group x c) (i + 1) (omega (arith, group_lem x c)) fits
          (omega (arith, group_lem x c, shifted))
      ∙ ap (λ (t : ℕ). some (x, t)) (omega arith)
    where
      shifted : a * 2 ^ 7 + by ≡ x / 2 ^ (c * 7) / 128
      shifted = e ∙ next_groups x c

length-fill : (c x by : ℕ) → length (fill c x by) ≡ suc c
unfolding fill
length-fill zero x by = refl
length-fill (suc c) x by = ap suc (length-fill c x (group x c))

-- The top group is the whole quotient; where it is zero the number needs one group less.
module _ (c x : ℕ) (h : x < 2 ^ (suc (suc c) * 7)) where
  top_lt : x / 2 ^ (suc c * 7) < 128
  top_lt = (div-lt_iff_lt-mul (one-le-two_pow (suc c * 7))).1 (omega (arith, pow_seven (suc c), h))

  top_zero : group x (suc c) ≡ 0 → x < 2 ^ (suc c * 7)
  top_zero z = omega (
    arith,
    (div-lt_iff_lt-mul {x = x} {y = 1} (one-le-two_pow (suc c * 7))).0
        (omega (arith, group_lem x (suc c), top_lt)),
  )

  top_nonzero : group x (suc c) ≢ 0 → 2 ^ (suc c * 7) ≤ x
  top_nonzero nz = ground (arith, small, group_lem x (suc c))
    where
      small : x < 2 ^ (suc c * 7) → x / 2 ^ (suc c * 7) ≡ 0
      small l = div-eq_of_lt l

decode-leading :
    (c x : ℕ) (rest : List ℕ)
    → x < 2 ^ (suc c * 7)
    → x < 2 ^ 64
    → uint64decode_loop (leading c x ++ rest) 0 0 ≡ some (x, length (leading c x))
unfolding leading try_group
decode-leading zero x rest h fits =
    decode-fill rest zero x 0 (group x 0) 0 (omega (arith, group_lem x 0)) fits
      (omega (arith, group_lem x 0))
    ∙ ap (λ (t : ℕ). some (x, t)) (omega (arith, length-fill 0 x (group x 0)))
decode-leading (suc c) x rest h fits = elim (Bool-cases (group x (suc c) == 0)) [
  | inl e ↦
      rw (skip_group (suc c) x (leading c x) ((==_iff _ _).0 e))
        (decode-leading c x rest (top_zero c x h ((==_iff _ _).0 e)) fits)
  | inr e ↦
      rw (e, try_group)
        (decode-fill rest (suc c) x 0 (group x (suc c)) 0 (omega (arith, group_lem x (suc c))) fits
            (omega (arith, group_lem x (suc c), top_lt c x h))
          ∙ ap (λ (t : ℕ). some (x, t)) (omega (arith, length-fill (suc c) x (group x (suc c)))))
]

-- uint64decode, on the bytes that uint64encode writes and anything behind them, returns the number
-- and the count of bytes written.
pub uint64decode-uint64encode :
    (x : ℕ) (rest : List ℕ)
    → x < 2 ^ 64
    → uint64decode (uint64encode x ++ rest) ≡ some (x, length (uint64encode x))
unfolding uint64decode
uint64decode-uint64encode x rest h =
    rw (uint64encode-leading x h) (decode-leading 9 x rest (omega arith) h)

-- Groups from the fifth on are zero in a 32-bit number.
leading_narrow : (x : ℕ) → x < 2 ^ 32 → leading 9 x ≡ leading 4 x
unfolding leading
leading_narrow x h =
    skip_group 9 x _ (omega (arith, group_lem x 9))
    ∙ skip_group 8 x _ (omega (arith, group_lem x 8))
    ∙ skip_group 7 x _ (omega (arith, group_lem x 7))
    ∙ skip_group 6 x _ (omega (arith, group_lem x 6))
    ∙ skip_group 5 x _ (omega (arith, group_lem x 5))

-- On 32-bit numbers the two encoders write the same bytes.
pub uint32encode-uint64encode : (x : ℕ) → x < 2 ^ 32 → uint32encode x ≡ uint64encode x
uint32encode-uint64encode x h =
    uint32encode-leading x h ∙ sym (leading_narrow x h) ∙ sym (uint64encode-leading x (omega arith))

-- uint32decode reads back what uint32encode wrote, whatever follows it.
pub uint32decode-uint32encode :
    (x : ℕ) (rest : List ℕ)
    → x < 2 ^ 32
    → uint32decode (uint32encode x ++ rest) ≡ some (x, length (uint32encode x))
unfolding uint32decode
uint32decode-uint32encode x rest h =
    rw (uint32encode-uint64encode x h, uint64decode-uint64encode x rest (omega arith))
      (ap (λ (t : ℕ). some (t, length (uint64encode x))) (omega arith))

-- `n` groups of seven bits hold the number, and fewer do not.
abbrev pub NeedsGroups : ℕ → ℕ → Type 0
NeedsGroups x zero = ⊥
NeedsGroups x (suc n) = (x < 2 ^ (suc n * 7)) × ((n ≡ 0) ⊎ (2 ^ (n * 7) ≤ x))

leading-NeedsGroups :
    (c x : ℕ)
    → x < 2 ^ (suc c * 7)
    → NeedsGroups x (length (leading c x)) × (length (leading c x) ≤ suc c)
unfolding leading try_group fill
leading-NeedsGroups zero x h = ((h, inl refl), omega arith)
leading-NeedsGroups (suc c) x h = elim (Bool-cases (group x (suc c) == 0)) [
  | inl e ↦
      let z = top_zero c x h ((==_iff _ _).0 e) in
      let (needs, le) = leading-NeedsGroups c x z in
      rw (skip_group (suc c) x (leading c x) ((==_iff _ _).0 e)) (needs, omega arith)
  | inr e ↦
      rw (e, try_group)
        (subst (λ n. NeedsGroups x n × (n ≤ suc (suc c)))
          (sym (length-fill (suc c) x (group x (suc c))))
          ((h, inr (top_nonzero c x h (ground arith))), omega arith))
]

-- uint64encode writes as few bytes as hold the number, one to ten.
pub uint64encode-NeedsGroups :
    (x : ℕ) → x < 2 ^ 64 → NeedsGroups x (length (uint64encode x)) × (length (uint64encode x) ≤ 10)
uint64encode-NeedsGroups x h = rw (uint64encode-leading x h) (leading-NeedsGroups 9 x (omega arith))
