-- ===== src/Encoding/Varint.antt =====
-- The variable-length encoding in plain arithmetic, and its round trip.
use ymd.Common.{
  ℕ, zero, suc, ◌*◌, ◌/◌, ◌%◌, ◌^◌, ◌<◌, ◌≡◌, ◌∙◌, refl, sym, ap, ==_iff, bit_and, arith, ◌==◌,
  if◌then◌else◌, Bool-cases, inl, inr, List,
}
use ymd.Common.Bits.{one-le-two_pow, bit_and-field}
use native.Mathlib.Nat.{mul-div_cancel}
use ymd.Encoding.{group, fill, try_group, three_groups, uint64encode, uint32encode}

-- A group is seven bits of the number.
pub group_lem : (x c : ℕ) → group x c ≡ x / 2 ^ (c * 7) % 128
unfolding group
group_lem x c =
    ap (λ (t : ℕ). t / 2 ^ (c * 7) % 256) (bit_and-field 7 (c * 7) x)
    ∙ ap (λ (t : ℕ). t % 256) (mul-div_cancel (x / 2 ^ (c * 7) % 128) (one-le-two_pow (c * 7)))
    ∙ omega arith

-- The first group that is not zero, from group `c` down, starts the encoding.
unfoldable pub leading : ℕ → ℕ → List ℕ
leading zero x = fill 0 x (group x 0)
leading (suc c) x = try_group (suc c) x (leading c x)

pub skip_group : (c x : ℕ) (next : List ℕ) → group x c ≡ 0 → try_group c x next ≡ next
unfolding try_group
skip_group c x next h = ground arith

-- A test of a mask that fails says that its groups are zero.
module _ (x : ℕ) where
  low_clear : bit_and x 0xFFFFF80 ≡ 0 → (group x 3 ≡ 0) × (group x 2 ≡ 0) × (group x 1 ≡ 0)
  low_clear h = omega (arith, bit_and-field 21 7 x, group_lem x 3, group_lem x 2, group_lem x 1)

  middle_clear : bit_and x 0x1FFFFF0000000 ≡ 0 → (group x 6 ≡ 0) × (group x 5 ≡ 0) × (group x 4 ≡ 0)
  middle_clear h = omega (arith, bit_and-field 21 28 x, group_lem x 6, group_lem x 5, group_lem x 4)

  high_clear :
      bit_and x 0xFFFE000000000000 ≡ 0 → (group x 9 % 2 ≡ 0) × (group x 8 ≡ 0) × (group x 7 ≡ 0)
  high_clear h = omega (arith, bit_and-field 15 49 x, group_lem x 9, group_lem x 8, group_lem x 7)

-- The top test, on one bit, is that of a whole group.
top_group :
    (x : ℕ) (next : List ℕ)
    → x < 2 ^ 64
    → (if bit_and x (2 ^ 63) / 2 ^ 63 % 256 == 0
        then next
        else fill 9 x (bit_and x (2 ^ 63) / 2 ^ 63 % 256))
      ≡ try_group 9 x next
unfolding try_group
top_group x next h =
    ap (λ (t : ℕ). if t == 0 then next else fill 9 x t)
      (omega (arith, bit_and-field 1 63 x, group_lem x 9))

top_group32 :
    (x : ℕ) (next : List ℕ)
    → x < 2 ^ 32
    → (if bit_and x (0xF * 2 ^ 28) / 2 ^ 28 % 256 == 0
        then next
        else fill 4 x (bit_and x (0xF * 2 ^ 28) / 2 ^ 28 % 256))
      ≡ try_group 4 x next
unfolding try_group
top_group32 x next h =
    ap (λ (t : ℕ). if t == 0 then next else fill 4 x t)
      (omega (arith, bit_and-field 4 28 x, group_lem x 4))

-- A block whose mask finds nothing would have found nothing in its three groups.
three_groups_lem :
    (mask a b c x : ℕ) (next : List ℕ)
    → (bit_and x mask ≡ 0 → (group x a ≡ 0) × (group x b ≡ 0) × (group x c ≡ 0))
    → three_groups mask a b c x next ≡ try_group a x (try_group b x (try_group c x next))
unfolding three_groups
three_groups_lem mask a b c x next clear = elim (Bool-cases (bit_and x mask == 0)) [
  | inr e ↦ rw e refl
  | inl e ↦
      let (ha, hb, hc) = clear ((==_iff _ _).0 e) in
      rw e (sym (skip_group a x _ ha ∙ skip_group b x _ hb ∙ skip_group c x next hc))
]

-- Likewise for the first block, whose top group is the one bit 63.
top_block :
    (x : ℕ) (next : List ℕ)
    → x < 2 ^ 64
    → (if bit_and x 0xFFFE000000000000 == 0
        then next
        else if bit_and x (2 ^ 63) / 2 ^ 63 % 256 == 0
        then try_group 8 x (try_group 7 x next)
        else fill 9 x (bit_and x (2 ^ 63) / 2 ^ 63 % 256))
      ≡ try_group 9 x (try_group 8 x (try_group 7 x next))
top_block x next h = elim (Bool-cases (bit_and x 0xFFFE000000000000 == 0)) [
  | inr e ↦ rw e (top_group x _ h)
  | inl e ↦
      let (h9, h8, h7) = high_clear x ((==_iff _ _).0 e) in
      rw e (
        sym (
          skip_group 9 x _ (omega (arith, group_lem x 9))
          ∙ skip_group 8 x _ h8
          ∙ skip_group 7 x next h7))
]

-- The tests of uint64encode choose the first group that is not zero.
pub uint64encode-leading : (x : ℕ) → x < 2 ^ 64 → uint64encode x ≡ leading 9 x
unfolding leading uint64encode
uint64encode-leading x h =
    top_block x (three_groups 0x1FFFFF0000000 6 5 4 x low) h
    ∙ ap (λ (t : List ℕ). try_group 9 x (try_group 8 x (try_group 7 x t)))
        (three_groups_lem _ 6 5 4 x low (middle_clear x)
          ∙ ap (λ (t : List ℕ). try_group 6 x (try_group 5 x (try_group 4 x t)))
              (three_groups_lem _ 3 2 1 x (fill 0 x (group x 0)) (low_clear x)))
  where
    low : List ℕ
    low = three_groups 0xFFFFF80 3 2 1 x (fill 0 x (group x 0))

pub uint32encode-leading : (x : ℕ) → x < 2 ^ 32 → uint32encode x ≡ leading 4 x
unfolding uint32encode leading
uint32encode-leading x h = top_group32 x (leading 3 x) h
