-- ===== src/Encoding/Tests.antt =====
-- Runs of the encoders and of the literal readers, and the theorems at concrete inputs.
use ymd.Common.{
  ◌-◌, ◌^◌, ◌≡◌, ◌≤◌, refl, arith, inl, inr, true, false, some, List, [], ◌∷◌, ◌++◌, length, map,
}
use ymd.Common.Int.{pos, negsuc}
use ymd.Encoding.{
  try_group, three_groups, uint64encode, uint32encode, uint64decode, zigzag64encode, zigzag64decode,
  sint64encode, sint64decode, sint32encode, sint32decode,
}
use ymd.Encoding.RoundTrip.{
  NeedsGroups, uint64decode-uint64encode, uint32encode-uint64encode, uint64encode-NeedsGroups,
}
use ymd.Encoding.Zigzag.{sint64decode-sint64encode, sint32decode-sint32encode}
use ymd.Encoding.Literal.{returns, aborts, xtoll, dtoll, stresc}
use ymd.Encoding.Literal.Numbers.{dec_char, hex_char, dtoll-value, dtoll-minus, xtoll-value}
use ymd.Encoding.Literal.Escapes.{Piece, char, letter, hex, unit, spell, IsPiece, stresc-spell}

encode_300 : uint64encode 300 ≡ 0x82 ∷ 0x2c ∷ []
unfolding uint64encode three_groups try_group
encode_300 = refl

decode_300 : uint64decode (0x82 ∷ 0x2c ∷ 9 ∷ []) ≡ some (300, 2)
unfolding uint64decode
decode_300 = refl

-- The least integer is the one that the zigzag map loses.
zigzag_least : zigzag64decode (zigzag64encode (negsuc (2 ^ 63 - 1))) ≡ pos 0
unfolding zigzag64encode zigzag64decode
zigzag_least = refl

-- A capital X is not taken for the sign of a hexadecimal number, though lex.c accepts it.
capital_x : xtoll (b'0' ∷ b'X' ∷ b'1' ∷ []) ≡ aborts
unfolding xtoll
capital_x = refl

uint64decode-uint64encode_example :
    uint64decode (uint64encode 300 ++ 7 ∷ []) ≡ some (300, length (uint64encode 300))
uint64decode-uint64encode_example = uint64decode-uint64encode 300 (7 ∷ []) (omega arith)

uint64encode-NeedsGroups_example :
    NeedsGroups 300 (length (uint64encode 300)) × (length (uint64encode 300) ≤ 10)
uint64encode-NeedsGroups_example = uint64encode-NeedsGroups 300 (omega arith)

uint32encode-uint64encode_example : uint32encode 70000 ≡ uint64encode 70000
uint32encode-uint64encode_example = uint32encode-uint64encode 70000 (omega arith)

sint64decode-sint64encode_example :
    sint64decode (sint64encode (negsuc 4) ++ 7 ∷ [])
    ≡ some (negsuc 4, length (sint64encode (negsuc 4)))
sint64decode-sint64encode_example = sint64decode-sint64encode (negsuc 4) (7 ∷ []) (omega arith)

sint32decode-sint32encode_example :
    sint32decode (sint32encode (negsuc 4) ++ 7 ∷ [])
    ≡ some (negsuc 4, length (sint32encode (negsuc 4)))
sint32decode-sint32encode_example = sint32decode-sint32encode (negsuc 4) (7 ∷ []) (omega arith)

dtoll-value_example : dtoll (map dec_char (4 ∷ 0 ∷ 7 ∷ [])) ≡ some 407
dtoll-value_example = dtoll-value (4 ∷ 0 ∷ 7 ∷ []) (omega arith)

dtoll-minus_example : dtoll (b'-' ∷ map dec_char (4 ∷ 2 ∷ [])) ≡ some (2 ^ 64 - 42)
dtoll-minus_example = dtoll-minus 4 (2 ∷ []) (omega arith)

xtoll-value_example : xtoll (b'0' ∷ b'x' ∷ map (hex_char true) (15 ∷ 1 ∷ [])) ≡ returns (some 0xf1)
xtoll-value_example = xtoll-value true 15 (1 ∷ []) (omega arith) (omega arith)

abbrev pieces : List Piece
pieces =
    char b'a'
    ∷ letter b'n' 10
    ∷ hex (false, true) 0xfa
    ∷ unit (true, false) (true, true) 0xaf 0x2d
    ∷ []

stresc-spell_example : stresc (spell pieces) ≡ some (b'a' ∷ 10 ∷ 0xfa ∷ 0xaf ∷ 0x2d ∷ [])
stresc-spell_example =
    stresc-spell pieces
      ((λ e. omega arith), (newline, (omega arith, ((omega arith, omega arith), tt))))
  where
    newline : IsPiece (letter b'n' 10)
    newline = inr (inr (inr (inl (refl, refl))))
