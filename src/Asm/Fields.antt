-- ===== src/Asm/Fields.antt =====
-- The fields of an instruction are what it was built from.
use ymd.Common.{ℕ, ◌+◌, ◌*◌, ◌/◌, ◌%◌, ◌^◌, ◌<◌, ◌≡◌, ◌∙◌, ap, bit_and, bit_or, arith}
use ymd.Common.Bits.{bit_and-field, bit_or-disjoint}
use ymd.Asm.{asm_build, asm_call, asm_op, asm_flag, asm_param, asm_aret, asm_method, asm_argc}

-- The fields in plain arithmetic.
asm_op-div : (inst : ℕ) → asm_op inst ≡ inst / 2 ^ 24 % 256
unfolding asm_op
asm_op-div inst = omega (arith, bit_and-field 8 24 inst)

asm_flag-div : (inst : ℕ) → asm_flag inst ≡ inst / 2 ^ 16 % 256
unfolding asm_flag
asm_flag-div inst = omega (arith, bit_and-field 8 16 inst)

asm_param-mod : (inst : ℕ) → asm_param inst ≡ inst % 65536
unfolding asm_param
asm_param-mod inst = omega (arith, bit_and-field 16 0 inst)

ruleset fields = (arith, asm_op-div, asm_flag-div, asm_param-mod)

module _ (op flag param : ℕ) (op_lt : op < 256) (flag_lt : flag < 256)
    (param_lt : param < 65536) where
  high_fields : bit_or (op * 2 ^ 24 % 2 ^ 32) (flag * 2 ^ 16 % 2 ^ 32) ≡ (op * 256 + flag) * 2 ^ 16
  high_fields =
      ap (λ (t : ℕ). bit_or t (flag * 2 ^ 16 % 2 ^ 32)) op_fits
      ∙ bit_or-disjoint 24 op (flag * 2 ^ 16 % 2 ^ 32) (omega arith)
      ∙ omega arith
    where
      op_fits : op * 2 ^ 24 % 2 ^ 32 ≡ op * 2 ^ 24
      op_fits = omega arith

  -- The fields do not overlap, so the word is their sum.
  asm_build-sum : asm_build op flag param ≡ op * 2 ^ 24 + flag * 2 ^ 16 + param
  unfolding asm_build
  asm_build-sum =
      ap (λ (t : ℕ). bit_or t param) high_fields
      ∙ bit_or-disjoint 16 (op * 256 + flag) param param_lt
      ∙ omega arith

  -- The three fields of a built instruction are the bytes and the short that it was built from.
  pub asm_build-fields :
      (asm_op (asm_build op flag param) ≡ op)
      × (asm_flag (asm_build op flag param) ≡ flag)
      × (asm_param (asm_build op flag param) ≡ param)
  asm_build-fields = omega (fields, asm_build-sum)

-- Building an instruction from its own fields gives the instruction back, for any 32-bit word.
pub asm_build-eta :
    (inst : ℕ) → inst < 2 ^ 32 → asm_build (asm_op inst) (asm_flag inst) (asm_param inst) ≡ inst
asm_build-eta inst h =
    asm_build-sum (asm_op inst) (asm_flag inst) (asm_param inst) (omega fields) (omega fields)
      (omega fields)
    ∙ omega fields

module _ (op aret argc method : ℕ) (op_lt : op < 256) (aret_lt : aret < 16) (argc_lt : argc < 256)
    (method_lt : method < 4096) where
  call_param : bit_or (bit_and aret 0x0f * 2 ^ 12) (bit_and method 0x0fff) ≡ aret * 4096 + method
  call_param =
      ap (λ (t : ℕ). bit_or (bit_and aret 0x0f * 2 ^ 12) t) method_fits
      ∙ bit_or-disjoint 12 (bit_and aret 0x0f) method method_lt
      ∙ omega (arith, bit_and-field 4 0 aret)
    where
      method_fits : bit_and method 0x0fff ≡ method
      method_fits = omega (arith, bit_and-field 12 0 method)

  -- A call's opcode, result count, argument count and method index are read back as they were
  -- given, where the count of results fits four bits and the method twelve.
  pub asm_call-fields :
      (asm_op (asm_call op aret argc method) ≡ op)
      × (asm_aret (asm_call op aret argc method) ≡ aret)
      × (asm_argc (asm_call op aret argc method) ≡ argc)
      × (asm_method (asm_call op aret argc method) ≡ method)
  unfolding asm_call asm_aret asm_argc asm_method
  asm_call-fields = omega (
    arith,
    built,
    bit_and-field 4 12 (asm_param (asm_build op argc param)),
    bit_and-field 12 0 (asm_param (asm_build op argc param)),
    call_param,
  )
    where
      param : ℕ
      param = bit_or (bit_and aret 0x0f * 2 ^ 12) (bit_and method 0x0fff) % 2 ^ 16

      built :
          (asm_op (asm_build op argc param) ≡ op)
          × (asm_flag (asm_build op argc param) ≡ argc)
          × (asm_param (asm_build op argc param) ≡ param)
      built = asm_build-fields op argc param op_lt argc_lt (omega arith)
