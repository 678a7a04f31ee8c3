-- ===== src/Mips/Encoding/RoundTrip.antt =====
-- Encoding and decoding against each other: src/mips/encoding.cpp.
use ji_tboy.Base.{
  ℕ, ◌+◌, ◌-◌, ◌*◌, ◌/◌, ◌%◌, ◌^◌, ◌≤◌, ◌<◌, ◌≡◌, refl, arith, true, false, ◌==◌, Bool-cases, ==-ne,
  ◌⊎◌, inl, inr, bit_or, ◌<<<◌, u32, if◌then◌else◌, IsU32,
}
use ji_tboy.Mips.Isa.{
  OpcodeR, OpcodeI, OpcodeJ, InstructionR, InstructionI, InstructionJ, r_type, i_type, j_type,
}
use ji_tboy.Mips.Isa.Casts.{
  code_r, code_i, code_j, cast_i, IsNamedR, IsNamedI, IsNamedJ, cast_r-code_r, cast_i-code_i,
  cast_j-code_j, code_r-cast_r, code_i-cast_i, code_j-cast_j,
}
use ji_tboy.Mips.Encoding.{
  decode_instruction_r, decode_instruction_i, decode_instruction_j, decode_instruction, is_regimm,
  encode_instruction_r, encode_instruction_i, encode_instruction_j, encode_instruction,
}
use ji_tboy.Mips.Encoding.Words.{
  word_i, word_r, word_i_fields, word_r_fields, word_i_of_fields, word_r_of_fields, or_fields_i,
  or_fields_j, or_fields_r, opcode_field, five_field, funct_field, constant_field, target_field,
}

-- What the source's types and the encoding leave room for.
pub record FitsR (x : InstructionR) : Type 0 where
  pub named : IsNamedR x.op
  pub rd_fits : x.rd < 32
  pub rs_fits : x.rs < 32
  pub rt_fits : x.rt < 32
  pub sa_fits : x.sa < 32

pub record FitsI (x : InstructionI) : Type 0 where
  pub named : IsNamedI x.op
  pub rs_fits : x.rs < 32
  pub rt_fits : x.rt < 32
  pub constant_fits : x.constant < 0x1_0000
  -- the `rt` field of these words holds the opcode
  pub regimm_rt : is_regimm x.op ≡ true → x.rt ≡ 0

pub record FitsJ (x : InstructionJ) : Type 0 where
  pub named : IsNamedJ x.op
  pub target_fits : x.target < 0x400_0000

code_r-lt : (op : OpcodeR) → IsNamedR op → code_r op < 64
unfolding code_r
code_r-lt (OpcodeR.unnamed n) h = absurd h
code_r-lt _ h = omega arith

code_j_range : (op : OpcodeJ) → IsNamedJ op → (2 ≤ code_j op) × (code_j op < 4)
unfolding code_j
code_j_range (OpcodeJ.unnamed n) h = absurd h
code_j_range _ h = omega arith

code_i_range :
    (op : OpcodeI)
    → IsNamedI op
    → (code_i op < 64)
      × (is_regimm op ≡ true → code_i op < 32)
      × (is_regimm op ≡ false → 4 ≤ code_i op)
unfolding code_i
code_i_range (OpcodeI.unnamed n) h = absurd h
code_i_range _ h = ground arith

decode_instruction_i-word_i :
    (op rs rt c : ℕ)
    → op < 64
    → rs < 32
    → rt < 32
    → c < 0x1_0000
    → decode_instruction_i (word_i op rs rt c) ≡ record {
      op = cast_i (if op == 1 then rt else op);
      rt = if op == 1 then 0 else rt;
      rs = rs;
      constant = c;
    }
unfolding decode_instruction_i
decode_instruction_i-word_i op rs rt c ho hs ht hc =
    let (fits, f_op, f_rs, f_rt, f_c) = word_i_fields op rs rt c ho hs ht hc in
    let w = word_i op rs rt c in
    rw (
      opcode_field w fits,
      five_field w 21,
      five_field w 16,
      constant_field w,
      f_op,
      f_rs,
      f_rt,
      f_c,
    )

-- Which decoder a word goes to, by its opcode field.
module _ (w : ℕ) (fits : IsU32 w) where
  decodes_r : w / 2 ^ 26 ≡ 0 → decode_instruction w ≡ r_type (decode_instruction_r w)
  unfolding decode_instruction
  decodes_r h = rw (opcode_field w fits, h)

  decodes_j :
      2 ≤ w / 2 ^ 26 → w / 2 ^ 26 < 4 → decode_instruction w ≡ j_type (decode_instruction_j w)
  unfolding decode_instruction
  decodes_j lo hi = rw (opcode_field w fits) (ground arith)

  decodes_i :
      (4 ≤ w / 2 ^ 26) ⊎ (w / 2 ^ 26 ≡ 1) → decode_instruction w ≡ i_type (decode_instruction_i w)
  unfolding decode_instruction
  decodes_i h = rw (opcode_field w fits) (ground arith)

decode-or_fields_i :
    (op rs rt c : ℕ)
    → (4 ≤ op) ⊎ (op ≡ 1)
    → op < 64
    → rs < 32
    → rt < 32
    → c < 0x1_0000
    → decode_instruction (
        bit_or (bit_or (bit_or (bit_or 0 c) (u32 (op <<< 26))) (u32 (rs <<< 21))) (u32 (rt <<< 16)))
      ≡ i_type record {
        op = cast_i (if op == 1 then rt else op);
        rt = if op == 1 then 0 else rt;
        rs = rs;
        constant = c;
      }
decode-or_fields_i op rs rt c kind ho hs ht hc =
    let (fits, f_op, _, _, _) = word_i_fields op rs rt c ho hs ht hc in
    rw (
      or_fields_i op rs rt c ho hs ht hc,
      decodes_i (word_i op rs rt c) fits (rw f_op kind),
      decode_instruction_i-word_i op rs rt c ho hs ht hc,
    )

-- Decoding gives an encoded immediate instruction back, if its opcode is named, its fields fit,
-- and its `rt` is 0 when it is a REGIMM branch.
pub decode-encode_i :
    (x : InstructionI) → FitsI x → decode_instruction (encode_instruction (i_type x)) ≡ i_type x
unfolding encode_instruction encode_instruction_i
decode-encode_i x h =
    let (lt, regimm_lt, other_ge) = code_i_range x.op h.named in
    elim (Bool-cases (is_regimm x.op)) [
      | inl e ↦ rw (
        e,
        decode-or_fields_i 1 x.rs (code_i x.op) x.constant (inr refl) (omega arith) h.rs_fits
            (regimm_lt e) h.constant_fits,
        cast_i-code_i x.op h.named,
        ← h.regimm_rt e,
      )
      | inr e ↦ rw (
        e,
        decode-or_fields_i (code_i x.op) x.rs x.rt x.constant (inl (other_ge e)) lt h.rs_fits
            h.rt_fits h.constant_fits,
        ==-ne (code_i x.op) 1 (omega (arith, other_ge e)),
        cast_i-code_i x.op h.named,
      )
    ]

-- Decoding gives an encoded jump back, if its opcode is named and its target fits 26 bits.
pub decode-encode_j :
    (x : InstructionJ) → FitsJ x → decode_instruction (encode_instruction (j_type x)) ≡ j_type x
unfolding encode_instruction encode_instruction_j decode_instruction_j
decode-encode_j x h =
    let (lo, hi) = code_j_range x.op h.named in
    let w = code_j x.op * 2 ^ 26 + x.target in
    let fits : IsU32 w = omega arith in
    let top : w / 2 ^ 26 ≡ code_j x.op = omega arith in
    let low : w % 0x400_0000 ≡ x.target = omega arith in
    rw (
      or_fields_j (code_j x.op) x.target (omega arith) h.target_fits,
      decodes_j w fits (omega arith) (omega arith),
      opcode_field w fits,
      target_field w,
      top,
      low,
      cast_j-code_j x.op h.named,
    )

-- Decoding an encoded register instruction, if its opcode is named and its fields fit, loses its
-- destination: `rd` comes back as `$zero`, and nothing else changes.
pub decode-encode_r :
    (x : InstructionR)
    → FitsR x
    → decode_instruction (encode_instruction (r_type x)) ≡ r_type (record x { rd = 0 })
unfolding encode_instruction encode_instruction_r decode_instruction_r
decode-encode_r x h =
    let f_lt = code_r-lt x.op h.named in
    let w = word_r x.rs x.rt x.sa (code_r x.op) in
    let (fits, f_op, f_rs, f_rt, f_rd, f_sa, f_funct) =
      word_r_fields x.rs x.rt x.sa (code_r x.op) h.rs_fits h.rt_fits h.sa_fits f_lt in
    rw (
      or_fields_r x.rs x.rt x.sa (code_r x.op) h.rs_fits h.rt_fits h.sa_fits f_lt,
      decodes_r w fits f_op,
      five_field w 21,
      five_field w 16,
      five_field w 11,
      five_field w 6,
      funct_field w,
      f_rs,
      f_rt,
      f_rd,
      f_sa,
      f_funct,
      cast_r-code_r x.op h.named,
    )

-- Encoding a decoded 32-bit word of an immediate instruction gives the word back, unless it is a
-- REGIMM word or its opcode is the number of a REGIMM branch.
pub encode-decode_i :
    (w : ℕ)
    → IsU32 w
    → 4 ≤ w / 2 ^ 26
    → is_regimm (cast_i (w / 2 ^ 26)) ≡ false
    → encode_instruction (decode_instruction w) ≡ w
unfolding encode_instruction encode_instruction_i decode_instruction_i
encode-decode_i w fits h other =
    rw
      (
        decodes_i w fits (inl h),
        opcode_field w fits,
        five_field w 21,
        five_field w 16,
        constant_field w,
        ==-ne (w / 2 ^ 26) 1 (omega arith),
        other,
        code_i-cast_i (w / 2 ^ 26),
        or_fields_i (w / 2 ^ 26) (w / 2 ^ 21 % 32) (w / 2 ^ 16 % 32) (w % 0x1_0000) (omega arith)
            (omega arith) (omega arith) (omega arith),
      )
      (word_i_of_fields w)

-- Encoding a decoded 32-bit word of a jump gives the word back.
pub encode-decode_j :
    (w : ℕ)
    → IsU32 w
    → 2 ≤ w / 2 ^ 26
    → w / 2 ^ 26 < 4
    → encode_instruction (decode_instruction w) ≡ w
unfolding encode_instruction encode_instruction_j decode_instruction_j
encode-decode_j w fits lo hi =
    rw
      (
        decodes_j w fits lo hi,
        opcode_field w fits,
        target_field w,
        code_j-cast_j (w / 2 ^ 26),
        or_fields_j (w / 2 ^ 26) (w % 0x400_0000) (omega arith) (omega arith),
      )
      (omega arith)

-- Encoding a decoded 32-bit word of a register instruction gives the word with its destination
-- bits cleared.
pub encode-decode_r :
    (w : ℕ)
    → IsU32 w
    → w / 2 ^ 26 ≡ 0
    → encode_instruction (decode_instruction w) ≡ w - w / 2 ^ 11 % 32 * 2 ^ 11
unfolding encode_instruction encode_instruction_r decode_instruction_r
encode-decode_r w fits h =
    rw
      (
        decodes_r w fits h,
        five_field w 21,
        five_field w 16,
        five_field w 6,
        funct_field w,
        code_r-cast_r (w % 64),
        or_fields_r (w / 2 ^ 21 % 32) (w / 2 ^ 16 % 32) (w / 2 ^ 6 % 32) (w % 64) (omega arith)
            (omega arith) (omega arith) (omega arith),
      )
      (word_r_of_fields w h)
