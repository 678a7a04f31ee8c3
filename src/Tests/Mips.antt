-- ===== src/Tests/Mips.antt =====
-- The guest's parts at concrete inputs.
use ji_tboy.Base.{ℕ, ◌+◌, ◌≡◌, refl, arith, ok, ◌==◌, if◌then◌else◌, sext8, bit_or}
use ji_tboy.Mips.Isa.{r_type, i_type}
use ji_tboy.Mips.Encoding.{encode_instruction, decode_instruction}
use ji_tboy.Mips.Encoding.RoundTrip.{FitsI, decode-encode_r, decode-encode_i}
use ji_tboy.Mips.RegisterFile.{initial}
use ji_tboy.Mips.RegisterFile.{read as read_reg, write as write_reg}
use ji_tboy.Mips.RegisterFile.Laws.{initial-IsRegisters, read-write}
use ji_tboy.Mips.MemoryMap.{MemoryMap, Width, empty, load_word_left, load_word_right, read, write}
use ji_tboy.Mips.MemoryMap.Bytes.{IsWords, byte_at, read-byte_at}
use ji_tboy.Mips.MemoryMap.Stores.{write-byte_at}
use ji_tboy.Mips.MemoryMap.Spill.{write-byte_spills}
use ji_tboy.Mips.MemoryMap.Unaligned.{big_endian, load_word-unaligned}
use ji_tboy.Tests.Data.{beq_2, addu_8, empty-IsWords}

beq_2-FitsI : FitsI beq_2
beq_2-FitsI = record {
  named = tt;
  rs_fits = omega arith;
  rt_fits = omega arith;
  constant_fits = omega arith;
  regimm_rt = λ h. refl;
}

decode-encode_i_example : decode_instruction (encode_instruction (i_type beq_2)) ≡ i_type beq_2
decode-encode_i_example = decode-encode_i beq_2 beq_2-FitsI

decode-encode_r_example :
    decode_instruction (encode_instruction (r_type addu_8)) ≡ r_type (record addu_8 { rd = 0 })
decode-encode_r_example = decode-encode_r addu_8 (record {
  named = tt;
  rd_fits = omega arith;
  rs_fits = omega arith;
  rt_fits = omega arith;
  sa_fits = omega arith;
})

read-write_example : read_reg (write_reg initial 8 5) 8 ≡ 5
read-write_example = read-write initial initial-IsRegisters 8 5 8 (omega arith)

read-byte_at_example :
    (read Width.ubyte empty 2 ≡ ok (byte_at empty 2))
    × (read Width.byte empty 2 ≡ ok (sext8 (byte_at empty 2)))
read-byte_at_example = read-byte_at empty 2 empty-IsWords

write-byte_at_example :
    (m' : MemoryMap) × (write Width.ubyte empty 6 0x7F ≡ ok m')
    × IsWords m'
    × ((b : ℕ) → byte_at m' b ≡ (if 6 == b then 0x7F else byte_at empty b))
write-byte_at_example = write-byte_at empty 6 0x7F empty-IsWords (omega arith)

write-byte_spills_example :
    (m' : MemoryMap) × (write Width.ubyte empty (4 + 1) 0x1FF ≡ ok m')
    × (byte_at m' 4 ≡ bit_or (byte_at empty 4) 1)
write-byte_spills_example = write-byte_spills empty 4 0x1FF empty-IsWords (omega arith)

load_word-unaligned_example :
    load_word_right empty (5 + 3) (load_word_left empty 5 0xFFFF_FFFF)
    ≡ big_endian (byte_at empty 5) (byte_at empty 6) (byte_at empty 7) (byte_at empty 8)
load_word-unaligned_example = load_word-unaligned empty 5 0xFFFF_FFFF empty-IsWords (omega arith)
