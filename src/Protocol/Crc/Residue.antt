-- ===== src/Protocol/Crc/Residue.antt =====
-- crc16_ccitt_false of a byte string followed by its own checksum.
use fpga_mcu_trinity.Base.{
  ℕ, ◌+◌, ◌*◌, ◌/◌, ◌%◌, ◌^◌, ◌<◌, ◌≡◌, refl, ap, ap₂, sym, ◌∙◌, arith, List, [], ◌∷◌, ◌++◌,
  bit_xor,
}
use fpga_mcu_trinity.Base.Bits.{bit_xor_fields, bit_xor_self, bit_xor-zero}
use fpga_mcu_trinity.Protocol.Crc.Rounds.{AreBytes}
use fpga_mcu_trinity.Protocol.Crc.Sixteen.{
  eight_low, crc16-lt, crc16_from-lt, crc16_from_lem, crc16_from-append, crc16_ccitt_false_lem,
}
use fpga_mcu_trinity.Protocol.Crc.{crc16_bit, crc16_byte, crc16_from, crc16_ccitt_false, eight}

-- The high byte of the register cancels itself, and the low byte moves up and cancels next.
crc16_byte_lem : (c v : ℕ) → crc16_byte c v ≡ eight crc16_bit (bit_xor c (v * 256))
unfolding crc16_byte
crc16_byte_lem c v = refl

clears_high : (c : ℕ) → c < 0x10000 → bit_xor c (c / 256 * 256) ≡ c % 256
clears_high c h = omega (
  arith,
  ap₂ bit_xor whole high,
  bit_xor_fields 8 (c / 256) (c % 256) (c / 256) 0 (omega arith) (omega arith),
  bit_xor_self (c / 256),
  bit_xor-zero (c % 256),
)
  where
    whole : c ≡ c / 256 * 2 ^ 8 + c % 256
    whole = omega arith

    high : c / 256 * 256 ≡ c / 256 * 2 ^ 8 + 0
    high = omega arith

crc16_closes : (c : ℕ) → c < 0x10000 → crc16_byte (crc16_byte c (c / 256)) (c % 256) ≡ 0
crc16_closes c h =
    ap (λ (t : ℕ). crc16_byte t (c % 256)) first
    ∙ crc16_byte_lem (c % 256 * 256) (c % 256)
    ∙ ap (λ (t : ℕ). eight crc16_bit t) (bit_xor_self (c % 256 * 256))
    ∙ eight_low 0 (omega arith)
  where
    first : crc16_byte c (c / 256) ≡ c % 256 * 256
    first =
        crc16_byte_lem c (c / 256)
        ∙ ap (λ (t : ℕ). eight crc16_bit t) (clears_high c h)
        ∙ eight_low (c % 256) (omega arith)

-- A byte string followed by its own CRC-16, high byte first, has the CRC-16 zero.
pub crc16_residue :
    (bytes : List ℕ)
    → AreBytes bytes
    → crc16_ccitt_false
        (bytes ++ (crc16_ccitt_false bytes / 256 ∷ crc16_ccitt_false bytes % 256 ∷ []))
      ≡ 0
crc16_residue bytes hb =
    let c = crc16_ccitt_false bytes in
    let h : c < 0x10000 = crc16-lt bytes hb in
    crc16_ccitt_false_lem (bytes ++ (c / 256 ∷ c % 256 ∷ []))
    ∙ crc16_from-append 0xFFFF bytes (c / 256 ∷ c % 256 ∷ []) hb
    ∙ crc16_from_lem (crc16_from 0xFFFF bytes) (c / 256 ∷ c % 256 ∷ [])
        (crc16_from-lt 0xFFFF bytes hb)
    ∙ ap (λ (t : ℕ). crc16_byte (crc16_byte t (c / 256)) (c % 256))
        (sym (crc16_ccitt_false_lem bytes))
    ∙ crc16_closes c h
