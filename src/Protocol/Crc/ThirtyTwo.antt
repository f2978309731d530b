-- ===== src/Protocol/Crc/ThirtyTwo.antt =====
-- crc32c: its range and the errors that it detects.
use fpga_mcu_trinity.Base.{
  ℕ, ◌+◌, ◌*◌, ◌/◌, ◌%◌, ◌^◌, ◌≤◌, ◌<◌, ◌≡◌, ◌≢◌, ap, sym, ◌∙◌, arith, List, ◌∷◌, ◌++◌, foldl,
  bit_xor, ◌==◌, if◌then◌else◌,
}
use fpga_mcu_trinity.Base.Bits.{
  bit_and_bit, bit_and_mask, bit_xor_injective, bit_xor_injective_right, bit_xor_fields, bit_xor-lt,
}
use fpga_mcu_trinity.Protocol.Crc.Rounds.{
  eight_keep, eight_injective, run_keep, run_detects, AreBytes,
}
use fpga_mcu_trinity.Protocol.Crc.{crc32c_bit, crc32c_byte, crc32c}

crc32c_bit_lem : (c : ℕ) → crc32c_bit c ≡ (if c % 2 == 1 then bit_xor (c / 2) 0x82F63B78 else c / 2)
unfolding crc32c_bit
crc32c_bit_lem c = ground (arith, bit_and_bit 0 c)

-- The polynomial sets the top bit, which the shifted register has clear.
sets_top : (c : ℕ) → c < 2 ^ 31 → 2 ^ 31 ≤ bit_xor c 0x82F63B78
sets_top c h = omega (
  arith,
  ap (λ (t : ℕ). bit_xor t 0x82F63B78) zero_top,
  bit_xor_fields 31 0 c 1 0x2F63B78 h (omega arith),
)
  where
    zero_top : c ≡ 0 * 2 ^ 31 + c
    zero_top = omega arith

crc32c_bit-lt : (c : ℕ) → c < 2 ^ 32 → crc32c_bit c < 2 ^ 32
crc32c_bit-lt c h = ground (arith, crc32c_bit_lem c, bit_xor-lt 32 (c / 2) 0x82F63B78)

crc32c_bit_injective : (c d : ℕ) → c < 2 ^ 32 → d < 2 ^ 32 → crc32c_bit c ≡ crc32c_bit d → c ≡ d
crc32c_bit_injective c d hc hd h = ground (
  arith,
  crc32c_bit_lem c,
  crc32c_bit_lem d,
  sets_top (c / 2),
  sets_top (d / 2),
  bit_xor_injective (c / 2) (d / 2) 0x82F63B78,
)

crc32c_byte-lt : (c v : ℕ) → c < 2 ^ 32 → v < 256 → crc32c_byte c v < 2 ^ 32
unfolding crc32c_byte
crc32c_byte-lt c v hc hv =
    eight_keep crc32c_bit (2 ^ 32) crc32c_bit-lt crc32c_bit_injective _
      (bit_xor-lt 32 c v hc (omega arith))

crc32c_byte_injective :
    (c d v : ℕ) → c < 2 ^ 32 → d < 2 ^ 32 → v < 256 → crc32c_byte c v ≡ crc32c_byte d v → c ≡ d
unfolding crc32c_byte
crc32c_byte_injective c d v hc hd hv e = bit_xor_injective c d v (
    eight_injective crc32c_bit (2 ^ 32) crc32c_bit-lt crc32c_bit_injective _ _
      (bit_xor-lt 32 c v hc (omega arith)) (bit_xor-lt 32 d v hd (omega arith)) e)

crc32c_byte_reads :
    (c v w : ℕ) → c < 2 ^ 32 → v < 256 → w < 256 → crc32c_byte c v ≡ crc32c_byte c w → v ≡ w
unfolding crc32c_byte
crc32c_byte_reads c v w hc hv hw e = bit_xor_injective_right v w c (
    eight_injective crc32c_bit (2 ^ 32) crc32c_bit-lt crc32c_bit_injective _ _
      (bit_xor-lt 32 c v hc (omega arith)) (bit_xor-lt 32 c w hc (omega arith)) e)

-- The register before the final inversion.
crc32c_run :
    (bytes : List ℕ) → crc32c bytes ≡ bit_xor (foldl crc32c_byte 0xFFFFFFFF bytes) 0xFFFFFFFF
unfolding crc32c
crc32c_run bytes =
    ap (λ (t : ℕ). bit_xor (foldl crc32c_byte t bytes) 0xFFFFFFFF)
      (bit_and_mask 32 0xFFFFFFFF ∙ omega arith)

-- The CRC-32C of a byte string fits 32 bits.
pub crc32c-lt : (bytes : List ℕ) → AreBytes bytes → crc32c bytes < 2 ^ 32
crc32c-lt bytes hb =
    let h : foldl crc32c_byte 0xFFFFFFFF bytes < 2 ^ 32 =
      run_keep crc32c_byte (2 ^ 32) crc32c_byte-lt crc32c_byte_injective bytes _ (omega arith) hb in
    omega (
      arith,
      crc32c_run bytes,
      bit_xor-lt 32 (foldl crc32c_byte 0xFFFFFFFF bytes) 0xFFFFFFFF h (omega arith),
    )

-- Byte strings of one length that differ in one byte have different checksums.
pub crc32c_detects :
    (front back : List ℕ) (x y : ℕ)
    → AreBytes (front ++ (x ∷ back))
    → y < 256
    → crc32c (front ++ (x ∷ back)) ≡ crc32c (front ++ (y ∷ back))
    → x ≡ y
crc32c_detects front back x y hb hy e =
    run_detects crc32c_byte (2 ^ 32) crc32c_byte-lt crc32c_byte_injective crc32c_byte_reads front
      back x y 0xFFFFFFFF (omega arith) hb hy
      (bit_xor_injective _ _ 0xFFFFFFFF
        (sym (crc32c_run (front ++ (x ∷ back))) ∙ e ∙ crc32c_run (front ++ (y ∷ back))))

-- Two byte strings that differ in exactly one byte have different CRC-32Cs.
pub crc32c_differs :
    (front back : List ℕ) (x y : ℕ)
    → AreBytes (front ++ (x ∷ back))
    → y < 256
    → x ≢ y
    → crc32c (front ++ (x ∷ back)) ≢ crc32c (front ++ (y ∷ back))
crc32c_differs front back x y hb hy ne e = ne (crc32c_detects front back x y hb hy e)
