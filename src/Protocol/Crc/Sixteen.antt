-- ===== src/Protocol/Crc/Sixteen.antt =====
-- crc16_ccitt_false: its range, its residue, and the errors that it detects.
use mathlib.Core.List.{foldl-append}
use fpga_mcu_trinity.Base.{
  ℕ, ◌+◌, ◌*◌, ◌/◌, ◌%◌, ◌^◌, ◌<◌, ◌≡◌, ◌≢◌, refl, ap, sym, ◌∙◌, arith, List, ◌∷◌, ◌++◌, foldl,
  bit_and, bit_xor, leb, if◌then◌else◌,
}
use fpga_mcu_trinity.Base.Bits.{
  bit_and_mask, bit_and_bit, bit_xor_parity, bit_xor_injective, bit_xor_injective_right,
  bit_xor_fields, bit_xor-lt,
}
use fpga_mcu_trinity.Protocol.Crc.Rounds.{
  eight_keep, eight_injective, run_keep, run_detects, AreBytes,
}
use fpga_mcu_trinity.Protocol.Crc.{crc16_bit, crc16_byte, crc16_from, crc16_ccitt_false, eight}

-- On a 16-bit register the round is a shift, and an exclusive or if the top bit falls out.
abbrev shift16 : ℕ → ℕ
shift16 c = c * 2 % 0x10000

shift_wraps : (c : ℕ) → bit_xor (c * 2) 0x1021 % 0x10000 ≡ bit_xor (shift16 c) 0x1021
shift_wraps c = omega (
  arith,
  ap (λ (t : ℕ). bit_xor t 0x1021) split,
  bit_xor_fields 16 (c * 2 / 0x10000) (shift16 c) 0 0x1021 (omega arith) (omega arith),
  bit_xor-lt 16 (shift16 c) 0x1021 (omega arith) (omega arith),
)
  where
    split : c * 2 ≡ c * 2 / 0x10000 * 2 ^ 16 + shift16 c
    split = omega arith

pub crc16_bit_lem :
    (c : ℕ)
    → c < 0x10000
    → crc16_bit c ≡ (if leb 0x8000 c then bit_xor (shift16 c) 0x1021 else shift16 c)
unfolding crc16_bit
crc16_bit_lem c h = ground (
  arith,
  bit_and_bit 15 c,
  bit_and_mask 16 (c * 2),
  bit_and_mask 16 (bit_xor (c * 2) 0x1021),
  shift_wraps c,
)

crc16_bit-lt : (c : ℕ) → c < 0x10000 → crc16_bit c < 0x10000
crc16_bit-lt c h = ground (arith, crc16_bit_lem c h, bit_xor-lt 16 (shift16 c) 0x1021)

-- The low bit of the result tells whether the polynomial was put in, so a round loses nothing.
crc16_bit_injective : (c d : ℕ) → c < 0x10000 → d < 0x10000 → crc16_bit c ≡ crc16_bit d → c ≡ d
crc16_bit_injective c d hc hd h = ground (
  arith,
  crc16_bit_lem c hc,
  crc16_bit_lem d hd,
  bit_xor_parity (shift16 c) 0x1021,
  bit_xor_parity (shift16 d) 0x1021,
  bit_xor_injective (shift16 c) (shift16 d) 0x1021,
)

-- A register whose high byte is clear is shifted up by eight places.
crc16_bit_low : (c : ℕ) → c < 0x8000 → crc16_bit c ≡ c * 2
crc16_bit_low c h = ground (arith, crc16_bit_lem c)

two_low : (c : ℕ) → c < 0x4000 → crc16_bit (crc16_bit c) ≡ c * 4
two_low c h =
    ap crc16_bit (crc16_bit_low c (omega arith)) ∙ crc16_bit_low (c * 2) (omega arith) ∙ omega arith

four_low : (c : ℕ) → c < 0x1000 → crc16_bit (crc16_bit (crc16_bit (crc16_bit c))) ≡ c * 16
four_low c h =
    ap (λ (t : ℕ). crc16_bit (crc16_bit t)) (two_low c (omega arith))
    ∙ two_low (c * 4) (omega arith)
    ∙ omega arith

pub eight_low : (c : ℕ) → c < 0x100 → eight crc16_bit c ≡ c * 256
eight_low c h =
    ap (λ (t : ℕ). crc16_bit (crc16_bit (crc16_bit (crc16_bit t)))) (four_low c (omega arith))
    ∙ four_low (c * 16) (omega arith)
    ∙ omega arith

crc16_byte-lt : (c v : ℕ) → c < 0x10000 → v < 256 → crc16_byte c v < 0x10000
unfolding crc16_byte
crc16_byte-lt c v hc hv =
    eight_keep crc16_bit 0x10000 crc16_bit-lt crc16_bit_injective _
      (bit_xor-lt 16 c (v * 256) hc (omega arith))

-- For one byte the step loses nothing of the register, and for one register nothing of the byte.
crc16_byte_injective :
    (c d v : ℕ) → c < 0x10000 → d < 0x10000 → v < 256 → crc16_byte c v ≡ crc16_byte d v → c ≡ d
unfolding crc16_byte
crc16_byte_injective c d v hc hd hv e = bit_xor_injective c d (v * 256) (
    eight_injective crc16_bit 0x10000 crc16_bit-lt crc16_bit_injective _ _
      (bit_xor-lt 16 c (v * 256) hc (omega arith)) (bit_xor-lt 16 d (v * 256) hd (omega arith)) e)

crc16_byte_reads :
    (c v w : ℕ) → c < 0x10000 → v < 256 → w < 256 → crc16_byte c v ≡ crc16_byte c w → v ≡ w
unfolding crc16_byte
crc16_byte_reads c v w hc hv hw e =
    let same : v * 256 ≡ w * 256 = bit_xor_injective_right (v * 256) (w * 256) c (
      eight_injective crc16_bit 0x10000 crc16_bit-lt crc16_bit_injective _ _
        (bit_xor-lt 16 c (v * 256) hc (omega arith)) (bit_xor-lt 16 c (w * 256) hc (omega arith))
        e) in
    omega arith

mask16 : (c : ℕ) → c < 0x10000 → bit_and c 0xFFFF ≡ c
mask16 c h = omega (arith, bit_and_mask 16 c)

crc16_from_run :
    (c : ℕ) (bytes : List ℕ) → crc16_from c bytes ≡ foldl crc16_byte (bit_and c 0xFFFF) bytes
unfolding crc16_from
crc16_from_run c bytes = refl

pub crc16_from_lem :
    (c : ℕ) (bytes : List ℕ) → c < 0x10000 → crc16_from c bytes ≡ foldl crc16_byte c bytes
unfolding crc16_from
crc16_from_lem c bytes h = ap (λ (t : ℕ). foldl crc16_byte t bytes) (mask16 c h)

pub crc16_from-lt : (c : ℕ) (bytes : List ℕ) → AreBytes bytes → crc16_from c bytes < 0x10000
unfolding crc16_from
crc16_from-lt c bytes hb =
    run_keep crc16_byte 0x10000 crc16_byte-lt crc16_byte_injective bytes _
      (omega (arith, bit_and_mask 16 c)) hb

pub crc16_ccitt_false_lem : (bytes : List ℕ) → crc16_ccitt_false bytes ≡ crc16_from 0xFFFF bytes
unfolding crc16_ccitt_false
crc16_ccitt_false_lem bytes = refl

-- The CRC-16 of a byte string fits 16 bits.
pub crc16-lt : (bytes : List ℕ) → AreBytes bytes → crc16_ccitt_false bytes < 0x10000
crc16-lt bytes hb = omega (arith, crc16_ccitt_false_lem bytes, crc16_from-lt 0xFFFF bytes hb)

-- The CRC-16 of two byte strings in a row, the first one of bytes, is that of the second from
-- the register that the first leaves.
pub crc16_from-append :
    (c : ℕ) (front back : List ℕ)
    → AreBytes front
    → crc16_from c (front ++ back) ≡ crc16_from (crc16_from c front) back
crc16_from-append c front back hb =
    let start = bit_and c 0xFFFF in
    crc16_from_run c (front ++ back)
    ∙ foldl-append crc16_byte start front back
    ∙ ap (λ (t : ℕ). foldl crc16_byte t back) (sym (crc16_from_run c front))
    ∙ sym (crc16_from_lem (crc16_from c front) back (crc16_from-lt c front hb))

-- Byte strings of one length that differ in one byte have different checksums.
pub crc16_detects :
    (front back : List ℕ) (x y : ℕ)
    → AreBytes (front ++ (x ∷ back))
    → y < 256
    → crc16_ccitt_false (front ++ (x ∷ back)) ≡ crc16_ccitt_false (front ++ (y ∷ back))
    → x ≡ y
crc16_detects front back x y hb hy e =
    run_detects crc16_byte 0x10000 crc16_byte-lt crc16_byte_injective crc16_byte_reads front back x
      y 0xFFFF (omega arith) hb hy (sym (run (front ++ (x ∷ back))) ∙ e ∙ run (front ++ (y ∷ back)))
  where
    run : (bytes : List ℕ) → crc16_ccitt_false bytes ≡ foldl crc16_byte 0xFFFF bytes
    run bytes = crc16_ccitt_false_lem bytes ∙ crc16_from_lem 0xFFFF bytes (omega arith)

-- Two byte strings that differ in exactly one byte have different CRC-16s.
pub crc16_differs :
    (front back : List ℕ) (x y : ℕ)
    → AreBytes (front ++ (x ∷ back))
    → y < 256
    → x ≢ y
    → crc16_ccitt_false (front ++ (x ∷ back)) ≢ crc16_ccitt_false (front ++ (y ∷ back))
crc16_differs front back x y hb hy ne e = ne (crc16_detects front back x y hb hy e)
