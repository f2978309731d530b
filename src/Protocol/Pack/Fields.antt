-- ===== src/Protocol/Pack/Fields.antt =====
-- The eight header bytes of a frame, and the range of a field.
use fpga_mcu_trinity.Base.{
  ℕ, zero, suc, ◌+◌, ◌*◌, ◌≤◌, ◌<◌, ◌≡◌, refl, sym, ap, ap₂, ◌∙◌, arith, List, [], ◌∷◌, ◌++◌,
  length, take, drop, bit_and, ◌/◌, ◌%◌,
}
use fpga_mcu_trinity.Base.Bits.{bit_and_mask}
use fpga_mcu_trinity.Protocol.Crc.Rounds.{AreBytes}
use fpga_mcu_trinity.Protocol.Pack.{byte_at, u16_at, u32_at, u64_at, pack_u16, pack_u32, pack_u64}

pub byte_at-lt : (bytes : List ℕ) (i : ℕ) → AreBytes bytes → byte_at bytes i < 256
byte_at-lt [] i h = omega arith
byte_at-lt (x ∷ xs) zero h = h.0
byte_at-lt (x ∷ xs) (suc i) h = byte_at-lt xs i h.1

pub u16_at-lt : (bytes : List ℕ) (i : ℕ) → AreBytes bytes → u16_at bytes i < 0x10000
u16_at-lt bytes i h = omega (arith, byte_at-lt bytes i h, byte_at-lt bytes (i + 1) h)

pub u32_at-lt : (bytes : List ℕ) (i : ℕ) → AreBytes bytes → u32_at bytes i < 0x100000000
u32_at-lt bytes i h = omega (arith, u16_at-lt bytes i h, u16_at-lt bytes (i + 2) h)

-- The first eight bytes of a buffer, one by one.
abbrev pub header_of : List ℕ → List ℕ → List ℕ
header_of raw rest =
    byte_at raw 0
    ∷ byte_at raw 1
    ∷ byte_at raw 2
    ∷ byte_at raw 3
    ∷ byte_at raw 4
    ∷ byte_at raw 5
    ∷ byte_at raw 6
    ∷ byte_at raw 7
    ∷ rest

take_eight :
    (raw : List ℕ) (m : ℕ)
    → 8 ≤ length raw
    → take (suc (suc (suc (suc (suc (suc (suc (suc m)))))))) raw
      ≡ header_of raw (take m (drop 8 raw))
take_eight (a ∷ b ∷ c ∷ d ∷ e ∷ f ∷ g ∷ h ∷ raw) m k = refl
take_eight _ m k = absurd (omega arith)

pub take_header :
    (raw : List ℕ) (n m : ℕ)
    → 8 ≤ length raw
    → n ≡ 8 + m
    → take n raw ≡ header_of raw (take m (drop 8 raw))
take_header raw n m h e =
    let same : n ≡ suc (suc (suc (suc (suc (suc (suc (suc m))))))) = omega arith in
    ap (λ (t : ℕ). take t raw) same ∙ take_eight raw m h

-- A byte, or a pair of bytes, that a field was read from.
pub masked_byte :
    (bytes : List ℕ) (i : ℕ) → AreBytes bytes → bit_and (byte_at bytes i) 0xFF ≡ byte_at bytes i
masked_byte bytes i h = omega (arith, bit_and_mask 8 (byte_at bytes i), byte_at-lt bytes i h)

pub u16_high : (bytes : List ℕ) (i : ℕ) → AreBytes bytes → u16_at bytes i / 0x100 ≡ byte_at bytes i
u16_high bytes i h = omega (arith, byte_at-lt bytes (i + 1) h)

pub u16_low :
    (bytes : List ℕ) (i : ℕ) → AreBytes bytes → u16_at bytes i % 0x100 ≡ byte_at bytes (i + 1)
u16_low bytes i h = omega (arith, byte_at-lt bytes (i + 1) h)

u32_halves :
    (a b : ℕ) → b < 0x10000 → (a ≡ (a * 0x10000 + b) / 0x10000) × (b ≡ (a * 0x10000 + b) % 0x10000)
u32_halves a b h = (omega arith, omega arith)

u64_halves :
    (a b : ℕ)
    → b < 0x100000000
    → (a ≡ (a * 0x100000000 + b) / 0x100000000) × (b ≡ (a * 0x100000000 + b) % 0x100000000)
u64_halves a b h = (omega arith, omega arith)

-- The fields of a buffer from one place on, as they stand there.
pub drop_byte :
    (bytes : List ℕ) (i : ℕ)
    → i < length bytes
    → drop i bytes ≡ byte_at bytes i ∷ drop (suc i) bytes
drop_byte [] i h = absurd (omega arith)
drop_byte (x ∷ xs) zero h = refl
drop_byte (x ∷ xs) (suc i) h = drop_byte xs i (omega arith)

pub drop_u16 :
    (bytes : List ℕ) (i : ℕ)
    → AreBytes bytes
    → i + 1 < length bytes
    → drop i bytes ≡ pack_u16 (u16_at bytes i) ++ drop (i + 2) bytes
drop_u16 bytes i hb h =
    let one : suc i ≡ i + 1 = omega arith in
    let two : suc (i + 1) ≡ i + 2 = omega arith in
    drop_byte bytes i (omega arith)
    ∙ ap (λ (t : ℕ). byte_at bytes i ∷ drop t bytes) one
    ∙ ap (λ (t : List ℕ). byte_at bytes i ∷ t) (drop_byte bytes (i + 1) h)
    ∙ ap (λ (t : ℕ). byte_at bytes i ∷ byte_at bytes (i + 1) ∷ drop t bytes) two
    ∙ ap₂ (λ (a b : ℕ). a ∷ b ∷ drop (i + 2) bytes) (sym (u16_high bytes i hb))
        (sym (u16_low bytes i hb))

pub drop_u32 :
    (bytes : List ℕ) (i : ℕ)
    → AreBytes bytes
    → i + 3 < length bytes
    → drop i bytes ≡ pack_u32 (u32_at bytes i) ++ drop (i + 4) bytes
drop_u32 bytes i hb h =
    let four : i + 2 + 2 ≡ i + 4 = omega arith in
    drop_u16 bytes i hb (omega arith)
    ∙ ap (λ (t : List ℕ). pack_u16 (u16_at bytes i) ++ t) (drop_u16 bytes (i + 2) hb (omega arith))
    ∙ ap₂ (λ (a b : ℕ). pack_u16 a ++ (pack_u16 b ++ drop (i + 2 + 2) bytes))
        (u32_halves (u16_at bytes i) (u16_at bytes (i + 2)) (u16_at-lt bytes (i + 2) hb)).0
        (u32_halves (u16_at bytes i) (u16_at bytes (i + 2)) (u16_at-lt bytes (i + 2) hb)).1
    ∙ ap (λ (t : ℕ). pack_u32 (u32_at bytes i) ++ drop t bytes) four

pub drop_u64 :
    (bytes : List ℕ) (i : ℕ)
    → AreBytes bytes
    → i + 7 < length bytes
    → drop i bytes ≡ pack_u64 (u64_at bytes i) ++ drop (i + 8) bytes
drop_u64 bytes i hb h =
    let eight : i + 4 + 4 ≡ i + 8 = omega arith in
    drop_u32 bytes i hb (omega arith)
    ∙ ap (λ (t : List ℕ). pack_u32 (u32_at bytes i) ++ t) (drop_u32 bytes (i + 4) hb (omega arith))
    ∙ ap₂ (λ (a b : ℕ). pack_u32 a ++ (pack_u32 b ++ drop (i + 4 + 4) bytes))
        (u64_halves (u32_at bytes i) (u32_at bytes (i + 4)) (u32_at-lt bytes (i + 4) hb)).0
        (u64_halves (u32_at bytes i) (u32_at bytes (i + 4)) (u32_at-lt bytes (i + 4) hb)).1
    ∙ ap (λ (t : ℕ). pack_u64 (u64_at bytes i) ++ drop t bytes) eight

pub drop_all : (n : ℕ) (bytes : List ℕ) → length bytes ≤ n → drop n bytes ≡ []
drop_all zero [] h = refl
drop_all zero (x ∷ xs) h = absurd (omega arith)
drop_all (suc n) [] h = refl
drop_all (suc n) (x ∷ xs) h = drop_all n xs (omega arith)
