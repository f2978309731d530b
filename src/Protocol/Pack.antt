-- ===== src/Protocol/Pack.antt =====
-- The big-endian fields that the source reads and writes with `struct`, and the trailing checksum.
pub mod Fields
pub mod Seal
use fpga_mcu_trinity.Base.{
  ℕ, ◌+◌, ◌-◌, ◌*◌, ◌/◌, ◌%◌, List, [], ◌∷◌, ◌++◌, length, get_or, take, bit_and,
}
use fpga_mcu_trinity.Protocol.Crc.{crc16_ccitt_false}

abbrev pub byte_at : List ℕ → ℕ → ℕ
byte_at bytes i = get_or bytes i 0

-- `struct.unpack_from` with `>H`, `>I` and `>Q`, inside the buffer.
abbrev pub u16_at : List ℕ → ℕ → ℕ
u16_at bytes i = byte_at bytes i * 0x100 + byte_at bytes (i + 1)

abbrev pub u32_at : List ℕ → ℕ → ℕ
u32_at bytes i = u16_at bytes i * 0x10000 + u16_at bytes (i + 2)

abbrev pub u64_at : List ℕ → ℕ → ℕ
u64_at bytes i = u32_at bytes i * 0x100000000 + u32_at bytes (i + 4)

-- `struct.pack` with `>H`, of a number that fits.
abbrev pub pack_u16 : ℕ → List ℕ
pack_u16 n = n / 0x100 ∷ n % 0x100 ∷ []

-- `struct.pack` with `>I` and `>Q`, of a number that fits.
abbrev pub pack_u32 : ℕ → List ℕ
pack_u32 n = pack_u16 (n / 0x10000) ++ pack_u16 (n % 0x10000)

abbrev pub pack_u64 : ℕ → List ℕ
pack_u64 n = pack_u32 (n / 0x100000000) ++ pack_u32 (n % 0x100000000)

-- `a & ~m`
abbrev pub and_not : ℕ → ℕ → ℕ
and_not a m = a - bit_and a m

-- `raw[:-2]`
abbrev pub body_of : List ℕ → List ℕ
body_of raw = take (length raw - 2) raw

-- body + struct.pack(">H", crc16_ccitt_false(body))
unfoldable pub seal : List ℕ → List ℕ
seal body = body ++ pack_u16 (crc16_ccitt_false body)
