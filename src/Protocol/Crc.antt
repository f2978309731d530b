-- ===== src/Protocol/Crc.antt =====
-- protocol/crc.py: the two checksums, bit by bit as the source computes them.
-- A byte string is a list of numbers; the inner `for _ in range(8)` is `eight`.
pub mod Rounds
pub mod Sixteen
pub mod Residue
pub mod ThirtyTwo
use fpga_mcu_trinity.Base.{ℕ, ◌*◌, ◌/◌, List, foldl, bit_and, bit_xor, ◌!=◌, if◌then◌else◌}

abbrev pub eight : (ℕ → ℕ) → ℕ → ℕ
eight f c = f (f (f (f (f (f (f (f c)))))))

-- One round of the loop of `crc16_ccitt_false`.
unfoldable pub crc16_bit : ℕ → ℕ
crc16_bit crc =
    if bit_and crc 0x8000 != 0
    then bit_and (bit_xor (crc * 2) 0x1021) 0xFFFF
    else bit_and (crc * 2) 0xFFFF

unfoldable pub crc16_byte : ℕ → ℕ → ℕ
unfolding crc16_bit
crc16_byte crc value = eight crc16_bit (bit_xor crc (value * 256))

unfoldable pub crc16_from : ℕ → List ℕ → ℕ
unfolding crc16_byte
crc16_from init bytes = foldl crc16_byte (bit_and init 0xFFFF) bytes

-- `crc16_ccitt_false(data)`, with the default `init`.
unfoldable pub crc16_ccitt_false : List ℕ → ℕ
unfolding crc16_from
crc16_ccitt_false bytes = crc16_from 0xFFFF bytes

-- One round of the loop of `crc32c`.
unfoldable pub crc32c_bit : ℕ → ℕ
crc32c_bit crc = if bit_and crc 1 != 0 then bit_xor (crc / 2) 0x82F63B78 else crc / 2

unfoldable pub crc32c_byte : ℕ → ℕ → ℕ
unfolding crc32c_bit
crc32c_byte crc value = eight crc32c_bit (bit_xor crc value)

unfoldable pub crc32c_from : ℕ → List ℕ → ℕ
unfolding crc32c_byte
crc32c_from init bytes = bit_xor (foldl crc32c_byte (bit_and init 0xFFFFFFFF) bytes) 0xFFFFFFFF

-- `crc32c(data)`, with the default `init`.
unfoldable pub crc32c : List ℕ → ℕ
unfolding crc32c_from
crc32c bytes = crc32c_from 0xFFFFFFFF bytes
