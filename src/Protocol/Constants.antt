-- ===== src/Protocol/Constants.antt =====
-- protocol/constants.py: the numbers of the two wire formats; the classes of members are in the
-- children of this module.
pub mod Codes
pub mod States
pub mod Kinds
pub mod Commands
pub mod Flags
pub mod Masks
use fpga_mcu_trinity.Base.{ℕ}

abbrev pub protocol_version : ℕ
protocol_version = 0x01

abbrev pub pc_max_payload : ℕ
pc_max_payload = 256

abbrev pub spi_magic : ℕ
spi_magic = 0xA5

abbrev pub spi_max_payload : ℕ
spi_max_payload = 66
