-- ===== src/Flow.antt =====
-- pc_host/src/trinity_host/full_flow.py: the secure telemetry flow over the client.
pub mod Requests
pub mod Secure
pub mod Erase
use fpga_mcu_trinity.Base.{
  ℕ, zero, suc, Bool, true, false, String, Option, List, [], ◌∷◌, length, slice, bit_or, ◌!=◌,
  if◌then◌else◌,
}
use fpga_mcu_trinity.Base.Enum.{int}
use fpga_mcu_trinity.Protocol.Constants.Codes.{ErrorCode}
use fpga_mcu_trinity.Protocol.Constants.Flags.{SystemCapability, system_capability_enum}
use fpga_mcu_trinity.Protocol.Errors.{
  Exception, Result, ok, err, value_error, host_protocol_error, is_value_error, raise_if, ◌>>=◌,
  ◌>>◌,
}
use fpga_mcu_trinity.Protocol.Pack.{u16_at, u32_at, u64_at}
use fpga_mcu_trinity.Protocol.Types.{SystemStatus, error_code}
use fpga_mcu_trinity.Client.Payloads.{SystemInfo, known_code}
use fpga_mcu_trinity.Client.Qualification.{Sn32QualificationResult}

abbrev pub keypair_mode_random : ℕ
keypair_mode_random = 0

abbrev pub keypair_mode_deterministic : ℕ
keypair_mode_deterministic = 1

abbrev pub session_mode_deterministic : ℕ
session_mode_deterministic = 0

abbrev pub session_mode_kat : ℕ
session_mode_kat = 1

-- bytes(range(first, first + count))
abbrev byte_range : ℕ → ℕ → List ℕ
byte_range zero first = []
byte_range (suc count) first = first ∷ byte_range count (suc first)

abbrev pub default_keypair_seed : List ℕ
default_keypair_seed = byte_range 0x20 0x00

abbrev pub default_session_seed : List ℕ
default_session_seed = byte_range 0x20 0x20

abbrev pub default_telemetry_header : List ℕ
default_telemetry_header = 0x02 ∷ 0x00 ∷ 0xBE ∷ 0xEF ∷ 0x53 ∷ 0x4E ∷ 0x00 ∷ 0x00 ∷ []

abbrev pub default_plaintexts : List (List ℕ)
default_plaintexts = byte_range 0x18 0x00 ∷ byte_range 0x18 0x80 ∷ []

abbrev pub required_capabilities : ℕ
required_capabilities = bit_or (int SystemCapability.kat) (
    bit_or (int SystemCapability.mlkem512) (
      bit_or (int SystemCapability.ascon_aead128) (
        bit_or (int SystemCapability.payload_uart)
          (int SystemCapability.transaction_reconciliation))))

pub record KeypairResult : Type 0 where
  pub host_txid : ℕ
  pub public_key_hash : List ℕ

pub record SessionResult : Type 0 where
  pub host_txid : ℕ
  pub session_id : ℕ
  pub initial_sequence : ℕ

pub record TelemetryResult : Type 0 where
  pub host_txid : ℕ
  pub session_id : ℕ
  pub sequence : ℕ
  pub plaintext : List ℕ
  pub status : ErrorCode

pub record SecureTelemetryQualificationResult : Type 0 where
  pub control_plane : Sn32QualificationResult
  pub info : SystemInfo
  pub status_before : SystemStatus
  pub keypair : KeypairResult
  pub session : SessionResult
  pub status_active : SystemStatus
  pub telemetry : List TelemetryResult
  pub last_result : TelemetryResult
  pub status_final : SystemStatus

-- `try: bytes.fromhex(text)`, with an `except ValueError` that names what was parsed.
abbrev pub or_not_hex : Exception → Result (List ℕ) → Result (List ℕ)
or_not_hex e (ok bytes) = ok bytes
or_not_hex e (err f) = if is_value_error f then err e else err f

-- The parsers, over `bytes.fromhex`.
module _ (fromhex : String → Result (List ℕ)) where
  unfoldable pub parse_seed_hex : String → Result (List ℕ)
  parse_seed_hex text = do
    seed ← or_not_hex (value_error "seed must be hexadecimal") (fromhex text)
    raise_if (length seed != 32) (value_error "seed must be exactly 32 bytes")
    ok seed

  unfoldable pub parse_plaintext_hex : String → Result (List ℕ)
  parse_plaintext_hex text = do
    plaintext ← or_not_hex (value_error "plaintext must be hexadecimal") (fromhex text)
    raise_if (length plaintext != 24) (value_error "plaintext must be exactly 24 bytes")
    ok plaintext

unfoldable pub require_seed : List ℕ → Result (List ℕ)
require_seed seed = do
  raise_if (length seed != 32) (value_error "seed must be exactly 32 bytes")
  ok seed

-- struct ">IQ" at 0, the plaintext, ">H" at 36
unfoldable pub decode_telemetry_result : ℕ → List ℕ → Result TelemetryResult
decode_telemetry_result host_txid payload = do
  raise_if (length payload != 38) (host_protocol_error "telemetry result must be 38 bytes")
  status ←
      known_code (host_protocol_error "unknown telemetry status") (error_code (u16_at payload 36))
  ok (record {
    host_txid = host_txid;
    session_id = u32_at payload 0;
    sequence = u64_at payload 4;
    plaintext = slice 12 36 payload;
    status = status;
  })
