-- ===== src/Client/Payloads.antt =====
-- The payloads that the client decodes itself: SystemInfo and SpiDiagnosticTrace of
-- serial_client_impl.py, LastErrorSnapshot and SessionCommitDiagnostic of serial_client.py.
pub mod Trace
pub mod LastError
use fpga_mcu_trinity.Base.{
  ℕ, ◌+◌, ◌-◌, ◌/◌, ◌^◌, Bool, true, false, Option, none, some, List, length, slice, ltb, ◌==◌,
  ◌!=◌, bit_and, if◌then◌else◌,
}
use fpga_mcu_trinity.Base.Enum.{int}
use fpga_mcu_trinity.Protocol.Constants.Codes.{ErrorCode, error_code_enum}
use fpga_mcu_trinity.Protocol.Errors.{
  Exception, Result, ok, err, host_protocol_error, is_value_error, raise_if, ◌>>=◌, ◌>>◌,
}
use fpga_mcu_trinity.Protocol.Pack.{byte_at, u16_at, u32_at}
use fpga_mcu_trinity.Protocol.Types.{error_code}

abbrev pub spi_diagnostic_header_size : ℕ
spi_diagnostic_header_size = 24

abbrev pub spi_diagnostic_max_capture : ℕ
spi_diagnostic_max_capture = 76

pub record SystemInfo : Type 0 where
  pub protocol_version : ℕ
  pub architecture_major : ℕ
  pub architecture_minor : ℕ
  pub architecture_patch : ℕ
  pub capabilities : ℕ
  pub sn32_build_id : ℕ
  pub primer1_build_id : ℕ
  pub primer2_build_id : ℕ

unfoldable pub decode_info : List ℕ → Result SystemInfo
decode_info payload = do
  raise_if (length payload != 20) (host_protocol_error "system info must be 20 bytes")
  ok (record {
    protocol_version = byte_at payload 0;
    architecture_major = byte_at payload 1;
    architecture_minor = byte_at payload 2;
    architecture_patch = byte_at payload 3;
    capabilities = u32_at payload 4;
    sn32_build_id = u32_at payload 8;
    primer1_build_id = u32_at payload 12;
    primer2_build_id = u32_at payload 16;
  })

pub record SpiDiagnosticTrace : Type 0 where
  pub target_id : ℕ
  pub command : ℕ
  pub source : ℕ
  pub result_code : ErrorCode
  pub target_transaction_id : ℕ
  pub request_fingerprint : ℕ
  pub request_length : ℕ
  pub response_capture_length : ℕ
  pub response_frame_length : ℕ
  pub request_crc : ℕ
  pub response_crc_received : ℕ
  pub response_crc_calculated : ℕ
  pub irq_before_request : Bool
  pub irq_after_request : Bool
  pub irq_before_response : Bool
  pub irq_after_response : Bool
  pub request_bytes : List ℕ
  pub response_bytes : List ℕ

-- `try: ErrorCode(n)`, with an `except ValueError` that raises HostProtocolError.
abbrev pub known_code : Exception → Result ErrorCode → Result ErrorCode
known_code unknown (ok code) = ok code
known_code unknown (err e) = if is_value_error e then err unknown else err e

-- bool(flags & bit)
abbrev pub bit_is_set : ℕ → ℕ → Bool
bit_is_set flags bit = bit_and flags bit != 0

-- struct ">HHIHHHHHH" at 4, behind four bytes
unfoldable pub decode_trace : List ℕ → Result SpiDiagnosticTrace
decode_trace payload = do
  raise_if (ltb (length payload) spi_diagnostic_header_size)
      (host_protocol_error "SPI diagnostic payload must be at least 24 bytes")
  raise_if (ltb spi_diagnostic_max_capture (u16_at payload 12))
      (host_protocol_error "SPI diagnostic request capture too long")
  raise_if (ltb spi_diagnostic_max_capture (u16_at payload 14))
      (host_protocol_error "SPI diagnostic response capture too long")
  raise_if (length payload != spi_diagnostic_header_size + u16_at payload 12 + u16_at payload 14)
      (host_protocol_error "SPI diagnostic payload length")
  result_code ←
      known_code (host_protocol_error "unknown SPI diagnostic result")
        (error_code (u16_at payload 4))
  ok (record {
    target_id = byte_at payload 0;
    command = byte_at payload 1;
    source = byte_at payload 2;
    result_code = result_code;
    target_transaction_id = u16_at payload 6;
    request_fingerprint = u32_at payload 8;
    request_length = u16_at payload 12;
    response_capture_length = u16_at payload 14;
    response_frame_length = u16_at payload 16;
    request_crc = u16_at payload 18;
    response_crc_received = u16_at payload 20;
    response_crc_calculated = u16_at payload 22;
    irq_before_request = bit_is_set (byte_at payload 3) 0x01;
    irq_after_request = bit_is_set (byte_at payload 3) 0x02;
    irq_before_response = bit_is_set (byte_at payload 3) 0x04;
    irq_after_response = bit_is_set (byte_at payload 3) 0x08;
    request_bytes = slice 24 (24 + u16_at payload 12) payload;
    response_bytes =
        slice (24 + u16_at payload 12) (24 + u16_at payload 12 + u16_at payload 14) payload;
  })

pub record LastErrorSnapshot : Type 0 where
  pub code : ErrorCode
  pub source : ℕ
  pub detail : ℕ

-- struct ">HBBI"
unfoldable pub decode_last_error : List ℕ → Result LastErrorSnapshot
decode_last_error payload = do
  raise_if (length payload != 8) (host_protocol_error "GET_LAST_ERROR response must be 8 bytes")
  raise_if (byte_at payload 3 != 0) (host_protocol_error "GET_LAST_ERROR reserved byte is nonzero")
  code ← known_code (host_protocol_error "unknown last-error code") (error_code (u16_at payload 0))
  ok (record { code = code; source = byte_at payload 2; detail = u32_at payload 4 })

pub record SessionCommitDiagnostic : Type 0 where
  pub phase : ℕ
  pub gpio_high : Bool
  pub p1_session_state : ℕ
  pub p2_session_state : ℕ
  pub p1_secure_flags : ℕ
  pub p2_secure_flags : ℕ

-- SessionCommitDiagnostic.from_last_error
unfoldable pub from_last_error : LastErrorSnapshot → Option SessionCommitDiagnostic
from_last_error snapshot =
    if int snapshot.code != int ErrorCode.session_commit_failed
    then none
    else some (record {
      phase = bit_and (snapshot.detail / 2 ^ 28) 0x0F;
      gpio_high = bit_is_set snapshot.detail 0x08000000;
      p1_session_state = bit_and (snapshot.detail / 2 ^ 20) 0x0F;
      p2_session_state = bit_and (snapshot.detail / 2 ^ 16) 0x0F;
      p1_secure_flags = bit_and (snapshot.detail / 2 ^ 8) 0xFF;
      p2_secure_flags = bit_and snapshot.detail 0xFF;
    })
