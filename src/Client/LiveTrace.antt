-- ===== src/Client/LiveTrace.antt =====
-- serial_client_impl.py: _validate_live_spi_trace, the tests of a captured SPI exchange.
pub mod Valid
use fpga_mcu_trinity.Base.{
  ℕ, ◌-◌, Bool, true, false, List, [], ◌∷◌, length, drop, not, ◌||◌, ◌&&◌, ◌==◌, ◌!=◌, bytes_eq,
  if◌then◌else◌,
}
use fpga_mcu_trinity.Base.Enum.{int, same}
use fpga_mcu_trinity.Protocol.Constants.{protocol_version}
use fpga_mcu_trinity.Protocol.Constants.Codes.{ErrorCode, error_code_enum}
use fpga_mcu_trinity.Protocol.Constants.Commands.{
  SpiCommand, spi_command_enum, TargetId, target_id_enum,
}
use fpga_mcu_trinity.Protocol.Constants.Flags.{FrameFlags, frame_flags_enum}
use fpga_mcu_trinity.Protocol.Errors.{Exception, Result, ok, err, host_protocol_error}
use fpga_mcu_trinity.Exec.{Exec, lift, raise_if, ◌>>=◌, ◌>>◌}
use fpga_mcu_trinity.Protocol.Pack.{byte_at, u16_at, u32_at}
use fpga_mcu_trinity.Protocol.Frame.{
  SpiPacket, spi_decode, request_fingerprint_crc32c, is_decode_error,
}
use fpga_mcu_trinity.Client.Payloads.{SpiDiagnosticTrace}
use fpga_mcu_trinity.Client.Bringup.{expected_p1_build_id, expected_p2_build_id}

-- `except ProtocolDecodeError` that raises HostProtocolError
abbrev pub or_invalid : {A : Type 0} → Exception → Result A → Result A
or_invalid invalid (ok a) = ok a
or_invalid invalid (err e) = if is_decode_error e then err invalid else err e

-- int.from_bytes(frame[-2:], "big"), of a frame of at least two bytes
abbrev pub frame_crc : List ℕ → ℕ
frame_crc frame = u16_at frame (length frame - 2)

abbrev pub expected_frame_length : SpiCommand → ℕ
expected_frame_length command = if same command SpiCommand.get_info then 22 else 26

abbrev pub expected_build : TargetId → ℕ
expected_build target =
    if same target TargetId.primer1 then expected_p1_build_id else expected_p2_build_id

-- The test of the GET_INFO payload: whether it is another target's, or another build's.
abbrev pub wrong_identity : TargetId → List ℕ → Bool
wrong_identity target payload =
    length payload != 12
    || byte_at payload 0 != int target
    || byte_at payload 1 != protocol_version
    || u32_at payload 6 != expected_build target
    || not (bytes_eq (drop 10 payload) (0 ∷ 0 ∷ []))

module _ {S : Type 0} where
  unfoldable pub validate_live_spi_trace :
      SpiDiagnosticTrace → TargetId → SpiCommand → Exec S (Unit {0})
  validate_live_spi_trace trace target command = do
    raise_if (not (same trace.result_code ErrorCode.ok)) (host_protocol_error "failed")
    raise_if (trace.source != int target) (host_protocol_error "source mismatch")
    raise_if (trace.request_length != 10) (host_protocol_error "request length")
    raise_if
        (trace.response_capture_length != expected_frame_length command
          || trace.response_frame_length != expected_frame_length command)
        (host_protocol_error "response length")
    request ← lift (
        or_invalid (host_protocol_error "raw SPI request invalid") (spi_decode trace.request_bytes))
    response ← lift (
        or_invalid (host_protocol_error "raw SPI response invalid")
          (spi_decode trace.response_bytes))
    raise_if
        (request.command != int command
          || request.flags != 0
          || request.transaction_id != trace.target_transaction_id
          || length request.payload != 0)
        (host_protocol_error "request correlation mismatch")
    expected_fingerprint ← lift (request_fingerprint_crc32c (int command) 0 [])
    raise_if (trace.request_fingerprint != expected_fingerprint)
        (host_protocol_error "request fingerprint mismatch")
    raise_if (trace.request_crc != frame_crc trace.request_bytes)
        (host_protocol_error "request CRC trace mismatch")
    raise_if
        (response.command != int command
          || response.flags != int FrameFlags.response
          || response.transaction_id != trace.target_transaction_id)
        (host_protocol_error "response correlation mismatch")
    raise_if
        (trace.response_crc_received != frame_crc trace.response_bytes
          || trace.response_crc_calculated != frame_crc trace.response_bytes)
        (host_protocol_error "response CRC mismatch")
    raise_if (same command SpiCommand.get_info && wrong_identity target response.payload)
        (host_protocol_error "GET_INFO identity payload mismatch")
    raise_if trace.irq_before_request (host_protocol_error "had a pending mailbox")
    raise_if (not trace.irq_before_response) (host_protocol_error "did not assert IRQ")
    raise_if trace.irq_after_response (host_protocol_error "did not release IRQ")
