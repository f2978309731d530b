-- ===== src/Client/LiveTrace/Valid.antt =====
-- What a trace that passes _validate_live_spi_trace shows of the exchange on the wire.
use fpga_mcu_trinity.Base.{
  ℕ, ◌≡◌, refl, ap, sym, ◌∙◌, arith, Bool, true, false, List, [], ◌∷◌, length, ◌&&◌,
}
use fpga_mcu_trinity.Base.Enum.{int, same, same→eq}
use fpga_mcu_trinity.Protocol.Constants.{protocol_version}
use fpga_mcu_trinity.Protocol.Constants.Codes.{ErrorCode, error_code_enum}
use fpga_mcu_trinity.Protocol.Constants.Commands.{
  SpiCommand, spi_command_enum, TargetId, target_id_enum,
}
use fpga_mcu_trinity.Protocol.Constants.Flags.{FrameFlags, frame_flags_enum}
use fpga_mcu_trinity.Protocol.Errors.{Exception, Result, ok, err}
use fpga_mcu_trinity.Exec.Yields.{Yields, Yields-check, Yields-read, Yields-last, yielded}
use fpga_mcu_trinity.Protocol.Crc.Rounds.{AreBytes}
use fpga_mcu_trinity.Protocol.Frame.{SpiPacket, spi_encode, spi_decode, request_fingerprint_crc32c}
use fpga_mcu_trinity.Protocol.Frame.Spi.{spi_encode-spi_decode}
use fpga_mcu_trinity.Client.Payloads.{SpiDiagnosticTrace}
use fpga_mcu_trinity.Client.LiveTrace.{
  validate_live_spi_trace, or_invalid, frame_crc, wrong_identity,
}

-- The request that the SN32 sends to a target for a command without data.
abbrev pub bare_request : SpiCommand → ℕ → SpiPacket
bare_request command txid = record {
  command = int command;
  flags = 0;
  transaction_id = txid;
  payload = [];
  version = protocol_version;
}

-- An exchange that was seen on the wire: its packets decode, the response answers the request, and
-- the numbers of the trace are those of the captured bytes.
pub record IsLive (target : TargetId) (command : SpiCommand) (trace : SpiDiagnosticTrace)
    : Type 0 where
  pub request : SpiPacket
  pub response : SpiPacket
  pub result_code : trace.result_code ≡ ErrorCode.ok
  pub source : trace.source ≡ int target
  pub request_decodes : spi_decode trace.request_bytes ≡ ok request
  pub request_command : request.command ≡ int command
  pub request_flags : request.flags ≡ 0
  pub request_txid : request.transaction_id ≡ trace.target_transaction_id
  pub request_payload : length request.payload ≡ 0
  pub response_decodes : spi_decode trace.response_bytes ≡ ok response
  pub response_command : response.command ≡ int command
  pub response_flags : response.flags ≡ int FrameFlags.response
  pub response_txid : response.transaction_id ≡ trace.target_transaction_id
  pub fingerprint : request_fingerprint_crc32c (int command) 0 [] ≡ ok trace.request_fingerprint
  pub request_crc : trace.request_crc ≡ frame_crc trace.request_bytes
  pub response_crc_received : trace.response_crc_received ≡ frame_crc trace.response_bytes
  pub response_crc_calculated : trace.response_crc_calculated ≡ frame_crc trace.response_bytes
  pub identity : command ≡ SpiCommand.get_info → wrong_identity target response.payload ≡ false
  pub irq_before_request : trace.irq_before_request ≡ false
  pub irq_before_response : trace.irq_before_response ≡ true
  pub irq_after_response : trace.irq_after_response ≡ false

or_invalid-eq-ok :
    {A : Type 0} (invalid : Exception) (r : Result A) (a : A)
    → or_invalid invalid r ≡ ok a
    → r ≡ ok a
or_invalid-eq-ok invalid (ok b) a h = h
or_invalid-eq-ok invalid (err e) a h = absurd (ground (arith, h))

second_false : (a b : Bool) → (a && b) ≡ false → a ≡ true → b ≡ false
second_false true b h e = h
second_false false b h e = cc

empty : (bytes : List ℕ) → length bytes ≡ 0 → bytes ≡ []
empty [] h = refl
empty (b ∷ bytes) h = absurd (omega arith)

bare :
    (command : SpiCommand) (txid : ℕ) (request : SpiPacket)
    → request.version ≡ protocol_version
    → request.command ≡ int command
    → request.flags ≡ 0
    → request.transaction_id ≡ txid
    → length request.payload ≡ 0
    → request ≡ bare_request command txid
bare command txid request v c f t p = λ i. record {
  command = c i;
  flags = f i;
  transaction_id = t i;
  payload = empty request.payload p i;
  version = v i;
}

module _ {S : Type 0} (trace : SpiDiagnosticTrace) (target : TargetId) (command : SpiCommand) where
  pub validate_live_spi_trace-Yields :
      Yields {S = S}
        (λ _. IsLive target command trace)
        (validate_live_spi_trace trace target command)
  unfolding validate_live_spi_trace
  validate_live_spi_trace-Yields = Yields-check _ _ _ λ code. Yields-check _ _ _ λ source.
      Yields-check _ _ _ λ _. Yields-check _ _ _ λ _. Yields-read _ _ λ request decoded_request.
        Yields-read _ _ λ response decoded_response. Yields-check _ _ _ λ asked.
          Yields-read _ _ λ expected fingerprint. Yields-check _ _ _ λ same_fingerprint.
            Yields-check _ _ _ λ crc. Yields-check _ _ _ λ answered. Yields-check _ _ _ λ crcs.
              Yields-check _ _ _ λ identity. Yields-check _ _ _ λ quiet.
                Yields-check _ _ _ λ raised. Yields-last _ _ λ released. record {
                  request = request;
                  response = response;
                  result_code = same→eq _ _ (ground (arith, code));
                  source = ground (arith, source);
                  request_decodes = or_invalid-eq-ok _ _ _ decoded_request;
                  request_command = ground (arith, asked);
                  request_flags = ground (arith, asked);
                  request_txid = ground (arith, asked);
                  request_payload = ground (arith, asked);
                  response_decodes = or_invalid-eq-ok _ _ _ decoded_response;
                  response_command = ground (arith, answered);
                  response_flags = ground (arith, answered);
                  response_txid = ground (arith, answered);
                  fingerprint = fingerprint ∙ ap ok (ground (arith, same_fingerprint));
                  request_crc = ground (arith, crc);
                  response_crc_received = ground (arith, crcs);
                  response_crc_calculated = ground (arith, crcs);
                  identity = λ e.
                      second_false _ _ identity
                        (ap (λ (c : SpiCommand). same c SpiCommand.get_info) e);
                  irq_before_request = quiet;
                  irq_before_response = ground (arith, raised);
                  irq_after_response = released;
                }

  -- A trace that passes was an exchange: result code OK, a captured request and a captured response
  -- that both decode, carry the command and the transaction ID of the trace, with no flags in the
  -- request and RESPONSE in the answer; its fingerprint is that of the request, its CRC fields are
  -- those of the captures, a GET_INFO answer names the target and its expected build, and IRQ was
  -- low before the request, high before the response and low after it.
  pub validate_live_spi_trace-IsLive :
      (s t : S)
      → validate_live_spi_trace trace target command s ≡ (ok tt, t)
      → IsLive target command trace
  validate_live_spi_trace-IsLive s t = yielded validate_live_spi_trace-Yields s t tt

  -- The request bytes of a trace that passes are the encoding of a request for the command, without
  -- flags and payload, under the transaction ID of the trace, if the capture is a list of bytes.
  pub validate_live_spi_trace_request :
      (s t : S)
      → AreBytes trace.request_bytes
      → validate_live_spi_trace trace target command s ≡ (ok tt, t)
      → spi_encode (bare_request command trace.target_transaction_id) ≡ ok trace.request_bytes
  validate_live_spi_trace_request s t bytes e =
      let live = validate_live_spi_trace-IsLive s t e in
      let (fits, encoded) =
        spi_encode-spi_decode trace.request_bytes live.request bytes live.request_decodes in
      ap spi_encode (
        sym (
          bare command trace.target_transaction_id live.request fits.version live.request_command
            live.request_flags live.request_txid live.request_payload))
      ∙ encoded
