-- ===== src/Tests/Payloads.antt =====
-- Payloads at concrete inputs.
use fpga_mcu_trinity.Base.{
  ℕ, ◌≡◌, ◌↔◌, ◌≤◌, refl, arith, true, false, some, List, [], ◌∷◌, ◌++◌, length, take, bit_or,
}
use fpga_mcu_trinity.Base.Enum.{int, of_int}
use fpga_mcu_trinity.Protocol.Errors.{RemoteError, remote_error, ok, err}
use fpga_mcu_trinity.Protocol.Constants.Codes.{ErrorCode, error_code_enum}
use fpga_mcu_trinity.Protocol.Constants.States.{SystemState, TransactionState}
use fpga_mcu_trinity.Protocol.Constants.Kinds.{Mode, Source, EventType}
use fpga_mcu_trinity.Protocol.Constants.Flags.{FrameFlags, frame_flags_enum}
use fpga_mcu_trinity.Protocol.Frame.{HostFrame}
use fpga_mcu_trinity.Protocol.Pack.{u16_at}
use fpga_mcu_trinity.Protocol.Types.{
  SystemStatus, decode_status, TransactionResult, decode_transaction, EventEnvelope, decode_event,
  system_state, mode, error_code, transaction_state, event_type, source,
}
use fpga_mcu_trinity.Protocol.Types.Status.{status_layout, StatusFits, decode_status-layout}
use fpga_mcu_trinity.Protocol.Types.Results.{
  transaction_layout, decode_transaction-layout, event_layout, decode_event-layout,
}
use fpga_mcu_trinity.Client.Payloads.{
  SpiDiagnosticTrace, decode_trace, SessionCommitDiagnostic, from_last_error,
}
use fpga_mcu_trinity.Client.Payloads.Trace.{decode_trace_captures}
use fpga_mcu_trinity.Client.Payloads.LastError.{detail_of, from_last_error-detail_of}
use fpga_mcu_trinity.Client.Response.{check_response, remote_error_of, check_response_iff}
use fpga_mcu_trinity.Client.Response.Remote.{error_layout, check_response_error}

abbrev active_status : SystemStatus
active_status = record {
  system_state = SystemState.active;
  mode = Mode.demo_secure;
  target_ready_mask = 7;
  fault_flags = 0;
  session_id = 0x01020304;
  current_sequence = 9;
  last_error = ErrorCode.ok;
  active_host_txid = 12;
}

active_status-StatusFits : StatusFits active_status
active_status-StatusFits = record {
  target_ready_mask = omega arith;
  fault_flags = omega arith;
  session_id = omega arith;
  current_sequence = omega arith;
  active_host_txid = omega arith;
}

decode_status-layout_example : decode_status (status_layout active_status) ≡ ok active_status
decode_status-layout_example = decode_status-layout active_status active_status-StatusFits

abbrev active_bytes : List ℕ
active_bytes = 6 ∷ 2 ∷ 7 ∷ 0 ∷ 1 ∷ 2 ∷ 3 ∷ 4 ∷ 0 ∷ 0 ∷ 0 ∷ 0 ∷ 0 ∷ 0 ∷ 0 ∷ 9 ∷ 0 ∷ 0 ∷ 0 ∷ 12 ∷ []

decode_active : decode_status active_bytes ≡ ok active_status
unfolding decode_status system_state of_int mode error_code
decode_active = refl

abbrev finished_test : TransactionResult
finished_test = record {
  queried_txid = 5;
  state = TransactionState.succeeded;
  original_command = 0x10;
  result_code = ErrorCode.ok;
  payload = 1 ∷ 0x3E ∷ [];
}

decode_transaction-layout_example :
    decode_transaction (transaction_layout finished_test) ≡ ok finished_test
decode_transaction-layout_example =
    decode_transaction-layout finished_test (omega arith) (omega arith)

abbrev finished_bytes : List ℕ
finished_bytes = 0 ∷ 5 ∷ 3 ∷ 0x10 ∷ 0 ∷ 0 ∷ 0 ∷ 2 ∷ 1 ∷ 0x3E ∷ []

finished_decoded : decode_transaction finished_bytes ≡ ok finished_test
unfolding decode_transaction transaction_state of_int error_code
finished_decoded = refl

abbrev half_way : EventEnvelope
half_way = record {
  event_type = EventType.progress;
  severity = 1;
  source = Source.primer1;
  related_transaction_id = 5;
  progress_percent = some 50;
  payload = [];
}

decode_event-layout_example : decode_event (event_layout half_way) ≡ ok half_way
decode_event-layout_example = decode_event-layout half_way (omega arith) (omega arith)

half_way_bytes : decode_event (0 ∷ 1 ∷ 1 ∷ 1 ∷ 0 ∷ 5 ∷ 50 ∷ 0 ∷ []) ≡ ok half_way
unfolding decode_event event_type of_int source
half_way_bytes = refl

abbrev commit_wait : SessionCommitDiagnostic
commit_wait = record {
  phase = 2;
  gpio_high = true;
  p1_session_state = 5;
  p2_session_state = 4;
  p1_secure_flags = 3;
  p2_secure_flags = 1;
}

from_last_error-detail_of_example :
    from_last_error (record {
      code = ErrorCode.session_commit_failed;
      source = 1;
      detail = detail_of commit_wait;
    })
    ≡ some commit_wait
from_last_error-detail_of_example =
    from_last_error-detail_of commit_wait 1 (omega arith) (omega arith) (omega arith) (omega arith)
      (omega arith)

abbrev trace_bytes : List ℕ
trace_bytes =
    1 ∷ 2 ∷ 1 ∷ 6 ∷ 0 ∷ 0 ∷ 0 ∷ 9 ∷ 0 ∷ 0 ∷ 0 ∷ 1 ∷ 0 ∷ 2 ∷ 0 ∷ 1 ∷ 0 ∷ 1 ∷ 0 ∷ 3 ∷ 0 ∷ 4 ∷ 0 ∷ 4
    ∷ 0xA5 ∷ 1 ∷ 7 ∷ []

abbrev small_trace : SpiDiagnosticTrace
small_trace = record {
  target_id = 1;
  command = 2;
  source = 1;
  result_code = ErrorCode.ok;
  target_transaction_id = 9;
  request_fingerprint = 1;
  request_length = 2;
  response_capture_length = 1;
  response_frame_length = 1;
  request_crc = 3;
  response_crc_received = 4;
  response_crc_calculated = 4;
  irq_before_request = false;
  irq_after_request = true;
  irq_before_response = true;
  irq_after_response = false;
  request_bytes = 0xA5 ∷ 1 ∷ [];
  response_bytes = 7 ∷ [];
}

small_trace_decoded : decode_trace trace_bytes ≡ ok small_trace
unfolding decode_trace of_int error_code
small_trace_decoded = refl

decode_trace_captures_example :
    (trace_bytes ≡ take 24 trace_bytes ++ ((0xA5 ∷ 1 ∷ []) ++ (7 ∷ [])))
    × (length {A = ℕ} (0xA5 ∷ 1 ∷ []) ≡ 2)
    × (length {A = ℕ} (7 ∷ []) ≡ 1)
    × (2 ≤ 76)
    × (1 ≤ 76)
    × (int ErrorCode.ok ≡ u16_at trace_bytes 4)
decode_trace_captures_example = decode_trace_captures trace_bytes small_trace small_trace_decoded

abbrev pong : HostFrame
pong = record { command = 1; flags = 1; transaction_id = 7; payload = []; version = 1 }

check_response_iff_example : (check_response 1 7 pong ≡ ok pong) ↔ (
    (pong ≡ pong)
    × (pong.command ≡ 1)
    × (pong.transaction_id ≡ 7)
    × (pong.flags ≡ int FrameFlags.response))
check_response_iff_example = check_response_iff 1 7 pong pong (omega arith)

abbrev refusal : HostFrame
refusal = record {
  command = 1;
  flags = 3;
  transaction_id = 7;
  payload = 2 ∷ 2 ∷ 3 ∷ 1 ∷ 1 ∷ 2 ∷ [];
  version = 1;
}

abbrev the_refusal : RemoteError
the_refusal = record {
  code = ErrorCode.bad_state;
  system_state = 3;
  source = 1;
  related_target_txid = 0x0102;
}

check_response_error_example : (check_response 1 7 refusal ≡ err (remote_error the_refusal)) ↔ (
    (refusal.command ≡ 1)
    × (refusal.transaction_id ≡ 7)
    × (refusal.flags ≡ bit_or (int FrameFlags.response) (int FrameFlags.error))
    × (refusal.payload ≡ error_layout the_refusal))
check_response_error_example =
    check_response_error 1 7 refusal the_refusal (omega arith) (ground arith)

refused : check_response 1 7 refusal ≡ err (remote_error the_refusal)
unfolding check_response remote_error_of error_code of_int
refused = refl
