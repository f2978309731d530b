-- ===== src/Protocol/Types.antt =====
-- protocol/types.py: the payloads of responses and events.
pub mod Members
pub mod Status
pub mod Results
use fpga_mcu_trinity.Base.{
  ℕ, ◌+◌, Bool, true, false, Option, none, some, List, length, slice, drop, ltb, ◌&&◌, ◌==◌, ◌!=◌,
  if◌then◌else◌,
}
use fpga_mcu_trinity.Base.Enum.{of_int}
use fpga_mcu_trinity.Protocol.Constants.Codes.{ErrorCode, error_code_enum}
use fpga_mcu_trinity.Protocol.Constants.States.{
  SystemState, system_state_enum, TransactionState, transaction_state_enum,
}
use fpga_mcu_trinity.Protocol.Constants.Kinds.{
  Mode, mode_enum, Source, source_enum, EventType, event_type_enum,
}
use fpga_mcu_trinity.Protocol.Errors.{Result, ok, value_error, raise_if, or_raise, ◌>>=◌, ◌>>◌}
use fpga_mcu_trinity.Protocol.Pack.{byte_at, u16_at, u32_at, u64_at}

-- The class called on a number raises ValueError for an unknown one.
unfoldable pub error_code : ℕ → Result ErrorCode
error_code n = or_raise (value_error "not a valid ErrorCode") (of_int n)

unfoldable pub system_state : ℕ → Result SystemState
system_state n = or_raise (value_error "not a valid SystemState") (of_int n)

unfoldable pub mode : ℕ → Result Mode
mode n = or_raise (value_error "not a valid Mode") (of_int n)

unfoldable pub transaction_state : ℕ → Result TransactionState
transaction_state n = or_raise (value_error "not a valid TransactionState") (of_int n)

unfoldable pub event_type : ℕ → Result EventType
event_type n = or_raise (value_error "not a valid EventType") (of_int n)

unfoldable pub source : ℕ → Result Source
source n = or_raise (value_error "not a valid Source") (of_int n)

pub record SystemStatus : Type 0 where
  pub system_state : SystemState
  pub mode : Mode
  pub target_ready_mask : ℕ
  pub fault_flags : ℕ
  pub session_id : ℕ
  pub current_sequence : ℕ
  pub last_error : ErrorCode
  pub active_host_txid : ℕ

-- struct ">BBBBIQHH", of 20 bytes
unfoldable pub decode_status : List ℕ → Result SystemStatus
decode_status payload = do
  raise_if (length payload != 20) (value_error "system status must be 20 bytes")
  state ← system_state (byte_at payload 0)
  mode ← mode (byte_at payload 1)
  last_error ← error_code (u16_at payload 16)
  ok (record {
    system_state = state;
    mode = mode;
    target_ready_mask = byte_at payload 2;
    fault_flags = byte_at payload 3;
    session_id = u32_at payload 4;
    current_sequence = u64_at payload 8;
    last_error = last_error;
    active_host_txid = u16_at payload 18;
  })

pub record TransactionResult : Type 0 where
  pub queried_txid : ℕ
  pub state : TransactionState
  pub original_command : ℕ
  pub result_code : ErrorCode
  pub payload : List ℕ

-- struct ">HBBHH", then the data
unfoldable pub decode_transaction : List ℕ → Result TransactionResult
decode_transaction payload = do
  raise_if (ltb (length payload) 8) (value_error "transaction result too short")
  raise_if (length payload != 8 + u16_at payload 6)
      (value_error "transaction result length mismatch")
  state ← transaction_state (byte_at payload 2)
  code ← error_code (u16_at payload 4)
  ok (record {
    queried_txid = u16_at payload 0;
    state = state;
    original_command = byte_at payload 3;
    result_code = code;
    payload = drop 8 payload;
  })

pub record AuthenticatedResult : Type 0 where
  pub session_id : ℕ
  pub sequence : ℕ
  pub plaintext : List ℕ
  pub result_code : ErrorCode

unfoldable pub decode_authenticated : List ℕ → Result AuthenticatedResult
decode_authenticated payload = do
  raise_if (length payload != 38) (value_error "authenticated result must be 38 bytes")
  code ← error_code (u16_at payload 36)
  ok (record {
    session_id = u32_at payload 0;
    sequence = u64_at payload 4;
    plaintext = slice 12 36 payload;
    result_code = code;
  })

pub record EventEnvelope : Type 0 where
  pub event_type : EventType
  pub severity : ℕ
  pub source : Source
  pub related_transaction_id : ℕ
  pub progress_percent : Option ℕ
  pub payload : List ℕ

-- struct ">HBBHBB", then the data
unfoldable pub decode_event : List ℕ → Result EventEnvelope
decode_event payload = do
  raise_if (ltb (length payload) 8) (value_error "event payload too short")
  raise_if (byte_at payload 7 != 0) (value_error "event reserved byte is non-zero")
  raise_if (byte_at payload 6 != 0xFF && ltb 100 (byte_at payload 6))
      (value_error "invalid progress")
  kind ← event_type (u16_at payload 0)
  from ← source (byte_at payload 3)
  ok (record {
    event_type = kind;
    severity = byte_at payload 2;
    source = from;
    related_transaction_id = u16_at payload 4;
    progress_percent = if byte_at payload 6 == 0xFF then none else some (byte_at payload 6);
    payload = drop 8 payload;
  })
