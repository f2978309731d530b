-- ===== src/Client/Operations.antt =====
-- The operations of the client, over what they use of it: `self.request`, the clock and `sleep`.
-- Times are whole milliseconds.
pub mod Wait
pub mod Ended
use fpga_mcu_trinity.Base.{
  ℕ, zero, suc, ◌+◌, ◌%◌, Bool, true, false, Option, none, some, List, [], ◌∷◌, ◌++◌, length,
  bit_and, bit_or, bytes_eq, contains, ltb, not, ◌||◌, ◌&&◌, ◌==◌, ◌!=◌, if◌then◌else◌,
}
use fpga_mcu_trinity.Base.Enum.{int}
use fpga_mcu_trinity.Protocol.Constants.Codes.{ErrorCode, error_code_enum}
use fpga_mcu_trinity.Protocol.Constants.Commands.{
  HostCommand, host_command_enum, SpiCommand, spi_command_enum, TargetId, target_id_enum,
}
use fpga_mcu_trinity.Protocol.Constants.States.{TransactionState, transaction_state_enum}
use fpga_mcu_trinity.Protocol.Constants.Kinds.{TestProfile, test_profile_enum}
use fpga_mcu_trinity.Protocol.Constants.Flags.{TargetReadyMask, target_ready_mask_enum}
use fpga_mcu_trinity.Protocol.Constants.Masks.{TestMask, test_mask_enum}
use fpga_mcu_trinity.Protocol.Errors.{
  struct_error, Exception, Result, ok, err, value_error, host_protocol_error, timeout_error,
  out_of_fuel,
}
use fpga_mcu_trinity.Protocol.Pack.{u32_at, pack_u16, and_not}
use fpga_mcu_trinity.Protocol.Frame.{HostFrame}
use fpga_mcu_trinity.Protocol.Types.{
  SystemStatus, decode_status, TransactionResult, decode_transaction,
}
use fpga_mcu_trinity.Exec.{Exec, pure, raise, lift, act, raise_if, ◌>>=◌, ◌>>◌}
use fpga_mcu_trinity.Client.Payloads.{
  SystemInfo, decode_info, SpiDiagnosticTrace, decode_trace, LastErrorSnapshot, decode_last_error,
}

-- What the operations use of the client that they are methods of.
pub record Link (S : Type 0) : Type 0 where
  -- self.request(command, payload, timeout=timeout)
  pub request : HostCommand → List ℕ → ℕ → Exec S HostFrame
  -- time.monotonic()
  pub monotonic : S → ℕ × S
  -- time.sleep(interval)
  pub sleep : ℕ → S → Unit {0} × S

abbrev pub is_terminal : TransactionState → Bool
is_terminal TransactionState.succeeded = true
is_terminal TransactionState.failed = true
is_terminal TransactionState.zeroized = true
is_terminal TransactionState.outcome_unknown = true
is_terminal _ = false

abbrev pub finished : Option TransactionResult → Bool
finished none = false
finished (some result) = is_terminal result.state

abbrev pub succeeded : TransactionResult → Bool
succeeded result =
    int result.state == int TransactionState.succeeded && int result.result_code == int ErrorCode.ok

-- `allowed` of start_self_test
abbrev pub allowed_targets : ℕ
allowed_targets = bit_or (int TargetReadyMask.sn32) (
    bit_or (int TargetReadyMask.primer1)
      (bit_or (int TargetReadyMask.primer2) (int TargetReadyMask.tiny1p5)))

-- The default test_mask of start_p1_self_test
abbrev pub p1_test_mask : ℕ
p1_test_mask = bit_or (int TestMask.memory) (
    bit_or (int TestMask.ntt)
      (bit_or (int TestMask.intt) (bit_or (int TestMask.basemul) (int TestMask.ascon))))

-- The tests of wait_for_transaction behind its loop.
unfoldable pub check_finished : ℕ → ℕ → Option TransactionResult → Result TransactionResult
check_finished host_txid expected_command none = err (timeout_error "transaction did not finish")
check_finished host_txid expected_command (some result) =
    if not (is_terminal result.state)
    then err (timeout_error "transaction did not finish")
    else if result.queried_txid != host_txid
    then err (host_protocol_error "retained transaction ID mismatch")
    else if result.original_command != expected_command
    then err (host_protocol_error "retained transaction command mismatch")
    else if not (succeeded result)
    then err (host_protocol_error "transaction failed")
    else ok result

module _ {S : Type 0} (link : Link S) where
  unfoldable pub ping : Exec S ℕ
  ping = do
    response ← link.request HostCommand.ping [] 2000
    raise_if (length response.payload != 4) (host_protocol_error "PING response must be 4 bytes")
    pure (u32_at response.payload 0)

  unfoldable pub get_system_info : Exec S SystemInfo
  get_system_info = do
    response ← link.request HostCommand.get_system_info [] 2000
    lift (decode_info response.payload)

  unfoldable pub get_system_status : Exec S SystemStatus
  get_system_status = do
    response ← link.request HostCommand.get_system_status [] 5000
    lift (decode_status response.payload)

  unfoldable pub get_last_error : Exec S LastErrorSnapshot
  get_last_error = do
    response ← link.request HostCommand.get_last_error [] 2000
    lift (decode_last_error response.payload)

  unfoldable pub spi_diagnostic : ℕ → ℕ → Exec S SpiDiagnosticTrace
  spi_diagnostic target_value command_value = do
    raise_if (target_value != int TargetId.primer1 && target_value != int TargetId.primer2)
        (value_error "invalid SPI diagnostic target")
    raise_if
        (command_value != int SpiCommand.get_info && command_value != int SpiCommand.get_status)
        (value_error "SPI diagnostic command is not side-effect-free")
    response ← link.request HostCommand.spi_diagnostic (target_value ∷ command_value ∷ []) 2000
    trace ← lift (decode_trace response.payload)
    raise_if (trace.target_id != target_value || trace.command != command_value)
        (host_protocol_error "SPI diagnostic target/command correlation mismatch")
    pure trace

  unfoldable pub start_self_test : ℕ → TestProfile → ℕ → Exec S ℕ
  start_self_test target_mask profile test_mask = do
    raise_if (target_mask == 0 || and_not target_mask allowed_targets != 0)
        (value_error "invalid self-test target mask")
    response ←
        link.request HostCommand.run_self_test
          (target_mask ∷ int profile ∷ pack_u16 (bit_and test_mask 0xFFFF)) 10000
    raise_if (not (bytes_eq response.payload (pack_u16 (bit_and test_mask 0xFFFF))))
        (host_protocol_error "RUN_SELF_TEST final response has the wrong test mask")
    pure response.transaction_id

  unfoldable pub start_p1_self_test : TestProfile → ℕ → Exec S ℕ
  start_p1_self_test profile test_mask =
      start_self_test (int TargetReadyMask.primer1) profile test_mask

  unfoldable pub get_transaction_result : ℕ → Exec S TransactionResult
  get_transaction_result host_txid = do
    raise_if (ltb 0xFFFF host_txid) struct_error
    response ← link.request HostCommand.get_txn_result (pack_u16 host_txid) 500
    lift (decode_transaction response.payload)

  unfoldable pub retire_transaction_result : ℕ → Exec S (Unit {0})
  retire_transaction_result host_txid = do
    raise_if (ltb 0xFFFF host_txid) struct_error
    response ← link.request HostCommand.retire_txn_result (pack_u16 host_txid) 500
    raise_if (length response.payload != 0)
        (host_protocol_error "RETIRE_TXN_RESULT response must be empty")

  -- The `while` of wait_for_transaction: the last result that was read.
  unfoldable pub poll_transaction :
      ℕ → ℕ → ℕ → ℕ → Option TransactionResult → Exec S (Option TransactionResult)
  poll_transaction zero deadline host_txid poll_interval last = raise out_of_fuel
  poll_transaction (suc fuel) deadline host_txid poll_interval last = do
    now ← act link.monotonic
    if not (ltb now deadline) then pure last else do
      result ← get_transaction_result host_txid
      if is_terminal result.state then pure (some result) else do
        act (link.sleep poll_interval)
        poll_transaction fuel deadline host_txid poll_interval (some result)

  unfoldable pub wait_for_transaction : ℕ → ℕ → ℕ → ℕ → ℕ → Exec S TransactionResult
  wait_for_transaction fuel host_txid expected_command timeout poll_interval = do
    now ← act link.monotonic
    result ← poll_transaction fuel (now + timeout) host_txid poll_interval none
    lift (check_finished host_txid expected_command result)
