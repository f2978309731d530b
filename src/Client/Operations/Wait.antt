-- ===== src/Client/Operations/Wait.antt =====
-- wait_for_transaction, and the tests of the result that it returns.
use fpga_mcu_trinity.Base.{ℕ, ◌≡◌, refl, arith, Option, none, some}
use fpga_mcu_trinity.Base.Enum.{int}
use fpga_mcu_trinity.Protocol.Constants.Codes.{ErrorCode, error_code_enum}
use fpga_mcu_trinity.Protocol.Constants.States.{TransactionState, transaction_state_enum}
use fpga_mcu_trinity.Protocol.Errors.{ok}
use fpga_mcu_trinity.Protocol.Types.{TransactionResult}
use fpga_mcu_trinity.Exec.{act, >>=-returns}
use fpga_mcu_trinity.Client.Operations.{Link, check_finished, wait_for_transaction}

state_succeeded :
    (state : TransactionState)
    → int state ≡ int TransactionState.succeeded
    → state ≡ TransactionState.succeeded
state_succeeded TransactionState.succeeded e = refl
state_succeeded _ e = absurd (omega arith)

code_ok : (code : ErrorCode) → int code ≡ int ErrorCode.ok → code ≡ ErrorCode.ok
code_ok ErrorCode.ok e = refl
code_ok _ e = absurd (omega arith)

check_finished_inversion :
    (host_txid expected_command : ℕ) (last : Option TransactionResult) (result : TransactionResult)
    → check_finished host_txid expected_command last ≡ ok result
    → (last ≡ some result)
      × (result.queried_txid ≡ host_txid)
      × (result.original_command ≡ expected_command)
      × (int result.state ≡ int TransactionState.succeeded)
      × (int result.result_code ≡ int ErrorCode.ok)
unfolding check_finished
check_finished_inversion host_txid expected_command none result e = ground arith
check_finished_inversion host_txid expected_command (some last) result e = ground arith

module _ {S : Type 0} (link : Link S) where
  -- A result that wait_for_transaction returns is of the transaction that was asked for and of the
  -- expected command, and it succeeded with code OK.
  pub wait_for_transaction_returns :
      (fuel host_txid expected_command timeout poll_interval : ℕ) (s t : S)
      (result : TransactionResult)
      → wait_for_transaction link fuel host_txid expected_command timeout poll_interval s
        ≡ (ok result, t)
      → (result.queried_txid ≡ host_txid)
        × (result.original_command ≡ expected_command)
        × (result.state ≡ TransactionState.succeeded)
        × (result.result_code ≡ ErrorCode.ok)
  unfolding wait_for_transaction
  wait_for_transaction_returns fuel host_txid expected_command timeout poll_interval s t result e =
      let (now, s1, e1, rest) = >>=-returns (act link.monotonic) _ s t result e in
      let (last, s2, e2, checked) = >>=-returns _ _ s1 t result rest in
      let (_, txid, command, state, code) =
        check_finished_inversion host_txid expected_command last result cc in
      (txid, command, state_succeeded result.state state, code_ok result.result_code code)
