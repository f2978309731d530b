-- ===== src/Client/Bringup/Verified.antt =====
-- What a self-test run that returns has verified.
use fpga_mcu_trinity.Base.{ℕ, ◌≡◌, arith, Bool, true, false, bit_and, not, ◌!=◌, ap}
use fpga_mcu_trinity.Base.Enum.{int}
use fpga_mcu_trinity.Protocol.Constants.Codes.{ErrorCode}
use fpga_mcu_trinity.Protocol.Constants.Commands.{HostCommand, host_command_enum}
use fpga_mcu_trinity.Protocol.Constants.States.{TransactionState}
use fpga_mcu_trinity.Protocol.Constants.Kinds.{TestProfile}
use fpga_mcu_trinity.Protocol.Constants.Flags.{TargetReadyMask, target_ready_mask_enum}
use fpga_mcu_trinity.Protocol.Errors.{Result, ok}
use fpga_mcu_trinity.Protocol.Types.{SystemStatus, TransactionResult}
use fpga_mcu_trinity.Exec.{Exec, ◌>>=◌, ◌>>◌}
use fpga_mcu_trinity.Exec.Yields.{
  Yields, Yields-bind, Yields-next, Yields-check, Yields-pure, yielded,
}
use fpga_mcu_trinity.Client.Operations.{
  Link, ping, get_system_info, get_system_status, start_self_test, start_p1_self_test,
  wait_for_transaction, retire_transaction_result, p1_test_mask,
}
use fpga_mcu_trinity.Client.Operations.Wait.{wait_for_transaction_returns}
use fpga_mcu_trinity.Client.Bringup.{
  BringupResult, DualSpiBringupResult, run_p1_bringup, run_dual_spi_bringup, expected_p1_build_id,
  expected_p2_build_id, p1_kat_test_mask, p2_kat_test_mask, p1_ready, dual_ready, lacks,
  is_ready_state,
}

-- Every endpoint of the mask is ready.
pub record HasReady (required : ℕ) (status : SystemStatus) : Type 0 where
  pub ready : bit_and status.target_ready_mask required ≡ required

-- A status that ends a run: settled, with the endpoints ready and no fault flag.
pub record IsSettled (required : ℕ) (status : SystemStatus) : Type 0 where
  pub state : is_ready_state status.system_state ≡ true
  pub endpoints : HasReady required status
  pub fault_flags : status.fault_flags ≡ 0

-- A retained result of a command, that succeeded.
pub record IsSuccess (expected : HostCommand) (result : TransactionResult) : Type 0 where
  pub original_command : result.original_command ≡ int expected
  pub state : result.state ≡ TransactionState.succeeded
  pub result_code : result.result_code ≡ ErrorCode.ok

pub record IsBringup (run : BringupResult) : Type 0 where
  pub ready_before : HasReady p1_ready run.status_before
  pub self_test : IsSuccess HostCommand.run_self_test run.transaction
  pub settled : IsSettled p1_ready run.status_after

pub record IsDualBringup (run : DualSpiBringupResult) : Type 0 where
  pub primer1_build : run.info.primer1_build_id ≡ expected_p1_build_id
  pub primer2_build : run.info.primer2_build_id ≡ expected_p2_build_id
  pub ready_before : HasReady dual_ready run.status_before
  pub clean_before : run.status_before.fault_flags ≡ 0
  pub primer1_self_test : IsSuccess HostCommand.run_self_test run.primer1_transaction
  pub primer2_self_test : IsSuccess HostCommand.run_self_test run.primer2_transaction
  pub settled : IsSettled dual_ready run.status_after

pub equal : (a b : ℕ) → (a != b) ≡ false → a ≡ b
equal a b h = ground arith

pub holds : (b : Bool) → not b ≡ false → b ≡ true
holds b h = ground arith

pub lacks-HasReady :
    (required : ℕ) (status : SystemStatus)
    → lacks required status ≡ false
    → HasReady required status
lacks-HasReady required status h = record { ready = equal _ required h }

module _ {S : Type 0} (link : Link S) where
  pub wait_for_transaction-Yields :
      (fuel host_txid timeout poll_interval : ℕ) (command : HostCommand)
      → Yields
          (IsSuccess command)
          (wait_for_transaction link fuel host_txid (int command) timeout poll_interval)
  wait_for_transaction-Yields fuel host_txid timeout poll_interval command = record {
    holds = λ s result e.
        let run = wait_for_transaction link fuel host_txid (int command) timeout poll_interval s in
        let (_, same_command, state, code) =
          wait_for_transaction_returns link fuel host_txid (int command) timeout poll_interval s
            run.1 result (ap (λ (r : Result TransactionResult). (r, run.1)) e) in
        record { original_command = same_command; state = state; result_code = code };
  }

  -- The steps of one self-test: start, wait, retire.
  self_test :
      {B : Type 0} {Q : B → Type 0} (fuel timeout poll_interval target_mask test_mask : ℕ)
      (next : TransactionResult → Exec S B)
      → ((result : TransactionResult)
          → IsSuccess HostCommand.run_self_test result
          → Yields Q (next result))
      → Yields Q (do
        txid ← start_self_test link target_mask TestProfile.kat test_mask
        result ←
            wait_for_transaction link fuel txid
              (int HostCommand.run_self_test)
              timeout
              poll_interval
        retire_transaction_result link txid
        next result)
  self_test fuel timeout poll_interval target_mask test_mask next h =
      Yields-next (start_self_test link target_mask TestProfile.kat test_mask) _ λ txid.
        Yields-bind _ _
          (wait_for_transaction-Yields fuel txid timeout poll_interval HostCommand.run_self_test)
          λ result success.
            Yields-next (retire_transaction_result link txid) _ λ _. h result success

  run_p1_bringup-Yields :
      (fuel timeout poll_interval : ℕ)
      → Yields IsBringup (run_p1_bringup link fuel timeout poll_interval)
  unfolding run_p1_bringup
  run_p1_bringup-Yields fuel timeout poll_interval = Yields-next (ping link) _ λ uptime.
      Yields-next (get_system_info link) _ λ info. Yields-next (get_system_status link) _ λ before.
        Yields-check (lacks p1_ready before) _ _ λ ready.
          Yields-next (start_p1_self_test link TestProfile.kat p1_test_mask) _ λ host_txid.
            Yields-bind _ _
              (wait_for_transaction-Yields fuel host_txid timeout poll_interval
                HostCommand.run_self_test)
              λ result success. Yields-next (retire_transaction_result link host_txid) _ λ _.
                Yields-next (get_system_status link) _ λ after.
                  Yields-check (not (is_ready_state after.system_state)) _ _ λ state.
                    Yields-check (lacks p1_ready after) _ _ λ endpoints.
                      Yields-check (after.fault_flags != 0) _ _ λ flags. Yields-pure _ (record {
                        ready_before = lacks-HasReady p1_ready before ready;
                        self_test = success;
                        settled = record {
                          state = holds _ state;
                          endpoints = lacks-HasReady p1_ready after endpoints;
                          fault_flags = equal _ 0 flags;
                        };
                      })

  pub run_dual_spi_bringup-Yields :
      (fuel timeout poll_interval : ℕ)
      → Yields IsDualBringup (run_dual_spi_bringup link fuel timeout poll_interval)
  unfolding run_dual_spi_bringup
  run_dual_spi_bringup-Yields fuel timeout poll_interval = Yields-next (ping link) _ λ uptime.
      Yields-next (get_system_info link) _ λ info.
        Yields-check (info.primer1_build_id != expected_p1_build_id) _ _ λ build1.
          Yields-check (info.primer2_build_id != expected_p2_build_id) _ _ λ build2.
            Yields-next (get_system_status link) _ λ before.
              Yields-check (lacks dual_ready before) _ _ λ ready.
                Yields-check (before.fault_flags != 0) _ _ λ clean.
                  self_test fuel timeout poll_interval (int TargetReadyMask.primer1)
                    p1_kat_test_mask _
                    λ first success1.
                      self_test fuel timeout poll_interval (int TargetReadyMask.primer2)
                        p2_kat_test_mask _
                        λ second success2. Yields-next (get_system_status link) _ λ after.
                          Yields-check (not (is_ready_state after.system_state)) _ _ λ state.
                            Yields-check (lacks dual_ready after) _ _ λ endpoints.
                              Yields-check (after.fault_flags != 0) _ _ λ flags.
                                Yields-pure _ (record {
                                  primer1_build = equal _ _ build1;
                                  primer2_build = equal _ _ build2;
                                  ready_before = lacks-HasReady dual_ready before ready;
                                  clean_before = equal _ 0 clean;
                                  primer1_self_test = success1;
                                  primer2_self_test = success2;
                                  settled = record {
                                    state = holds _ state;
                                    endpoints = lacks-HasReady dual_ready after endpoints;
                                    fault_flags = equal _ 0 flags;
                                  };
                                })

  -- A run of run_p1_bringup that returns has seen P1 ready before and after, a self-test that
  -- succeeded with code OK, and at the end a ready state without fault flags.
  pub run_p1_bringup-IsBringup :
      (fuel timeout poll_interval : ℕ) (s t : S) (run : BringupResult)
      → run_p1_bringup link fuel timeout poll_interval s ≡ (ok run, t)
      → IsBringup run
  run_p1_bringup-IsBringup fuel timeout poll_interval =
      yielded (run_p1_bringup-Yields fuel timeout poll_interval)
