-- ===== src/Client/Guarded.antt =====
-- Conditions on the state that the client's operations keep: a condition that every request keeps,
-- but for the commands that are set apart, is kept by the operations that send none of those.
use fpga_mcu_trinity.Base.{ℕ, zero, suc, ◌≡◌, Bool, true, false, Option, none, some, List, [], ◌∷◌}
use fpga_mcu_trinity.Protocol.Constants.Commands.{
  HostCommand, SpiCommand, spi_command_enum, TargetId, target_id_enum,
}
use fpga_mcu_trinity.Protocol.Constants.Kinds.{TestProfile}
use fpga_mcu_trinity.Protocol.Types.{SystemStatus, TransactionResult}
use fpga_mcu_trinity.Exec.{act}
use fpga_mcu_trinity.Exec.Preserves.{
  Preserves, Preserves-raise, Preserves-bind, Preserves-if, Preserves-pure, Preserves-lift,
  preserves_rules,
}
use fpga_mcu_trinity.Protocol.Errors.{out_of_fuel}
use fpga_mcu_trinity.Client.Payloads.{SpiDiagnosticTrace}
use fpga_mcu_trinity.Client.Operations.{
  Link, ping, get_system_info, get_system_status, get_last_error, spi_diagnostic, start_self_test,
  get_transaction_result, retire_transaction_result, poll_transaction, wait_for_transaction,
}
use fpga_mcu_trinity.Client.Bringup.{run_dual_spi_bringup}
use fpga_mcu_trinity.Client.LiveTrace.{validate_live_spi_trace}
use fpga_mcu_trinity.Client.Qualification.{
  probe, collect_traces, check_liveness, run_sn32_hardware_qualification,
}

-- The requests that the operations of the client send by themselves.
abbrev pub is_housekeeping : HostCommand → Bool
is_housekeeping HostCommand.ping = true
is_housekeeping HostCommand.get_system_info = true
is_housekeeping HostCommand.get_system_status = true
is_housekeeping HostCommand.get_last_error = true
is_housekeeping HostCommand.spi_diagnostic = true
is_housekeeping HostCommand.run_self_test = true
is_housekeeping HostCommand.get_txn_result = true
is_housekeeping HostCommand.retire_txn_result = true
is_housekeeping HostCommand.read_last_result = true
is_housekeeping _ = false

pub record Guards {S : Type 0} (link : Link S) (P : S → Type 0) : Type 0 where
  pub clock : Preserves P (act link.monotonic)
  pub sleep : (interval : ℕ) → Preserves P (act (link.sleep interval))
  pub request :
      (command : HostCommand) (payload : List ℕ) (timeout : ℕ)
      → is_housekeeping command ≡ true
      → Preserves P (link.request command payload timeout)

module _ {S : Type 0} (link : Link S) (P : S → Type 0) (guards : Guards link P) where
  housekeeping :
      (command : HostCommand) (payload : List ℕ) (timeout : ℕ)
      → is_housekeeping command ≡ true
      → Preserves P (link.request command payload timeout)
  housekeeping = guards.request

  pub ping-Guarded : Preserves P (ping link)
  unfolding ping
  ping-Guarded = search (preserves_rules, housekeeping)

  get_system_info-Guarded : Preserves P (get_system_info link)
  unfolding get_system_info
  get_system_info-Guarded = search (preserves_rules, housekeeping)

  pub get_system_status-Guarded : Preserves P (get_system_status link)
  unfolding get_system_status
  get_system_status-Guarded = search (preserves_rules, housekeeping)

  pub get_last_error-Guarded : Preserves P (get_last_error link)
  unfolding get_last_error
  get_last_error-Guarded = search (preserves_rules, housekeeping)

  spi_diagnostic-Guarded : (target command : ℕ) → Preserves P (spi_diagnostic link target command)
  unfolding spi_diagnostic
  spi_diagnostic-Guarded target command = search (preserves_rules, housekeeping) depth 12

  start_self_test-Guarded :
      (target_mask : ℕ) (profile : TestProfile) (test_mask : ℕ)
      → Preserves P (start_self_test link target_mask profile test_mask)
  unfolding start_self_test
  start_self_test-Guarded target_mask profile test_mask = search (preserves_rules, housekeeping)

  pub get_transaction_result-Guarded : (txid : ℕ) → Preserves P (get_transaction_result link txid)
  unfolding get_transaction_result
  get_transaction_result-Guarded txid = search (preserves_rules, housekeeping)

  pub retire_transaction_result-Guarded :
      (txid : ℕ) → Preserves P (retire_transaction_result link txid)
  unfolding retire_transaction_result
  retire_transaction_result-Guarded txid = search (preserves_rules, housekeeping)

  poll_transaction-Guarded :
      (fuel deadline txid poll_interval : ℕ) (last : Option TransactionResult)
      → Preserves P (poll_transaction link fuel deadline txid poll_interval last)
  unfolding poll_transaction
  poll_transaction-Guarded zero deadline txid poll_interval last = Preserves-raise out_of_fuel
  poll_transaction-Guarded (suc fuel) deadline txid poll_interval last =
      Preserves-bind _ _ guards.clock λ now. Preserves-if _ _ _ (Preserves-pure last) (
        Preserves-bind _ _ (get_transaction_result-Guarded txid) λ result.
          Preserves-if _ _ _ (Preserves-pure (some result)) (
            Preserves-bind _ _ (guards.sleep poll_interval)
              λ _. poll_transaction-Guarded fuel deadline txid poll_interval (some result)))

  wait_for_transaction-Guarded :
      (fuel txid command timeout poll_interval : ℕ)
      → Preserves P (wait_for_transaction link fuel txid command timeout poll_interval)
  unfolding wait_for_transaction
  wait_for_transaction-Guarded fuel txid command timeout poll_interval =
      Preserves-bind _ _ guards.clock λ now.
        Preserves-bind _ _ (poll_transaction-Guarded fuel _ txid poll_interval none)
          λ last. Preserves-lift _

  run_dual_spi_bringup-Guarded :
      (fuel timeout poll_interval : ℕ)
      → Preserves P (run_dual_spi_bringup link fuel timeout poll_interval)
  unfolding run_dual_spi_bringup
  run_dual_spi_bringup-Guarded fuel timeout poll_interval =
      search
        (
          preserves_rules, ping-Guarded, get_system_info-Guarded, get_system_status-Guarded,
          start_self_test-Guarded, wait_for_transaction-Guarded, retire_transaction_result-Guarded,
        )
        depth 30

  validate_live_spi_trace-Guarded :
      (trace : SpiDiagnosticTrace) (target : TargetId) (command : SpiCommand)
      → Preserves P (validate_live_spi_trace trace target command)
  unfolding validate_live_spi_trace
  validate_live_spi_trace-Guarded trace target command = search (preserves_rules) depth 30

  probe-Guarded :
      (target : TargetId) (command : SpiCommand) → Preserves P (probe link target command)
  unfolding probe
  probe-Guarded target command =
      search (preserves_rules, spi_diagnostic-Guarded, validate_live_spi_trace-Guarded) depth 12

  collect_traces-Guarded :
      (probes : List (TargetId × SpiCommand)) → Preserves P (collect_traces link probes)
  unfolding collect_traces
  collect_traces-Guarded [] = Preserves-pure []
  collect_traces-Guarded ((target, command) ∷ probes) =
      Preserves-bind _ _ (probe-Guarded target command) λ trace.
        Preserves-bind _ _ (collect_traces-Guarded probes) λ traces. Preserves-pure (trace ∷ traces)

  check_liveness-Guarded :
      (rounds previous_uptime : ℕ) (status : SystemStatus)
      → Preserves P (check_liveness link rounds previous_uptime status)
  unfolding check_liveness
  check_liveness-Guarded zero previous_uptime status = Preserves-pure _
  check_liveness-Guarded (suc rounds) previous_uptime status =
      search
        (preserves_rules, get_system_status-Guarded, ping-Guarded, check_liveness-Guarded rounds)
        depth 20

  pub run_sn32_hardware_qualification-Guarded :
      (fuel timeout poll_interval liveness_iterations : ℕ)
      → Preserves P
          (run_sn32_hardware_qualification link fuel timeout poll_interval liveness_iterations)
  unfolding run_sn32_hardware_qualification
  run_sn32_hardware_qualification-Guarded fuel timeout poll_interval liveness_iterations =
      search
        (
          preserves_rules, get_system_info-Guarded, get_system_status-Guarded,
          collect_traces-Guarded, run_dual_spi_bringup-Guarded, check_liveness-Guarded,
        )
        depth 30
