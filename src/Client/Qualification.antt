-- ===== src/Client/Qualification.antt =====
-- serial_client_impl.py: run_sn32_hardware_qualification. The expected SN32 image is the one of
-- serial_client.py, which runs the implementation in its own namespace and then replaces it.
pub mod Verified
use fpga_mcu_trinity.Base.{
  ℕ, zero, suc, Bool, true, false, List, [], ◌∷◌, not, ltb, ◌||◌, ◌&&◌, ◌==◌, ◌!=◌,
}
use fpga_mcu_trinity.Base.Enum.{int, same}
use fpga_mcu_trinity.Protocol.Constants.Codes.{ErrorCode, error_code_enum}
use fpga_mcu_trinity.Protocol.Constants.Commands.{
  SpiCommand, spi_command_enum, TargetId, target_id_enum,
}
use fpga_mcu_trinity.Protocol.Constants.States.{SystemState}
use fpga_mcu_trinity.Protocol.Errors.{value_error, host_protocol_error, is_host_protocol_error}
use fpga_mcu_trinity.Protocol.Types.{SystemStatus}
use fpga_mcu_trinity.Exec.{Exec, pure, raise, raise_if, try_except, ◌>>=◌, ◌>>◌}
use fpga_mcu_trinity.Client.Payloads.{SystemInfo, SpiDiagnosticTrace}
use fpga_mcu_trinity.Client.Operations.{
  Link, ping, get_system_info, get_system_status, spi_diagnostic,
}
use fpga_mcu_trinity.Client.Bringup.{
  DualSpiBringupResult, run_dual_spi_bringup, expected_p1_build_id, expected_p2_build_id,
  dual_ready, lacks, is_ready_state,
}
use fpga_mcu_trinity.Client.LiveTrace.{validate_live_spi_trace}

abbrev pub expected_sn32_build_id : ℕ
expected_sn32_build_id = 0x0007001F

pub record Sn32QualificationResult : Type 0 where
  pub live_traces : List SpiDiagnosticTrace
  pub dual_spi : DualSpiBringupResult
  pub liveness_iterations : ℕ
  pub final_uptime_ms : ℕ
  pub final_status : SystemStatus

-- version != EXPECTED_SN32_VERSION or info.sn32_build_id != EXPECTED_SN32_BUILD_ID
abbrev pub wrong_sn32_image : SystemInfo → Bool
wrong_sn32_image info =
    info.architecture_major != 0
    || info.architecture_minor != 7
    || info.architecture_patch != 31
    || info.sn32_build_id != expected_sn32_build_id

abbrev pub wrong_primer_image : SystemInfo → Bool
wrong_primer_image info =
    info.primer1_build_id != expected_p1_build_id || info.primer2_build_id != expected_p2_build_id

-- The states that a qualification may start in.
abbrev pub may_start : SystemState → Bool
may_start SystemState.self_test_required = true
may_start SystemState.ready_no_keypair = true
may_start SystemState.ready_no_session = true
may_start _ = false

-- The pairs that the loop over targets and commands goes through.
abbrev pub live_probes : List (TargetId × SpiCommand)
live_probes =
    (TargetId.primer1, SpiCommand.get_info)
    ∷ (TargetId.primer1, SpiCommand.get_status)
    ∷ (TargetId.primer2, SpiCommand.get_info)
    ∷ (TargetId.primer2, SpiCommand.get_status)
    ∷ []

module _ {S : Type 0} (link : Link S) where
  -- One round of the loop, with the `except` that adds the trace to the message.
  unfoldable pub probe : TargetId → SpiCommand → Exec S SpiDiagnosticTrace
  probe target command = do
    trace ← spi_diagnostic link (int target) (int command)
    try_except (validate_live_spi_trace trace target command) is_host_protocol_error
        λ e. raise (host_protocol_error "live trace")
    pure trace

  unfoldable pub collect_traces : List (TargetId × SpiCommand) → Exec S (List SpiDiagnosticTrace)
  collect_traces [] = pure []
  collect_traces ((target, command) ∷ probes) = do
    trace ← probe target command
    traces ← collect_traces probes
    pure (trace ∷ traces)

  -- The liveness loop, with the uptime before it and the last status and uptime so far.
  unfoldable pub check_liveness : ℕ → ℕ → SystemStatus → Exec S (ℕ × SystemStatus)
  check_liveness zero previous_uptime status = pure (previous_uptime, status)
  check_liveness (suc rounds) previous_uptime status = do
    current ← get_system_status link
    uptime ← ping link
    raise_if (ltb uptime previous_uptime) (host_protocol_error "SN32 reset during liveness loop")
    raise_if (lacks dual_ready current)
        (host_protocol_error "endpoint readiness lost during liveness loop")
    raise_if (not (is_ready_state current.system_state))
        (host_protocol_error "system state regressed during liveness loop")
    raise_if (current.fault_flags != 0 || not (same current.last_error ErrorCode.ok))
        (host_protocol_error "active fault during liveness loop")
    raise_if (current.active_host_txid != 0)
        (host_protocol_error "host transaction remained active during liveness loop")
    check_liveness rounds uptime current

  unfoldable pub run_sn32_hardware_qualification : ℕ → ℕ → ℕ → ℕ → Exec S Sn32QualificationResult
  run_sn32_hardware_qualification fuel timeout poll_interval liveness_iterations = do
    raise_if (ltb liveness_iterations 1) (value_error "liveness_iterations must be at least one")
    info ← get_system_info link
    raise_if (wrong_sn32_image info) (host_protocol_error "wrong SN32 image for qualification")
    raise_if (wrong_primer_image info) (host_protocol_error "wrong Primer image for qualification")
    initial ← get_system_status link
    raise_if (lacks dual_ready initial)
        (host_protocol_error "qualification started before both endpoints were ready")
    raise_if
        (initial.fault_flags != 0
          || not (same initial.last_error ErrorCode.ok)
          || initial.active_host_txid != 0)
        (host_protocol_error "qualification did not start from a clean controller snapshot")
    raise_if (not (may_start initial.system_state))
        (host_protocol_error "unexpected initial qualification state")
    traces ← collect_traces live_probes
    dual ← run_dual_spi_bringup link fuel timeout poll_interval
    (final_uptime, final_status) ←
        check_liveness liveness_iterations dual.uptime_ms dual.status_after
    pure (record {
      live_traces = traces;
      dual_spi = dual;
      liveness_iterations = liveness_iterations;
      final_uptime_ms = final_uptime;
      final_status = final_status;
    })
