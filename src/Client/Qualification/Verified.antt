-- ===== src/Client/Qualification/Verified.antt =====
-- What a hardware qualification that returns has verified.
use fpga_mcu_trinity.Base.{
  ℕ, zero, suc, ◌≤◌, ◌≡◌, arith, false, List, [], ◌∷◌, not, ltb, ◌||◌, ◌!=◌,
}
use fpga_mcu_trinity.Base.Enum.{int, same, same→eq}
use fpga_mcu_trinity.Protocol.Constants.Codes.{ErrorCode, error_code_enum}
use fpga_mcu_trinity.Protocol.Constants.Commands.{
  SpiCommand, spi_command_enum, TargetId, target_id_enum,
}
use fpga_mcu_trinity.Protocol.Errors.{ok}
use fpga_mcu_trinity.Protocol.Types.{SystemStatus}
use fpga_mcu_trinity.Exec.Yields.{
  Yields, Yields-bind, Yields-next, Yields-check, Yields-pure, Yields-except, Yields-raise, yielded,
}
use fpga_mcu_trinity.Client.Payloads.{SpiDiagnosticTrace}
use fpga_mcu_trinity.Client.Operations.{
  Link, ping, get_system_info, get_system_status, spi_diagnostic,
}
use fpga_mcu_trinity.Client.Bringup.{dual_ready, lacks, is_ready_state}
use fpga_mcu_trinity.Client.Bringup.Verified.{
  IsSettled, IsDualBringup, run_dual_spi_bringup-Yields, lacks-HasReady, equal, holds,
}
use fpga_mcu_trinity.Client.LiveTrace.Valid.{IsLive, validate_live_spi_trace-Yields}
use fpga_mcu_trinity.Client.Qualification.{
  Sn32QualificationResult, probe, collect_traces, check_liveness, live_probes,
  run_sn32_hardware_qualification, wrong_sn32_image, wrong_primer_image,
}

-- A settled status without an error and without an active transaction.
pub record IsQuiet (status : SystemStatus) : Type 0 where
  pub settled : IsSettled dual_ready status
  pub last_error : status.last_error ≡ ErrorCode.ok
  pub active_host_txid : status.active_host_txid ≡ 0

pub record IsProbed (target : TargetId) (command : SpiCommand) (trace : SpiDiagnosticTrace)
    : Type 0 where
  pub target_id : trace.target_id ≡ int target
  pub asked : trace.command ≡ int command
  pub live : IsLive target command trace

-- One trace for each probe, in the order of the probes.
unfoldable pub AreProbed : List (TargetId × SpiCommand) → List SpiDiagnosticTrace → Type 0
AreProbed [] [] = Unit {0}
AreProbed [] (trace ∷ traces) = ⊥
AreProbed (probe ∷ probes) [] = ⊥
AreProbed ((target, command) ∷ probes) (trace ∷ traces) =
    IsProbed target command trace × AreProbed probes traces

pub record IsQualified (run : Sn32QualificationResult) : Type 0 where
  pub traces : AreProbed live_probes run.live_traces
  pub dual_spi : IsDualBringup run.dual_spi
  pub uptime : run.dual_spi.uptime_ms ≤ run.final_uptime_ms
  pub quiet : IsQuiet run.final_status

-- What the liveness loop leaves, from an uptime on.
record IsAlive (previous_uptime : ℕ) (last : ℕ × SystemStatus) : Type 0 where
  uptime : previous_uptime ≤ last.0
  quiet : IsQuiet last.1

pub error_free :
    (fault_flags : ℕ) (code : ErrorCode)
    → (fault_flags != 0 || not (same code ErrorCode.ok)) ≡ false
    → (fault_flags ≡ 0) × (code ≡ ErrorCode.ok)
error_free fault_flags code h = (ground (arith, h), same→eq code ErrorCode.ok (ground (arith, h)))

module _ {S : Type 0} (link : Link S) where
  spi_diagnostic-Yields :
      (target_value command_value : ℕ)
      → Yields
          (λ trace. (trace.target_id ≡ target_value) × (trace.command ≡ command_value))
          (spi_diagnostic link target_value command_value)
  unfolding spi_diagnostic
  spi_diagnostic-Yields target_value command_value = Yields-check _ _ _ λ _. Yields-check _ _ _ λ _.
      Yields-next _ _ λ response. Yields-next _ _ λ trace.
        Yields-check _ _ _ λ asked. Yields-pure trace (ground (arith, asked), ground (arith, asked))

  probe-Yields :
      (target : TargetId) (command : SpiCommand)
      → Yields (IsProbed target command) (probe link target command)
  unfolding probe
  probe-Yields target command =
      Yields-bind _ _ (spi_diagnostic-Yields (int target) (int command)) λ trace asked.
        Yields-bind {P = λ _. IsLive target command trace} _ _
          (Yields-except _ _ _ (validate_live_spi_trace-Yields trace target command)
            λ e. Yields-raise _)
          λ _ live. Yields-pure trace (record { target_id = asked.0; asked = asked.1; live = live })

  collect_traces-Yields :
      (probes : List (TargetId × SpiCommand))
      → Yields (AreProbed probes) (collect_traces link probes)
  unfolding collect_traces AreProbed
  collect_traces-Yields [] = Yields-pure [] tt
  collect_traces-Yields ((target, command) ∷ probes) =
      Yields-bind _ _ (probe-Yields target command) λ trace live.
        Yields-bind _ _ (collect_traces-Yields probes)
          λ traces rest. Yields-pure (trace ∷ traces) (live, rest)

  one_round :
      (rounds first_uptime previous_uptime : ℕ) (status : SystemStatus)
      → first_uptime ≤ previous_uptime
      → ((uptime : ℕ) (current : SystemStatus)
          → first_uptime ≤ uptime
          → IsQuiet current
          → Yields (IsAlive first_uptime) (check_liveness link rounds uptime current))
      → Yields (IsAlive first_uptime) (check_liveness link (suc rounds) previous_uptime status)
  unfolding check_liveness
  one_round rounds first_uptime previous_uptime status since h =
      Yields-next (get_system_status link) _ λ current. Yields-next (ping link) _ λ uptime.
        Yields-check (ltb uptime previous_uptime) _ _ λ later.
          Yields-check (lacks dual_ready current) _ _ λ endpoints.
            Yields-check (not (is_ready_state current.system_state)) _ _ λ state.
              Yields-check _ _ _ λ clean. Yields-check (current.active_host_txid != 0) _ _ λ idle.
                let (flags, code) = error_free current.fault_flags current.last_error clean in
                h uptime current (ground (arith, later, since)) (record {
                  settled = record {
                    state = holds _ state;
                    endpoints = lacks-HasReady dual_ready current endpoints;
                    fault_flags = flags;
                  };
                  last_error = code;
                  active_host_txid = equal _ 0 idle;
                })

  check_liveness-Yields :
      (rounds first_uptime previous_uptime : ℕ) (status : SystemStatus)
      → first_uptime ≤ previous_uptime
      → IsQuiet status
      → Yields (IsAlive first_uptime) (check_liveness link rounds previous_uptime status)
  unfolding check_liveness
  check_liveness-Yields zero first_uptime previous_uptime status since quiet =
      Yields-pure (previous_uptime, status) (record { uptime = since; quiet = quiet })
  check_liveness-Yields (suc rounds) first_uptime previous_uptime status since quiet =
      one_round rounds first_uptime previous_uptime status since
        (check_liveness-Yields rounds first_uptime)

  -- With a round at least, nothing is asked of the status before the loop.
  check_liveness_positive :
      (rounds first_uptime : ℕ) (status : SystemStatus)
      → ltb rounds 1 ≡ false
      → Yields (IsAlive first_uptime) (check_liveness link rounds first_uptime status)
  check_liveness_positive zero first_uptime status h = absurd (ground (arith, h))
  check_liveness_positive (suc rounds) first_uptime status h =
      one_round rounds first_uptime first_uptime status (omega arith)
        (check_liveness-Yields rounds first_uptime)

  pub run_sn32_hardware_qualification-Yields :
      (fuel timeout poll_interval liveness_iterations : ℕ)
      → Yields IsQualified
          (run_sn32_hardware_qualification link fuel timeout poll_interval liveness_iterations)
  unfolding run_sn32_hardware_qualification
  run_sn32_hardware_qualification-Yields fuel timeout poll_interval liveness_iterations =
      Yields-check _ _ _ λ positive. Yields-next (get_system_info link) _ λ info.
        Yields-check (wrong_sn32_image info) _ _ λ _.
          Yields-check (wrong_primer_image info) _ _ λ _.
            Yields-next (get_system_status link) _ λ initial.
              Yields-check (lacks dual_ready initial) _ _ λ _. Yields-check _ _ _ λ _.
                Yields-check _ _ _ λ _.
                  Yields-bind _ _ (collect_traces-Yields live_probes) λ traces live.
                    Yields-bind _ _ (run_dual_spi_bringup-Yields link fuel timeout poll_interval)
                      λ dual checked.
                        Yields-bind _ _
                          (check_liveness_positive liveness_iterations dual.uptime_ms
                            dual.status_after positive)
                          λ last alive. Yields-pure _ (record {
                            traces = live;
                            dual_spi = checked;
                            uptime = alive.uptime;
                            quiet = alive.quiet;
                          })

  -- A qualification that returns has one trace for each of the four probes, in their order, and
  -- each was an exchange with its target for its command; the dual-SPI run was verified; the uptime
  -- at the end is not before the one of that run; and the last status is settled, with both
  -- endpoints ready, no fault flag, no error and no active transaction.
  pub run_sn32_hardware_qualification-IsQualified :
      (fuel timeout poll_interval liveness_iterations : ℕ) (s t : S) (run : Sn32QualificationResult)
      → run_sn32_hardware_qualification link fuel timeout poll_interval liveness_iterations s
        ≡ (ok run, t)
      → IsQualified run
  run_sn32_hardware_qualification-IsQualified fuel timeout poll_interval liveness_iterations =
      yielded
        (run_sn32_hardware_qualification-Yields fuel timeout poll_interval liveness_iterations)
