-- ===== src/Demo/Verified.antt =====
-- What a demonstration that returns has verified.
use fpga_mcu_trinity.Base.{
  ℕ, ◌+◌, min, ◌≡◌, ◌≢◌, arith, true, false, List, length, bytes_eq→eq, not,
}
use fpga_mcu_trinity.Base.Enum.{same→eq}
use fpga_mcu_trinity.Protocol.Constants.Codes.{ErrorCode, error_code_enum}
use fpga_mcu_trinity.Protocol.Constants.States.{system_state_enum}
use fpga_mcu_trinity.Protocol.Errors.{Exception, ok}
use fpga_mcu_trinity.Protocol.Types.{SystemStatus}
use fpga_mcu_trinity.Exec.Yields.{
  Yields, Yields-bind, Yields-next, Yields-check, Yields-last, Yields-pure, Yields-raise,
  Yields-except, yielded,
}
use fpga_mcu_trinity.Client.Operations.{Link}
use fpga_mcu_trinity.Client.Bringup.Verified.{equal, holds}
use fpga_mcu_trinity.Client.Qualification.Verified.{
  IsQualified, error_free, run_sn32_hardware_qualification-Yields,
}
use fpga_mcu_trinity.Flow.{SessionResult, TelemetryResult, default_telemetry_header}
use fpga_mcu_trinity.Flow.Requests.Returned.{
  generate_keypair-Yields, create_session-Yields, send_telemetry-Yields,
}
use fpga_mcu_trinity.Flow.Secure.Verified.{
  IsClear, IsActive, Echoes, is_active, validate_full_preflight-Yields,
}
use fpga_mcu_trinity.Demo.{
  ProgressCallback, CoreDemoResult, DemoSession, is_final_state, differs_from, is_unclean,
  require_active, run_session, clean_up, run_core_demo,
}

-- A status behind a zeroize.
pub record IsClean (status : SystemStatus) : Type 0 where
  pub state : is_final_state status.system_state ≡ true
  pub session_id : status.session_id ≡ 0
  pub sequence : status.current_sequence ≡ 0
  pub fault_flags : status.fault_flags ≡ 0
  pub last_error : status.last_error ≡ ErrorCode.ok
  pub active_host_txid : status.active_host_txid ≡ 0

-- READ_LAST_RESULT gives the telemetry answer again, with status OK.
pub record Repeats (telemetry last_result : TelemetryResult) : Type 0 where
  pub session_id : last_result.session_id ≡ telemetry.session_id
  pub sequence : last_result.sequence ≡ telemetry.sequence
  pub plaintext : last_result.plaintext ≡ telemetry.plaintext
  pub status : last_result.status ≡ ErrorCode.ok

pub record IsSession (sent : List ℕ) (done : DemoSession) : Type 0 where
  pub named : done.session.session_id ≢ 0
  pub active : IsActive done.session done.status_active
  pub fault_flags : done.status_active.fault_flags ≡ 0
  pub telemetry : Echoes done.session (done.session.initial_sequence + 1) sent done.telemetry
  pub last_result : Repeats done.telemetry done.last_result

pub record IsDemo (sent : List ℕ) (run : CoreDemoResult) : Type 0 where
  pub control_plane : IsQualified run.control_plane
  pub before : IsClear run.info run.status_before
  pub keypair : length run.keypair.public_key_hash ≡ 32
  pub named : run.session.session_id ≢ 0
  pub active : IsActive run.session run.status_active
  pub telemetry : Echoes run.session (run.session.initial_sequence + 1) sent run.telemetry
  pub last_result : Repeats run.telemetry run.last_result
  pub final : IsClean run.status_final

repeats :
    (telemetry last_result : TelemetryResult)
    → differs_from telemetry last_result ≡ false
    → Repeats telemetry last_result
repeats telemetry last_result h = record {
  session_id = ground (arith, h);
  sequence = ground (arith, h);
  plaintext = bytes_eq→eq _ _ (ground (arith, h));
  status = same→eq _ _ (ground (arith, h));
}

is_clean :
    (status : SystemStatus)
    → not (is_final_state status.system_state) ≡ false
    → is_unclean status ≡ false
    → IsClean status
is_clean status state h = record {
  state = holds _ state;
  session_id = ground (arith, h);
  sequence = ground (arith, h);
  fault_flags = ground (arith, h);
  last_error = same→eq _ _ (ground (arith, h));
  active_host_txid = ground (arith, h);
}

module _ {S : Type 0} where
  require_active-Yields :
      (status : SystemStatus) (session : SessionResult)
      → Yields {S = S}
          (λ _. IsActive session status × (status.fault_flags ≡ 0))
          (require_active status session)
  unfolding require_active
  require_active-Yields status session = Yields-check _ _ _ λ state.
      Yields-check _ _ _ λ session_id. Yields-check _ _ _ λ sequence. Yields-last _ _ λ clean. (
        is_active session status state session_id sequence,
        (error_free status.fault_flags status.last_error clean).0,
      )

module _ {S : Type 0} (link : Link S) (on_progress : ProgressCallback S) where
  run_session-Yields :
      (plaintext session_seed : List ℕ) (timeout : ℕ)
      → Yields (IsSession plaintext) (run_session link on_progress plaintext session_seed timeout)
  unfolding run_session
  run_session-Yields plaintext session_seed timeout = Yields-next _ _ λ after_keypair.
      Yields-check _ _ _ λ _. Yields-next _ _ λ _.
        Yields-bind _ _ (create_session-Yields link true session_seed timeout) λ session named.
          Yields-next _ _ λ active.
            Yields-bind _ _ (require_active-Yields active session) λ _ is_active.
              Yields-next _ _ λ _.
                Yields-bind _ _
                  (send_telemetry-Yields link plaintext default_telemetry_header
                    (min timeout 30000))
                  λ telemetry sent. Yields-check _ _ _ λ session_id. Yields-check _ _ _ λ sequence.
                    Yields-next _ _ λ _. Yields-next _ _ λ last_result.
                      Yields-check _ _ _ λ same_result. Yields-next _ _ λ _. Yields-next _ _ λ _.
                        Yields-pure _ (record {
                          named = named;
                          active = is_active.0;
                          fault_flags = is_active.1;
                          telemetry = record {
                            session_id = equal _ _ session_id;
                            sequence = equal _ _ sequence;
                            plaintext = sent.0;
                            status = sent.1;
                          };
                          last_result = repeats telemetry last_result same_result;
                        })

  -- The handler never returns.
  clean_up-Yields :
      {Q : DemoSession → Type 0} (timeout : ℕ) (e : Exception)
      → Yields Q (clean_up link on_progress timeout e)
  unfolding clean_up
  clean_up-Yields timeout e =
      Yields-next _ _ λ _. Yields-next _ _ λ _. Yields-next _ _ λ _. Yields-raise _

  run_core_demo-Yields :
      (fuel : ℕ) (plaintext keypair_seed session_seed : List ℕ) (timeout : ℕ)
      → Yields
          (IsDemo plaintext)
          (run_core_demo link on_progress fuel plaintext keypair_seed session_seed timeout)
  unfolding run_core_demo
  run_core_demo-Yields fuel plaintext keypair_seed session_seed timeout = Yields-check _ _ _ λ _.
      Yields-next _ _ λ _.
        Yields-bind _ _ (run_sn32_hardware_qualification-Yields link fuel (min timeout 30000) 50 2)
          λ control qualified. Yields-next _ _ λ before.
            Yields-bind _ _ (validate_full_preflight-Yields control.dual_spi.info before) λ _ clear.
              Yields-next _ _ λ _.
                Yields-bind _ _ (generate_keypair-Yields link true keypair_seed timeout)
                  λ keypair key.
                    Yields-bind _ _
                      (Yields-except _ _ _ (run_session-Yields plaintext session_seed timeout)
                        (clean_up-Yields timeout))
                      λ done session. Yields-next _ _ λ final. Yields-check _ _ _ λ state.
                        Yields-check _ _ _ λ clean. Yields-next _ _ λ uptime. Yields-next _ _ λ _.
                          Yields-pure _ (record {
                            control_plane = qualified;
                            before = clear;
                            keypair = key;
                            named = session.named;
                            active = session.active;
                            telemetry = session.telemetry;
                            last_result = session.last_result;
                            final = is_clean final state clean;
                          })

  -- A demonstration that returns has verified the control plane; started from a clear controller
  -- without a key; made a key and a session, which the status showed as active; got the plaintext
  -- back in that session, byte for byte, with the next sequence number and status OK, and again
  -- from READ_LAST_RESULT; and left a status with no session, sequence, fault, error or active
  -- transaction, in a state without keys or one that asks for a self-test.
  pub run_core_demo-IsDemo :
      (fuel : ℕ) (plaintext keypair_seed session_seed : List ℕ) (timeout : ℕ) (s t : S)
      (run : CoreDemoResult)
      → run_core_demo link on_progress fuel plaintext keypair_seed session_seed timeout s
        ≡ (ok run, t)
      → IsDemo plaintext run
  run_core_demo-IsDemo fuel plaintext keypair_seed session_seed timeout =
      yielded (run_core_demo-Yields fuel plaintext keypair_seed session_seed timeout)
