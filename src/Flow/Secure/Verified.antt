-- ===== src/Flow/Secure/Verified.antt =====
-- What a secure telemetry qualification that returns has verified.
use fpga_mcu_trinity.Base.{
  ℕ, ◌+◌, ◌≡◌, ◌≢◌, arith, true, false, some, List, [], ◌∷◌, length, bytes_eq→eq, not, ◌||◌, ◌!=◌,
}
use fpga_mcu_trinity.Base.Enum.{same, same→eq}
use fpga_mcu_trinity.Protocol.Constants.Codes.{ErrorCode, error_code_enum}
use fpga_mcu_trinity.Protocol.Constants.States.{SystemState, system_state_enum}
use fpga_mcu_trinity.Protocol.Errors.{ok, index_error, or_raise, or_raise-eq-ok}
use fpga_mcu_trinity.Protocol.Pack.{and_not}
use fpga_mcu_trinity.Protocol.Types.{SystemStatus}
use fpga_mcu_trinity.Exec.Yields.{
  Yields, Yields-bind, Yields-next, Yields-read, Yields-check, Yields-last, Yields-pure,
  Yields-finally, yielded,
}
use fpga_mcu_trinity.Client.Payloads.{SystemInfo}
use fpga_mcu_trinity.Client.Operations.{Link}
use fpga_mcu_trinity.Client.Bringup.{dual_ready}
use fpga_mcu_trinity.Client.Bringup.Verified.{HasReady, lacks-HasReady, equal}
use fpga_mcu_trinity.Client.Qualification.Verified.{
  IsQualified, error_free, run_sn32_hardware_qualification-Yields,
}
use fpga_mcu_trinity.Flow.{
  SessionResult, TelemetryResult, SecureTelemetryQualificationResult, required_capabilities,
  default_telemetry_header,
}
use fpga_mcu_trinity.Flow.Requests.Returned.{
  generate_keypair-Yields, create_session-Yields, send_telemetry-Yields,
}
use fpga_mcu_trinity.Flow.Secure.{
  last_of, differs, validate_full_preflight, send_all, exchange_telemetry,
  run_secure_telemetry_qualification,
}

-- A controller that may start the flow.
pub record IsClear (info : SystemInfo) (status : SystemStatus) : Type 0 where
  pub capabilities : and_not required_capabilities info.capabilities ≡ 0
  pub endpoints : HasReady dual_ready status
  pub fault_flags : status.fault_flags ≡ 0
  pub last_error : status.last_error ≡ ErrorCode.ok
  pub active_host_txid : status.active_host_txid ≡ 0
  pub state : status.system_state ≡ SystemState.ready_no_keypair

-- The status of a session that has just been created.
pub record IsActive (session : SessionResult) (status : SystemStatus) : Type 0 where
  pub state : status.system_state ≡ SystemState.active
  pub session_id : status.session_id ≡ session.session_id
  pub sequence : status.current_sequence ≡ session.initial_sequence

-- The answer to one telemetry record of a session.
pub record Echoes (session : SessionResult) (expected : ℕ) (sent : List ℕ)
    (result : TelemetryResult) : Type 0 where
  pub session_id : result.session_id ≡ session.session_id
  pub sequence : result.sequence ≡ expected
  pub plaintext : result.plaintext ≡ sent
  pub status : result.status ≡ ErrorCode.ok

-- One answer for each plaintext, in their order, numbered from the sequence before them.
unfoldable pub AreEchoes : SessionResult → ℕ → List (List ℕ) → List TelemetryResult → Type 0
AreEchoes session before [] [] = Unit {0}
AreEchoes session before [] (result ∷ results) = ⊥
AreEchoes session before (plaintext ∷ plaintexts) [] = ⊥
AreEchoes session before (plaintext ∷ plaintexts) (result ∷ results) =
    Echoes session (before + 1) plaintext result × AreEchoes session (before + 1) plaintexts results

-- READ_LAST_RESULT gives what the last telemetry record gave.
pub record IsLast (results : List TelemetryResult) (last_result : TelemetryResult) : Type 0 where
  pub final_result : TelemetryResult
  pub final : last_of results ≡ some final_result
  pub session_id : last_result.session_id ≡ final_result.session_id
  pub sequence : last_result.sequence ≡ final_result.sequence
  pub plaintext : last_result.plaintext ≡ final_result.plaintext
  pub status : last_result.status ≡ final_result.status

-- A status without keys, session, fault or error.
pub record IsErased (status : SystemStatus) : Type 0 where
  pub state : status.system_state ≡ SystemState.ready_no_keypair
  pub session_id : status.session_id ≡ 0
  pub sequence : status.current_sequence ≡ 0
  pub fault_flags : status.fault_flags ≡ 0
  pub last_error : status.last_error ≡ ErrorCode.ok

pub record IsSecureRun (plaintexts : List (List ℕ)) (run : SecureTelemetryQualificationResult)
    : Type 0 where
  pub control_plane : IsQualified run.control_plane
  pub before : IsClear run.info run.status_before
  pub keypair : length run.keypair.public_key_hash ≡ 32
  pub session : run.session.session_id ≢ 0
  pub active : IsActive run.session run.status_active
  pub telemetry : AreEchoes run.session run.session.initial_sequence plaintexts run.telemetry
  pub last_result : IsLast run.telemetry run.last_result
  pub final : IsErased run.status_final

not_different :
    (results : List TelemetryResult) (last_result final_result : TelemetryResult)
    → last_of results ≡ some final_result
    → differs last_result final_result ≡ false
    → IsLast results last_result
not_different results last_result final_result final h = record {
  final_result = final_result;
  final = final;
  session_id = ground (arith, h);
  sequence = ground (arith, h);
  plaintext = bytes_eq→eq _ _ (ground (arith, h));
  status = same→eq _ _ (ground (arith, h));
}

pub in_state : (state expected : SystemState) → not (same state expected) ≡ false → state ≡ expected
in_state state expected h = same→eq state expected (ground (arith, h))

pub is_active :
    (session : SessionResult) (status : SystemStatus)
    → not (same status.system_state SystemState.active) ≡ false
    → (status.session_id != session.session_id) ≡ false
    → (status.current_sequence != session.initial_sequence) ≡ false
    → IsActive session status
is_active session status state session_id sequence = record {
  state = in_state _ _ state;
  session_id = equal _ _ session_id;
  sequence = equal _ _ sequence;
}

is_erased :
    (status : SystemStatus)
    → not (same status.system_state SystemState.ready_no_keypair) ≡ false
    → (status.session_id != 0 || status.current_sequence != 0) ≡ false
    → (status.fault_flags != 0 || not (same status.last_error ErrorCode.ok)) ≡ false
    → IsErased status
is_erased status state session clean =
    let (flags, code) = error_free status.fault_flags status.last_error clean in
    record {
      state = in_state _ _ state;
      session_id = ground (arith, session);
      sequence = ground (arith, session);
      fault_flags = flags;
      last_error = code;
    }

module _ {S : Type 0} where
  pub validate_full_preflight-Yields :
      (info : SystemInfo) (status : SystemStatus)
      → Yields {S = S} (λ _. IsClear info status) (validate_full_preflight info status)
  unfolding validate_full_preflight
  validate_full_preflight-Yields info status = Yields-check _ _ _ λ capabilities.
      Yields-check _ _ _ λ endpoints. Yields-check _ _ _ λ clean. Yields-check _ _ _ λ idle.
        Yields-last _ _ λ state.
          let (flags, code) = error_free status.fault_flags status.last_error clean in
          record {
            capabilities = equal _ 0 capabilities;
            endpoints = lacks-HasReady dual_ready status endpoints;
            fault_flags = flags;
            last_error = code;
            active_host_txid = equal _ 0 idle;
            state = in_state _ _ state;
          }

module _ {S : Type 0} (link : Link S) where
  send_all-Yields :
      (plaintexts : List (List ℕ)) (session : SessionResult) (timeout before : ℕ)
      → Yields
          (AreEchoes session before plaintexts)
          (send_all link session timeout before plaintexts)
  unfolding send_all AreEchoes
  send_all-Yields [] session timeout before = Yields-pure [] tt
  send_all-Yields (plaintext ∷ plaintexts) session timeout before =
      Yields-bind _ _ (send_telemetry-Yields link plaintext default_telemetry_header timeout)
        λ result sent. Yields-check _ _ _ λ session_id. Yields-check _ _ _ λ sequence.
          Yields-bind _ _ (send_all-Yields plaintexts session timeout (before + 1)) λ results rest.
            Yields-pure (result ∷ results) (
              record {
                session_id = equal _ _ session_id;
                sequence = equal _ _ sequence;
                plaintext = sent.0;
                status = sent.1;
              },
              rest,
            )

  exchange_telemetry-Yields :
      (session : SessionResult) (timeout : ℕ) (plaintexts : List (List ℕ))
      → Yields
          (λ answer.
            AreEchoes session session.initial_sequence plaintexts answer.0
            × IsLast answer.0 answer.1)
          (exchange_telemetry link session timeout plaintexts)
  unfolding exchange_telemetry
  exchange_telemetry-Yields session timeout plaintexts =
      Yields-bind _ _ (send_all-Yields plaintexts session timeout session.initial_sequence)
        λ results echoes. Yields-next _ _ λ last_result.
          Yields-read (or_raise index_error (last_of results)) _ λ final_result final.
            Yields-check (differs last_result final_result) _ _ λ h.
              Yields-pure (results, last_result)
                (
                  echoes,
                  not_different results last_result final_result
                      (or_raise-eq-ok index_error (last_of results) final_result final) h,
                )

  run_secure_telemetry_qualification-Yields :
      (fuel : ℕ) (keypair_seed session_seed : List ℕ) (plaintexts : List (List ℕ))
      (timeout poll_interval : ℕ)
      → Yields (IsSecureRun plaintexts) (
          run_secure_telemetry_qualification link fuel keypair_seed session_seed plaintexts timeout
            poll_interval)
  unfolding run_secure_telemetry_qualification
  run_secure_telemetry_qualification-Yields fuel keypair_seed session_seed plaintexts timeout poll =
      Yields-check _ _ _ λ _.
        Yields-bind _ _ (run_sn32_hardware_qualification-Yields link fuel timeout poll 2)
          λ control qualified. Yields-next _ _ λ before.
            Yields-bind _ _ (validate_full_preflight-Yields control.dual_spi.info before) λ _ clear.
              Yields-bind _ _ (generate_keypair-Yields link true keypair_seed timeout)
                λ keypair key. Yields-next _ _ λ after_keypair. Yields-check _ _ _ λ _.
                  Yields-bind _ _ (create_session-Yields link true session_seed timeout)
                    λ session named. Yields-next _ _ λ active. Yields-check _ _ _ λ state.
                      Yields-check _ _ _ λ session_id. Yields-check _ _ _ λ sequence.
                        Yields-bind _ _
                          (Yields-finally _ _
                            (exchange_telemetry-Yields session timeout plaintexts))
                          λ answer exchanged. Yields-next _ _ λ final. Yields-check _ _ _ λ cleared.
                            Yields-check _ _ _ λ no_session. Yields-check _ _ _ λ clean.
                              Yields-pure _ (record {
                                control_plane = qualified;
                                before = clear;
                                keypair = key;
                                session = named;
                                active = is_active session active state session_id sequence;
                                telemetry = exchanged.0;
                                last_result = exchanged.1;
                                final = is_erased final cleared no_session clean;
                              })

  -- A qualification that returns has verified the control plane; started from a controller with the
  -- required capabilities, both endpoints, no fault, error or retained transaction, and no key; made
  -- a key and a session that the status then showed as active; got an answer to every plaintext, in
  -- their order, in that session, with the next sequence number, the same bytes and status OK; read
  -- the last answer back; and left a status with no key, session, sequence, fault or error.
  pub run_secure_telemetry_qualification-IsSecureRun :
      (fuel : ℕ) (keypair_seed session_seed : List ℕ) (plaintexts : List (List ℕ))
      (timeout poll_interval : ℕ) (s t : S) (run : SecureTelemetryQualificationResult)
      → run_secure_telemetry_qualification link fuel keypair_seed session_seed plaintexts timeout
          poll_interval s
        ≡ (ok run, t)
      → IsSecureRun plaintexts run
  run_secure_telemetry_qualification-IsSecureRun fuel keypair_seed session_seed plaintexts timeout
        poll =
      yielded (
        run_secure_telemetry_qualification-Yields fuel keypair_seed session_seed plaintexts timeout
          poll)
