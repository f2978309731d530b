-- ===== src/Flow/Secure.antt =====
-- full_flow.py: run_secure_telemetry_qualification.
pub mod Verified
pub mod Erased
use fpga_mcu_trinity.Base.{
  ℕ, ◌+◌, Bool, true, false, Option, none, some, List, [], ◌∷◌, length, bit_and, bytes_eq, ltb, not,
  ◌||◌, ◌&&◌, ◌==◌, ◌!=◌,
}
use fpga_mcu_trinity.Base.Enum.{int, same}
use fpga_mcu_trinity.Protocol.Constants.Codes.{ErrorCode, error_code_enum}
use fpga_mcu_trinity.Protocol.Constants.States.{SystemState, system_state_enum}
use fpga_mcu_trinity.Protocol.Errors.{
  Exception, Result, ok, err, value_error, host_protocol_error, index_error, or_raise,
}
use fpga_mcu_trinity.Protocol.Pack.{and_not}
use fpga_mcu_trinity.Protocol.Types.{SystemStatus}
use fpga_mcu_trinity.Exec.{Exec, pure, lift, raise_if, try_finally, ◌>>=◌, ◌>>◌}
use fpga_mcu_trinity.Client.Payloads.{SystemInfo}
use fpga_mcu_trinity.Client.Operations.{Link, get_system_status}
use fpga_mcu_trinity.Client.Bringup.{dual_ready, lacks}
use fpga_mcu_trinity.Client.Qualification.{run_sn32_hardware_qualification}
use fpga_mcu_trinity.Flow.{
  KeypairResult, SessionResult, TelemetryResult, SecureTelemetryQualificationResult,
  required_capabilities, default_telemetry_header,
}
use fpga_mcu_trinity.Flow.Requests.{
  generate_keypair, create_session, send_telemetry, read_last_result, emergency_zeroize,
}

-- results[-1]
abbrev pub last_of : List TelemetryResult → Option TelemetryResult
last_of [] = none
last_of (result ∷ []) = some result
last_of (result ∷ next ∷ results) = last_of (next ∷ results)

-- The test of READ_LAST_RESULT against the last telemetry result.
abbrev pub differs : TelemetryResult → TelemetryResult → Bool
differs a b =
    a.session_id != b.session_id
    || a.sequence != b.sequence
    || not (bytes_eq a.plaintext b.plaintext)
    || not (same a.status b.status)

module _ {S : Type 0} where
  unfoldable pub validate_full_preflight : SystemInfo → SystemStatus → Exec S (Unit {0})
  validate_full_preflight info status = do
    raise_if (and_not required_capabilities info.capabilities != 0)
        (host_protocol_error "SN32 is missing secure-telemetry capabilities")
    raise_if (lacks dual_ready status)
        (host_protocol_error "P1/P2 are not ready for secure telemetry")
    raise_if (status.fault_flags != 0 || not (same status.last_error ErrorCode.ok))
        (host_protocol_error "preflight is not clean")
    raise_if (status.active_host_txid != 0)
        (host_protocol_error "host transaction is still retained")
    raise_if (not (same status.system_state SystemState.ready_no_keypair))
        (host_protocol_error "secure telemetry qualification requires READY_NO_KEYPAIR")

module _ {S : Type 0} (link : Link S) where
  -- The `for` over the plaintexts, from the sequence number before it.
  unfoldable pub send_all : SessionResult → ℕ → ℕ → List (List ℕ) → Exec S (List TelemetryResult)
  send_all session timeout expected_sequence [] = pure []
  send_all session timeout expected_sequence (plaintext ∷ plaintexts) = do
    result ← send_telemetry link plaintext default_telemetry_header timeout
    raise_if (result.session_id != session.session_id)
        (host_protocol_error "telemetry session ID mismatch")
    raise_if (result.sequence != expected_sequence + 1) (host_protocol_error "telemetry sequence")
    results ← send_all session timeout (expected_sequence + 1) plaintexts
    pure (result ∷ results)

  -- The body of the `try` whose `finally` is the emergency zeroize.
  unfoldable pub exchange_telemetry :
      SessionResult → ℕ → List (List ℕ) → Exec S (List TelemetryResult × TelemetryResult)
  exchange_telemetry session timeout plaintexts = do
    results ← send_all session timeout session.initial_sequence plaintexts
    last_result ← read_last_result link 2000
    final_result ← lift (or_raise index_error (last_of results))
    raise_if (differs last_result final_result)
        (host_protocol_error "READ_LAST_RESULT differs from the final telemetry result")
    pure (results, last_result)

  unfoldable pub run_secure_telemetry_qualification :
      ℕ → List ℕ → List ℕ → List (List ℕ) → ℕ → ℕ → Exec S SecureTelemetryQualificationResult
  run_secure_telemetry_qualification fuel keypair_seed session_seed plaintexts timeout
        poll_interval =
      do
        raise_if (ltb (length plaintexts) 2)
            (value_error "qualification requires at least two plaintexts")
        control_plane ← run_sn32_hardware_qualification link fuel timeout poll_interval 2
        before ← get_system_status link
        validate_full_preflight control_plane.dual_spi.info before
        keypair ← generate_keypair link true keypair_seed timeout
        after_keypair ← get_system_status link
        raise_if (not (same after_keypair.system_state SystemState.ready_no_session))
            (host_protocol_error "keypair generation did not enter READY_NO_SESSION")
        session ← create_session link true session_seed timeout
        active ← get_system_status link
        raise_if (not (same active.system_state SystemState.active))
            (host_protocol_error "session activation did not enter ACTIVE")
        raise_if (active.session_id != session.session_id)
            (host_protocol_error "active status session ID differs from CREATE_SESSION")
        raise_if (active.current_sequence != session.initial_sequence)
            (host_protocol_error "active status sequence differs from CREATE_SESSION")
        (results, last_result) ←
            try_finally (exchange_telemetry session timeout plaintexts)
              (emergency_zeroize link timeout >> pure tt)
        final ← get_system_status link
        raise_if (not (same final.system_state SystemState.ready_no_keypair))
            (host_protocol_error "full zeroize did not restore READY_NO_KEYPAIR")
        raise_if (final.session_id != 0 || final.current_sequence != 0)
            (host_protocol_error "full zeroize retained session metadata")
        raise_if (final.fault_flags != 0 || not (same final.last_error ErrorCode.ok))
            (host_protocol_error "full zeroize did not leave a clean final status")
        pure (record {
          control_plane = control_plane;
          info = control_plane.dual_spi.info;
          status_before = before;
          keypair = keypair;
          session = session;
          status_active = active;
          telemetry = results;
          last_result = last_result;
          status_final = final;
        })
