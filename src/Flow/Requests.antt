-- ===== src/Flow/Requests.antt =====
-- full_flow.py: the commands whose results the SN32 retains, each read back and retired.
pub mod Returned
use fpga_mcu_trinity.Base.{
  ℕ, Bool, true, false, Option, List, [], ◌∷◌, ◌++◌, length, bit_and, bytes_eq, not, ◌||◌, ◌==◌,
  ◌!=◌, if◌then◌else◌,
}
use fpga_mcu_trinity.Base.Enum.{int, same}
use fpga_mcu_trinity.Protocol.Constants.Codes.{ErrorCode, error_code_enum}
use fpga_mcu_trinity.Protocol.Constants.Commands.{HostCommand, host_command_enum}
use fpga_mcu_trinity.Protocol.Constants.States.{
  SystemState, TransactionState, transaction_state_enum,
}
use fpga_mcu_trinity.Protocol.Constants.Flags.{ZeroizeScope, zeroize_scope_enum}
use fpga_mcu_trinity.Protocol.Errors.{Exception, value_error, host_protocol_error, remote_error}
use fpga_mcu_trinity.Protocol.Pack.{byte_at, u32_at, u64_at, pack_u16}
use fpga_mcu_trinity.Protocol.Frame.{HostFrame}
use fpga_mcu_trinity.Protocol.Types.{SystemStatus, TransactionResult}
use fpga_mcu_trinity.Exec.{Exec, pure, raise, lift, raise_if, try_except, try_finally, ◌>>=◌, ◌>>◌}
use fpga_mcu_trinity.Client.Payloads.{LastErrorSnapshot, SessionCommitDiagnostic, from_last_error}
use fpga_mcu_trinity.Client.Operations.{
  Link, get_system_status, get_last_error, get_transaction_result, retire_transaction_result,
}
use fpga_mcu_trinity.Flow.{
  KeypairResult, SessionResult, TelemetryResult, require_seed, decode_telemetry_result,
  keypair_mode_random, keypair_mode_deterministic, session_mode_deterministic, session_mode_kat,
}

-- `except RemoteError`
abbrev pub is_remote_error : Exception → Bool
is_remote_error (remote_error e) = true
is_remote_error _ = false

-- `except Exception`: the type of exceptions has its subclasses only, so KeyboardInterrupt and
-- SystemExit, which the clause lets pass, are not modelled.
abbrev pub is_exception : Exception → Bool
is_exception _ = true

-- bytes(32)
abbrev pub zero_seed : List ℕ
zero_seed =
    0 ∷ 0 ∷ 0 ∷ 0 ∷ 0 ∷ 0 ∷ 0 ∷ 0 ∷ 0 ∷ 0 ∷ 0 ∷ 0 ∷ 0 ∷ 0 ∷ 0 ∷ 0 ∷ 0 ∷ 0 ∷ 0 ∷ 0 ∷ 0 ∷ 0 ∷ 0 ∷ 0
    ∷ 0 ∷ 0 ∷ 0 ∷ 0 ∷ 0 ∷ 0 ∷ 0 ∷ 0 ∷ []

module _ {S : Type 0} (link : Link S) where
  unfoldable pub retire_active_host_transaction : Exec S ℕ
  retire_active_host_transaction = do
    status ← get_system_status link
    if status.active_host_txid == 0
        then pure 0
        else do retire_transaction_result link status.active_host_txid; pure status.active_host_txid

  -- `try: _retire_active_host_transaction(client)`, with `except Exception: pass`
  unfoldable pub retire_if_possible : Exec S (Unit {0})
  retire_if_possible =
      try_except (retire_active_host_transaction >> pure tt) is_exception λ e. pure tt

  -- The tests of a retained result against the response that came first.
  unfoldable pub check_retained : HostCommand → HostFrame → TransactionResult → Exec S (ℕ × List ℕ)
  check_retained command response retained = do
    raise_if (retained.queried_txid != response.transaction_id)
        (host_protocol_error "retained transaction ID mismatch")
    raise_if (not (same retained.state TransactionState.succeeded))
        (host_protocol_error "managed command did not retain SUCCEEDED")
    raise_if (retained.original_command != int command)
        (host_protocol_error "retained command mismatch")
    raise_if (not (same retained.result_code ErrorCode.ok)) (host_protocol_error "retained result")
    raise_if (not (bytes_eq retained.payload response.payload))
        (host_protocol_error "immediate and retained managed-command results differ")
    pure (response.transaction_id, response.payload)

  unfoldable pub retained_request : HostCommand → List ℕ → ℕ → Exec S (ℕ × List ℕ)
  retained_request command payload timeout = do
    response ←
        try_except (link.request command payload timeout) is_remote_error
          λ e. retire_if_possible >> raise e
    retained ← get_transaction_result link response.transaction_id
    try_finally (check_retained command response retained)
        (retire_transaction_result link response.transaction_id)

  unfoldable pub generate_keypair : Bool → List ℕ → ℕ → Exec S KeypairResult
  generate_keypair deterministic seed timeout = do
    payload ←
        if deterministic
        then (do checked ← lift (require_seed seed); pure (keypair_mode_deterministic ∷ checked))
        else pure (keypair_mode_random ∷ zero_seed)
    (host_txid, result) ← retained_request HostCommand.generate_keypair payload timeout
    raise_if (length result != 32) (host_protocol_error "GENERATE_KEYPAIR result must be 32 bytes")
    pure (record { host_txid = host_txid; public_key_hash = result })

  unfoldable pub create_session : Bool → List ℕ → ℕ → Exec S SessionResult
  create_session kat seed timeout = do
    payload ←
        if kat
        then (do checked ← lift (require_seed seed); pure (session_mode_kat ∷ checked))
        else pure (session_mode_deterministic ∷ zero_seed)
    (host_txid, result) ← retained_request HostCommand.create_session payload timeout
    raise_if (length result != 12) (host_protocol_error "CREATE_SESSION result must be 12 bytes")
    raise_if (u32_at result 0 == 0) (host_protocol_error "CREATE_SESSION returned session_id=0")
    pure (record {
      host_txid = host_txid;
      session_id = u32_at result 0;
      initial_sequence = u64_at result 4;
    })

  unfoldable pub send_telemetry : List ℕ → List ℕ → ℕ → Exec S TelemetryResult
  send_telemetry plaintext header timeout = do
    raise_if (length header != 8) (value_error "telemetry header must be 8 bytes")
    raise_if (byte_at header 1 != 0 || byte_at header 6 != 0 || byte_at header 7 != 0)
        (value_error "telemetry reserved header bytes must be zero")
    raise_if (length plaintext != 24) (value_error "plaintext must be exactly 24 bytes")
    (host_txid, payload) ←
        retained_request HostCommand.send_one_telemetry (header ++ plaintext) timeout
    result ← lift (decode_telemetry_result host_txid payload)
    raise_if (not (same result.status ErrorCode.ok))
        (host_protocol_error "telemetry returned status")
    raise_if (not (bytes_eq result.plaintext plaintext))
        (host_protocol_error "authenticated plaintext differs byte-for-byte")
    pure result

  unfoldable pub read_last_result : ℕ → Exec S TelemetryResult
  read_last_result timeout = do
    response ← link.request HostCommand.read_last_result [] timeout
    lift (decode_telemetry_result response.transaction_id response.payload)

  unfoldable pub close_session : ℕ → Exec S ℕ
  close_session timeout = do
    (host_txid, payload) ← retained_request HostCommand.close_session [] timeout
    raise_if (length payload != 0) (host_protocol_error "CLOSE_SESSION result must be empty")
    pure host_txid

  unfoldable pub zeroize : ZeroizeScope → ℕ → Exec S ℕ
  zeroize scope timeout = do
    (host_txid, payload) ←
        retained_request HostCommand.zeroize_system (bit_and (int scope) 0xFF ∷ []) timeout
    raise_if (length payload != 0) (host_protocol_error "ZEROIZE_SYSTEM result must be empty")
    pure host_txid

  unfoldable pub emergency_zeroize : ℕ → Exec S ℕ
  emergency_zeroize timeout = do retire_if_possible; zeroize ZeroizeScope.all timeout

  unfoldable pub read_session_commit_diagnostic :
      Exec S (LastErrorSnapshot × Option SessionCommitDiagnostic)
  read_session_commit_diagnostic = do
    snapshot ← get_last_error link
    pure (snapshot, from_last_error snapshot)
