-- ===== src/Demo.antt =====
-- pc_host/src/trinity_host/demo_core.py: the demonstration, from the key pair to the zeroized
-- system, with its clean-up when a step behind the key pair fails.
pub mod Verified
pub mod Erased
use fpga_mcu_trinity.Base.{
  ℕ, ◌+◌, min, Bool, true, false, String, Option, none, some, List, [], ◌∷◌, length, bytes_eq, not,
  ◌||◌, ◌==◌, ◌!=◌,
}
use fpga_mcu_trinity.Base.Enum.{int, same}
use fpga_mcu_trinity.Protocol.Constants.Codes.{ErrorCode, error_code_enum}
use fpga_mcu_trinity.Protocol.Constants.States.{SystemState, system_state_enum}
use fpga_mcu_trinity.Protocol.Errors.{Exception, value_error, host_protocol_error}
use fpga_mcu_trinity.Protocol.Types.{SystemStatus}
use fpga_mcu_trinity.Exec.{Exec, pure, raise, raise_if, try_except, ◌>>=◌, ◌>>◌}
use fpga_mcu_trinity.Client.Payloads.{SystemInfo}
use fpga_mcu_trinity.Client.Operations.{Link, ping, get_system_status}
use fpga_mcu_trinity.Client.Qualification.{Sn32QualificationResult, run_sn32_hardware_qualification}
use fpga_mcu_trinity.Flow.{KeypairResult, SessionResult, TelemetryResult, default_telemetry_header}
use fpga_mcu_trinity.Flow.Requests.{
  generate_keypair, create_session, send_telemetry, read_last_result, emergency_zeroize,
  read_session_commit_diagnostic, is_exception,
}
use fpga_mcu_trinity.Flow.Secure.{validate_full_preflight}

-- `on_progress`: a function of a message and a percentage, that may do and raise what it likes.
abbrev pub ProgressCallback : Type 0 → Type 0
ProgressCallback S = Option (String → Option ℕ → Exec S (Unit {0}))

pub record CoreDemoResult : Type 0 where
  pub control_plane : Sn32QualificationResult
  pub info : SystemInfo
  pub status_before : SystemStatus
  pub keypair : KeypairResult
  pub session : SessionResult
  pub status_active : SystemStatus
  pub telemetry : TelemetryResult
  pub last_result : TelemetryResult
  pub status_final : SystemStatus
  pub final_uptime_ms : ℕ

-- What the `try` leaves in its variables when it ends well.
pub record DemoSession : Type 0 where
  pub session : SessionResult
  pub status_active : SystemStatus
  pub telemetry : TelemetryResult
  pub last_result : TelemetryResult

-- state in allowed_final_states
abbrev pub is_final_state : SystemState → Bool
is_final_state SystemState.ready_no_keypair = true
is_final_state SystemState.self_test_required = true
is_final_state _ = false

-- The test of READ_LAST_RESULT.
abbrev pub differs_from : TelemetryResult → TelemetryResult → Bool
differs_from telemetry last_result =
    last_result.session_id != telemetry.session_id
    || last_result.sequence != telemetry.sequence
    || not (bytes_eq last_result.plaintext telemetry.plaintext)
    || not (same last_result.status ErrorCode.ok)

-- The test of the status behind the zeroize.
abbrev pub is_unclean : SystemStatus → Bool
is_unclean status =
    status.session_id != 0
    || status.current_sequence != 0
    || status.fault_flags != 0
    || not (same status.last_error ErrorCode.ok)
    || status.active_host_txid != 0

abbrev pub final_message : SystemState → String
final_message SystemState.self_test_required =
    "CORE DEMO PASS — zeroize hoàn tất; cần self-test trước phiên tiếp theo; Tiny 1P5 không thuộc phạm vi"
final_message _ = "CORE DEMO PASS — Tiny 1P5 không thuộc phạm vi"

module _ {S : Type 0} where
  unfoldable pub emit : ProgressCallback S → String → Option ℕ → Exec S (Unit {0})
  emit none message percent = pure tt
  emit (some callback) message percent = callback message percent

  unfoldable pub require_active : SystemStatus → SessionResult → Exec S (Unit {0})
  require_active status session = do
    raise_if (not (same status.system_state SystemState.active))
        (host_protocol_error "session activation did not enter ACTIVE")
    raise_if (status.session_id != session.session_id)
        (host_protocol_error "active status session ID differs from CREATE_SESSION")
    raise_if (status.current_sequence != session.initial_sequence)
        (host_protocol_error "active status sequence differs from CREATE_SESSION")
    raise_if (status.fault_flags != 0 || not (same status.last_error ErrorCode.ok))
        (host_protocol_error "session activation left a fault")

module _ {S : Type 0} (link : Link S) (on_progress : ProgressCallback S) where
  -- The `try` behind the key pair.
  unfoldable pub run_session : List ℕ → List ℕ → ℕ → Exec S DemoSession
  run_session plaintext session_seed timeout = do
    after_keypair ← get_system_status link
    raise_if (not (same after_keypair.system_state SystemState.ready_no_session))
        (host_protocol_error "keypair generation did not enter READY_NO_SESSION")
    emit on_progress "Encaps/Decaps, KDF và kích hoạt session" (some 50)
    session ← create_session link true session_seed timeout
    active ← get_system_status link
    require_active active session
    emit on_progress "P1 mã hóa và truyền UART trực tiếp sang P2" (some 72)
    telemetry ← send_telemetry link plaintext default_telemetry_header (min timeout 30000)
    raise_if (telemetry.session_id != session.session_id)
        (host_protocol_error "telemetry session ID mismatch")
    raise_if (telemetry.sequence != session.initial_sequence + 1)
        (host_protocol_error "telemetry sequence")
    emit on_progress "Đọc lại kết quả đã xác thực từ P2" (some 85)
    last_result ← read_last_result link 5000
    raise_if (differs_from telemetry last_result)
        (host_protocol_error "READ_LAST_RESULT differs from authenticated telemetry")
    emit on_progress "Zeroize toàn hệ thống demo" (some 94)
    emergency_zeroize link (min timeout 30000)
    pure (record {
      session = session;
      status_active = active;
      telemetry = telemetry;
      last_result = last_result;
    })

  -- The handler, where a key pair exists: read a diagnostic, zeroize, and raise.
  unfoldable pub clean_up : ℕ → Exception → Exec S DemoSession
  clean_up timeout original_error = do
    try_except (read_session_commit_diagnostic link >> pure tt) is_exception λ e. pure tt
    emit on_progress "Dọn trạng thái bằng emergency zeroize" (some 92)
    try_except (emergency_zeroize link (min timeout 30000) >> pure tt) is_exception λ e. pure tt
    raise (host_protocol_error "SESSION COMMIT DIAGNOSTIC")

  -- The handler raises again what was raised before the key pair, so that part stands outside.
  unfoldable pub run_core_demo : ℕ → List ℕ → List ℕ → List ℕ → ℕ → Exec S CoreDemoResult
  run_core_demo fuel plaintext keypair_seed session_seed timeout = do
    raise_if (length plaintext != 24) (value_error "plaintext must be exactly 24 bytes")
    emit on_progress "Kiểm tra SN32 và dual-SPI P1/P2" (some 5)
    control_plane ← run_sn32_hardware_qualification link fuel (min timeout 30000) 50 2
    before ← get_system_status link
    validate_full_preflight control_plane.dual_spi.info before
    emit on_progress "Sinh cặp khóa ML-KEM-512 low-RAM" (some 25)
    keypair ← generate_keypair link true keypair_seed timeout
    done ←
        try_except (run_session plaintext session_seed timeout) is_exception λ e. clean_up timeout e
    final ← get_system_status link
    raise_if (not (is_final_state final.system_state))
        (host_protocol_error "zeroize did not enter a valid clean state")
    raise_if (is_unclean final) (host_protocol_error "zeroize did not leave a clean final status")
    uptime ← ping link
    emit on_progress (final_message final.system_state) (some 100)
    pure (record {
      control_plane = control_plane;
      info = control_plane.dual_spi.info;
      status_before = before;
      keypair = keypair;
      session = done.session;
      status_active = done.status_active;
      telemetry = done.telemetry;
      last_result = done.last_result;
      status_final = final;
      final_uptime_ms = uptime;
    })
