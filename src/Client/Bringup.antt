-- ===== src/Client/Bringup.antt =====
-- serial_client_impl.py: the self-test runs over SPI, run_p1_bringup and run_dual_spi_bringup. The
-- expected SN32 image is the one that serial_client.py puts in place of the implementation's.
pub mod Verified
pub mod Tested
use fpga_mcu_trinity.Base.{ℕ, Bool, true, false, List, bit_and, bit_or, not, ◌||◌, ◌==◌, ◌!=◌}
use fpga_mcu_trinity.Base.Enum.{int}
use fpga_mcu_trinity.Protocol.Constants.Commands.{HostCommand, host_command_enum}
use fpga_mcu_trinity.Protocol.Constants.States.{SystemState}
use fpga_mcu_trinity.Protocol.Constants.Kinds.{TestProfile}
use fpga_mcu_trinity.Protocol.Constants.Flags.{TargetReadyMask, target_ready_mask_enum}
use fpga_mcu_trinity.Protocol.Errors.{host_protocol_error}
use fpga_mcu_trinity.Protocol.Types.{SystemStatus, TransactionResult}
use fpga_mcu_trinity.Exec.{Exec, pure, raise_if, ◌>>=◌, ◌>>◌}
use fpga_mcu_trinity.Client.Payloads.{SystemInfo}
use fpga_mcu_trinity.Client.Operations.{
  Link, ping, get_system_info, get_system_status, start_self_test, start_p1_self_test,
  wait_for_transaction, retire_transaction_result, p1_test_mask,
}

abbrev pub expected_p1_build_id : ℕ
expected_p1_build_id = 0x5031D003

abbrev pub expected_p2_build_id : ℕ
expected_p2_build_id = 0x50320002

abbrev pub p1_kat_test_mask : ℕ
p1_kat_test_mask = 0x013E

abbrev pub p2_kat_test_mask : ℕ
p2_kat_test_mask = 0x03E3

pub record BringupResult : Type 0 where
  pub uptime_ms : ℕ
  pub info : SystemInfo
  pub status_before : SystemStatus
  pub transaction : TransactionResult
  pub status_after : SystemStatus

pub record DualSpiBringupResult : Type 0 where
  pub uptime_ms : ℕ
  pub info : SystemInfo
  pub status_before : SystemStatus
  pub primer1_transaction : TransactionResult
  pub primer2_transaction : TransactionResult
  pub status_after : SystemStatus

-- `required_ready` of the run on P1 alone, and of the runs on both endpoints
abbrev pub p1_ready : ℕ
p1_ready = bit_or (int TargetReadyMask.sn32) (int TargetReadyMask.primer1)

abbrev pub dual_ready : ℕ
dual_ready =
    bit_or (int TargetReadyMask.sn32)
      (bit_or (int TargetReadyMask.primer1) (int TargetReadyMask.primer2))

-- (status.target_ready_mask & required) != required
abbrev pub lacks : ℕ → SystemStatus → Bool
lacks required status = bit_and status.target_ready_mask required != required

-- state in {READY_NO_KEYPAIR, READY_NO_SESSION}
abbrev pub is_ready_state : SystemState → Bool
is_ready_state SystemState.ready_no_keypair = true
is_ready_state SystemState.ready_no_session = true
is_ready_state _ = false

module _ {S : Type 0} (link : Link S) where
  unfoldable pub run_p1_bringup : ℕ → ℕ → ℕ → Exec S BringupResult
  run_p1_bringup fuel timeout poll_interval = do
    uptime ← ping link
    info ← get_system_info link
    before ← get_system_status link
    raise_if (lacks p1_ready before) (host_protocol_error "P1 is not ready on SPI")
    host_txid ← start_p1_self_test link TestProfile.kat p1_test_mask
    result ←
        wait_for_transaction link fuel host_txid (int HostCommand.run_self_test) timeout
          poll_interval
    retire_transaction_result link host_txid
    after ← get_system_status link
    raise_if (not (is_ready_state after.system_state))
        (host_protocol_error "unexpected final P1 state")
    raise_if (lacks p1_ready after) (host_protocol_error "P1 lost readiness")
    raise_if (after.fault_flags != 0) (host_protocol_error "fault flags asserted after self-test")
    pure (record {
      uptime_ms = uptime;
      info = info;
      status_before = before;
      transaction = result;
      status_after = after;
    })

  unfoldable pub run_dual_spi_bringup : ℕ → ℕ → ℕ → Exec S DualSpiBringupResult
  run_dual_spi_bringup fuel timeout poll_interval = do
    uptime ← ping link
    info ← get_system_info link
    raise_if (info.primer1_build_id != expected_p1_build_id)
        (host_protocol_error "unexpected P1 build ID")
    raise_if (info.primer2_build_id != expected_p2_build_id)
        (host_protocol_error "unexpected P2 build ID")
    before ← get_system_status link
    raise_if (lacks dual_ready before) (host_protocol_error "dual-SPI endpoints are not both ready")
    raise_if (before.fault_flags != 0) (host_protocol_error "fault flags before dual-SPI test")
    p1_txid ← start_self_test link (int TargetReadyMask.primer1) TestProfile.kat p1_kat_test_mask
    p1_result ←
        wait_for_transaction link fuel p1_txid (int HostCommand.run_self_test) timeout poll_interval
    retire_transaction_result link p1_txid
    p2_txid ← start_self_test link (int TargetReadyMask.primer2) TestProfile.kat p2_kat_test_mask
    p2_result ←
        wait_for_transaction link fuel p2_txid (int HostCommand.run_self_test) timeout poll_interval
    retire_transaction_result link p2_txid
    after ← get_system_status link
    raise_if (not (is_ready_state after.system_state))
        (host_protocol_error "unexpected final dual-SPI state")
    raise_if (lacks dual_ready after)
        (host_protocol_error "endpoint readiness lost after dual-SPI test")
    raise_if (after.fault_flags != 0) (host_protocol_error "fault flags after dual-SPI test")
    pure (record {
      uptime_ms = uptime;
      info = info;
      status_before = before;
      primer1_transaction = p1_result;
      primer2_transaction = p2_result;
      status_after = after;
    })
