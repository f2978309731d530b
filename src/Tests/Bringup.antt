-- ===== src/Tests/Bringup.antt =====
-- The bring-up runs against a script.
use fpga_mcu_trinity.Base.{ℕ, ◌+◌, ◌-◌, ◌≡◌, ◌≢◌, refl, arith, true, false, [], ◌∷◌, bytes_eq}
use fpga_mcu_trinity.Base.Enum.{int, of_int}
use fpga_mcu_trinity.Protocol.Constants.Codes.{ErrorCode}
use fpga_mcu_trinity.Protocol.Constants.Commands.{
  HostCommand, host_command_enum, SpiCommand, TargetId,
}
use fpga_mcu_trinity.Protocol.Crc.{crc16_ccitt_false, crc32c}
use fpga_mcu_trinity.Protocol.Errors.{ok, err, out_of_fuel}
use fpga_mcu_trinity.Protocol.Frame.{spi_encode, spi_decode, request_fingerprint_crc32c}
use fpga_mcu_trinity.Protocol.Types.{
  decode_status, decode_transaction, system_state, mode, error_code, transaction_state,
}
use fpga_mcu_trinity.Exec.{◌>>=◌}
use fpga_mcu_trinity.Client.Payloads.{SpiDiagnosticTrace, decode_info}
use fpga_mcu_trinity.Client.Operations.{
  Link, ping, get_system_info, get_system_status, start_self_test, start_p1_self_test,
  wait_for_transaction, poll_transaction, get_transaction_result, retire_transaction_result,
  check_finished,
}
use fpga_mcu_trinity.Client.Operations.Ended.{IsPaced, wait_for_transaction_ends}
use fpga_mcu_trinity.Client.Bringup.{
  BringupResult, DualSpiBringupResult, run_p1_bringup, run_dual_spi_bringup,
}
use fpga_mcu_trinity.Client.Bringup.Verified.{IsBringup, IsDualBringup, run_p1_bringup-IsBringup}
use fpga_mcu_trinity.Client.Bringup.Tested.{DualTested, run_dual_spi_bringup_returns}
use fpga_mcu_trinity.Client.LiveTrace.{validate_live_spi_trace}
use fpga_mcu_trinity.Client.LiveTrace.Valid.{
  IsLive, bare_request, validate_live_spi_trace-IsLive, validate_live_spi_trace_request,
}
use fpga_mcu_trinity.Tests.Script.{
  Script, scripted, info_bytes, the_info, idle_bytes, idle, retained_bytes, retained_of, p1_mask,
  p2_mask, dual_script, default_mask,
}

abbrev p1_run : BringupResult
p1_run = record {
  uptime_ms = 100;
  info = the_info;
  status_before = idle;
  transaction = retained_of HostCommand.run_self_test default_mask;
  status_after = idle;
}

p1_ran :
    run_p1_bringup scripted 1 5000 100 (
      (0 ∷ 0 ∷ 0 ∷ 100 ∷ [])
      ∷ info_bytes
      ∷ idle_bytes
      ∷ default_mask
      ∷ retained_bytes HostCommand.run_self_test 2 default_mask
      ∷ []
      ∷ idle_bytes
      ∷ [])
    ≡ (ok p1_run, [])
unfolding run_p1_bringup ping get_system_info get_system_status start_p1_self_test start_self_test
    wait_for_transaction poll_transaction get_transaction_result retire_transaction_result
    check_finished decode_info decode_status decode_transaction system_state mode error_code
    transaction_state of_int bytes_eq ◌>>=◌
p1_ran = refl

run_p1_bringup-IsBringup_example : IsBringup p1_run
run_p1_bringup-IsBringup_example = run_p1_bringup-IsBringup scripted 1 5000 100 _ [] p1_run p1_ran

abbrev pub dual_run : DualSpiBringupResult
dual_run = record {
  uptime_ms = 100;
  info = the_info;
  status_before = idle;
  primer1_transaction = retained_of HostCommand.run_self_test p1_mask;
  primer2_transaction = retained_of HostCommand.run_self_test p2_mask;
  status_after = idle;
}

dual_ran : run_dual_spi_bringup scripted 1 5000 100 (dual_script []) ≡ (ok dual_run, [])
unfolding run_dual_spi_bringup ping get_system_info get_system_status start_self_test
    wait_for_transaction poll_transaction get_transaction_result retire_transaction_result
    check_finished decode_info decode_status decode_transaction system_state mode error_code
    transaction_state of_int bytes_eq ◌>>=◌
dual_ran = refl

run_dual_spi_bringup_returns_example :
    IsDualBringup dual_run × DualTested scripted 1 5000 100 (dual_script []) [] dual_run
run_dual_spi_bringup_returns_example =
    run_dual_spi_bringup_returns scripted 1 5000 100 (dual_script []) [] dual_run dual_ran

-- A link whose state is the time: every request takes a millisecond, and its answer does not decode.
abbrev ticking : Link ℕ
ticking = record {
  request = λ command payload timeout now. (
    ok (record { command = int command; flags = 1; transaction_id = 1; payload = []; version = 1 }),
    now + 1,
  );
  monotonic = λ now. (now, now);
  sleep = λ interval now. (tt, now + interval);
}

ticking-IsPaced : IsPaced ticking (λ deadline now. deadline - now)
ticking-IsPaced = record {
  clock = λ d s. omega arith;
  sleep = λ d i s. omega arith;
  poll = λ d payload s early. omega (arith, early);
  request_raises = λ payload s e. ground arith;
}

ended : (wait_for_transaction ticking 5001 2 0x10 5000 100 0).0 ≢ err out_of_fuel
ended = wait_for_transaction_ends ticking _ ticking-IsPaced 5001 2 0x10 5000 100 0 (omega arith)

abbrev pub info_trace : SpiDiagnosticTrace
info_trace = record {
  target_id = 1;
  command = 1;
  source = 1;
  result_code = ErrorCode.ok;
  target_transaction_id = 9;
  request_fingerprint = 2502091135;
  request_length = 10;
  response_capture_length = 22;
  response_frame_length = 22;
  request_crc = 39993;
  response_crc_received = 60508;
  response_crc_calculated = 60508;
  irq_before_request = false;
  irq_after_request = false;
  irq_before_response = true;
  irq_after_response = false;
  request_bytes = 165 ∷ 1 ∷ 1 ∷ 0 ∷ 0 ∷ 9 ∷ 0 ∷ 0 ∷ 156 ∷ 57 ∷ [];
  response_bytes =
      165 ∷ 1 ∷ 1 ∷ 1 ∷ 0 ∷ 9 ∷ 0 ∷ 12 ∷ 1 ∷ 1 ∷ 0 ∷ 0 ∷ 0 ∷ 0 ∷ 80 ∷ 49 ∷ 208 ∷ 3 ∷ 0 ∷ 0 ∷ 236
      ∷ 92 ∷ [];
}

traced :
    validate_live_spi_trace {S = Script} info_trace TargetId.primer1 SpiCommand.get_info []
    ≡ (ok tt, [])
unfolding validate_live_spi_trace spi_decode request_fingerprint_crc32c crc16_ccitt_false crc32c
    bytes_eq ◌>>=◌
traced = refl

validate_live_spi_trace-IsLive_example : IsLive TargetId.primer1 SpiCommand.get_info info_trace
validate_live_spi_trace-IsLive_example =
    validate_live_spi_trace-IsLive {S = Script} info_trace TargetId.primer1 SpiCommand.get_info []
      [] traced

validate_live_spi_trace_request_example :
    spi_encode (bare_request SpiCommand.get_info 9) ≡ ok info_trace.request_bytes
validate_live_spi_trace_request_example =
    validate_live_spi_trace_request {S = Script} info_trace TargetId.primer1 SpiCommand.get_info []
      [] (ground arith) traced
