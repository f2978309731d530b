-- ===== src/Tests/Qualification.antt =====
-- The hardware qualification against a script.
use fpga_mcu_trinity.Base.{◌≡◌, refl, true, false, [], ◌∷◌, bytes_eq}
use fpga_mcu_trinity.Base.Enum.{of_int}
use fpga_mcu_trinity.Protocol.Constants.Codes.{ErrorCode}
use fpga_mcu_trinity.Protocol.Crc.{crc16_ccitt_false, crc32c}
use fpga_mcu_trinity.Protocol.Errors.{ok}
use fpga_mcu_trinity.Protocol.Frame.{spi_decode, request_fingerprint_crc32c}
use fpga_mcu_trinity.Protocol.Types.{
  decode_status, decode_transaction, system_state, mode, error_code, transaction_state,
}
use fpga_mcu_trinity.Exec.{◌>>=◌, try_except}
use fpga_mcu_trinity.Client.Payloads.{SpiDiagnosticTrace, decode_info, decode_trace}
use fpga_mcu_trinity.Client.Operations.{
  ping, get_system_info, get_system_status, spi_diagnostic, start_self_test, wait_for_transaction,
  poll_transaction, get_transaction_result, retire_transaction_result, check_finished,
}
use fpga_mcu_trinity.Client.Bringup.{run_dual_spi_bringup}
use fpga_mcu_trinity.Client.LiveTrace.{validate_live_spi_trace}
use fpga_mcu_trinity.Client.Qualification.{
  Sn32QualificationResult, probe, collect_traces, check_liveness, run_sn32_hardware_qualification,
}
use fpga_mcu_trinity.Client.Qualification.Verified.{
  IsQualified, run_sn32_hardware_qualification-IsQualified,
}
use fpga_mcu_trinity.Tests.Script.{Script, scripted, info_bytes, idle_bytes, idle, dual_script}
use fpga_mcu_trinity.Tests.Bringup.{info_trace, dual_run}

abbrev pub p1_status : SpiDiagnosticTrace
p1_status = record {
  target_id = 1;
  command = 2;
  source = 1;
  result_code = ErrorCode.ok;
  target_transaction_id = 9;
  request_fingerprint = 4143999046;
  request_length = 10;
  response_capture_length = 26;
  response_frame_length = 26;
  request_crc = 21209;
  response_crc_received = 40340;
  response_crc_calculated = 40340;
  irq_before_request = false;
  irq_after_request = false;
  irq_before_response = true;
  irq_after_response = false;
  request_bytes = 165 ∷ 1 ∷ 2 ∷ 0 ∷ 0 ∷ 9 ∷ 0 ∷ 0 ∷ 82 ∷ 217 ∷ [];
  response_bytes =
      165 ∷ 1 ∷ 2 ∷ 1 ∷ 0 ∷ 9 ∷ 0 ∷ 16 ∷ 0 ∷ 0 ∷ 0 ∷ 0 ∷ 0 ∷ 0 ∷ 0 ∷ 0 ∷ 0 ∷ 0 ∷ 0 ∷ 0 ∷ 0 ∷ 0 ∷ 0
      ∷ 0 ∷ 157 ∷ 148 ∷ [];
}

abbrev pub p2_info : SpiDiagnosticTrace
p2_info = record {
  target_id = 2;
  command = 1;
  source = 2;
  result_code = ErrorCode.ok;
  target_transaction_id = 9;
  request_fingerprint = 2502091135;
  request_length = 10;
  response_capture_length = 22;
  response_frame_length = 22;
  request_crc = 39993;
  response_crc_received = 38946;
  response_crc_calculated = 38946;
  irq_before_request = false;
  irq_after_request = false;
  irq_before_response = true;
  irq_after_response = false;
  request_bytes = 165 ∷ 1 ∷ 1 ∷ 0 ∷ 0 ∷ 9 ∷ 0 ∷ 0 ∷ 156 ∷ 57 ∷ [];
  response_bytes =
      165 ∷ 1 ∷ 1 ∷ 1 ∷ 0 ∷ 9 ∷ 0 ∷ 12 ∷ 2 ∷ 1 ∷ 0 ∷ 0 ∷ 0 ∷ 0 ∷ 80 ∷ 50 ∷ 0 ∷ 2 ∷ 0 ∷ 0 ∷ 152 ∷ 34
      ∷ [];
}

abbrev pub p2_status : SpiDiagnosticTrace
p2_status = record {
  target_id = 2;
  command = 2;
  source = 2;
  result_code = ErrorCode.ok;
  target_transaction_id = 9;
  request_fingerprint = 4143999046;
  request_length = 10;
  response_capture_length = 26;
  response_frame_length = 26;
  request_crc = 21209;
  response_crc_received = 40340;
  response_crc_calculated = 40340;
  irq_before_request = false;
  irq_after_request = false;
  irq_before_response = true;
  irq_after_response = false;
  request_bytes = 165 ∷ 1 ∷ 2 ∷ 0 ∷ 0 ∷ 9 ∷ 0 ∷ 0 ∷ 82 ∷ 217 ∷ [];
  response_bytes =
      165 ∷ 1 ∷ 2 ∷ 1 ∷ 0 ∷ 9 ∷ 0 ∷ 16 ∷ 0 ∷ 0 ∷ 0 ∷ 0 ∷ 0 ∷ 0 ∷ 0 ∷ 0 ∷ 0 ∷ 0 ∷ 0 ∷ 0 ∷ 0 ∷ 0 ∷ 0
      ∷ 0 ∷ 157 ∷ 148 ∷ [];
}

abbrev pub qualification_script : Script → Script
qualification_script rest =
    info_bytes
    ∷ idle_bytes
    ∷ (1 ∷ 1 ∷ 1 ∷ 4 ∷ 0 ∷ 0 ∷ 0 ∷ 9 ∷ 149 ∷ 34 ∷ 225 ∷ 127 ∷ 0 ∷ 10 ∷ 0 ∷ 22 ∷ 0 ∷ 22 ∷ 156 ∷ 57
        ∷ 236 ∷ 92 ∷ 236 ∷ 92 ∷ 165 ∷ 1 ∷ 1 ∷ 0 ∷ 0 ∷ 9 ∷ 0 ∷ 0 ∷ 156 ∷ 57 ∷ 165 ∷ 1 ∷ 1 ∷ 1 ∷ 0 ∷ 9
        ∷ 0 ∷ 12 ∷ 1 ∷ 1 ∷ 0 ∷ 0 ∷ 0 ∷ 0 ∷ 80 ∷ 49 ∷ 208 ∷ 3 ∷ 0 ∷ 0 ∷ 236 ∷ 92 ∷ [])
    ∷ (1 ∷ 2 ∷ 1 ∷ 4 ∷ 0 ∷ 0 ∷ 0 ∷ 9 ∷ 247 ∷ 0 ∷ 104 ∷ 70 ∷ 0 ∷ 10 ∷ 0 ∷ 26 ∷ 0 ∷ 26 ∷ 82 ∷ 217
        ∷ 157 ∷ 148 ∷ 157 ∷ 148 ∷ 165 ∷ 1 ∷ 2 ∷ 0 ∷ 0 ∷ 9 ∷ 0 ∷ 0 ∷ 82 ∷ 217 ∷ 165 ∷ 1 ∷ 2 ∷ 1 ∷ 0
        ∷ 9 ∷ 0 ∷ 16 ∷ 0 ∷ 0 ∷ 0 ∷ 0 ∷ 0 ∷ 0 ∷ 0 ∷ 0 ∷ 0 ∷ 0 ∷ 0 ∷ 0 ∷ 0 ∷ 0 ∷ 0 ∷ 0 ∷ 157 ∷ 148
        ∷ [])
    ∷ (2 ∷ 1 ∷ 2 ∷ 4 ∷ 0 ∷ 0 ∷ 0 ∷ 9 ∷ 149 ∷ 34 ∷ 225 ∷ 127 ∷ 0 ∷ 10 ∷ 0 ∷ 22 ∷ 0 ∷ 22 ∷ 156 ∷ 57
        ∷ 152 ∷ 34 ∷ 152 ∷ 34 ∷ 165 ∷ 1 ∷ 1 ∷ 0 ∷ 0 ∷ 9 ∷ 0 ∷ 0 ∷ 156 ∷ 57 ∷ 165 ∷ 1 ∷ 1 ∷ 1 ∷ 0 ∷ 9
        ∷ 0 ∷ 12 ∷ 2 ∷ 1 ∷ 0 ∷ 0 ∷ 0 ∷ 0 ∷ 80 ∷ 50 ∷ 0 ∷ 2 ∷ 0 ∷ 0 ∷ 152 ∷ 34 ∷ [])
    ∷ (2 ∷ 2 ∷ 2 ∷ 4 ∷ 0 ∷ 0 ∷ 0 ∷ 9 ∷ 247 ∷ 0 ∷ 104 ∷ 70 ∷ 0 ∷ 10 ∷ 0 ∷ 26 ∷ 0 ∷ 26 ∷ 82 ∷ 217
        ∷ 157 ∷ 148 ∷ 157 ∷ 148 ∷ 165 ∷ 1 ∷ 2 ∷ 0 ∷ 0 ∷ 9 ∷ 0 ∷ 0 ∷ 82 ∷ 217 ∷ 165 ∷ 1 ∷ 2 ∷ 1 ∷ 0
        ∷ 9 ∷ 0 ∷ 16 ∷ 0 ∷ 0 ∷ 0 ∷ 0 ∷ 0 ∷ 0 ∷ 0 ∷ 0 ∷ 0 ∷ 0 ∷ 0 ∷ 0 ∷ 0 ∷ 0 ∷ 0 ∷ 0 ∷ 157 ∷ 148
        ∷ [])
    ∷ dual_script (idle_bytes ∷ (0 ∷ 0 ∷ 0 ∷ 200 ∷ []) ∷ idle_bytes ∷ (0 ∷ 0 ∷ 0 ∷ 201 ∷ []) ∷ rest)

abbrev pub qualification_run : Sn32QualificationResult
qualification_run = record {
  live_traces = info_trace ∷ p1_status ∷ p2_info ∷ p2_status ∷ [];
  dual_spi = dual_run;
  liveness_iterations = 2;
  final_uptime_ms = 201;
  final_status = idle;
}

qualified :
    run_sn32_hardware_qualification scripted 1 5000 50 2 (qualification_script [])
    ≡ (ok qualification_run, [])
unfolding run_sn32_hardware_qualification collect_traces probe spi_diagnostic decode_trace
    validate_live_spi_trace spi_decode request_fingerprint_crc32c crc16_ccitt_false crc32c
    check_liveness run_dual_spi_bringup ping get_system_info get_system_status start_self_test
    wait_for_transaction poll_transaction get_transaction_result retire_transaction_result
    check_finished decode_info decode_status decode_transaction system_state mode error_code
    transaction_state of_int bytes_eq try_except ◌>>=◌
qualified = refl

run_sn32_hardware_qualification-IsQualified_example : IsQualified qualification_run
run_sn32_hardware_qualification-IsQualified_example =
    run_sn32_hardware_qualification-IsQualified scripted 1 5000 50 2 (qualification_script []) []
      qualification_run qualified
