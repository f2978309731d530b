-- ===== src/Tests/Script.antt =====
-- A far end that answers every request with the next payload of a script, under transaction ID 7.
use fpga_mcu_trinity.Base.{ℕ, List, [], ◌∷◌}
use fpga_mcu_trinity.Base.Enum.{int}
use fpga_mcu_trinity.Protocol.Constants.Codes.{ErrorCode}
use fpga_mcu_trinity.Protocol.Constants.Commands.{HostCommand, host_command_enum}
use fpga_mcu_trinity.Protocol.Constants.States.{SystemState, TransactionState}
use fpga_mcu_trinity.Protocol.Constants.Kinds.{Mode}
use fpga_mcu_trinity.Protocol.Errors.{Result, ok, err, outside_error}
use fpga_mcu_trinity.Protocol.Frame.{HostFrame}
use fpga_mcu_trinity.Protocol.Types.{SystemStatus, TransactionResult}
use fpga_mcu_trinity.Client.Payloads.{SystemInfo}
use fpga_mcu_trinity.Client.Operations.{Link}

abbrev pub Script : Type 0
Script = List (List ℕ)

abbrev pub frame_of : HostCommand → List ℕ → HostFrame
frame_of command payload = record {
  command = int command;
  flags = 1;
  transaction_id = 7;
  payload = payload;
  version = 1;
}

abbrev answer_next : HostCommand → Script → Result HostFrame × Script
answer_next command [] = (err outside_error, [])
answer_next command (payload ∷ rest) = (ok (frame_of command payload), rest)

abbrev pub scripted : Link Script
scripted = record {
  request = λ command payload timeout script. answer_next command script;
  monotonic = λ script. (0, script);
  sleep = λ interval script. (tt, script);
}

abbrev pub info_bytes : List ℕ
info_bytes =
    1 ∷ 0 ∷ 7 ∷ 31 ∷ 0 ∷ 0 ∷ 8 ∷ 105 ∷ 0 ∷ 7 ∷ 0 ∷ 31 ∷ 80 ∷ 49 ∷ 208 ∷ 3 ∷ 80 ∷ 50 ∷ 0 ∷ 2 ∷ []

abbrev pub the_info : SystemInfo
the_info = record {
  protocol_version = 1;
  architecture_major = 0;
  architecture_minor = 7;
  architecture_patch = 31;
  capabilities = 2153;
  sn32_build_id = 458783;
  primer1_build_id = 1345441795;
  primer2_build_id = 1345454082;
}

abbrev pub idle_bytes : List ℕ
idle_bytes = 3 ∷ 0 ∷ 7 ∷ 0 ∷ 0 ∷ 0 ∷ 0 ∷ 0 ∷ 0 ∷ 0 ∷ 0 ∷ 0 ∷ 0 ∷ 0 ∷ 0 ∷ 0 ∷ 0 ∷ 0 ∷ 0 ∷ 0 ∷ []

abbrev pub status_in : SystemState → ℕ → ℕ → SystemStatus
status_in state session_id sequence = record {
  system_state = state;
  mode = Mode.kat;
  target_ready_mask = 7;
  fault_flags = 0;
  session_id = session_id;
  current_sequence = sequence;
  last_error = ErrorCode.ok;
  active_host_txid = 0;
}

abbrev pub idle : SystemStatus
idle = status_in SystemState.ready_no_keypair 0 0

-- The result that is retained for transaction 7, in bytes and decoded.
abbrev pub retained_bytes : HostCommand → ℕ → List ℕ → List ℕ
retained_bytes command count payload = 0 ∷ 7 ∷ 3 ∷ int command ∷ 0 ∷ 0 ∷ 0 ∷ count ∷ payload

abbrev pub retained_of : HostCommand → List ℕ → TransactionResult
retained_of command payload = record {
  queried_txid = 7;
  state = TransactionState.succeeded;
  original_command = int command;
  result_code = ErrorCode.ok;
  payload = payload;
}

-- The script of one self-test with a mask, and of the dual-SPI run.
abbrev pub p1_mask : List ℕ
p1_mask = 1 ∷ 0x3E ∷ []

abbrev pub p2_mask : List ℕ
p2_mask = 3 ∷ 0xE3 ∷ []

abbrev pub dual_script : Script → Script
dual_script rest =
    (0 ∷ 0 ∷ 0 ∷ 100 ∷ [])
    ∷ info_bytes
    ∷ idle_bytes
    ∷ p1_mask
    ∷ retained_bytes HostCommand.run_self_test 2 p1_mask
    ∷ []
    ∷ p2_mask
    ∷ retained_bytes HostCommand.run_self_test 2 p2_mask
    ∷ []
    ∷ idle_bytes
    ∷ rest

abbrev pub default_mask : List ℕ
default_mask = 0 ∷ 0x3E ∷ []
