-- ===== src/Tests/Flow.antt =====
-- The retained commands, the secure telemetry qualification and the demonstration against a script.
use fpga_mcu_trinity.Base.{ℕ, ◌≡◌, refl, true, none, List, [], ◌∷◌, bytes_eq}
use fpga_mcu_trinity.Base.Enum.{of_int}
use fpga_mcu_trinity.Protocol.Constants.Codes.{ErrorCode}
use fpga_mcu_trinity.Protocol.Constants.Commands.{HostCommand}
use fpga_mcu_trinity.Protocol.Constants.States.{SystemState}
use fpga_mcu_trinity.Protocol.Crc.{crc16_ccitt_false, crc32c}
use fpga_mcu_trinity.Protocol.Errors.{ok}
use fpga_mcu_trinity.Protocol.Frame.{spi_decode, request_fingerprint_crc32c}
use fpga_mcu_trinity.Protocol.Types.{
  decode_status, decode_transaction, system_state, mode, error_code, transaction_state,
}
use fpga_mcu_trinity.Exec.{◌>>=◌, try_except, try_finally}
use fpga_mcu_trinity.Client.Payloads.{decode_info, decode_trace}
use fpga_mcu_trinity.Client.Operations.{
  ping, get_system_info, get_system_status, spi_diagnostic, start_self_test, wait_for_transaction,
  poll_transaction, get_transaction_result, retire_transaction_result, check_finished,
}
use fpga_mcu_trinity.Client.Bringup.{run_dual_spi_bringup}
use fpga_mcu_trinity.Client.LiveTrace.{validate_live_spi_trace}
use fpga_mcu_trinity.Client.Qualification.{
  probe, collect_traces, check_liveness, run_sn32_hardware_qualification,
}
use fpga_mcu_trinity.Flow.{
  KeypairResult, SessionResult, TelemetryResult, SecureTelemetryQualificationResult, require_seed,
  decode_telemetry_result, default_keypair_seed, default_session_seed, default_plaintexts,
}
use fpga_mcu_trinity.Flow.Requests.{
  retire_active_host_transaction, retire_if_possible, check_retained, retained_request,
  generate_keypair, create_session, send_telemetry, read_last_result, zeroize, emergency_zeroize,
}
use fpga_mcu_trinity.Flow.Requests.Returned.{Retained, retained_request_returns}
use fpga_mcu_trinity.Flow.Erase.{logged, is_erased}
use fpga_mcu_trinity.Flow.Secure.{
  validate_full_preflight, send_all, exchange_telemetry, run_secure_telemetry_qualification,
}
use fpga_mcu_trinity.Flow.Secure.Verified.{
  IsSecureRun, run_secure_telemetry_qualification-IsSecureRun,
}
use fpga_mcu_trinity.Flow.Secure.Erased.{is_telemetry, run_secure_telemetry_qualification_erases}
use fpga_mcu_trinity.Demo.{CoreDemoResult, emit, require_active, run_session, run_core_demo}
use fpga_mcu_trinity.Demo.Verified.{IsDemo, run_core_demo-IsDemo}
use fpga_mcu_trinity.Demo.Erased.{is_secret, showing, run_core_demo_erases}
use fpga_mcu_trinity.Tests.Script.{
  Script, scripted, idle_bytes, idle, status_in, the_info, retained_bytes,
}
use fpga_mcu_trinity.Tests.Qualification.{qualification_script, qualification_run}

abbrev key_script : Script → Script
key_script rest =
    (100 ∷ 101 ∷ 102 ∷ 103 ∷ 104 ∷ 105 ∷ 106 ∷ 107 ∷ 108 ∷ 109 ∷ 110 ∷ 111 ∷ 112 ∷ 113 ∷ 114 ∷ 115
      ∷ 116 ∷ 117 ∷ 118 ∷ 119 ∷ 120 ∷ 121 ∷ 122 ∷ 123 ∷ 124 ∷ 125 ∷ 126 ∷ 127 ∷ 128 ∷ 129 ∷ 130
      ∷ 131 ∷ [])
    ∷ retained_bytes HostCommand.generate_keypair 32 (
        100 ∷ 101 ∷ 102 ∷ 103 ∷ 104 ∷ 105 ∷ 106 ∷ 107 ∷ 108 ∷ 109 ∷ 110 ∷ 111 ∷ 112 ∷ 113 ∷ 114
        ∷ 115 ∷ 116 ∷ 117 ∷ 118 ∷ 119 ∷ 120 ∷ 121 ∷ 122 ∷ 123 ∷ 124 ∷ 125 ∷ 126 ∷ 127 ∷ 128 ∷ 129
        ∷ 130 ∷ 131 ∷ [])
    ∷ []
    ∷ rest

key_made :
    retained_request scripted HostCommand.generate_keypair
      (1 ∷ default_keypair_seed)
      30000
      (key_script [])
    ≡ (
      ok (
        7,
        (100 ∷ 101 ∷ 102 ∷ 103 ∷ 104 ∷ 105 ∷ 106 ∷ 107 ∷ 108 ∷ 109 ∷ 110 ∷ 111 ∷ 112 ∷ 113 ∷ 114
            ∷ 115 ∷ 116 ∷ 117 ∷ 118 ∷ 119 ∷ 120 ∷ 121 ∷ 122 ∷ 123 ∷ 124 ∷ 125 ∷ 126 ∷ 127 ∷ 128
            ∷ 129 ∷ 130 ∷ 131 ∷ []),
      ),
      [],
    )
unfolding retained_request check_retained get_transaction_result retire_transaction_result
    decode_transaction transaction_state error_code of_int bytes_eq try_except try_finally ◌>>=◌
key_made = refl

retained_request_returns_example :
    Retained scripted HostCommand.generate_keypair
      (1 ∷ default_keypair_seed)
      30000
      (key_script [])
      []
      7
      (100 ∷ 101 ∷ 102 ∷ 103 ∷ 104 ∷ 105 ∷ 106 ∷ 107 ∷ 108 ∷ 109 ∷ 110 ∷ 111 ∷ 112 ∷ 113 ∷ 114 ∷ 115
        ∷ 116 ∷ 117 ∷ 118 ∷ 119 ∷ 120 ∷ 121 ∷ 122 ∷ 123 ∷ 124 ∷ 125 ∷ 126 ∷ 127 ∷ 128 ∷ 129 ∷ 130
        ∷ 131 ∷ [])
retained_request_returns_example =
    retained_request_returns scripted HostCommand.generate_keypair (1 ∷ default_keypair_seed) 30000
      (key_script []) []
      (
        7,
        (100 ∷ 101 ∷ 102 ∷ 103 ∷ 104 ∷ 105 ∷ 106 ∷ 107 ∷ 108 ∷ 109 ∷ 110 ∷ 111 ∷ 112 ∷ 113 ∷ 114
            ∷ 115 ∷ 116 ∷ 117 ∷ 118 ∷ 119 ∷ 120 ∷ 121 ∷ 122 ∷ 123 ∷ 124 ∷ 125 ∷ 126 ∷ 127 ∷ 128
            ∷ 129 ∷ 130 ∷ 131 ∷ []),
      )
      key_made

abbrev answer_to : ℕ → List ℕ → TelemetryResult
answer_to sequence plaintext = record {
  host_txid = 7;
  session_id = 16909060;
  sequence = sequence;
  plaintext = plaintext;
  status = ErrorCode.ok;
}

abbrev first_plaintext : List ℕ
first_plaintext =
    0 ∷ 1 ∷ 2 ∷ 3 ∷ 4 ∷ 5 ∷ 6 ∷ 7 ∷ 8 ∷ 9 ∷ 10 ∷ 11 ∷ 12 ∷ 13 ∷ 14 ∷ 15 ∷ 16 ∷ 17 ∷ 18 ∷ 19 ∷ 20
    ∷ 21 ∷ 22 ∷ 23 ∷ []

abbrev second_plaintext : List ℕ
second_plaintext =
    128 ∷ 129 ∷ 130 ∷ 131 ∷ 132 ∷ 133 ∷ 134 ∷ 135 ∷ 136 ∷ 137 ∷ 138 ∷ 139 ∷ 140 ∷ 141 ∷ 142 ∷ 143
    ∷ 144 ∷ 145 ∷ 146 ∷ 147 ∷ 148 ∷ 149 ∷ 150 ∷ 151 ∷ []

abbrev the_session : SessionResult
the_session = record { host_txid = 7; session_id = 16909060; initial_sequence = 0 }

abbrev the_key : KeypairResult
the_key = record {
  host_txid = 7;
  public_key_hash =
      100 ∷ 101 ∷ 102 ∷ 103 ∷ 104 ∷ 105 ∷ 106 ∷ 107 ∷ 108 ∷ 109 ∷ 110 ∷ 111 ∷ 112 ∷ 113 ∷ 114 ∷ 115
      ∷ 116 ∷ 117 ∷ 118 ∷ 119 ∷ 120 ∷ 121 ∷ 122 ∷ 123 ∷ 124 ∷ 125 ∷ 126 ∷ 127 ∷ 128 ∷ 129 ∷ 130
      ∷ 131 ∷ [];
}

-- Up to the active session, and the zeroize behind it.
abbrev session_script : Script → Script
session_script rest =
    idle_bytes
    ∷ key_script (
        (4 ∷ 0 ∷ 7 ∷ 0 ∷ 0 ∷ 0 ∷ 0 ∷ 0 ∷ 0 ∷ 0 ∷ 0 ∷ 0 ∷ 0 ∷ 0 ∷ 0 ∷ 0 ∷ 0 ∷ 0 ∷ 0 ∷ 0 ∷ [])
        ∷ (1 ∷ 2 ∷ 3 ∷ 4 ∷ 0 ∷ 0 ∷ 0 ∷ 0 ∷ 0 ∷ 0 ∷ 0 ∷ 0 ∷ [])
        ∷ retained_bytes HostCommand.create_session 12
            (1 ∷ 2 ∷ 3 ∷ 4 ∷ 0 ∷ 0 ∷ 0 ∷ 0 ∷ 0 ∷ 0 ∷ 0 ∷ 0 ∷ [])
        ∷ []
        ∷ (6 ∷ 0 ∷ 7 ∷ 0 ∷ 1 ∷ 2 ∷ 3 ∷ 4 ∷ 0 ∷ 0 ∷ 0 ∷ 0 ∷ 0 ∷ 0 ∷ 0 ∷ 0 ∷ 0 ∷ 0 ∷ 0 ∷ 0 ∷ [])
        ∷ rest)

abbrev zeroize_script : Script
zeroize_script =
    idle_bytes ∷ [] ∷ retained_bytes HostCommand.zeroize_system 0 [] ∷ [] ∷ idle_bytes ∷ []

abbrev secure_script : Script
secure_script = qualification_script (
    session_script (
      (1 ∷ 2 ∷ 3 ∷ 4 ∷ 0 ∷ 0 ∷ 0 ∷ 0 ∷ 0 ∷ 0 ∷ 0 ∷ 1 ∷ 0 ∷ 1 ∷ 2 ∷ 3 ∷ 4 ∷ 5 ∷ 6 ∷ 7 ∷ 8 ∷ 9 ∷ 10
        ∷ 11 ∷ 12 ∷ 13 ∷ 14 ∷ 15 ∷ 16 ∷ 17 ∷ 18 ∷ 19 ∷ 20 ∷ 21 ∷ 22 ∷ 23 ∷ 0 ∷ 0 ∷ [])
      ∷ retained_bytes HostCommand.send_one_telemetry 38 (
          1 ∷ 2 ∷ 3 ∷ 4 ∷ 0 ∷ 0 ∷ 0 ∷ 0 ∷ 0 ∷ 0 ∷ 0 ∷ 1 ∷ 0 ∷ 1 ∷ 2 ∷ 3 ∷ 4 ∷ 5 ∷ 6 ∷ 7 ∷ 8 ∷ 9 ∷ 10
          ∷ 11 ∷ 12 ∷ 13 ∷ 14 ∷ 15 ∷ 16 ∷ 17 ∷ 18 ∷ 19 ∷ 20 ∷ 21 ∷ 22 ∷ 23 ∷ 0 ∷ 0 ∷ [])
      ∷ []
      ∷ (1 ∷ 2 ∷ 3 ∷ 4 ∷ 0 ∷ 0 ∷ 0 ∷ 0 ∷ 0 ∷ 0 ∷ 0 ∷ 2 ∷ 128 ∷ 129 ∷ 130 ∷ 131 ∷ 132 ∷ 133 ∷ 134
          ∷ 135 ∷ 136 ∷ 137 ∷ 138 ∷ 139 ∷ 140 ∷ 141 ∷ 142 ∷ 143 ∷ 144 ∷ 145 ∷ 146 ∷ 147 ∷ 148 ∷ 149
          ∷ 150 ∷ 151 ∷ 0 ∷ 0 ∷ [])
      ∷ retained_bytes HostCommand.send_one_telemetry 38 (
          1 ∷ 2 ∷ 3 ∷ 4 ∷ 0 ∷ 0 ∷ 0 ∷ 0 ∷ 0 ∷ 0 ∷ 0 ∷ 2 ∷ 128 ∷ 129 ∷ 130 ∷ 131 ∷ 132 ∷ 133 ∷ 134
          ∷ 135 ∷ 136 ∷ 137 ∷ 138 ∷ 139 ∷ 140 ∷ 141 ∷ 142 ∷ 143 ∷ 144 ∷ 145 ∷ 146 ∷ 147 ∷ 148 ∷ 149
          ∷ 150 ∷ 151 ∷ 0 ∷ 0 ∷ [])
      ∷ []
      ∷ (1 ∷ 2 ∷ 3 ∷ 4 ∷ 0 ∷ 0 ∷ 0 ∷ 0 ∷ 0 ∷ 0 ∷ 0 ∷ 2 ∷ 128 ∷ 129 ∷ 130 ∷ 131 ∷ 132 ∷ 133 ∷ 134
          ∷ 135 ∷ 136 ∷ 137 ∷ 138 ∷ 139 ∷ 140 ∷ 141 ∷ 142 ∷ 143 ∷ 144 ∷ 145 ∷ 146 ∷ 147 ∷ 148 ∷ 149
          ∷ 150 ∷ 151 ∷ 0 ∷ 0 ∷ [])
      ∷ zeroize_script))

abbrev secure_run : SecureTelemetryQualificationResult
secure_run = record {
  control_plane = qualification_run;
  info = the_info;
  status_before = idle;
  keypair = the_key;
  session = the_session;
  status_active = status_in SystemState.active 16909060 0;
  telemetry = answer_to 1 first_plaintext ∷ answer_to 2 second_plaintext ∷ [];
  last_result = answer_to 2 second_plaintext;
  status_final = idle;
}

secure_ran :
    run_secure_telemetry_qualification scripted 1 default_keypair_seed default_session_seed
      default_plaintexts 5000 50 secure_script
    ≡ (ok secure_run, [])
unfolding run_secure_telemetry_qualification validate_full_preflight generate_keypair create_session
    require_seed send_all send_telemetry decode_telemetry_result exchange_telemetry read_last_result
    retained_request check_retained retire_if_possible retire_active_host_transaction zeroize
    emergency_zeroize try_finally run_sn32_hardware_qualification collect_traces probe
    spi_diagnostic decode_trace validate_live_spi_trace spi_decode request_fingerprint_crc32c
    crc16_ccitt_false crc32c check_liveness run_dual_spi_bringup ping get_system_info
    get_system_status start_self_test wait_for_transaction poll_transaction get_transaction_result
    retire_transaction_result check_finished decode_info decode_status decode_transaction
    system_state mode error_code transaction_state of_int bytes_eq try_except ◌>>=◌
secure_ran = refl

run_secure_telemetry_qualification-IsSecureRun_example : IsSecureRun default_plaintexts secure_run
run_secure_telemetry_qualification-IsSecureRun_example =
    run_secure_telemetry_qualification-IsSecureRun scripted 1 default_keypair_seed
      default_session_seed default_plaintexts 5000 50 secure_script [] secure_run secure_ran

-- A far end that falls silent behind the first telemetry record.
run_secure_telemetry_qualification_erases_example :
    is_erased is_telemetry
      (run_secure_telemetry_qualification
        (logged scripted)
        1
        default_keypair_seed
        default_session_seed
        default_plaintexts
        5000
        50
        (
          qualification_script (
              session_script (
                (1 ∷ 2 ∷ 3 ∷ 4 ∷ 0 ∷ 0 ∷ 0 ∷ 0 ∷ 0 ∷ 0 ∷ 0 ∷ 1 ∷ 0 ∷ 1 ∷ 2 ∷ 3 ∷ 4 ∷ 5 ∷ 6 ∷ 7 ∷ 8
                  ∷ 9 ∷ 10 ∷ 11 ∷ 12 ∷ 13 ∷ 14 ∷ 15 ∷ 16 ∷ 17 ∷ 18 ∷ 19 ∷ 20 ∷ 21 ∷ 22 ∷ 23 ∷ 0 ∷ 0
                  ∷ [])
                ∷ retained_bytes HostCommand.send_one_telemetry 38 (
                    1 ∷ 2 ∷ 3 ∷ 4 ∷ 0 ∷ 0 ∷ 0 ∷ 0 ∷ 0 ∷ 0 ∷ 0 ∷ 1 ∷ 0 ∷ 1 ∷ 2 ∷ 3 ∷ 4 ∷ 5 ∷ 6 ∷ 7
                    ∷ 8 ∷ 9 ∷ 10 ∷ 11 ∷ 12 ∷ 13 ∷ 14 ∷ 15 ∷ 16 ∷ 17 ∷ 18 ∷ 19 ∷ 20 ∷ 21 ∷ 22 ∷ 23
                    ∷ 0 ∷ 0 ∷ [])
                ∷ []
                ∷ [])),
          [],
        )).1.1
    ≡ true
run_secure_telemetry_qualification_erases_example =
    run_secure_telemetry_qualification_erases scripted 1 default_keypair_seed default_session_seed
      default_plaintexts 5000 50
      (qualification_script (
        session_script (
          (1 ∷ 2 ∷ 3 ∷ 4 ∷ 0 ∷ 0 ∷ 0 ∷ 0 ∷ 0 ∷ 0 ∷ 0 ∷ 1 ∷ 0 ∷ 1 ∷ 2 ∷ 3 ∷ 4 ∷ 5 ∷ 6 ∷ 7 ∷ 8 ∷ 9
            ∷ 10 ∷ 11 ∷ 12 ∷ 13 ∷ 14 ∷ 15 ∷ 16 ∷ 17 ∷ 18 ∷ 19 ∷ 20 ∷ 21 ∷ 22 ∷ 23 ∷ 0 ∷ 0 ∷ [])
          ∷ retained_bytes HostCommand.send_one_telemetry 38 (
              1 ∷ 2 ∷ 3 ∷ 4 ∷ 0 ∷ 0 ∷ 0 ∷ 0 ∷ 0 ∷ 0 ∷ 0 ∷ 1 ∷ 0 ∷ 1 ∷ 2 ∷ 3 ∷ 4 ∷ 5 ∷ 6 ∷ 7 ∷ 8 ∷ 9
              ∷ 10 ∷ 11 ∷ 12 ∷ 13 ∷ 14 ∷ 15 ∷ 16 ∷ 17 ∷ 18 ∷ 19 ∷ 20 ∷ 21 ∷ 22 ∷ 23 ∷ 0 ∷ 0 ∷ [])
          ∷ []
          ∷ [])))

abbrev demo_script : Script
demo_script = qualification_script (
    session_script (
      (1 ∷ 2 ∷ 3 ∷ 4 ∷ 0 ∷ 0 ∷ 0 ∷ 0 ∷ 0 ∷ 0 ∷ 0 ∷ 1 ∷ 0 ∷ 1 ∷ 2 ∷ 3 ∷ 4 ∷ 5 ∷ 6 ∷ 7 ∷ 8 ∷ 9 ∷ 10
        ∷ 11 ∷ 12 ∷ 13 ∷ 14 ∷ 15 ∷ 16 ∷ 17 ∷ 18 ∷ 19 ∷ 20 ∷ 21 ∷ 22 ∷ 23 ∷ 0 ∷ 0 ∷ [])
      ∷ retained_bytes HostCommand.send_one_telemetry 38 (
          1 ∷ 2 ∷ 3 ∷ 4 ∷ 0 ∷ 0 ∷ 0 ∷ 0 ∷ 0 ∷ 0 ∷ 0 ∷ 1 ∷ 0 ∷ 1 ∷ 2 ∷ 3 ∷ 4 ∷ 5 ∷ 6 ∷ 7 ∷ 8 ∷ 9 ∷ 10
          ∷ 11 ∷ 12 ∷ 13 ∷ 14 ∷ 15 ∷ 16 ∷ 17 ∷ 18 ∷ 19 ∷ 20 ∷ 21 ∷ 22 ∷ 23 ∷ 0 ∷ 0 ∷ [])
      ∷ []
      ∷ (1 ∷ 2 ∷ 3 ∷ 4 ∷ 0 ∷ 0 ∷ 0 ∷ 0 ∷ 0 ∷ 0 ∷ 0 ∷ 1 ∷ 0 ∷ 1 ∷ 2 ∷ 3 ∷ 4 ∷ 5 ∷ 6 ∷ 7 ∷ 8 ∷ 9 ∷ 10
          ∷ 11 ∷ 12 ∷ 13 ∷ 14 ∷ 15 ∷ 16 ∷ 17 ∷ 18 ∷ 19 ∷ 20 ∷ 21 ∷ 22 ∷ 23 ∷ 0 ∷ 0 ∷ [])
      ∷ idle_bytes
      ∷ []
      ∷ retained_bytes HostCommand.zeroize_system 0 []
      ∷ []
      ∷ idle_bytes
      ∷ (0 ∷ 0 ∷ 1 ∷ 0 ∷ [])
      ∷ []))

abbrev demo_run : CoreDemoResult
demo_run = record {
  control_plane = qualification_run;
  info = the_info;
  status_before = idle;
  keypair = the_key;
  session = the_session;
  status_active = status_in SystemState.active 16909060 0;
  telemetry = answer_to 1 first_plaintext;
  last_result = answer_to 1 first_plaintext;
  status_final = idle;
  final_uptime_ms = 256;
}

demo_ran :
    run_core_demo scripted none 1 first_plaintext default_keypair_seed default_session_seed 120000
      demo_script
    ≡ (ok demo_run, [])
unfolding run_core_demo run_session emit require_active validate_full_preflight generate_keypair
    create_session require_seed send_telemetry decode_telemetry_result read_last_result
    retained_request check_retained retire_if_possible retire_active_host_transaction zeroize
    emergency_zeroize try_finally run_sn32_hardware_qualification collect_traces probe
    spi_diagnostic decode_trace validate_live_spi_trace spi_decode request_fingerprint_crc32c
    crc16_ccitt_false crc32c check_liveness run_dual_spi_bringup ping get_system_info
    get_system_status start_self_test wait_for_transaction poll_transaction get_transaction_result
    retire_transaction_result check_finished decode_info decode_status decode_transaction
    system_state mode error_code transaction_state of_int bytes_eq try_except ◌>>=◌
demo_ran = refl

run_core_demo-IsDemo_example : IsDemo first_plaintext demo_run
run_core_demo-IsDemo_example =
    run_core_demo-IsDemo scripted none 1 first_plaintext default_keypair_seed default_session_seed
      120000 demo_script [] demo_run demo_ran

-- A far end that falls silent behind the session.
run_core_demo_erases_example :
    is_erased is_secret
      (run_core_demo
        (logged scripted)
        (showing none)
        1
        first_plaintext
        default_keypair_seed
        default_session_seed
        120000
        (qualification_script (session_script []), [])).1.1
    ≡ true
run_core_demo_erases_example =
    run_core_demo_erases scripted none 1 first_plaintext default_keypair_seed default_session_seed
      120000 (qualification_script (session_script []))
