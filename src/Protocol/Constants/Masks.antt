-- ===== src/Protocol/Constants/Masks.antt =====
-- protocol/constants.py: the masks of tests, counters and capabilities.
use fpga_mcu_trinity.Base.{ℕ, ◌≡◌, refl, some, List, [], ◌∷◌}
use fpga_mcu_trinity.Base.Enum.{IntEnum, find_member}

pub data BenchmarkOperationMask : Type 0 where
  ntt intt basemul mlkem_keygen mlkem_encaps mlkem_decaps ascon_encrypt : BenchmarkOperationMask
  ascon_decrypt spi payload_uart end_to_end : BenchmarkOperationMask

abbrev pub benchmark_operation_mask_value : BenchmarkOperationMask → ℕ
benchmark_operation_mask_value BenchmarkOperationMask.ntt = 0x1
benchmark_operation_mask_value BenchmarkOperationMask.intt = 0x2
benchmark_operation_mask_value BenchmarkOperationMask.basemul = 0x4
benchmark_operation_mask_value BenchmarkOperationMask.mlkem_keygen = 0x8
benchmark_operation_mask_value BenchmarkOperationMask.mlkem_encaps = 0x10
benchmark_operation_mask_value BenchmarkOperationMask.mlkem_decaps = 0x20
benchmark_operation_mask_value BenchmarkOperationMask.ascon_encrypt = 0x40
benchmark_operation_mask_value BenchmarkOperationMask.ascon_decrypt = 0x80
benchmark_operation_mask_value BenchmarkOperationMask.spi = 0x100
benchmark_operation_mask_value BenchmarkOperationMask.payload_uart = 0x200
benchmark_operation_mask_value BenchmarkOperationMask.end_to_end = 0x400

abbrev pub benchmark_operation_mask_members : List BenchmarkOperationMask
benchmark_operation_mask_members =
    BenchmarkOperationMask.ntt ∷ BenchmarkOperationMask.intt ∷ BenchmarkOperationMask.basemul
    ∷ BenchmarkOperationMask.mlkem_keygen ∷ BenchmarkOperationMask.mlkem_encaps
    ∷ BenchmarkOperationMask.mlkem_decaps ∷ BenchmarkOperationMask.ascon_encrypt
    ∷ BenchmarkOperationMask.ascon_decrypt ∷ BenchmarkOperationMask.spi
    ∷ BenchmarkOperationMask.payload_uart ∷ BenchmarkOperationMask.end_to_end ∷ []

pub benchmark_operation_mask_complete :
    (a : BenchmarkOperationMask)
    → find_member benchmark_operation_mask_value benchmark_operation_mask_members
        (benchmark_operation_mask_value a)
      ≡ some a
unfolding find_member
benchmark_operation_mask_complete BenchmarkOperationMask.ntt = refl
benchmark_operation_mask_complete _ = refl

instance abbrev pub benchmark_operation_mask_enum : IntEnum BenchmarkOperationMask
benchmark_operation_mask_enum = record {
  value = benchmark_operation_mask_value;
  members = benchmark_operation_mask_members;
  complete = benchmark_operation_mask_complete;
}

pub data SpiCapability : Type 0 where
  self_test zeroize transaction_reconciliation session_stage_commit ntt : SpiCapability
  intt basemul ascon_encrypt uart_tx ascon_decrypt replay_filter : SpiCapability
  auth_result_buffer diagnostics : SpiCapability

abbrev pub spi_capability_value : SpiCapability → ℕ
spi_capability_value SpiCapability.self_test = 0x1
spi_capability_value SpiCapability.zeroize = 0x2
spi_capability_value SpiCapability.transaction_reconciliation = 0x4
spi_capability_value SpiCapability.session_stage_commit = 0x8
spi_capability_value SpiCapability.ntt = 0x10
spi_capability_value SpiCapability.intt = 0x20
spi_capability_value SpiCapability.basemul = 0x40
spi_capability_value SpiCapability.ascon_encrypt = 0x80
spi_capability_value SpiCapability.uart_tx = 0x100
spi_capability_value SpiCapability.ascon_decrypt = 0x200
spi_capability_value SpiCapability.replay_filter = 0x400
spi_capability_value SpiCapability.auth_result_buffer = 0x800
spi_capability_value SpiCapability.diagnostics = 0x1000

abbrev pub spi_capability_members : List SpiCapability
spi_capability_members =
    SpiCapability.self_test ∷ SpiCapability.zeroize ∷ SpiCapability.transaction_reconciliation
    ∷ SpiCapability.session_stage_commit ∷ SpiCapability.ntt ∷ SpiCapability.intt
    ∷ SpiCapability.basemul ∷ SpiCapability.ascon_encrypt ∷ SpiCapability.uart_tx
    ∷ SpiCapability.ascon_decrypt ∷ SpiCapability.replay_filter ∷ SpiCapability.auth_result_buffer
    ∷ SpiCapability.diagnostics ∷ []

pub spi_capability_complete :
    (a : SpiCapability)
    → find_member spi_capability_value spi_capability_members (spi_capability_value a) ≡ some a
unfolding find_member
spi_capability_complete SpiCapability.self_test = refl
spi_capability_complete _ = refl

instance abbrev pub spi_capability_enum : IntEnum SpiCapability
spi_capability_enum = record {
  value = spi_capability_value;
  members = spi_capability_members;
  complete = spi_capability_complete;
}

pub data PendingFlags : Type 0 where
  response_mailbox side_effect_result authenticated_result : PendingFlags

abbrev pub pending_flags_value : PendingFlags → ℕ
pending_flags_value PendingFlags.response_mailbox = 0x1
pending_flags_value PendingFlags.side_effect_result = 0x2
pending_flags_value PendingFlags.authenticated_result = 0x4

abbrev pub pending_flags_members : List PendingFlags
pending_flags_members =
    PendingFlags.response_mailbox ∷ PendingFlags.side_effect_result
    ∷ PendingFlags.authenticated_result ∷ []

pub pending_flags_complete :
    (a : PendingFlags)
    → find_member pending_flags_value pending_flags_members (pending_flags_value a) ≡ some a
unfolding find_member
pending_flags_complete PendingFlags.response_mailbox = refl
pending_flags_complete _ = refl

instance abbrev pub pending_flags_enum : IntEnum PendingFlags
pending_flags_enum = record {
  value = pending_flags_value;
  members = pending_flags_members;
  complete = pending_flags_complete;
}

pub data TestMask : Type 0 where
  protocol memory ntt intt basemul ascon uart session zeroize heartbeat : TestMask

abbrev pub test_mask_value : TestMask → ℕ
test_mask_value TestMask.protocol = 0x1
test_mask_value TestMask.memory = 0x2
test_mask_value TestMask.ntt = 0x4
test_mask_value TestMask.intt = 0x8
test_mask_value TestMask.basemul = 0x10
test_mask_value TestMask.ascon = 0x20
test_mask_value TestMask.uart = 0x40
test_mask_value TestMask.session = 0x80
test_mask_value TestMask.zeroize = 0x100
test_mask_value TestMask.heartbeat = 0x200

abbrev pub test_mask_members : List TestMask
test_mask_members =
    TestMask.protocol ∷ TestMask.memory ∷ TestMask.ntt ∷ TestMask.intt ∷ TestMask.basemul
    ∷ TestMask.ascon ∷ TestMask.uart ∷ TestMask.session ∷ TestMask.zeroize ∷ TestMask.heartbeat ∷ []

pub test_mask_complete :
    (a : TestMask) → find_member test_mask_value test_mask_members (test_mask_value a) ≡ some a
unfolding find_member
test_mask_complete TestMask.protocol = refl
test_mask_complete _ = refl

instance abbrev pub test_mask_enum : IntEnum TestMask
test_mask_enum = record {
  value = test_mask_value;
  members = test_mask_members;
  complete = test_mask_complete;
}

pub data DiagnosticCounterMask : Type 0 where
  transport crc bad_command transaction_conflict bad_tag replay_or_stale : DiagnosticCounterMask
  frame_error result_pending_drop heartbeat_or_fault self_test all : DiagnosticCounterMask

abbrev pub diagnostic_counter_mask_value : DiagnosticCounterMask → ℕ
diagnostic_counter_mask_value DiagnosticCounterMask.transport = 0x1
diagnostic_counter_mask_value DiagnosticCounterMask.crc = 0x2
diagnostic_counter_mask_value DiagnosticCounterMask.bad_command = 0x4
diagnostic_counter_mask_value DiagnosticCounterMask.transaction_conflict = 0x8
diagnostic_counter_mask_value DiagnosticCounterMask.bad_tag = 0x10
diagnostic_counter_mask_value DiagnosticCounterMask.replay_or_stale = 0x20
diagnostic_counter_mask_value DiagnosticCounterMask.frame_error = 0x40
diagnostic_counter_mask_value DiagnosticCounterMask.result_pending_drop = 0x80
diagnostic_counter_mask_value DiagnosticCounterMask.heartbeat_or_fault = 0x100
diagnostic_counter_mask_value DiagnosticCounterMask.self_test = 0x200
diagnostic_counter_mask_value DiagnosticCounterMask.all = 0xFFFFFFFF

abbrev pub diagnostic_counter_mask_members : List DiagnosticCounterMask
diagnostic_counter_mask_members =
    DiagnosticCounterMask.transport ∷ DiagnosticCounterMask.crc ∷ DiagnosticCounterMask.bad_command
    ∷ DiagnosticCounterMask.transaction_conflict ∷ DiagnosticCounterMask.bad_tag
    ∷ DiagnosticCounterMask.replay_or_stale ∷ DiagnosticCounterMask.frame_error
    ∷ DiagnosticCounterMask.result_pending_drop ∷ DiagnosticCounterMask.heartbeat_or_fault
    ∷ DiagnosticCounterMask.self_test ∷ DiagnosticCounterMask.all ∷ []

pub diagnostic_counter_mask_complete :
    (a : DiagnosticCounterMask)
    → find_member diagnostic_counter_mask_value diagnostic_counter_mask_members
        (diagnostic_counter_mask_value a)
      ≡ some a
unfolding find_member
diagnostic_counter_mask_complete DiagnosticCounterMask.transport = refl
diagnostic_counter_mask_complete _ = refl

instance abbrev pub diagnostic_counter_mask_enum : IntEnum DiagnosticCounterMask
diagnostic_counter_mask_enum = record {
  value = diagnostic_counter_mask_value;
  members = diagnostic_counter_mask_members;
  complete = diagnostic_counter_mask_complete;
}
