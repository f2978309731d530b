-- ===== src/Protocol/Constants/Commands.antt =====
-- protocol/constants.py: the commands and their targets.
use fpga_mcu_trinity.Base.{ℕ, ◌≡◌, refl, some, List, [], ◌∷◌}
use fpga_mcu_trinity.Base.Enum.{IntEnum, find_member}

pub data HostCommand : Type 0 where
  ping get_system_info get_system_status get_last_error get_txn_result : HostCommand
  retire_txn_result spi_diagnostic get_first_spi_failure run_self_test : HostCommand
  generate_keypair create_session close_session zeroize_system : HostCommand
  send_one_telemetry run_demo read_last_result run_ntt_test run_ascon_test : HostCommand
  run_benchmark run_transport_stress inject_test_fault request_fault_clear : HostCommand
  event : HostCommand

abbrev pub host_command_value : HostCommand → ℕ
host_command_value HostCommand.ping = 0x1
host_command_value HostCommand.get_system_info = 0x2
host_command_value HostCommand.get_system_status = 0x3
host_command_value HostCommand.get_last_error = 0x4
host_command_value HostCommand.get_txn_result = 0x5
host_command_value HostCommand.retire_txn_result = 0x6
host_command_value HostCommand.spi_diagnostic = 0x7
host_command_value HostCommand.get_first_spi_failure = 0x8
host_command_value HostCommand.run_self_test = 0x10
host_command_value HostCommand.generate_keypair = 0x11
host_command_value HostCommand.create_session = 0x12
host_command_value HostCommand.close_session = 0x13
host_command_value HostCommand.zeroize_system = 0x14
host_command_value HostCommand.send_one_telemetry = 0x20
host_command_value HostCommand.run_demo = 0x21
host_command_value HostCommand.read_last_result = 0x22
host_command_value HostCommand.run_ntt_test = 0x30
host_command_value HostCommand.run_ascon_test = 0x31
host_command_value HostCommand.run_benchmark = 0x32
host_command_value HostCommand.run_transport_stress = 0x33
host_command_value HostCommand.inject_test_fault = 0x40
host_command_value HostCommand.request_fault_clear = 0x41
host_command_value HostCommand.event = 0xE0

abbrev pub host_command_members : List HostCommand
host_command_members =
    HostCommand.ping ∷ HostCommand.get_system_info ∷ HostCommand.get_system_status
    ∷ HostCommand.get_last_error ∷ HostCommand.get_txn_result ∷ HostCommand.retire_txn_result
    ∷ HostCommand.spi_diagnostic ∷ HostCommand.get_first_spi_failure ∷ HostCommand.run_self_test
    ∷ HostCommand.generate_keypair ∷ HostCommand.create_session ∷ HostCommand.close_session
    ∷ HostCommand.zeroize_system ∷ HostCommand.send_one_telemetry ∷ HostCommand.run_demo
    ∷ HostCommand.read_last_result ∷ HostCommand.run_ntt_test ∷ HostCommand.run_ascon_test
    ∷ HostCommand.run_benchmark ∷ HostCommand.run_transport_stress ∷ HostCommand.inject_test_fault
    ∷ HostCommand.request_fault_clear ∷ HostCommand.event ∷ []

pub host_command_complete :
    (a : HostCommand)
    → find_member host_command_value host_command_members (host_command_value a) ≡ some a
unfolding find_member
host_command_complete HostCommand.ping = refl
host_command_complete _ = refl

instance abbrev pub host_command_enum : IntEnum HostCommand
host_command_enum = record {
  value = host_command_value;
  members = host_command_members;
  complete = host_command_complete;
}

pub data SpiCommand : Type 0 where
  get_info get_status run_self_test get_txn_result retire_txn_result : SpiCommand
  zeroize stage_session commit_session abort_session poly_begin : SpiCommand
  poly_write_chunk poly_execute poly_read_chunk poly_retire load_telemetry : SpiCommand
  encrypt_and_send get_rx_status read_auth_result ack_auth_result : SpiCommand
  clear_diagnostic_counters : SpiCommand

abbrev pub spi_command_value : SpiCommand → ℕ
spi_command_value SpiCommand.get_info = 0x1
spi_command_value SpiCommand.get_status = 0x2
spi_command_value SpiCommand.run_self_test = 0x3
spi_command_value SpiCommand.get_txn_result = 0x4
spi_command_value SpiCommand.retire_txn_result = 0x5
spi_command_value SpiCommand.zeroize = 0x6
spi_command_value SpiCommand.stage_session = 0x7
spi_command_value SpiCommand.commit_session = 0x8
spi_command_value SpiCommand.abort_session = 0x9
spi_command_value SpiCommand.poly_begin = 0x20
spi_command_value SpiCommand.poly_write_chunk = 0x21
spi_command_value SpiCommand.poly_execute = 0x22
spi_command_value SpiCommand.poly_read_chunk = 0x23
spi_command_value SpiCommand.poly_retire = 0x24
spi_command_value SpiCommand.load_telemetry = 0x30
spi_command_value SpiCommand.encrypt_and_send = 0x31
spi_command_value SpiCommand.get_rx_status = 0x40
spi_command_value SpiCommand.read_auth_result = 0x41
spi_command_value SpiCommand.ack_auth_result = 0x42
spi_command_value SpiCommand.clear_diagnostic_counters = 0x43

abbrev pub spi_command_members : List SpiCommand
spi_command_members =
    SpiCommand.get_info ∷ SpiCommand.get_status ∷ SpiCommand.run_self_test
    ∷ SpiCommand.get_txn_result ∷ SpiCommand.retire_txn_result ∷ SpiCommand.zeroize
    ∷ SpiCommand.stage_session ∷ SpiCommand.commit_session ∷ SpiCommand.abort_session
    ∷ SpiCommand.poly_begin ∷ SpiCommand.poly_write_chunk ∷ SpiCommand.poly_execute
    ∷ SpiCommand.poly_read_chunk ∷ SpiCommand.poly_retire ∷ SpiCommand.load_telemetry
    ∷ SpiCommand.encrypt_and_send ∷ SpiCommand.get_rx_status ∷ SpiCommand.read_auth_result
    ∷ SpiCommand.ack_auth_result ∷ SpiCommand.clear_diagnostic_counters ∷ []

pub spi_command_complete :
    (a : SpiCommand)
    → find_member spi_command_value spi_command_members (spi_command_value a) ≡ some a
unfolding find_member
spi_command_complete SpiCommand.get_info = refl
spi_command_complete _ = refl

instance abbrev pub spi_command_enum : IntEnum SpiCommand
spi_command_enum = record {
  value = spi_command_value;
  members = spi_command_members;
  complete = spi_command_complete;
}

pub data TargetId : Type 0 where
  primer1 primer2 : TargetId

abbrev pub target_id_value : TargetId → ℕ
target_id_value TargetId.primer1 = 0x1
target_id_value TargetId.primer2 = 0x2

abbrev pub target_id_members : List TargetId
target_id_members = TargetId.primer1 ∷ TargetId.primer2 ∷ []

pub target_id_complete :
    (a : TargetId) → find_member target_id_value target_id_members (target_id_value a) ≡ some a
unfolding find_member
target_id_complete TargetId.primer1 = refl
target_id_complete _ = refl

instance abbrev pub target_id_enum : IntEnum TargetId
target_id_enum = record {
  value = target_id_value;
  members = target_id_members;
  complete = target_id_complete;
}
