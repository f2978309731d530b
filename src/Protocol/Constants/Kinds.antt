-- ===== src/Protocol/Constants/Kinds.antt =====
-- protocol/constants.py: the modes, sources and kinds.
use fpga_mcu_trinity.Base.{ℕ, ◌≡◌, refl, some, List, [], ◌∷◌}
use fpga_mcu_trinity.Base.Enum.{IntEnum, find_member}

pub data Mode : Type 0 where
  kat demo_deterministic demo_secure : Mode

abbrev pub mode_value : Mode → ℕ
mode_value Mode.kat = 0x0
mode_value Mode.demo_deterministic = 0x1
mode_value Mode.demo_secure = 0x2

abbrev pub mode_members : List Mode
mode_members = Mode.kat ∷ Mode.demo_deterministic ∷ Mode.demo_secure ∷ []

pub mode_complete : (a : Mode) → find_member mode_value mode_members (mode_value a) ≡ some a
unfolding find_member
mode_complete Mode.kat = refl
mode_complete _ = refl

instance abbrev pub mode_enum : IntEnum Mode
mode_enum = record { value = mode_value; members = mode_members; complete = mode_complete }

pub data Source : Type 0 where
  sn32 primer1 primer2 tiny1p5 host_protocol : Source

abbrev pub source_value : Source → ℕ
source_value Source.sn32 = 0x0
source_value Source.primer1 = 0x1
source_value Source.primer2 = 0x2
source_value Source.tiny1p5 = 0x3
source_value Source.host_protocol = 0x4

abbrev pub source_members : List Source
source_members =
    Source.sn32 ∷ Source.primer1 ∷ Source.primer2 ∷ Source.tiny1p5 ∷ Source.host_protocol ∷ []

pub source_complete :
    (a : Source) → find_member source_value source_members (source_value a) ≡ some a
unfolding find_member
source_complete Source.sn32 = refl
source_complete _ = refl

instance abbrev pub source_enum : IntEnum Source
source_enum = record { value = source_value; members = source_members; complete = source_complete }

pub data EventType : Type 0 where
  progress status_changed result_ready fault recovery_required log : EventType
  transaction_completed : EventType

abbrev pub event_type_value : EventType → ℕ
event_type_value EventType.progress = 0x1
event_type_value EventType.status_changed = 0x2
event_type_value EventType.result_ready = 0x3
event_type_value EventType.fault = 0x4
event_type_value EventType.recovery_required = 0x5
event_type_value EventType.log = 0x6
event_type_value EventType.transaction_completed = 0x7

abbrev pub event_type_members : List EventType
event_type_members =
    EventType.progress ∷ EventType.status_changed ∷ EventType.result_ready ∷ EventType.fault
    ∷ EventType.recovery_required ∷ EventType.log ∷ EventType.transaction_completed ∷ []

pub event_type_complete :
    (a : EventType) → find_member event_type_value event_type_members (event_type_value a) ≡ some a
unfolding find_member
event_type_complete EventType.progress = refl
event_type_complete _ = refl

instance abbrev pub event_type_enum : IntEnum EventType
event_type_enum = record {
  value = event_type_value;
  members = event_type_members;
  complete = event_type_complete;
}

pub data FaultInjectionId : Type 0 where
  drop_sn32_heartbeat drop_p1_heartbeat drop_p2_heartbeat force_bad_tag : FaultInjectionId
  force_replay force_frame_timeout force_spi_crc_error force_target_reset : FaultInjectionId
  force_commit_rejected force_zeroize : FaultInjectionId

abbrev pub fault_injection_id_value : FaultInjectionId → ℕ
fault_injection_id_value FaultInjectionId.drop_sn32_heartbeat = 0x1
fault_injection_id_value FaultInjectionId.drop_p1_heartbeat = 0x2
fault_injection_id_value FaultInjectionId.drop_p2_heartbeat = 0x3
fault_injection_id_value FaultInjectionId.force_bad_tag = 0x4
fault_injection_id_value FaultInjectionId.force_replay = 0x5
fault_injection_id_value FaultInjectionId.force_frame_timeout = 0x6
fault_injection_id_value FaultInjectionId.force_spi_crc_error = 0x7
fault_injection_id_value FaultInjectionId.force_target_reset = 0x8
fault_injection_id_value FaultInjectionId.force_commit_rejected = 0x9
fault_injection_id_value FaultInjectionId.force_zeroize = 0xA

abbrev pub fault_injection_id_members : List FaultInjectionId
fault_injection_id_members =
    FaultInjectionId.drop_sn32_heartbeat ∷ FaultInjectionId.drop_p1_heartbeat
    ∷ FaultInjectionId.drop_p2_heartbeat ∷ FaultInjectionId.force_bad_tag
    ∷ FaultInjectionId.force_replay ∷ FaultInjectionId.force_frame_timeout
    ∷ FaultInjectionId.force_spi_crc_error ∷ FaultInjectionId.force_target_reset
    ∷ FaultInjectionId.force_commit_rejected ∷ FaultInjectionId.force_zeroize ∷ []

pub fault_injection_id_complete :
    (a : FaultInjectionId)
    → find_member fault_injection_id_value fault_injection_id_members (fault_injection_id_value a)
      ≡ some a
unfolding find_member
fault_injection_id_complete FaultInjectionId.drop_sn32_heartbeat = refl
fault_injection_id_complete _ = refl

instance abbrev pub fault_injection_id_enum : IntEnum FaultInjectionId
fault_injection_id_enum = record {
  value = fault_injection_id_value;
  members = fault_injection_id_members;
  complete = fault_injection_id_complete;
}

pub data TestProfile : Type 0 where
  quick full kat diagnostic : TestProfile

abbrev pub test_profile_value : TestProfile → ℕ
test_profile_value TestProfile.quick = 0x0
test_profile_value TestProfile.full = 0x1
test_profile_value TestProfile.kat = 0x2
test_profile_value TestProfile.diagnostic = 0x3

abbrev pub test_profile_members : List TestProfile
test_profile_members =
    TestProfile.quick ∷ TestProfile.full ∷ TestProfile.kat ∷ TestProfile.diagnostic ∷ []

pub test_profile_complete :
    (a : TestProfile)
    → find_member test_profile_value test_profile_members (test_profile_value a) ≡ some a
unfolding find_member
test_profile_complete TestProfile.quick = refl
test_profile_complete _ = refl

instance abbrev pub test_profile_enum : IntEnum TestProfile
test_profile_enum = record {
  value = test_profile_value;
  members = test_profile_members;
  complete = test_profile_complete;
}
