-- ===== src/Protocol/Constants/Flags.antt =====
-- protocol/constants.py: the flag sets of frames and of the status.
use fpga_mcu_trinity.Base.{ℕ, ◌≡◌, refl, some, List, [], ◌∷◌}
use fpga_mcu_trinity.Base.Enum.{IntEnum, find_member}

pub data FrameFlags : Type 0 where
  response error more event : FrameFlags

abbrev pub frame_flags_value : FrameFlags → ℕ
frame_flags_value FrameFlags.response = 0x1
frame_flags_value FrameFlags.error = 0x2
frame_flags_value FrameFlags.more = 0x4
frame_flags_value FrameFlags.event = 0x8

abbrev pub frame_flags_members : List FrameFlags
frame_flags_members =
    FrameFlags.response ∷ FrameFlags.error ∷ FrameFlags.more ∷ FrameFlags.event ∷ []

pub frame_flags_complete :
    (a : FrameFlags)
    → find_member frame_flags_value frame_flags_members (frame_flags_value a) ≡ some a
unfolding find_member
frame_flags_complete FrameFlags.response = refl
frame_flags_complete _ = refl

instance abbrev pub frame_flags_enum : IntEnum FrameFlags
frame_flags_enum = record {
  value = frame_flags_value;
  members = frame_flags_members;
  complete = frame_flags_complete;
}

pub data TargetReadyMask : Type 0 where
  sn32 primer1 primer2 tiny1p5 : TargetReadyMask

abbrev pub target_ready_mask_value : TargetReadyMask → ℕ
target_ready_mask_value TargetReadyMask.sn32 = 0x1
target_ready_mask_value TargetReadyMask.primer1 = 0x2
target_ready_mask_value TargetReadyMask.primer2 = 0x4
target_ready_mask_value TargetReadyMask.tiny1p5 = 0x8

abbrev pub target_ready_mask_members : List TargetReadyMask
target_ready_mask_members =
    TargetReadyMask.sn32 ∷ TargetReadyMask.primer1 ∷ TargetReadyMask.primer2
    ∷ TargetReadyMask.tiny1p5 ∷ []

pub target_ready_mask_complete :
    (a : TargetReadyMask)
    → find_member target_ready_mask_value target_ready_mask_members (target_ready_mask_value a)
      ≡ some a
unfolding find_member
target_ready_mask_complete TargetReadyMask.sn32 = refl
target_ready_mask_complete _ = refl

instance abbrev pub target_ready_mask_enum : IntEnum TargetReadyMask
target_ready_mask_enum = record {
  value = target_ready_mask_value;
  members = target_ready_mask_members;
  complete = target_ready_mask_complete;
}

pub data FaultFlags : Type 0 where
  sn32 primer1 primer2 tiny1p5 commit_rejected heartbeat_timeout : FaultFlags
  auth_threshold transport : FaultFlags

abbrev pub fault_flags_value : FaultFlags → ℕ
fault_flags_value FaultFlags.sn32 = 0x1
fault_flags_value FaultFlags.primer1 = 0x2
fault_flags_value FaultFlags.primer2 = 0x4
fault_flags_value FaultFlags.tiny1p5 = 0x8
fault_flags_value FaultFlags.commit_rejected = 0x10
fault_flags_value FaultFlags.heartbeat_timeout = 0x20
fault_flags_value FaultFlags.auth_threshold = 0x40
fault_flags_value FaultFlags.transport = 0x80

abbrev pub fault_flags_members : List FaultFlags
fault_flags_members =
    FaultFlags.sn32 ∷ FaultFlags.primer1 ∷ FaultFlags.primer2 ∷ FaultFlags.tiny1p5
    ∷ FaultFlags.commit_rejected ∷ FaultFlags.heartbeat_timeout ∷ FaultFlags.auth_threshold
    ∷ FaultFlags.transport ∷ []

pub fault_flags_complete :
    (a : FaultFlags)
    → find_member fault_flags_value fault_flags_members (fault_flags_value a) ≡ some a
unfolding find_member
fault_flags_complete FaultFlags.sn32 = refl
fault_flags_complete _ = refl

instance abbrev pub fault_flags_enum : IntEnum FaultFlags
fault_flags_enum = record {
  value = fault_flags_value;
  members = fault_flags_members;
  complete = fault_flags_complete;
}

pub data SystemCapability : Type 0 where
  kat demo_deterministic demo_secure mlkem512 primer1_accelerator : SystemCapability
  ascon_aead128 payload_uart tiny_supervisor fault_injection benchmark : SystemCapability
  transport_stress transaction_reconciliation : SystemCapability

abbrev pub system_capability_value : SystemCapability → ℕ
system_capability_value SystemCapability.kat = 0x1
system_capability_value SystemCapability.demo_deterministic = 0x2
system_capability_value SystemCapability.demo_secure = 0x4
system_capability_value SystemCapability.mlkem512 = 0x8
system_capability_value SystemCapability.primer1_accelerator = 0x10
system_capability_value SystemCapability.ascon_aead128 = 0x20
system_capability_value SystemCapability.payload_uart = 0x40
system_capability_value SystemCapability.tiny_supervisor = 0x80
system_capability_value SystemCapability.fault_injection = 0x100
system_capability_value SystemCapability.benchmark = 0x200
system_capability_value SystemCapability.transport_stress = 0x400
system_capability_value SystemCapability.transaction_reconciliation = 0x800

abbrev pub system_capability_members : List SystemCapability
system_capability_members =
    SystemCapability.kat ∷ SystemCapability.demo_deterministic ∷ SystemCapability.demo_secure
    ∷ SystemCapability.mlkem512 ∷ SystemCapability.primer1_accelerator
    ∷ SystemCapability.ascon_aead128 ∷ SystemCapability.payload_uart
    ∷ SystemCapability.tiny_supervisor ∷ SystemCapability.fault_injection
    ∷ SystemCapability.benchmark ∷ SystemCapability.transport_stress
    ∷ SystemCapability.transaction_reconciliation ∷ []

pub system_capability_complete :
    (a : SystemCapability)
    → find_member system_capability_value system_capability_members (system_capability_value a)
      ≡ some a
unfolding find_member
system_capability_complete SystemCapability.kat = refl
system_capability_complete _ = refl

instance abbrev pub system_capability_enum : IntEnum SystemCapability
system_capability_enum = record {
  value = system_capability_value;
  members = system_capability_members;
  complete = system_capability_complete;
}

pub data SecureFlags : Type 0 where
  self_test_pass session_staged secure_enable zeroize_busy fault_locked : SecureFlags

abbrev pub secure_flags_value : SecureFlags → ℕ
secure_flags_value SecureFlags.self_test_pass = 0x1
secure_flags_value SecureFlags.session_staged = 0x2
secure_flags_value SecureFlags.secure_enable = 0x4
secure_flags_value SecureFlags.zeroize_busy = 0x8
secure_flags_value SecureFlags.fault_locked = 0x10

abbrev pub secure_flags_members : List SecureFlags
secure_flags_members =
    SecureFlags.self_test_pass ∷ SecureFlags.session_staged ∷ SecureFlags.secure_enable
    ∷ SecureFlags.zeroize_busy ∷ SecureFlags.fault_locked ∷ []

pub secure_flags_complete :
    (a : SecureFlags)
    → find_member secure_flags_value secure_flags_members (secure_flags_value a) ≡ some a
unfolding find_member
secure_flags_complete SecureFlags.self_test_pass = refl
secure_flags_complete _ = refl

instance abbrev pub secure_flags_enum : IntEnum SecureFlags
secure_flags_enum = record {
  value = secure_flags_value;
  members = secure_flags_members;
  complete = secure_flags_complete;
}

pub data ZeroizeScope : Type 0 where
  active_session staged_session polynomial_buffers : ZeroizeScope
  telemetry_or_auth_result transaction_state diagnostic_transient all : ZeroizeScope

abbrev pub zeroize_scope_value : ZeroizeScope → ℕ
zeroize_scope_value ZeroizeScope.active_session = 0x1
zeroize_scope_value ZeroizeScope.staged_session = 0x2
zeroize_scope_value ZeroizeScope.polynomial_buffers = 0x4
zeroize_scope_value ZeroizeScope.telemetry_or_auth_result = 0x8
zeroize_scope_value ZeroizeScope.transaction_state = 0x10
zeroize_scope_value ZeroizeScope.diagnostic_transient = 0x20
zeroize_scope_value ZeroizeScope.all = 0xFF

abbrev pub zeroize_scope_members : List ZeroizeScope
zeroize_scope_members =
    ZeroizeScope.active_session ∷ ZeroizeScope.staged_session ∷ ZeroizeScope.polynomial_buffers
    ∷ ZeroizeScope.telemetry_or_auth_result ∷ ZeroizeScope.transaction_state
    ∷ ZeroizeScope.diagnostic_transient ∷ ZeroizeScope.all ∷ []

pub zeroize_scope_complete :
    (a : ZeroizeScope)
    → find_member zeroize_scope_value zeroize_scope_members (zeroize_scope_value a) ≡ some a
unfolding find_member
zeroize_scope_complete ZeroizeScope.active_session = refl
zeroize_scope_complete _ = refl

instance abbrev pub zeroize_scope_enum : IntEnum ZeroizeScope
zeroize_scope_enum = record {
  value = zeroize_scope_value;
  members = zeroize_scope_members;
  complete = zeroize_scope_complete;
}
