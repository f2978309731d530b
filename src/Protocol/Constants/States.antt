-- ===== src/Protocol/Constants/States.antt =====
-- protocol/constants.py: the states that a status names.
use fpga_mcu_trinity.Base.{ℕ, ◌≡◌, refl, some, List, [], ◌∷◌}
use fpga_mcu_trinity.Base.Enum.{IntEnum, find_member}

pub data SystemState : Type 0 where
  boot self_test_required self_test_running ready_no_keypair : SystemState
  ready_no_session session_establishing active zeroize_busy fault_locked : SystemState
  error : SystemState

abbrev pub system_state_value : SystemState → ℕ
system_state_value SystemState.boot = 0x0
system_state_value SystemState.self_test_required = 0x1
system_state_value SystemState.self_test_running = 0x2
system_state_value SystemState.ready_no_keypair = 0x3
system_state_value SystemState.ready_no_session = 0x4
system_state_value SystemState.session_establishing = 0x5
system_state_value SystemState.active = 0x6
system_state_value SystemState.zeroize_busy = 0x7
system_state_value SystemState.fault_locked = 0x8
system_state_value SystemState.error = 0x9

abbrev pub system_state_members : List SystemState
system_state_members =
    SystemState.boot ∷ SystemState.self_test_required ∷ SystemState.self_test_running
    ∷ SystemState.ready_no_keypair ∷ SystemState.ready_no_session ∷ SystemState.session_establishing
    ∷ SystemState.active ∷ SystemState.zeroize_busy ∷ SystemState.fault_locked ∷ SystemState.error
    ∷ []

pub system_state_complete :
    (a : SystemState)
    → find_member system_state_value system_state_members (system_state_value a) ≡ some a
unfolding find_member
system_state_complete SystemState.boot = refl
system_state_complete _ = refl

instance abbrev pub system_state_enum : IntEnum SystemState
system_state_enum = record {
  value = system_state_value;
  members = system_state_members;
  complete = system_state_complete;
}

pub data SessionState : Type 0 where
  boot self_test_required self_test_running ready_no_session : SessionState
  session_staged committed_blocked active zeroize_busy fault_locked : SessionState

abbrev pub session_state_value : SessionState → ℕ
session_state_value SessionState.boot = 0x0
session_state_value SessionState.self_test_required = 0x1
session_state_value SessionState.self_test_running = 0x2
session_state_value SessionState.ready_no_session = 0x3
session_state_value SessionState.session_staged = 0x4
session_state_value SessionState.committed_blocked = 0x5
session_state_value SessionState.active = 0x6
session_state_value SessionState.zeroize_busy = 0x7
session_state_value SessionState.fault_locked = 0x8

abbrev pub session_state_members : List SessionState
session_state_members =
    SessionState.boot ∷ SessionState.self_test_required ∷ SessionState.self_test_running
    ∷ SessionState.ready_no_session ∷ SessionState.session_staged ∷ SessionState.committed_blocked
    ∷ SessionState.active ∷ SessionState.zeroize_busy ∷ SessionState.fault_locked ∷ []

pub session_state_complete :
    (a : SessionState)
    → find_member session_state_value session_state_members (session_state_value a) ≡ some a
unfolding find_member
session_state_complete SessionState.boot = refl
session_state_complete _ = refl

instance abbrev pub session_state_enum : IntEnum SessionState
session_state_enum = record {
  value = session_state_value;
  members = session_state_members;
  complete = session_state_complete;
}

pub data OperationState : Type 0 where
  idle load_input ready_to_execute executing result_ready : OperationState

abbrev pub operation_state_value : OperationState → ℕ
operation_state_value OperationState.idle = 0x0
operation_state_value OperationState.load_input = 0x1
operation_state_value OperationState.ready_to_execute = 0x2
operation_state_value OperationState.executing = 0x3
operation_state_value OperationState.result_ready = 0x4

abbrev pub operation_state_members : List OperationState
operation_state_members =
    OperationState.idle ∷ OperationState.load_input ∷ OperationState.ready_to_execute
    ∷ OperationState.executing ∷ OperationState.result_ready ∷ []

pub operation_state_complete :
    (a : OperationState)
    → find_member operation_state_value operation_state_members (operation_state_value a) ≡ some a
unfolding find_member
operation_state_complete OperationState.idle = refl
operation_state_complete _ = refl

instance abbrev pub operation_state_enum : IntEnum OperationState
operation_state_enum = record {
  value = operation_state_value;
  members = operation_state_members;
  complete = operation_state_complete;
}

pub data TransactionState : Type 0 where
  none accepted running succeeded failed zeroized outcome_unknown : TransactionState

abbrev pub transaction_state_value : TransactionState → ℕ
transaction_state_value TransactionState.none = 0x0
transaction_state_value TransactionState.accepted = 0x1
transaction_state_value TransactionState.running = 0x2
transaction_state_value TransactionState.succeeded = 0x3
transaction_state_value TransactionState.failed = 0x4
transaction_state_value TransactionState.zeroized = 0x5
transaction_state_value TransactionState.outcome_unknown = 0x6

abbrev pub transaction_state_members : List TransactionState
transaction_state_members =
    TransactionState.none ∷ TransactionState.accepted ∷ TransactionState.running
    ∷ TransactionState.succeeded ∷ TransactionState.failed ∷ TransactionState.zeroized
    ∷ TransactionState.outcome_unknown ∷ []

pub transaction_state_complete :
    (a : TransactionState)
    → find_member transaction_state_value transaction_state_members (transaction_state_value a)
      ≡ some a
unfolding find_member
transaction_state_complete TransactionState.none = refl
transaction_state_complete _ = refl

instance abbrev pub transaction_state_enum : IntEnum TransactionState
transaction_state_enum = record {
  value = transaction_state_value;
  members = transaction_state_members;
  complete = transaction_state_complete;
}

pub data RxState : Type 0 where
  hunt_sync receive_body validate verify_tag result_pending : RxState

abbrev pub rx_state_value : RxState → ℕ
rx_state_value RxState.hunt_sync = 0x0
rx_state_value RxState.receive_body = 0x1
rx_state_value RxState.validate = 0x2
rx_state_value RxState.verify_tag = 0x3
rx_state_value RxState.result_pending = 0x4

abbrev pub rx_state_members : List RxState
rx_state_members =
    RxState.hunt_sync ∷ RxState.receive_body ∷ RxState.validate ∷ RxState.verify_tag
    ∷ RxState.result_pending ∷ []

pub rx_state_complete :
    (a : RxState) → find_member rx_state_value rx_state_members (rx_state_value a) ≡ some a
unfolding find_member
rx_state_complete RxState.hunt_sync = refl
rx_state_complete _ = refl

instance abbrev pub rx_state_enum : IntEnum RxState
rx_state_enum = record {
  value = rx_state_value;
  members = rx_state_members;
  complete = rx_state_complete;
}
