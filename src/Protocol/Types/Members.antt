-- ===== src/Protocol/Types/Members.antt =====
-- The classes called on a number: a member is found by its own number, and by no other.
use fpga_mcu_trinity.Base.{ℕ, ◌<◌, ◌≡◌, ap, arith}
use fpga_mcu_trinity.Base.Enum.{int, of_int, of_int-int, int-of_int}
use fpga_mcu_trinity.Protocol.Constants.Codes.{ErrorCode, error_code_enum}
use fpga_mcu_trinity.Protocol.Constants.States.{
  SystemState, system_state_enum, TransactionState, transaction_state_enum,
}
use fpga_mcu_trinity.Protocol.Constants.Kinds.{
  Mode, mode_enum, Source, source_enum, EventType, event_type_enum,
}
use fpga_mcu_trinity.Protocol.Errors.{ok, or_raise, or_raise-eq-ok}
use fpga_mcu_trinity.Protocol.Types.{
  error_code, system_state, mode, transaction_state, event_type, source,
}

pub error_code-int : (a : ErrorCode) → error_code (int a) ≡ ok a
unfolding error_code
error_code-int a = ap (or_raise _) (of_int-int a)

pub int-error_code : (n : ℕ) (a : ErrorCode) → error_code n ≡ ok a → int a ≡ n
unfolding error_code
int-error_code n a h = int-of_int n a (or_raise-eq-ok _ (of_int n) a h)

pub error_code_lt : (a : ErrorCode) → int a < 0x10000
error_code_lt ErrorCode.ok = omega arith
error_code_lt _ = omega arith

pub system_state-int : (a : SystemState) → system_state (int a) ≡ ok a
unfolding system_state
system_state-int a = ap (or_raise _) (of_int-int a)

pub int-system_state : (n : ℕ) (a : SystemState) → system_state n ≡ ok a → int a ≡ n
unfolding system_state
int-system_state n a h = int-of_int n a (or_raise-eq-ok _ (of_int n) a h)

pub system_state_lt : (a : SystemState) → int a < 0x100
system_state_lt SystemState.boot = omega arith
system_state_lt _ = omega arith

pub mode-int : (a : Mode) → mode (int a) ≡ ok a
unfolding mode
mode-int a = ap (or_raise _) (of_int-int a)

pub int-mode : (n : ℕ) (a : Mode) → mode n ≡ ok a → int a ≡ n
unfolding mode
int-mode n a h = int-of_int n a (or_raise-eq-ok _ (of_int n) a h)

pub mode_lt : (a : Mode) → int a < 0x100
mode_lt Mode.kat = omega arith
mode_lt _ = omega arith

pub transaction_state-int : (a : TransactionState) → transaction_state (int a) ≡ ok a
unfolding transaction_state
transaction_state-int a = ap (or_raise _) (of_int-int a)

pub int-transaction_state : (n : ℕ) (a : TransactionState) → transaction_state n ≡ ok a → int a ≡ n
unfolding transaction_state
int-transaction_state n a h = int-of_int n a (or_raise-eq-ok _ (of_int n) a h)

pub transaction_state_lt : (a : TransactionState) → int a < 0x100
transaction_state_lt TransactionState.none = omega arith
transaction_state_lt _ = omega arith

pub event_type-int : (a : EventType) → event_type (int a) ≡ ok a
unfolding event_type
event_type-int a = ap (or_raise _) (of_int-int a)

pub int-event_type : (n : ℕ) (a : EventType) → event_type n ≡ ok a → int a ≡ n
unfolding event_type
int-event_type n a h = int-of_int n a (or_raise-eq-ok _ (of_int n) a h)

pub event_type_lt : (a : EventType) → int a < 0x10000
event_type_lt EventType.progress = omega arith
event_type_lt _ = omega arith

pub source-int : (a : Source) → source (int a) ≡ ok a
unfolding source
source-int a = ap (or_raise _) (of_int-int a)

pub int-source : (n : ℕ) (a : Source) → source n ≡ ok a → int a ≡ n
unfolding source
int-source n a h = int-of_int n a (or_raise-eq-ok _ (of_int n) a h)

pub source_lt : (a : Source) → int a < 0x100
source_lt Source.sn32 = omega arith
source_lt _ = omega arith
