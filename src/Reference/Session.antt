-- ===== src/Reference/Session.antt =====
-- primer1/scripts/reference_checks.py: SessionModel, the life of a session on a target. An operation
-- gives `none` where the source's assertions fail; they stand before every change.
pub mod Inversion
pub mod WellFormed
pub mod Refinement
use fpga_mcu_trinity.Base.{
  ℕ, ◌+◌, ◌≡◌, refl, Bool, true, false, Option, none, some, List, [], ◌∷◌, length, bytes_eq, not,
  ◌&&◌, ◌||◌, ◌==◌, ◌!=◌, if◌then◌else◌,
}
use fpga_mcu_trinity.Base.Enum.{IntEnum, find_member, same}

-- READY to ZEROIZE
pub data Phase : Type 0 where
  ready staged blocked active zeroize : Phase

abbrev pub phase_value : Phase → ℕ
phase_value Phase.ready = 3
phase_value Phase.staged = 4
phase_value Phase.blocked = 5
phase_value Phase.active = 6
phase_value Phase.zeroize = 7

abbrev pub phase_members : List Phase
phase_members = Phase.ready ∷ Phase.staged ∷ Phase.blocked ∷ Phase.active ∷ Phase.zeroize ∷ []

pub phase_complete : (a : Phase) → find_member phase_value phase_members (phase_value a) ≡ some a
unfolding find_member
phase_complete Phase.ready = refl
phase_complete _ = refl

instance abbrev pub phase_enum : IntEnum Phase
phase_enum = record { value = phase_value; members = phase_members; complete = phase_complete }

-- The tuple of a session.
pub record Context : Type 0 where
  pub sid : ℕ
  pub key : List ℕ
  pub prefix : List ℕ

pub record SessionModel : Type 0 where
  pub state : Phase
  pub staged : Option Context
  pub active : Option Context
  pub sequence : ℕ
  pub telemetry : List ℕ

-- __init__
abbrev pub initial : SessionModel
initial = record { state = Phase.ready; staged = none; active = none; sequence = 1; telemetry = [] }

abbrev pub same_context : Context → Context → Bool
same_context a b = a.sid == b.sid && bytes_eq a.key b.key && bytes_eq a.prefix b.prefix

-- context is not None and context[0] == sid
abbrev pub names : ℕ → Option Context → Bool
names sid none = false
names sid (some context) = context.sid == sid

-- A context that is staged again: the assertion that it is the very same.
abbrev pub stage_again : SessionModel → Option Context → Context → Option SessionModel
stage_again m none context = none
stage_again m (some before) context = if same_context before context then some m else none

unfoldable pub stage : Context → SessionModel → Option SessionModel
stage context m =
    if not (length context.key == 16 && length context.prefix == 8)
    then none
    else if names context.sid m.staged
    then stage_again m m.staged context
    else if names context.sid m.active
    then none
    else some (record m { staged = some context; state = Phase.staged })

unfoldable pub commit : ℕ → SessionModel → Option SessionModel
commit sid m =
    if names sid m.staged
    then some (record m { active = m.staged; staged = none; sequence = 1; state = Phase.blocked })
    else none

unfoldable pub zeroize_session : SessionModel → SessionModel
zeroize_session m = record {
  state = Phase.zeroize;
  staged = none;
  active = none;
  sequence = 1;
  telemetry = [];
}

unfoldable pub apply_secure_enable : Bool → SessionModel → SessionModel
apply_secure_enable enabled m =
    if same m.state Phase.blocked && enabled
    then record m { state = Phase.active }
    else if same m.state Phase.active && not enabled
    then zeroize_session m
    else m

unfoldable pub load : List ℕ → SessionModel → Option SessionModel
load plaintext m =
    if same m.state Phase.active && length plaintext == 24
    then some (record m { telemetry = plaintext })
    else none

unfoldable pub send_complete : SessionModel → Option SessionModel
send_complete m =
    if same m.state Phase.active && length m.telemetry == 24
    then some (record m { sequence = m.sequence + 1; telemetry = [] })
    else none

-- One call of a method, that its assertions let pass.
pub data Step (m : SessionModel) : SessionModel → Type 0 where
  staging : (context : Context) (n : SessionModel) → stage context m ≡ some n → Step m n
  committing : (sid : ℕ) (n : SessionModel) → commit sid m ≡ some n → Step m n
  enabling : (enabled : Bool) → Step m (apply_secure_enable enabled m)
  loading : (plaintext : List ℕ) (n : SessionModel) → load plaintext m ≡ some n → Step m n
  sending : (n : SessionModel) → send_complete m ≡ some n → Step m n
  zeroizing : Step m (zeroize_session m)

-- The states that calls lead to.
pub data Reach (m : SessionModel) : SessionModel → Type 0 where
  here : Reach m m
  next : {n o : SessionModel} → Reach m n → Step n o → Reach m o
