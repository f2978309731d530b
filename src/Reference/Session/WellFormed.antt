-- ===== src/Reference/Session/WellFormed.antt =====
-- SessionModel: what every sequence of calls leaves true.
use fpga_mcu_trinity.Base.{
  ℕ, ◌+◌, ◌≤◌, ◌≡◌, ◌≢◌, ◌⊎◌, inl, inr, refl, subst, arith, Bool, true, false, Bool-cases, Option,
  none, some, List, [], length, not, ◌&&◌,
}
use fpga_mcu_trinity.Base.Enum.{same, same→eq}
use fpga_mcu_trinity.Reference.Session.{
  Phase, phase_enum, Context, SessionModel, initial, names, stage, commit, zeroize_session,
  apply_secure_enable, load, send_complete, Step, Reach,
}
use fpga_mcu_trinity.Reference.Session.Inversion.{
  Fits, stage_inversion, commit_inversion, load_inversion, send_inversion,
}

-- A context that may replace the active one.
abbrev pub Replaces : Context → Option Context → Type 0
Replaces context none = Unit {0}
Replaces context (some old) = Fits old × (old.sid ≢ context.sid)

abbrev pub IsLoaded : List ℕ → Type 0
IsLoaded telemetry = (length telemetry ≡ 0) ⊎ (length telemetry ≡ 24)

-- What a state holds: nothing before and after a session, a staged context that is not the active
-- one, or the context that was committed, with the sequence number 1 until it is enabled.
unfoldable pub Holds : Phase → Option Context → Option Context → ℕ → List ℕ → Type 0
Holds Phase.ready none none sequence telemetry = (sequence ≡ 1) × (length telemetry ≡ 0)
Holds Phase.zeroize none none sequence telemetry = (sequence ≡ 1) × (length telemetry ≡ 0)
Holds Phase.staged (some context) old sequence telemetry =
    Fits context × Replaces context old × (1 ≤ sequence) × IsLoaded telemetry
Holds Phase.blocked none (some context) sequence telemetry =
    Fits context × (sequence ≡ 1) × IsLoaded telemetry
Holds Phase.active none (some context) sequence telemetry =
    Fits context × (1 ≤ sequence) × IsLoaded telemetry
Holds _ _ _ _ _ = ⊥

pub record IsWellFormed (m : SessionModel) : Type 0 where
  pub holds : Holds m.state m.staged m.active m.sequence m.telemetry

initial-IsWellFormed : IsWellFormed initial
unfolding Holds
initial-IsWellFormed = record { holds = (refl, refl) }

zeroize_session-IsWellFormed : (m : SessionModel) → IsWellFormed (zeroize_session m)
unfolding zeroize_session Holds
zeroize_session-IsWellFormed m = record { holds = (refl, refl) }

commit-Holds :
    (sid : ℕ) (state : Phase) (staged active : Option Context) (sequence : ℕ) (telemetry : List ℕ)
    → Holds state staged active sequence telemetry
    → names sid staged ≡ true
    → Holds Phase.blocked none staged 1 telemetry
unfolding Holds
commit-Holds sid Phase.staged (some context) active sequence telemetry h e = (h.0, refl, h.3)
commit-Holds sid state none active sequence telemetry h e = cc
commit-Holds sid Phase.ready (some context) active sequence telemetry h e = absurd h
commit-Holds sid Phase.blocked (some context) active sequence telemetry h e = absurd h
commit-Holds sid Phase.active (some context) active sequence telemetry h e = absurd h
commit-Holds sid Phase.zeroize (some context) active sequence telemetry h e = absurd h

stage-Holds :
    (context : Context) (staged active : Option Context) (state : Phase) (sequence : ℕ)
    (telemetry : List ℕ)
    → Holds state staged active sequence telemetry
    → Fits context
    → names context.sid staged ≡ false
    → names context.sid active ≡ false
    → Holds Phase.staged (some context) active sequence telemetry
unfolding Holds
stage-Holds context none none Phase.ready sequence telemetry h f s a =
    (f, tt, omega (arith, h.0), inl h.1)
stage-Holds context none none Phase.zeroize sequence telemetry h f s a =
    (f, tt, omega (arith, h.0), inl h.1)
stage-Holds context (some old) none Phase.staged sequence telemetry h f s a = (f, tt, h.2, h.3)
stage-Holds context (some old) (some current) Phase.staged sequence telemetry h f s a =
    (f, (h.1.0, ground (arith, a)), h.2, h.3)
stage-Holds context none (some current) Phase.blocked sequence telemetry h f s a =
    (f, (h.0, ground (arith, a)), omega (arith, h.1), h.2)
stage-Holds context none (some current) Phase.active sequence telemetry h f s a =
    (f, (h.0, ground (arith, a)), h.1, h.2)
stage-Holds context _ _ _ sequence telemetry h f s a = absurd h

stage-IsWellFormed :
    (context : Context) (m n : SessionModel)
    → stage context m ≡ some n
    → IsWellFormed m
    → IsWellFormed n
stage-IsWellFormed context m n e h =
    let (fits, cases) = stage_inversion context m n e in
    elim cases [
      | inl again ↦ subst IsWellFormed again h
      | inr (unstaged, inactive, made) ↦ subst IsWellFormed made (record {
        holds =
            stage-Holds context m.staged m.active m.state m.sequence m.telemetry h.holds fits
              unstaged inactive;
      })
    ]

commit-IsWellFormed :
    (sid : ℕ) (m n : SessionModel) → commit sid m ≡ some n → IsWellFormed m → IsWellFormed n
commit-IsWellFormed sid m n e h =
    let (staged, made) = commit_inversion sid m n e in
    subst IsWellFormed made (record {
      holds = commit-Holds sid m.state m.staged m.active m.sequence m.telemetry h.holds staged;
    })

apply_secure_enable-Holds :
    (staged active : Option Context) (sequence : ℕ) (telemetry : List ℕ)
    → Holds Phase.blocked staged active sequence telemetry
    → Holds Phase.active staged active sequence telemetry
unfolding Holds
apply_secure_enable-Holds none (some context) sequence telemetry h = (h.0, omega (arith, h.1), h.2)
apply_secure_enable-Holds none none sequence telemetry h = absurd h
apply_secure_enable-Holds (some context) active sequence telemetry h = absurd h

-- The fields of a session whose state is known.
pub in_state :
    (m : SessionModel) (state : Phase)
    → same m.state state ≡ true
    → IsWellFormed m
    → Holds state m.staged m.active m.sequence m.telemetry
in_state m state e h =
    subst (λ (p : Phase). Holds p m.staged m.active m.sequence m.telemetry)
      (same→eq m.state state e) h.holds

apply_secure_enable-IsWellFormed :
    (enabled : Bool) (m : SessionModel)
    → IsWellFormed m
    → IsWellFormed (apply_secure_enable enabled m)
unfolding apply_secure_enable
apply_secure_enable-IsWellFormed enabled m h =
    elim (Bool-cases (same m.state Phase.blocked && enabled)) [
      | inl t ↦ subst {A = SessionModel} IsWellFormed (ground (arith, t)) (record {
        holds =
            apply_secure_enable-Holds m.staged m.active m.sequence m.telemetry
              (in_state m Phase.blocked (ground (arith, t)) h);
      })
      | inr t ↦ elim (Bool-cases (same m.state Phase.active && not enabled)) [
        | inl u ↦
            subst {A = SessionModel} IsWellFormed (ground (arith, t, u))
              (zeroize_session-IsWellFormed m)
        | inr u ↦ subst {A = SessionModel} IsWellFormed (ground (arith, t, u)) h
      ]
    ]

load-Holds :
    (staged active : Option Context) (sequence next : ℕ) (telemetry loaded : List ℕ)
    → Holds Phase.active staged active sequence telemetry
    → 1 ≤ next
    → IsLoaded loaded
    → Holds Phase.active staged active next loaded
unfolding Holds
load-Holds none (some context) sequence next telemetry loaded h n l = (h.0, n, l)
load-Holds none none sequence next telemetry loaded h n l = absurd h
load-Holds (some context) active sequence next telemetry loaded h n l = absurd h

active_sequence :
    (staged active : Option Context) (sequence : ℕ) (telemetry : List ℕ)
    → Holds Phase.active staged active sequence telemetry
    → 1 ≤ sequence
unfolding Holds
active_sequence none (some context) sequence telemetry h = h.1
active_sequence none none sequence telemetry h = absurd h
active_sequence (some context) active sequence telemetry h = absurd h

load-IsWellFormed :
    (plaintext : List ℕ) (m n : SessionModel)
    → load plaintext m ≡ some n
    → IsWellFormed m
    → IsWellFormed n
load-IsWellFormed plaintext m n e h =
    let (state, size, made) = load_inversion plaintext m n e in
    let held = in_state m Phase.active state h in
    subst IsWellFormed made (record {
      holds =
          load-Holds m.staged m.active m.sequence m.sequence m.telemetry plaintext held
            (active_sequence m.staged m.active m.sequence m.telemetry held) (inr size);
    })

send_complete-IsWellFormed :
    (m n : SessionModel) → send_complete m ≡ some n → IsWellFormed m → IsWellFormed n
send_complete-IsWellFormed m n e h =
    let (state, size, made) = send_inversion m n e in
    subst IsWellFormed made (record {
      holds =
          load-Holds m.staged m.active m.sequence (m.sequence + 1) m.telemetry []
            (in_state m Phase.active state h) (omega arith) (inl refl);
    })

pub Step-IsWellFormed : {m n : SessionModel} → Step m n → IsWellFormed m → IsWellFormed n
Step-IsWellFormed (Step.staging context n e) h = stage-IsWellFormed context _ n e h
Step-IsWellFormed (Step.committing sid n e) h = commit-IsWellFormed sid _ n e h
Step-IsWellFormed (Step.enabling enabled) h = apply_secure_enable-IsWellFormed enabled _ h
Step-IsWellFormed (Step.loading plaintext n e) h = load-IsWellFormed plaintext _ n e h
Step-IsWellFormed (Step.sending n e) h = send_complete-IsWellFormed _ n e h
Step-IsWellFormed Step.zeroizing h = zeroize_session-IsWellFormed _

-- However the methods are called, the session that they lead to from a new one is well formed: it
-- holds nothing before a stage and after a zeroize; a staged context has a key of 16 bytes and a
-- prefix of 8 and does not bear the number of the active one; a blocked session has the committed
-- context and sequence 1; an active one has a context, a sequence from 1 on, and no telemetry or 24
-- bytes of it.
pub Reach-IsWellFormed : (m : SessionModel) → Reach initial m → IsWellFormed m
Reach-IsWellFormed m Reach.here = initial-IsWellFormed
Reach-IsWellFormed m (Reach.next {n} r step) = Step-IsWellFormed step (Reach-IsWellFormed n r)
