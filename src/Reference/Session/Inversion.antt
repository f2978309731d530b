-- ===== src/Reference/Session/Inversion.antt =====
-- SessionModel: what a call that is let pass has tested, and what it leaves.
use fpga_mcu_trinity.Base.{
  ℕ, ◌+◌, ◌≡◌, ◌⊎◌, inl, inr, sym, ap, ◌∙◌, arith, true, false, Bool-cases, Option, none, some,
  List, [], length, not, ◌&&◌, ◌==◌,
}
use fpga_mcu_trinity.Base.Enum.{same, same→eq}
use fpga_mcu_trinity.Reference.Session.{
  Phase, phase_enum, Context, SessionModel, same_context, names, stage_again, stage, commit, load,
  send_complete,
}

-- A key of 16 bytes and a prefix of 8.
pub record Fits (context : Context) : Type 0 where
  pub key : length context.key ≡ 16
  pub prefix : length context.prefix ≡ 8

stage_again_same :
    (m n : SessionModel) (before : Option Context) (context : Context)
    → stage_again m before context ≡ some n
    → m ≡ n
stage_again_same m n none context e = cc
stage_again_same m n (some before) context e = elim (Bool-cases (same_context before context)) [
  | inl t ↦ ground (arith, t, e)
  | inr t ↦ absurd (ground (arith, t, e))
]

-- What a call of stage that is let pass has tested, and what it leaves.
pub stage_inversion :
    (context : Context) (m n : SessionModel)
    → stage context m ≡ some n
    → Fits context
      × ((m ≡ n)
          ⊎ ((names context.sid m.staged ≡ false)
              × (names context.sid m.active ≡ false)
              × (record m { staged = some context; state = Phase.staged } ≡ n)))
unfolding stage
stage_inversion context m n e =
    elim (Bool-cases (not (length context.key == 16 && length context.prefix == 8))) [
      | inl t ↦ absurd (ground (arith, t, e))
      | inr t ↦ (
        record { key = ground (arith, t); prefix = ground (arith, t) },
        elim (Bool-cases (names context.sid m.staged)) [
          | inl u ↦ inl (stage_again_same m n m.staged context (ground (arith, t, u, e)))
          | inr u ↦ elim (Bool-cases (names context.sid m.active)) [
            | inl v ↦ absurd (ground (arith, t, u, v, e))
            | inr v ↦ inr (u, v, ground (arith, t, u, v, e))
          ]
        ],
      )
    ]

pub commit_inversion :
    (sid : ℕ) (m n : SessionModel)
    → commit sid m ≡ some n
    → (names sid m.staged ≡ true)
      × (record m { active = m.staged; staged = none; sequence = 1; state = Phase.blocked } ≡ n)
unfolding commit
commit_inversion sid m n e = elim (Bool-cases (names sid m.staged)) [
  | inl t ↦ (t, ground (arith, t, e))
  | inr t ↦ absurd (ground (arith, t, e))
]

pub load_inversion :
    (plaintext : List ℕ) (m n : SessionModel)
    → load plaintext m ≡ some n
    → (same m.state Phase.active ≡ true)
      × (length plaintext ≡ 24)
      × (record m { state = Phase.active; telemetry = plaintext } ≡ n)
unfolding load
load_inversion plaintext m n e =
    elim (Bool-cases (same m.state Phase.active && length plaintext == 24)) [
      | inl t ↦ (
        ground (arith, t),
        ground (arith, t),
        ap (λ (p : Phase). record m { state = p; telemetry = plaintext })
              (sym (same→eq m.state Phase.active (ground (arith, t))))
            ∙ ground (arith, t, e),
      )
      | inr t ↦ absurd (ground (arith, t, e))
    ]

pub send_inversion :
    (m n : SessionModel)
    → send_complete m ≡ some n
    → (same m.state Phase.active ≡ true)
      × (length m.telemetry ≡ 24)
      × (record m { state = Phase.active; sequence = m.sequence + 1; telemetry = [] } ≡ n)
unfolding send_complete
send_inversion m n e = elim (Bool-cases (same m.state Phase.active && length m.telemetry == 24)) [
  | inl t ↦ (
    ground (arith, t),
    ground (arith, t),
    ap (λ (p : Phase). record m { state = p; sequence = m.sequence + 1; telemetry = [] })
          (sym (same→eq m.state Phase.active (ground (arith, t))))
        ∙ ground (arith, t, e),
  )
  | inr t ↦ absurd (ground (arith, t, e))
]
