-- ===== src/Reference/Session/Refinement.antt =====
-- SessionModel against the life of a session: an abstract machine whose states hold only what a
-- session can hold, with the answer to every call in each of them.
use fpga_mcu_trinity.Base.{
  ℕ, ◌+◌, ◌≡◌, refl, arith, Bool, true, false, Option, none, some, List, [], ◌∷◌, length, ◌&&◌,
  ◌==◌, if◌then◌else◌,
}
use fpga_mcu_trinity.Reference.Session.{
  Phase, phase_enum, Context, SessionModel, initial, same_context, names, stage, commit,
  zeroize_session, apply_secure_enable, load, send_complete, Reach,
}
use fpga_mcu_trinity.Reference.Session.WellFormed.{Holds, IsWellFormed, Reach-IsWellFormed}

-- A call of a method of SessionModel.
pub data Call : Type 0 where
  staging : Context → Call
  committing : ℕ → Call
  enabling : Bool → Call
  loading : List ℕ → Call
  sending zeroizing : Call

abbrev pub perform : Call → SessionModel → Option SessionModel
perform (Call.staging context) m = stage context m
perform (Call.committing sid) m = commit sid m
perform (Call.enabling enabled) m = some (apply_secure_enable enabled m)
perform (Call.loading plaintext) m = load plaintext m
perform Call.sending m = send_complete m
perform Call.zeroizing m = some (zeroize_session m)

-- With the telemetry that was loaded last, which outlives the session it was loaded for.
pub data Life : Type 0 where
  idle : Life
  -- With the context that is in force until the offer is committed.
  offered : Context → Option Context → List ℕ → Life
  blocked : Context → List ℕ → Life
  -- With the next sequence number.
  live : Context → ℕ → List ℕ → Life

-- The answer to an offer of a context with a key and a prefix of the right size.
abbrev pub offer : Context → Life → Option Life
offer c Life.idle = some (Life.offered c none [])
offer c (Life.offered d old telemetry) =
    if d.sid == c.sid
    then if same_context d c then some (Life.offered d old telemetry) else none
    else if names c.sid old
    then none
    else some (Life.offered c old telemetry)
offer c (Life.blocked d telemetry) =
    if d.sid == c.sid then none else some (Life.offered c (some d) telemetry)
offer c (Life.live d n telemetry) =
    if d.sid == c.sid then none else some (Life.offered c (some d) telemetry)

-- The answer of the life of a session to a call, `none` for a call that is refused.
abbrev pub turn : Call → Life → Option Life
turn (Call.staging c) l = if length c.key == 16 && length c.prefix == 8 then offer c l else none
turn (Call.committing sid) (Life.offered c old telemetry) =
    if c.sid == sid then some (Life.blocked c telemetry) else none
turn (Call.enabling true) (Life.blocked c telemetry) = some (Life.live c 1 telemetry)
turn (Call.enabling false) (Life.live c n telemetry) = some Life.idle
turn (Call.enabling enabled) l = some l
turn (Call.loading plaintext) (Life.live c n telemetry) =
    if length plaintext == 24 then some (Life.live c n plaintext) else none
turn Call.sending (Life.live c n telemetry) =
    if length telemetry == 24 then some (Life.live c (n + 1) []) else none
turn Call.zeroizing l = some Life.idle
turn _ _ = none

abbrev pub life_of : Phase → Option Context → Option Context → ℕ → List ℕ → Life
life_of Phase.staged (some c) old n telemetry = Life.offered c old telemetry
life_of Phase.blocked staged (some c) n telemetry = Life.blocked c telemetry
life_of Phase.active staged (some c) n telemetry = Life.live c n telemetry
life_of _ _ _ _ _ = Life.idle

abbrev pub life : SessionModel → Life
life m = life_of m.state m.staged m.active m.sequence m.telemetry

abbrev pub life_after : Option SessionModel → Option Life
life_after none = none
life_after (some m) = some (life m)

abbrev session : Phase → Option Context → Option Context → ℕ → List ℕ → SessionModel
session state staged active sequence telemetry = record {
  state = state;
  staged = staged;
  active = active;
  sequence = sequence;
  telemetry = telemetry;
}

stage_offers :
    (c : Context) (state : Phase) (staged active : Option Context) (sequence : ℕ)
    (telemetry : List ℕ)
    → Holds state staged active sequence telemetry
    → life_after (stage c (session state staged active sequence telemetry))
      ≡ turn (Call.staging c) (life_of state staged active sequence telemetry)
unfolding Holds stage
stage_offers c Phase.ready none none sequence [] h = ground arith
stage_offers c Phase.zeroize none none sequence [] h = ground arith
stage_offers c Phase.staged (some d) active sequence telemetry h = ground arith
stage_offers c Phase.blocked none (some d) sequence telemetry h = ground arith
stage_offers c Phase.active none (some d) sequence telemetry h = ground arith
stage_offers c Phase.ready none none sequence (x ∷ xs) h = absurd (omega (arith, h.1))
stage_offers c Phase.zeroize none none sequence (x ∷ xs) h = absurd (omega (arith, h.1))
stage_offers c _ _ _ sequence telemetry h = absurd h

commit_blocks :
    (sid : ℕ) (state : Phase) (staged active : Option Context) (sequence : ℕ) (telemetry : List ℕ)
    → Holds state staged active sequence telemetry
    → life_after (commit sid (session state staged active sequence telemetry))
      ≡ turn (Call.committing sid) (life_of state staged active sequence telemetry)
unfolding Holds commit
commit_blocks sid Phase.ready none none sequence telemetry h = refl
commit_blocks sid Phase.zeroize none none sequence telemetry h = refl
commit_blocks sid Phase.staged (some d) active sequence telemetry h = ground arith
commit_blocks sid Phase.blocked none (some d) sequence telemetry h = refl
commit_blocks sid Phase.active none (some d) sequence telemetry h = refl
commit_blocks sid _ _ _ sequence telemetry h = absurd h

enable_turns :
    (enabled : Bool) (state : Phase) (staged active : Option Context) (sequence : ℕ)
    (telemetry : List ℕ)
    → Holds state staged active sequence telemetry
    → some (life (apply_secure_enable enabled (session state staged active sequence telemetry)))
      ≡ turn (Call.enabling enabled) (life_of state staged active sequence telemetry)
unfolding Holds apply_secure_enable zeroize_session
enable_turns true Phase.blocked none (some d) sequence telemetry h = ground (arith, h.1)
enable_turns false Phase.blocked none (some d) sequence telemetry h = refl
enable_turns true Phase.active none (some d) sequence telemetry h = refl
enable_turns false Phase.active none (some d) sequence telemetry h = refl
enable_turns true Phase.ready none none sequence telemetry h = refl
enable_turns false Phase.ready none none sequence telemetry h = refl
enable_turns true Phase.zeroize none none sequence telemetry h = refl
enable_turns false Phase.zeroize none none sequence telemetry h = refl
enable_turns true Phase.staged (some d) active sequence telemetry h = refl
enable_turns false Phase.staged (some d) active sequence telemetry h = refl
enable_turns _ _ _ _ sequence telemetry h = absurd h

load_turns :
    (plaintext : List ℕ) (state : Phase) (staged active : Option Context) (sequence : ℕ)
    (telemetry : List ℕ)
    → Holds state staged active sequence telemetry
    → life_after (load plaintext (session state staged active sequence telemetry))
      ≡ turn (Call.loading plaintext) (life_of state staged active sequence telemetry)
unfolding Holds load
load_turns plaintext Phase.ready none none sequence telemetry h = refl
load_turns plaintext Phase.zeroize none none sequence telemetry h = refl
load_turns plaintext Phase.staged (some d) active sequence telemetry h = refl
load_turns plaintext Phase.blocked none (some d) sequence telemetry h = refl
load_turns plaintext Phase.active none (some d) sequence telemetry h = ground arith
load_turns plaintext _ _ _ sequence telemetry h = absurd h

send_counts :
    (state : Phase) (staged active : Option Context) (sequence : ℕ) (telemetry : List ℕ)
    → Holds state staged active sequence telemetry
    → life_after (send_complete (session state staged active sequence telemetry))
      ≡ turn Call.sending (life_of state staged active sequence telemetry)
unfolding Holds send_complete
send_counts Phase.ready none none sequence telemetry h = refl
send_counts Phase.zeroize none none sequence telemetry h = refl
send_counts Phase.staged (some d) active sequence telemetry h = refl
send_counts Phase.blocked none (some d) sequence telemetry h = refl
send_counts Phase.active none (some d) sequence telemetry h = ground arith
send_counts _ _ _ sequence telemetry h = absurd h

zeroize_ends : (m : SessionModel) → some (life (zeroize_session m)) ≡ some Life.idle
unfolding zeroize_session
zeroize_ends m = refl

perform_turns :
    (call : Call) (m : SessionModel)
    → IsWellFormed m
    → life_after (perform call m) ≡ turn call (life m)
perform_turns (Call.staging c) m h =
    stage_offers c m.state m.staged m.active m.sequence m.telemetry h.holds
perform_turns (Call.committing sid) m h =
    commit_blocks sid m.state m.staged m.active m.sequence m.telemetry h.holds
perform_turns (Call.enabling enabled) m h =
    enable_turns enabled m.state m.staged m.active m.sequence m.telemetry h.holds
perform_turns (Call.loading plaintext) m h =
    load_turns plaintext m.state m.staged m.active m.sequence m.telemetry h.holds
perform_turns Call.sending m h =
    send_counts m.state m.staged m.active m.sequence m.telemetry h.holds
perform_turns Call.zeroizing m h = zeroize_ends m

-- Whatever is called, on a session that calls from a new one have led to, is answered as the life of
-- the session answers it, and is refused exactly if that refuses it. A context with a key of 16 bytes
-- and a prefix of 8 is offered, beside the committed one and in place of an earlier offer, unless its
-- number is that of the committed one or of another context on offer; the very context on offer
-- changes nothing. A commit of the number on offer blocks the session, and no other commit is taken.
-- Enabling a blocked session makes it live with sequence 1, disabling a live one ends it, and any
-- other switch changes nothing. Only a live session takes telemetry, of 24 bytes, and only one with 24
-- bytes sends: the sequence goes up by one and the telemetry is dropped. zeroize ends any session.
pub life-perform :
    (call : Call) (m : SessionModel)
    → Reach initial m
    → life_after (perform call m) ≡ turn call (life m)
life-perform call m r = perform_turns call m (Reach-IsWellFormed m r)
