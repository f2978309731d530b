-- ===== src/Client/Fuel.antt =====
-- The loops of request: _read_wire_frame inside the loop over events, and how many reads the
-- deadline leaves room for.
use fpga_mcu_trinity.Base.{
  ℕ, zero, suc, ◌+◌, ◌-◌, ◌<◌, ◌≡◌, ◌≢◌, refl, sym, subst, arith, Bool, true, false, Bool-cases,
  Option, none, some, String, List, [], ◌∷◌, ◌++◌, length, ◌==◌, ltb, leb, if◌then◌else◌, inl, inr,
}
use fpga_mcu_trinity.Protocol.Errors.{
  Exception, Result, host_protocol_error, ok, err, timeout_error, out_of_fuel,
}
use fpga_mcu_trinity.Protocol.Constants.Flags.{FrameFlags, frame_flags_enum}
use fpga_mcu_trinity.Protocol.Types.{EventEnvelope, decode_event, event_type, source}
use fpga_mcu_trinity.Protocol.Frame.{HostFrame, check_flags, encode_raw, encode_wire, decode_wire}
use fpga_mcu_trinity.Protocol.Frame.Wire.{decode_wire_errors}
use fpga_mcu_trinity.Exec.{Exec, raise, raise_if, try_except, continue, handle_with, ◌>>=◌}
use fpga_mcu_trinity.Exec.Runs.{
  Runs, Runs-weaken, Runs-zero, Runs-lift, Runs-if, Runs-bind, continue-Runs,
}
use fpga_mcu_trinity.Client.Port.{Port, IsTimed}
use fpga_mcu_trinity.Client.Response.{has_flag, check_response, remote_error_kind}
use fpga_mcu_trinity.Client.Transport.{
  Client, on_port, monotonic, allocate_txid, receive, or_none, event_or_raise, read_round,
  read_wire_frame, call_handler, handle_event, await_response, send_request, request, is_timeout,
  timed_out,
}

module _ {S A : Type 0} (left : S → ℕ) {k : ℕ} where
  handle_runs :
      (x : Result A) (s : S)
      → x ≢ err out_of_fuel
      → ((a : A) → x ≡ ok a → left s < k)
      → ((handle_with is_timeout (λ e. raise timed_out) x s).0 ≢ err out_of_fuel)
        × ((b : A)
            → (handle_with is_timeout (λ e. raise timed_out) x s).0 ≡ ok b
            → left (handle_with is_timeout (λ e. raise timed_out) x s).1 < k)
  handle_runs (ok a) s h l = (h, l)
  handle_runs (err e) s h l = elim (Bool-cases (is_timeout e)) [
    | inl t ↦ rw t (λ q. ground (arith), λ b q. ground arith)
    | inr t ↦ rw t (h, l)
  ]

module _ {S A : Type 0} {left : S → ℕ} {n k : ℕ} where
  -- A read that times out raises another TimeoutError.
  Runs-timeout :
      {m : Exec S A}
      → Runs left n k m
      → Runs left n k (try_except m is_timeout (λ e. raise timed_out))
  unfolding try_except
  Runs-timeout {m} r = record {
    returns = λ s b. (handle_runs left (m s).0 (m s).1 (r.returns s b) (r.below s b)).0;
    below = λ s b. (handle_runs left (m s).0 (m s).1 (r.returns s b) (r.below s b)).1;
  }

check_response_returns :
    (command txid : ℕ) (frame : HostFrame) → check_response command txid frame ≢ err out_of_fuel
unfolding check_response
check_response_returns command txid frame e = ground (arith, remote_error_kind frame)

event_returns : (payload : List ℕ) → event_or_raise (decode_event payload) ≢ err out_of_fuel
unfolding decode_event event_type source
event_returns payload q = ground arith

or_none_returns :
    (r : Result HostFrame)
    → ((e : Exception) → r ≡ err e → e ≢ out_of_fuel)
    → or_none r ≢ err out_of_fuel
or_none_returns (ok f) h q = cc (q)
or_none_returns (err e) h q = h e refl (cc (q))

decode_wire_returns : (wire : List ℕ) → or_none (decode_wire wire) ≢ err out_of_fuel
decode_wire_returns wire =
    or_none_returns (decode_wire wire) λ e q z. ground (arith, decode_wire_errors wire e q)

module _ {W : Type 0} (port : Port W) (rounds : ℕ → W → ℕ) (timed : IsTimed port rounds)
    (d : ℕ) where
  abbrev left : Client W → ℕ
  left s = rounds d s.world

  kept_if :
      {A : Type 0} (b : Bool) (x y : Result A × Client W) (s : Client W)
      → ((x.0 ≢ err out_of_fuel) × (left x.1 ≡ left s))
      → ((y.0 ≢ err out_of_fuel) × (left y.1 ≡ left s))
      → (((if b then x else y).0 ≢ err out_of_fuel) × (left (if b then x else y).1 ≡ left s))
  kept_if true x y s hx hy = hx
  kept_if false x y s hx hy = hy

  receive_returns :
      (chunk : Option ℕ) (s : Client W)
      → ((receive port chunk s).0 ≢ err out_of_fuel) × (left (receive port chunk s).1 ≡ left s)
  unfolding receive
  receive_returns none s = (λ e. ground arith, refl)
  receive_returns (some v) s =
      kept_if (v == 0) _ _ s (decode_wire_returns (s.rx ++ (v ∷ [])), refl)
        (kept_if (ltb 272 (length (s.rx ++ (v ∷ [])))) _ _ s (λ e. ground arith, refl)
          (λ e. ground arith, refl))

  receive-Runs : (n : ℕ) (chunk : Option ℕ) → Runs left n n (receive port chunk)
  receive-Runs n chunk = record {
    returns = λ s b. (receive_returns chunk s).0;
    below = λ s b a e. omega (arith, (receive_returns chunk s).1);
  }

  module _ (s : Client W) where
    abbrev now : ℕ
    now = (port.monotonic s.world).0

    abbrev after_read : Client W
    after_read = record s { world = (port.read (port.monotonic s.world).1).1 }

    abbrev too_late : Exception
    too_late = timeout_error "timed out waiting for SN32 response"

    round_late :
        leb d now ≡ true
        → read_round port d s ≡ (err too_late, record s { world = (port.monotonic s.world).1 })
    unfolding read_round monotonic ◌>>=◌
    round_late h = rw h

    round_early :
        leb d now ≡ false
        → read_round port d s
          ≡ continue (port.read (port.monotonic s.world).1).0 (receive port) after_read
    unfolding read_round monotonic ◌>>=◌
    round_early h = rw h

    read_shrinks : leb d now ≡ false → left after_read < left s
    read_shrinks h = timed.read d s.world (ground arith)

  Outcome : ℕ → Result (Option HostFrame) × Client W → Type 0
  Outcome n x = (x.0 ≢ err out_of_fuel) × ((a : Option HostFrame) → x.0 ≡ ok a → left x.1 < n)

  read_round-Outcome : (n : ℕ) (s : Client W) → left s < suc n → Outcome n (read_round port d s)
  unfolding Outcome
  read_round-Outcome n s b = elim (Bool-cases (leb d (now s))) [
    | inl h ↦ subst (Outcome n) (sym (round_late s h)) (λ e. ground arith, λ a e. ground arith)
    | inr h ↦ subst (Outcome n) (sym (round_early s h)) (
        continue-Runs (port.read (port.monotonic s.world).1).0 (after_read s) (receive port)
          (timed.read_raises _) (λ a e. omega (arith, read_shrinks s h)) (receive-Runs n))
  ]

  read_round-Runs : (n : ℕ) → Runs left (suc n) n (read_round port d)
  unfolding Outcome
  read_round-Runs n = record {
    returns = λ s b. (read_round-Outcome n s b).0;
    below = λ s b. (read_round-Outcome n s b).1;
  }

  read_wire_frame-Runs : (fuel : ℕ) → Runs left fuel (fuel - 1) (read_wire_frame port fuel d)
  unfolding read_wire_frame
  read_wire_frame-Runs zero = Runs-zero
  read_wire_frame-Runs (suc fuel) = Runs-bind (read_round port d) _ (read_round-Runs fuel) (elim [
    | some frame ↦ Runs-weaken (omega arith) (Runs-lift (ok frame) (λ e. ground arith))
    | none ↦ Runs-weaken (omega arith) (read_wire_frame-Runs fuel)
  ])

  read_frame-Runs : (fuel : ℕ) → Runs left (suc fuel) fuel (read_wire_frame port (suc fuel) d)
  read_frame-Runs fuel = Runs-weaken (omega arith) (read_wire_frame-Runs (suc fuel))

  raise_if-Runs :
      (n : ℕ) (b : Bool) (m : String) → Runs left n n (raise_if b (host_protocol_error m))
  raise_if-Runs n true m = Runs-lift (err (host_protocol_error m)) (λ e. ground arith)
  raise_if-Runs n false m = Runs-lift (ok tt) (λ e. ground arith)

  call_handler-Runs :
      (n : ℕ) (event : EventEnvelope) (handler : Option (EventEnvelope → Exec W (Unit {0})))
      → port.event_handler ≡ handler
      → Runs left n n (call_handler port handler event)
  call_handler-Runs n event none e = Runs-lift (ok tt) (λ e. ground arith)
  call_handler-Runs n event (some f) e = record {
    returns = λ s b. timed.callback_raises f event s.world e;
    below = λ s b a q. omega (arith, timed.callback d f event s.world e);
  }

  handle_event-Runs : (n : ℕ) (frame : HostFrame) → Runs left n n (handle_event port frame)
  unfolding handle_event
  handle_event-Runs n frame = Runs-bind _ _ (raise_if-Runs n _ _) λ _.
      Runs-bind _ _ (raise_if-Runs n _ _) λ _. Runs-bind _ _ (raise_if-Runs n _ _) λ _.
        Runs-bind _ _ (Runs-lift _ (event_returns frame.payload))
          λ event. call_handler-Runs n event port.event_handler refl

  await_response-Runs :
      (fuel command txid : ℕ) → Runs left fuel fuel (await_response port fuel d command txid)
  unfolding await_response
  await_response-Runs zero command txid = Runs-zero
  await_response-Runs (suc fuel) command txid =
      Runs-bind _ _ (Runs-timeout (read_frame-Runs fuel)) λ frame.
        Runs-if (has_flag frame.flags FrameFlags.event) _ _
          (Runs-weaken (omega arith) (
            Runs-bind (handle_event port frame) _ (handle_event-Runs fuel frame)
              λ _. await_response-Runs fuel command txid))
          (Runs-weaken (omega arith) (
            Runs-lift (check_response command txid frame)
              (check_response_returns command txid frame)))

encode_wire_returns : (f : HostFrame) → encode_wire f ≢ err out_of_fuel
unfolding encode_wire encode_raw check_flags
encode_wire_returns f e = ground arith

module _ {W : Type 0} (port : Port W) (rounds : ℕ → W → ℕ) (timed : IsTimed port rounds) where
  idle : Client W → ℕ
  idle s = 0

  port-Runs :
      {A : Type 0} (m : Exec W A)
      → ((w : W) → (m w).0 ≢ err out_of_fuel)
      → Runs idle 1 1 (on_port port m)
  unfolding idle
  port-Runs m h = record { returns = λ s b. h s.world; below = λ s b a e. b }

  raise_if-idle : (b : Bool) (m : String) → Runs idle 1 1 (raise_if b (host_protocol_error m))
  raise_if-idle true m = Runs-lift (err (host_protocol_error m)) (λ e. ground arith)
  raise_if-idle false m = Runs-lift (ok tt) (λ e. ground arith)

  send_request-Runs :
      (command : ℕ) (payload : List ℕ) → Runs idle 1 1 (send_request port command payload)
  unfolding send_request allocate_txid idle
  send_request-Runs command payload =
      Runs-bind _ _ (record { returns = λ s b e. ground arith; below = λ s b a e. b })
        λ txid. Runs-bind _ _ (Runs-lift _ (encode_wire_returns _)) λ encoded.
          Runs-bind _ _ (port-Runs (port.write encoded) (timed.write_raises encoded)) λ written.
            Runs-bind _ _ (raise_if-idle _ _) λ _.
              Runs-bind _ _ (port-Runs port.flush timed.flush_raises)
                λ _. Runs-lift (ok txid) (λ e. ground arith)

  -- Over a port whose reads take time, and with more fuel than the reads that fit in one
  -- timeout from whatever moment it starts, request never runs out of fuel: it returns a
  -- frame or raises one of the source's own exceptions.
  pub request_returns :
      (fuel command : ℕ) (payload : List ℕ) (timeout : ℕ) (s : Client W)
      → ((w : W) → rounds ((port.monotonic w).0 + timeout) w < fuel)
      → (request port fuel command payload timeout s).0 ≢ err out_of_fuel
  unfolding request ◌>>=◌ monotonic idle
  request_returns fuel command payload timeout s long =
      let sent = (send_request port command payload s) in
      (continue-Runs {left = idle} {n = 1} {k = 1} sent.0 sent.1 _
        ((send_request-Runs command payload).returns s (omega arith)) (λ a e. omega arith)
        λ txid. record {
          returns = λ t b.
              (await_response-Runs port rounds timed ((port.monotonic t.world).0 + timeout) fuel
                  command txid).returns
                (record t { world = (port.monotonic t.world).1 })
                (omega (
                  arith,
                  long t.world,
                  timed.clock ((port.monotonic t.world).0 + timeout) t.world,
                ));
          below = λ t b a e. omega arith;
        }).0
