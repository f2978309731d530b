-- ===== src/Client/Answer.antt =====
-- request: the frame that it returns against the request that was sent.
use fpga_mcu_trinity.Base.{
  ℕ, zero, suc, ◌+◌, ◌-◌, ◌<◌, ◌≡◌, sym, ◌∙◌, ap, subst, arith, Bool, true, false, Option, none,
  some, List, [], ◌∷◌, ◌++◌, length, take, contains, ltb, ◌==◌, ◌!=◌, if◌then◌else◌,
}
use fpga_mcu_trinity.Base.Enum.{int}
use fpga_mcu_trinity.Protocol.Constants.Flags.{FrameFlags, frame_flags_enum}
use fpga_mcu_trinity.Protocol.Errors.{Exception, Result, ok, err, out_of_fuel}
use fpga_mcu_trinity.Protocol.Errors
use fpga_mcu_trinity.Protocol.Frame.{HostFrame, decode_raw, decode_wire, or_malformed}
use fpga_mcu_trinity.Protocol.Frame.Host.{decode_raw_inversion}
use fpga_mcu_trinity.Protocol.Cobs.{cobs_decode}
use fpga_mcu_trinity.Protocol.Constants.Codes.{ErrorCode}
use fpga_mcu_trinity.Protocol.Pack.{byte_at}
use fpga_mcu_trinity.Exec.{act, >>=-returns}
use fpga_mcu_trinity.Exec.Yields.{
  Yields, Yields-bind, Yields-next, Yields-if, Yields-lift, Yields-except, Yields-raise,
}
use fpga_mcu_trinity.Client.Port.{Port}
use fpga_mcu_trinity.Client.Response.{has_flag, check_response, check_response_iff}
use fpga_mcu_trinity.Client.Transport.{
  Client, allocate_txid, monotonic, receive, or_none, timed_out, handle_event, read_round,
  read_wire_frame, await_response, send_request, request,
}

decode_raw_flags : (raw : List ℕ) (f : HostFrame) → decode_raw raw ≡ ok f → f.flags < 16
decode_raw_flags raw f e =
    let (h, same) = decode_raw_inversion raw f e in
    subst (λ (g : HostFrame). g.flags < 16) (sym same) h.flags

record Returns {A : Type 0} (Q : A → Type 0) (r : Result A) : Type 0 where
  value : (a : A) → r ≡ ok a → Q a

module _ {A B : Type 0} {Q : B → Type 0} where
  Returns-next :
      (m : Result A) (f : A → Result B) → ((a : A) → Returns Q (f a)) → Returns Q (Errors.◌>>=◌ m f)
  Returns-next (ok a) f h = h a
  Returns-next (err x) f h = record { value = λ b e. absurd (ground arith) }

HasKnownFlags : HostFrame → Type 0
HasKnownFlags frame = frame.flags < 16

decode_wire_known : (wire : List ℕ) → Returns HasKnownFlags (decode_wire wire)
unfolding decode_wire HasKnownFlags
decode_wire_known wire =
    Returns-next
      (Errors.raise_if (if length wire == 0 then true else byte_at wire (length wire - 1) != 0)
        (Errors.protocol_decode_error ErrorCode.malformed_frame "missing COBS delimiter"))
      _
      λ _.
        Returns-next
          (Errors.raise_if (contains 0 (take (length wire - 1) wire)) (
            Errors.protocol_decode_error ErrorCode.malformed_frame
              "multiple delimiters in one frame"))
          _
          λ _.
            Returns-next (or_malformed (cobs_decode (take (length wire - 1) wire))) _
              λ raw. record { value = decode_raw_flags raw }

-- What a round of reading yields, if anything.
FoundKnown : Option HostFrame → Type 0
FoundKnown none = Unit {0}
FoundKnown (some frame) = frame.flags < 16

or_none_found :
    (r : Result HostFrame) (found : Option HostFrame)
    → ((f : HostFrame) → r ≡ ok f → f.flags < 16)
    → or_none r ≡ ok found
    → FoundKnown found
unfolding FoundKnown
or_none_found r none h e = tt
or_none_found (ok g) (some f) h e = h f (ground (arith, e))
or_none_found (err x) (some f) h e = absurd (ground (arith, e))

found_if :
    {W : Type 0} (s s' s'' : Client W) (x : Exception) (b b' : Bool) (r : Result HostFrame)
    → Returns HasKnownFlags r
    → (found : Option HostFrame)
    → (if◌then◌else◌ {A = Result (Option HostFrame) × Client W} b
        (or_none r, s)
        (if b' then (err x, s') else (ok none, s''))).0
      ≡ ok found
    → FoundKnown found
unfolding FoundKnown HasKnownFlags
found_if s s' s'' x true b' r h found e = or_none_found r found h.value e
found_if s s' s'' x false true r h found e = absurd (ground arith)
found_if s s' s'' x false false r h none e = tt
found_if s s' s'' x false false r h (some f) e = absurd (ground arith)

-- A frame that answers the command that was sent under `txid`.
pub record IsAnswer (sent txid : ℕ) (frame : HostFrame) : Type 0 where
  pub command : frame.command ≡ sent
  pub transaction_id : frame.transaction_id ≡ txid
  pub flags : frame.flags ≡ int FrameFlags.response

checked :
    (command txid : ℕ) (frame : HostFrame)
    → HasKnownFlags frame
    → (reply : HostFrame) → check_response command txid frame ≡ ok reply
    → IsAnswer command txid reply
unfolding HasKnownFlags
checked command txid frame h reply e =
    let (same, c, t, f) = (check_response_iff command txid frame reply h).0 e in
    subst (IsAnswer command txid) (sym same) (record { command = c; transaction_id = t; flags = f })

value_of : {S : Type 0} {a b : ℕ} {s t : S} → ◌≡◌ {A = Result ℕ × S} (ok a, s) (ok b, t) → b ≡ a
value_of e = ground (arith, e)

module _ {W : Type 0} (port : Port W) where
  receive_found : (chunk : Option ℕ) → Yields FoundKnown (receive port chunk)
  unfolding receive FoundKnown
  receive_found none = record {
    holds = λ s. elim [ none ↦ λ e. tt | some f ↦ λ e. absurd (ground (arith, e)) ];
  }
  receive_found (some v) = record {
    holds = λ s.
        found_if _ _ _ _ (v == 0) (ltb 272 (length (s.rx ++ (v ∷ []))))
          (decode_wire (s.rx ++ (v ∷ []))) (decode_wire_known (s.rx ++ (v ∷ [])));
  }

  read_round_found : (deadline : ℕ) → Yields FoundKnown (read_round port deadline)
  unfolding read_round
  read_round_found deadline =
      Yields-next _ _ λ _. Yields-next _ _ λ _. Yields-next _ _ λ chunk. receive_found chunk

  read_wire_frame_known :
      (fuel deadline : ℕ) → Yields HasKnownFlags (read_wire_frame port fuel deadline)
  unfolding read_wire_frame HasKnownFlags FoundKnown
  read_wire_frame_known zero deadline =
      Yields-lift (err out_of_fuel) λ a e. absurd (ground (arith, e))
  read_wire_frame_known (suc fuel) deadline =
      Yields-bind (read_round port deadline) _ (read_round_found deadline) (elim [
        | some frame ↦ λ h. Yields-lift (ok frame) λ a e. ground (arith, e)
        | none ↦ λ h. read_wire_frame_known fuel deadline
      ])

  await_response-IsAnswer :
      (fuel deadline command txid : ℕ)
      → Yields (IsAnswer command txid) (await_response port fuel deadline command txid)
  unfolding await_response
  await_response-IsAnswer zero deadline command txid =
      Yields-lift (err out_of_fuel) λ a e. absurd (ground (arith, e))
  await_response-IsAnswer (suc fuel) deadline command txid =
      Yields-bind {P = HasKnownFlags} _ _
        (Yields-except _ _ _ (read_wire_frame_known (suc fuel) deadline)
          λ e. Yields-raise timed_out)
        λ frame h.
          Yields-if (has_flag frame.flags FrameFlags.event) _ _
            (Yields-next (handle_event port frame) _
              λ _. await_response-IsAnswer fuel deadline command txid)
            (Yields-lift (check_response command txid frame) (checked command txid frame h))

  sent_txid :
      (command : ℕ) (payload : List ℕ) (s t : Client W) (txid : ℕ)
      → send_request port command payload s ≡ (ok txid, t)
      → txid ≡ s.next_transaction_id
  unfolding send_request allocate_txid
  sent_txid command payload s t txid e =
      let (n, u, first, rest) = >>=-returns (allocate_txid port) _ s t txid e in
      let (_, s1, _, e1) = >>=-returns _ _ u t txid rest in
      let (_, s2, _, e2) = >>=-returns _ _ s1 t txid e1 in
      let (_, s3, _, e3) = >>=-returns _ _ s2 t txid e2 in
      let (_, s4, _, e4) = >>=-returns _ _ s3 t txid e3 in value_of e4 ∙ value_of first

  -- A frame that request returns carries the command that was sent, the transaction ID that the
  -- client had next, and RESPONSE as its only flag.
  pub request-IsAnswer :
      (fuel command : ℕ) (payload : List ℕ) (timeout : ℕ) (s t : Client W) (frame : HostFrame)
      → request port fuel command payload timeout s ≡ (ok frame, t)
      → IsAnswer command s.next_transaction_id frame
  unfolding request
  request-IsAnswer fuel command payload timeout s t frame e =
      let (txid, s1, sent, e1) = >>=-returns (send_request port command payload) _ s t frame e in
      let (now, s2, _, e2) = >>=-returns (act (monotonic port)) _ s1 t frame e1 in
      subst (λ (n : ℕ). IsAnswer command n frame) (sent_txid command payload s s1 txid sent)
        ((await_response-IsAnswer fuel (now + timeout) command txid).holds s2 frame
          (ap (λ (p : Result HostFrame × Client W). p.0) e2))
