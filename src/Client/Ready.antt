-- ===== src/Client/Ready.antt =====
-- What every call leaves true of the client, of its receive buffer and the next transaction ID.
use fpga_mcu_trinity.Base.{
  ℕ, zero, suc, ◌+◌, ◌≤◌, arith, Option, none, some, List, [], ◌∷◌, length, length-append,
}
use fpga_mcu_trinity.Protocol.Errors.{out_of_fuel}
use fpga_mcu_trinity.Protocol.Types.{EventEnvelope}
use fpga_mcu_trinity.Protocol.Frame.{HostFrame}
use fpga_mcu_trinity.Protocol.Constants.Flags.{FrameFlags, frame_flags_enum}
use fpga_mcu_trinity.Exec.{Exec}
use fpga_mcu_trinity.Exec.Preserves.{
  Preserves, Preserves-pure, Preserves-raise, Preserves-lift, Preserves-act, Preserves-raise_if,
  Preserves-if, Preserves-bind, Preserves-try_except,
}
use fpga_mcu_trinity.Client.Port.{Port}
use fpga_mcu_trinity.Client.Response.{has_flag, check_response}
use fpga_mcu_trinity.Client.Transport.{
  Client, on_port, receive, read_round, read_wire_frame, call_handler, handle_event, await_response,
  send_request, request,
}
use fpga_mcu_trinity.Client.Txid.{IsTxid, next_txid-IsTxid}

pub record IsReady {W : Type 0} (s : Client W) : Type 0 where
  pub bounded : length s.rx ≤ 272
  pub txid : IsTxid s.next_transaction_id

module _ {W : Type 0} (port : Port W) where
  receive-IsReady : (chunk : Option ℕ) (s : Client W) → IsReady s → IsReady (receive port chunk s).1
  unfolding receive
  receive-IsReady none s h = h
  receive-IsReady (some v) s h = ground (arith, length-append s.rx (v ∷ []))

  on_port-IsReady : {A : Type 0} (m : Exec W A) → Preserves IsReady (on_port port m)
  on_port-IsReady m = record { at = λ s h. record { bounded = h.bounded; txid = h.txid } }

  read_round-IsReady : (deadline : ℕ) → Preserves IsReady (read_round port deadline)
  unfolding read_round
  read_round-IsReady deadline =
      Preserves-bind _ _ (Preserves-act _ λ s h. record { bounded = h.bounded; txid = h.txid })
        λ now. Preserves-bind _ _ (Preserves-raise_if _ _) λ _.
          Preserves-bind _ _ (on_port-IsReady port.read)
            λ chunk. record { at = receive-IsReady chunk }

  read_wire_frame-IsReady :
      (fuel deadline : ℕ) → Preserves IsReady (read_wire_frame port fuel deadline)
  unfolding read_wire_frame
  read_wire_frame-IsReady zero deadline = Preserves-raise out_of_fuel
  read_wire_frame-IsReady (suc fuel) deadline =
      Preserves-bind (read_round port deadline) _ (read_round-IsReady deadline)
        (elim [ some frame ↦ Preserves-pure frame | none ↦ read_wire_frame-IsReady fuel deadline ])

  call-IsReady :
      (event : EventEnvelope) (handler : Option (EventEnvelope → Exec W (Unit {0})))
      → Preserves IsReady (call_handler port handler event)
  call-IsReady event none = Preserves-pure tt
  call-IsReady event (some f) = on_port-IsReady (f event)

  handle_event-IsReady : (frame : HostFrame) → Preserves IsReady (handle_event port frame)
  unfolding handle_event
  handle_event-IsReady frame = Preserves-bind _ _ (Preserves-raise_if _ _) λ _.
      Preserves-bind _ _ (Preserves-raise_if _ _) λ _.
        Preserves-bind _ _ (Preserves-raise_if _ _)
          λ _. Preserves-bind _ _ (Preserves-lift _) λ event. call-IsReady event port.event_handler

  await_response-IsReady :
      (fuel deadline command txid : ℕ)
      → Preserves IsReady (await_response port fuel deadline command txid)
  unfolding await_response
  await_response-IsReady zero deadline command txid = Preserves-raise out_of_fuel
  await_response-IsReady (suc fuel) deadline command txid =
      Preserves-bind _ _
        (Preserves-try_except _ _ _ (read_wire_frame-IsReady (suc fuel) deadline)
          λ e. Preserves-raise _)
        λ frame.
          Preserves-if (has_flag frame.flags FrameFlags.event) _ _
            (Preserves-bind _ _ (handle_event-IsReady frame)
              λ _. await_response-IsReady fuel deadline command txid)
            (Preserves-lift (check_response command txid frame))

  send_request-IsReady :
      (command : ℕ) (payload : List ℕ) → Preserves IsReady (send_request port command payload)
  unfolding send_request
  send_request-IsReady command payload =
      Preserves-bind _ _
        (record {
          at = λ s h. record {
            bounded = h.bounded;
            txid = next_txid-IsTxid s.next_transaction_id h.txid;
          };
        })
        λ txid. Preserves-bind _ _ (Preserves-lift _) λ encoded.
          Preserves-bind _ _ (on_port-IsReady (port.write encoded)) λ written.
            Preserves-bind _ _ (Preserves-raise_if _ _)
              λ _. Preserves-bind _ _ (on_port-IsReady port.flush) λ _. Preserves-pure txid

  -- If the receive buffer holds at most 272 bytes and the next transaction ID is between 1
  -- and 0xFFFF before a request, then also after it, whether it returns or raises.
  pub request-IsReady :
      (fuel command : ℕ) (payload : List ℕ) (timeout : ℕ)
      → Preserves IsReady (request port fuel command payload timeout)
  unfolding request
  request-IsReady fuel command payload timeout =
      Preserves-bind _ _ (send_request-IsReady command payload) λ txid.
        Preserves-bind _ _ (Preserves-act _ λ s h. record { bounded = h.bounded; txid = h.txid })
          λ now. await_response-IsReady fuel (now + timeout) command txid
