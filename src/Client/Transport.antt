-- ===== src/Client/Transport.antt =====
-- TrinitySerialClient: transaction IDs, the receive buffer, events, and the request loop.
use fpga_mcu_trinity.Base.{
  ℕ, zero, suc, ◌+◌, Bool, true, false, Option, none, some, List, [], ◌∷◌, ◌++◌, length, bit_and,
  ltb, leb, ◌==◌, ◌!=◌, if◌then◌else◌,
}
use fpga_mcu_trinity.Base.Enum.{int}
use fpga_mcu_trinity.Protocol.Constants.{protocol_version}
use fpga_mcu_trinity.Protocol.Constants.Commands.{HostCommand, host_command_enum}
use fpga_mcu_trinity.Protocol.Constants.Flags.{FrameFlags, frame_flags_enum}
use fpga_mcu_trinity.Protocol.Errors.{
  Exception, Result, ok, err, host_protocol_error, timeout_error, out_of_fuel, struct_error,
  is_value_error,
}
use fpga_mcu_trinity.Protocol.Frame.{HostFrame, encode_wire, decode_wire}
use fpga_mcu_trinity.Protocol.Types.{EventEnvelope, decode_event}
use fpga_mcu_trinity.Exec.{Exec, pure, raise, lift, act, raise_if, try_except, ◌>>=◌, ◌>>◌}
use fpga_mcu_trinity.Client.Port.{Port}
use fpga_mcu_trinity.Client.Response.{has_flag, check_response}

pub record Client (W : Type 0) : Type 0 where
  pub next_transaction_id : ℕ
  pub rx : List ℕ
  pub world : W

-- What __init__ sets, over a port that has just been opened.
abbrev pub new_client : {W : Type 0} → W → Client W
new_client w = record { next_transaction_id = 1; rx = []; world = w }

-- The number that _allocate_txid leaves for the next request.
abbrev pub next_txid : ℕ → ℕ
next_txid txid = if bit_and (txid + 1) 0xFFFF == 0 then 1 else bit_and (txid + 1) 0xFFFF

-- except (ValueError, struct.error): the message is wrapped in another error.
abbrev pub event_or_raise : Result EventEnvelope → Result EventEnvelope
event_or_raise (ok v) = ok v
event_or_raise (err struct_error) = err (host_protocol_error "malformed EVENT frame")
event_or_raise (err e) =
    if is_value_error e then err (host_protocol_error "malformed EVENT frame") else err e

abbrev pub or_none : Result HostFrame → Result (Option HostFrame)
or_none (ok frame) = ok (some frame)
or_none (err e) = err e

abbrev pub is_timeout : Exception → Bool
is_timeout (timeout_error m) = true
is_timeout _ = false

abbrev pub timed_out : Exception
timed_out = timeout_error "timed out waiting for SN32 response: command, txid"

module _ {W : Type 0} (port : Port W) where
  -- An action of the port, inside the client.
  abbrev pub on_port : {A : Type 0} → Exec W A → Exec (Client W) A
  on_port m s = let (r, w) = m s.world in (r, record s { world = w })

  unfoldable pub monotonic : Client W → ℕ × Client W
  monotonic s = let (t, w) = port.monotonic s.world in (t, record s { world = w })

  unfoldable pub allocate_txid : Exec (Client W) ℕ
  allocate_txid s =
      (ok s.next_transaction_id, record s { next_transaction_id = next_txid s.next_transaction_id })

  -- What a read does to the receive buffer: `none` asks for another round.
  unfoldable pub receive : Option ℕ → Exec (Client W) (Option HostFrame)
  receive none s = (ok none, s)
  receive (some value) s =
      let rx = s.rx ++ (value ∷ []) in
      if value == 0
      then (or_none (decode_wire rx), record s { rx = [] })
      else if ltb 272 (length rx)
      then (
        err (host_protocol_error "incoming PC frame exceeds maximum wire size"),
        record s { rx = [] },
      )
      else (ok none, record s { rx = rx })

  -- One round of the loop of _read_wire_frame.
  unfoldable pub read_round : ℕ → Exec (Client W) (Option HostFrame)
  unfolding monotonic receive
  read_round deadline = do
    now ← act monotonic
    raise_if (leb deadline now) (timeout_error "timed out waiting for SN32 response")
    chunk ← on_port port.read
    receive chunk

  unfoldable pub read_wire_frame : ℕ → ℕ → Exec (Client W) HostFrame
  read_wire_frame zero deadline = raise out_of_fuel
  read_wire_frame (suc fuel) deadline = do
    found ← read_round deadline
    elim found [ some frame ↦ pure frame | none ↦ read_wire_frame fuel deadline ]

  abbrev pub call_handler :
      Option (EventEnvelope → Exec W (Unit {0})) → EventEnvelope → Exec (Client W) (Unit {0})
  call_handler none event = pure tt
  call_handler (some handler) event = on_port (handler event)

  -- _handle_event
  unfoldable pub handle_event : HostFrame → Exec (Client W) (Unit {0})
  handle_event frame = do
    raise_if (frame.command != int HostCommand.event)
        (host_protocol_error "EVENT flag used with another command")
    raise_if (frame.transaction_id != 0)
        (host_protocol_error "EVENT frame transaction ID must be zero")
    raise_if (frame.flags != int FrameFlags.event)
        (host_protocol_error "EVENT frame has invalid flags")
    event ← lift (event_or_raise (decode_event frame.payload))
    call_handler port.event_handler event

  -- The `while True` loop of request, from the frame that has been written.
  unfoldable pub await_response : ℕ → ℕ → ℕ → ℕ → Exec (Client W) HostFrame
  await_response zero deadline command txid = raise out_of_fuel
  await_response (suc fuel) deadline command txid = do
    frame ← try_except (read_wire_frame (suc fuel) deadline) is_timeout (λ e. raise timed_out)
    if has_flag frame.flags FrameFlags.event
        then (do handle_event frame; await_response fuel deadline command txid)
        else lift (check_response command txid frame)

  unfoldable pub send_request : ℕ → List ℕ → Exec (Client W) ℕ
  unfolding allocate_txid
  send_request command payload = do
    txid ← allocate_txid
    encoded ← lift (
        encode_wire (record {
          command = command;
          flags = 0;
          transaction_id = txid;
          payload = payload;
          version = protocol_version;
        }))
    written ← on_port (port.write encoded)
    raise_if (written != length encoded) (host_protocol_error "short serial write")
    on_port port.flush
    pure txid

  -- request(command, payload, timeout=timeout)
  unfoldable pub request : ℕ → ℕ → List ℕ → ℕ → Exec (Client W) HostFrame
  unfolding monotonic
  request fuel command payload timeout = do
    txid ← send_request command payload
    now ← act monotonic
    await_response fuel (now + timeout) command txid
