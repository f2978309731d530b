-- ===== src/Tests/Session.antt =====
-- The client against a scripted port.
use fpga_mcu_trinity.Base.{
  ℕ, ◌+◌, ◌-◌, ◌≤◌, ◌≡◌, ◌≢◌, refl, subst, arith, false, Option, none, some, List, [], ◌∷◌, length,
  contains,
}
use fpga_mcu_trinity.Protocol.Errors.{Result, ok, err, out_of_fuel}
use fpga_mcu_trinity.Protocol.Constants.Codes.{ErrorCode}
use fpga_mcu_trinity.Protocol.Constants.States.{TransactionState}
use fpga_mcu_trinity.Protocol.Crc.{crc16_ccitt_false}
use fpga_mcu_trinity.Protocol.Cobs.{cobs_encode, cobs_decode}
use fpga_mcu_trinity.Protocol.Pack.{seal}
use fpga_mcu_trinity.Protocol.Frame.{HostFrame, encode_raw, encode_wire, decode_raw, decode_wire}
use fpga_mcu_trinity.Protocol.Frame.Host.{IsSendable}
use fpga_mcu_trinity.Protocol.Types.{
  TransactionResult, decode_transaction, transaction_state, error_code,
}
use fpga_mcu_trinity.Base.Enum.{of_int}
use fpga_mcu_trinity.Exec.{◌>>=◌, try_except}
use fpga_mcu_trinity.Exec.Preserves.{Preserves}
use fpga_mcu_trinity.Client.Port.{Port, IsTimed}
use fpga_mcu_trinity.Client.Response.{check_response}
use fpga_mcu_trinity.Client.Transport.{
  Client, new_client, allocate_txid, monotonic, receive, read_round, read_wire_frame,
  await_response, send_request, request,
}
use fpga_mcu_trinity.Client.Txid.{after_allocations, allocate_txid_fresh}
use fpga_mcu_trinity.Client.Ready.{IsReady, request-IsReady}
use fpga_mcu_trinity.Client.Receive.{
  Delivers, last, byte, read_wire_frame-Delivers, read_wire_frame-encode_wire,
}
use fpga_mcu_trinity.Client.Fuel.{request_returns}
use fpga_mcu_trinity.Client.Operations.{
  Link, wait_for_transaction, poll_transaction, get_transaction_result, check_finished,
}
use fpga_mcu_trinity.Client.Operations.Wait.{wait_for_transaction_returns}
use fpga_mcu_trinity.Client.Answer.{IsAnswer, request-IsAnswer}

-- The far end: the bytes that are still to come, and the time.
record Script : Type 0 where
  incoming : List ℕ
  clock : ℕ

abbrev read_next : List ℕ → ℕ → Result (Option ℕ) × Script
read_next [] now = (ok none, record { incoming = []; clock = now + 1 })
read_next (v ∷ rest) now = (ok (some v), record { incoming = rest; clock = now + 1 })

-- A port that takes every write, and where a read takes a millisecond.
abbrev script_port : Port Script
script_port = record {
  monotonic = λ w. (w.clock, w);
  sleep = λ t w. record w { clock = w.clock + t };
  read = λ w. read_next w.incoming w.clock;
  write = λ bytes w. (ok (length bytes), w);
  flush = λ w. (ok tt, w);
  event_handler = none;
}

abbrev script_rounds : ℕ → Script → ℕ
script_rounds d w = d - w.clock

read_next_clock : (bytes : List ℕ) (now : ℕ) → (read_next bytes now).1.clock ≡ now + 1
read_next_clock [] now = refl
read_next_clock (v ∷ rest) now = refl

read_next_ok : (bytes : List ℕ) (now : ℕ) → (read_next bytes now).0 ≢ err out_of_fuel
read_next_ok [] now e = ground arith
read_next_ok (v ∷ rest) now e = ground arith

script_port-IsTimed : IsTimed script_port script_rounds
script_port-IsTimed = record {
  clock = λ d w. omega arith;
  read = λ d w h. omega (arith, read_next_clock w.incoming w.clock);
  callback = λ d f v w e. absurd (ground arith);
  read_raises = λ w. read_next_ok w.incoming w.clock;
  write_raises = λ bytes w e. ground arith;
  flush_raises = λ w e. ground arith;
  callback_raises = λ f v w e. absurd (ground arith);
}

abbrev fresh : Client Script
fresh = new_client (record { incoming = []; clock = 0 })

request_returns_example : (request script_port 2001 1 [] 2000 fresh).0 ≢ err out_of_fuel
request_returns_example =
    request_returns script_port script_rounds script_port-IsTimed 2001 1 [] 2000 fresh
      (λ w. omega arith)

request-IsReady_example : Preserves IsReady (request script_port 3 1 [] 2000)
request-IsReady_example = request-IsReady script_port 3 1 [] 2000

allocate_txid_fresh_example :
    ((allocate_txid script_port (after_allocations script_port 2 fresh)).0
      ≢ (allocate_txid script_port (after_allocations script_port 5 fresh)).0)
    × ((allocate_txid script_port (after_allocations script_port 2 fresh)).0 ≢ ok 0)
allocate_txid_fresh_example =
    allocate_txid_fresh script_port 2 5 fresh (omega arith, omega arith) (omega arith) (omega arith)

-- The answer to PING under transaction 1, and its wire form.
abbrev pong : HostFrame
pong = record {
  command = 1;
  flags = 1;
  transaction_id = 1;
  payload = 0 ∷ 0 ∷ 0 ∷ 9 ∷ [];
  version = 1;
}

abbrev pong_wire : List ℕ
pong_wire = 4 ∷ 1 ∷ 1 ∷ 1 ∷ 1 ∷ 2 ∷ 1 ∷ 2 ∷ 4 ∷ 1 ∷ 1 ∷ 4 ∷ 9 ∷ 144 ∷ 206 ∷ 0 ∷ []

abbrev answered : Client Script
answered = record { next_transaction_id = 2; rx = []; world = record { incoming = []; clock = 16 } }

ping_answered :
    request script_port 20 1 [] 2000 (new_client (record { incoming = pong_wire; clock = 0 }))
    ≡ (ok pong, answered)
unfolding request send_request allocate_txid encode_wire encode_raw seal crc16_ccitt_false
    cobs_encode await_response monotonic read_wire_frame read_round receive decode_wire decode_raw
    cobs_decode check_response try_except ◌>>=◌ contains
ping_answered = refl

request-IsAnswer_example : IsAnswer 1 1 pong
request-IsAnswer_example =
    request-IsAnswer script_port 20 1 [] 2000
      (new_client (record { incoming = pong_wire; clock = 0 })) answered pong ping_answered

script-Delivers :
    (b : ℕ) (bytes : List ℕ) (now deadline : ℕ)
    → now + length (b ∷ bytes) ≤ deadline
    → Delivers script_port deadline
        (record { incoming = b ∷ bytes; clock = now })
        (b ∷ bytes)
        (record { incoming = []; clock = now + length (b ∷ bytes) })
        (length (b ∷ bytes))
script-Delivers b [] now deadline h = last _ _ b (omega arith) refl
script-Delivers b (c ∷ bytes) now deadline h =
    byte _ _ b (c ∷ bytes) (length (c ∷ bytes)) (omega arith) refl (
      subst
        (λ (end : ℕ).
          Delivers script_port deadline (record { incoming = c ∷ bytes; clock = now + 1 })
            (c ∷ bytes) (record { incoming = []; clock = end }) (length (c ∷ bytes)))
        (omega arith) (script-Delivers c bytes (now + 1) deadline (omega arith)))

pong-IsSendable : IsSendable pong
pong-IsSendable = record {
  version = refl;
  command = omega arith;
  flags = omega arith;
  transaction_id = omega arith;
  size = omega arith;
  bytes = ground arith;
}

pong_encoded : encode_wire pong ≡ ok pong_wire
unfolding encode_wire encode_raw seal crc16_ccitt_false cobs_encode
pong_encoded = refl

read_wire_frame-encode_wire_example :
    read_wire_frame script_port 16 100 (new_client (record { incoming = pong_wire; clock = 0 })) ≡ (
      ok pong,
      record { next_transaction_id = 1; rx = []; world = record { incoming = []; clock = 16 } },
    )
read_wire_frame-encode_wire_example =
    read_wire_frame-encode_wire script_port 100 pong pong_wire 1
      (record { incoming = pong_wire; clock = 0 }) (record { incoming = []; clock = 16 }) 16 16
      pong-IsSendable pong_encoded
      (script-Delivers 4 (1 ∷ 1 ∷ 1 ∷ 1 ∷ 2 ∷ 1 ∷ 2 ∷ 4 ∷ 1 ∷ 1 ∷ 4 ∷ 9 ∷ 144 ∷ 206 ∷ 0 ∷ []) 0 100
        (omega arith))
      (omega arith)

no_separator :
    contains 0 (4 ∷ 1 ∷ 1 ∷ 1 ∷ 1 ∷ 2 ∷ 1 ∷ 2 ∷ 4 ∷ 1 ∷ 1 ∷ 4 ∷ 9 ∷ 144 ∷ 206 ∷ []) ≡ false
unfolding contains
no_separator = refl

read_wire_frame-Delivers_example :
    read_wire_frame script_port 16 100 (new_client (record { incoming = pong_wire; clock = 0 })) ≡ (
      decode_wire pong_wire,
      record { next_transaction_id = 1; rx = []; world = record { incoming = []; clock = 16 } },
    )
read_wire_frame-Delivers_example =
    read_wire_frame-Delivers script_port 100 16 1 []
      (4 ∷ 1 ∷ 1 ∷ 1 ∷ 1 ∷ 2 ∷ 1 ∷ 2 ∷ 4 ∷ 1 ∷ 1 ∷ 4 ∷ 9 ∷ 144 ∷ 206 ∷ [])
      (script-Delivers 4 (1 ∷ 1 ∷ 1 ∷ 1 ∷ 2 ∷ 1 ∷ 2 ∷ 4 ∷ 1 ∷ 1 ∷ 4 ∷ 9 ∷ 144 ∷ 206 ∷ 0 ∷ []) 0 100
        (omega arith))
      refl no_separator (omega arith) (omega arith)

-- A far end whose self-test 5 has succeeded.
abbrev tested : HostFrame
tested = record {
  command = 5;
  flags = 1;
  transaction_id = 9;
  payload = 0 ∷ 5 ∷ 3 ∷ 0x10 ∷ 0 ∷ 0 ∷ 0 ∷ 2 ∷ 1 ∷ 0x3E ∷ [];
  version = 1;
}

abbrev tested_link : Link (Unit {0})
tested_link = record {
  request = λ command payload timeout s. (ok tested, s);
  monotonic = λ s. (0, s);
  sleep = λ t s. (tt, s);
}

abbrev finished_test : TransactionResult
finished_test = record {
  queried_txid = 5;
  state = TransactionState.succeeded;
  original_command = 0x10;
  result_code = ErrorCode.ok;
  payload = 1 ∷ 0x3E ∷ [];
}

test_waited : wait_for_transaction tested_link 1 5 0x10 1000 100 tt ≡ (ok finished_test, tt)
unfolding wait_for_transaction poll_transaction get_transaction_result check_finished ◌>>=◌
    decode_transaction transaction_state error_code of_int
test_waited = refl

wait_for_transaction_returns_example :
    (finished_test.queried_txid ≡ 5)
    × (finished_test.original_command ≡ 0x10)
    × (finished_test.state ≡ TransactionState.succeeded)
    × (finished_test.result_code ≡ ErrorCode.ok)
wait_for_transaction_returns_example =
    wait_for_transaction_returns tested_link 1 5 0x10 1000 100 tt tt finished_test test_waited
