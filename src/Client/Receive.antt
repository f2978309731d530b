-- ===== src/Client/Receive.antt =====
-- _read_wire_frame: frames are put together from the bytes that the port delivers.
use fpga_mcu_trinity.Base.{
  ℕ, zero, suc, ◌+◌, ◌≤◌, ◌<◌, ◌≡◌, refl, ◌≢◌, ap, ◌∙◌, sym, arith, true, false, Option, none, some,
  List, [], ◌∷◌, ◌++◌, append_assoc, length, length-append, contains, ltb, leb, ◌==◌,
}
use fpga_mcu_trinity.Protocol.Errors.{Result, ok, err, ◌>>=◌}
use fpga_mcu_trinity.Protocol.Frame.{HostFrame, encode_wire, decode_wire}
use fpga_mcu_trinity.Protocol.Frame.Host.{IsSendable}
use fpga_mcu_trinity.Protocol.Frame.Wire.{decode_wire-encode_wire, encode_wire_shape}
use fpga_mcu_trinity.Exec
use fpga_mcu_trinity.Client.Port.{Port}
use fpga_mcu_trinity.Client.Transport.{
  Client, receive, read_round, or_none, read_wire_frame, monotonic,
}

module _ {W : Type 0} (port : Port W) (deadline : ℕ) where
  -- The port delivers the bytes, one at a time and with silent reads between them, before the
  -- deadline; `rounds` counts the reads.
  pub data Delivers : W → List ℕ → W → ℕ → Type 0 where
    last :
        (w u : W) (b : ℕ)
        → (port.monotonic w).0 < deadline
        → port.read (port.monotonic w).1 ≡ (ok (some b), u)
        → Delivers w (b ∷ []) u 1
    silent :
        (w u : W) (bytes : List ℕ) (rounds : ℕ) {w' : W}
        → (port.monotonic w).0 < deadline
        → port.read (port.monotonic w).1 ≡ (ok none, w')
        → Delivers w' bytes u rounds
        → Delivers w bytes u (suc rounds)
    byte :
        (w u : W) (b : ℕ) (bytes : List ℕ) (rounds : ℕ) {w' : W}
        → (port.monotonic w).0 < deadline
        → port.read (port.monotonic w).1 ≡ (ok (some b), w')
        → Delivers w' bytes u rounds
        → Delivers w (b ∷ bytes) u (suc rounds)

  -- A round that has time left is what `receive` makes of the byte that was read.
  round_reads :
      (s : Client W) (chunk : Option ℕ) (w' : W)
      → (port.monotonic s.world).0 < deadline
      → port.read (port.monotonic s.world).1 ≡ (ok chunk, w')
      → read_round port deadline s ≡ receive port chunk (record s { world = w' })
  unfolding read_round monotonic Exec.◌>>=◌
  round_reads s chunk w' h e = rw (early, e)
    where
      early : leb deadline (port.monotonic s.world).0 ≡ false
      early = ground arith

  abbrev client : ℕ → List ℕ → W → Client W
  client t rx w = record { next_transaction_id = t; rx = rx; world = w }

  continue_found :
      (fuel : ℕ) (r : Result HostFrame) (s : Client W)
      → Exec.continue
          (or_none r)
          (elim [ some frame ↦ Exec.pure frame | none ↦ read_wire_frame port fuel deadline ])
          s
        ≡ (r, s)
  continue_found fuel (ok frame) s = refl
  continue_found fuel (err e) s = refl

  module _ (t : ℕ) (rx : List ℕ) (w w' : W) (fuel : ℕ)
      (early : (port.monotonic w).0 < deadline) where
    reads_silence :
        port.read (port.monotonic w).1 ≡ (ok none, w')
        → read_wire_frame port (suc fuel) deadline (client t rx w)
          ≡ read_wire_frame port fuel deadline (client t rx w')
    unfolding read_wire_frame Exec.◌>>=◌ receive
    reads_silence e = rw (round_reads (client t rx w) none w' early e)

    reads_end :
        (b : ℕ)
        → port.read (port.monotonic w).1 ≡ (ok (some b), w')
        → b ≡ 0
        → read_wire_frame port (suc fuel) deadline (client t rx w)
          ≡ (decode_wire (rx ++ (b ∷ [])), client t [] w')
    unfolding read_wire_frame Exec.◌>>=◌ receive
    reads_end b e z =
        rw (round_reads (client t rx w) (some b) w' early e, is_end)
          (continue_found fuel (decode_wire (rx ++ (b ∷ []))) (client t [] w'))
      where
        is_end : b == 0 ≡ true
        is_end = ground arith

    reads_byte :
        (b : ℕ)
        → port.read (port.monotonic w).1 ≡ (ok (some b), w')
        → b ≢ 0
        → length rx < 272
        → read_wire_frame port (suc fuel) deadline (client t rx w)
          ≡ read_wire_frame port fuel deadline (client t (rx ++ (b ∷ [])) w')
    unfolding read_wire_frame Exec.◌>>=◌ receive
    reads_byte b e z l = rw (round_reads (client t rx w) (some b) w' early e, other, fits)
      where
        other : b == 0 ≡ false
        other = ground arith

        fits : ltb 272 (length (rx ++ (b ∷ []))) ≡ false
        fits = ground (arith, length-append rx (b ∷ []))

  rounds_positive : {w u : W} {bytes : List ℕ} {rounds : ℕ} → Delivers w bytes u rounds → rounds ≢ 0
  rounds_positive (last w u b h e) z = omega arith
  rounds_positive (silent w u bytes k h e d) z = omega arith
  rounds_positive (byte w u b rest k h e d) z = omega arith

  bytes_nonempty : {w u : W} {bytes : List ℕ} {rounds : ℕ} → Delivers w bytes u rounds → bytes ≢ []
  bytes_nonempty (last w u b h e) q = ground (arith, q)
  bytes_nonempty (silent w u bytes k h e d) q = bytes_nonempty d q
  bytes_nonempty (byte w u b rest k h e d) q = ground (arith, q)

  tail_nonempty : (front : List ℕ) → [] ≢ front ++ (0 ∷ [])
  tail_nonempty front q = ground (arith, ap length q, length-append front (0 ∷ []))

  -- The bytes of one frame, the separator last, make read_wire_frame return what decode_wire makes
  -- of the buffer and those bytes, and leave the buffer empty: if the port delivers them before the
  -- deadline, if no byte but the last is zero, if all but the last fit in the buffer, and if the fuel
  -- is at least the number of reads.
  pub read_wire_frame-Delivers :
      (fuel t : ℕ) (rx front : List ℕ) {w u : W} {bytes : List ℕ} {rounds : ℕ}
      → Delivers w bytes u rounds
      → bytes ≡ front ++ (0 ∷ [])
      → contains 0 front ≡ false
      → length rx + length front ≤ 272
      → rounds ≤ fuel
      → read_wire_frame port fuel deadline (client t rx w)
        ≡ (decode_wire (rx ++ bytes), client t [] u)
  unfolding contains
  read_wire_frame-Delivers zero t rx front d q c l n = absurd (rounds_positive d (omega arith))
  read_wire_frame-Delivers (suc fuel) t rx [] (last w u b h e) q c l n =
      reads_end t rx w u fuel h b e cc
  read_wire_frame-Delivers (suc fuel) t rx (f ∷ front) (last w u b h e) q c l n =
      absurd (tail_nonempty front cc)
  read_wire_frame-Delivers (suc fuel) t rx front (silent w u bytes k {w'} h e d) q c l n =
      reads_silence t rx w w' fuel h e
      ∙ read_wire_frame-Delivers fuel t rx front d q c l (omega arith)
  read_wire_frame-Delivers (suc fuel) t rx [] (byte w u b rest k {w'} h e d) q c l n =
      absurd (bytes_nonempty d cc)
  read_wire_frame-Delivers (suc fuel) t rx (f ∷ front) (byte w u b rest k {w'} h e d) q c l n =
      reads_byte t rx w w' fuel h b e (λ z. ground (arith, same, c)) (omega arith)
      ∙ read_wire_frame-Delivers fuel t (rx ++ (b ∷ [])) front d (cc) others room (omega arith)
      ∙ ap (λ (bs : List ℕ). (decode_wire bs, client t [] u)) (append_assoc rx (b ∷ []) rest)
    where
      same : f ≡ b
      same = cc

      others : contains 0 front ≡ false
      others = ground (arith, c)

      room : length (rx ++ (b ∷ [])) + length front ≤ 272
      room = omega (arith, length-append rx (b ∷ []))

  -- A frame that can be sent is the frame that the other side reads: if its wire form is delivered
  -- to a client with an empty buffer before the deadline, and if the fuel is at least the number of
  -- reads, then read_wire_frame returns it, and the buffer is empty again.
  pub read_wire_frame-encode_wire :
      (f : HostFrame) (wire : List ℕ) (t : ℕ) (w u : W) (rounds fuel : ℕ)
      → IsSendable f
      → encode_wire f ≡ ok wire
      → Delivers w wire u rounds
      → rounds ≤ fuel
      → read_wire_frame port fuel deadline (client t [] w) ≡ (ok f, client t [] u)
  read_wire_frame-encode_wire f wire t w u rounds fuel h e d n =
      let (front, whole, nonzero, size) = encode_wire_shape f wire e in
      read_wire_frame-Delivers fuel t [] front d whole nonzero
        (omega (arith, size, ap (λ (bs : List ℕ). length bs) whole, length-append front (0 ∷ []))) n
      ∙ ap (λ (r : Result HostFrame). (r, client t [] u))
          (ap (λ (r : Result (List ℕ)). r >>= decode_wire) (sym e) ∙ decode_wire-encode_wire f h)
