-- ===== src/Protocol/Frame/Wire.antt =====
-- Frames on the wire: COBS behind the checksum, and the delimiter at the end.
use fpga_mcu_trinity.Base.{
  ℕ, ◌+◌, ◌-◌, ◌≤◌, ◌≡◌, refl, sym, ap, ◌∙◌, arith, true, false, List, [], ◌∷◌, ◌++◌, length,
  length-append, take, take-append, contains, ◌==◌,
}
use fpga_mcu_trinity.Protocol.Errors.{Exception, Result, ok, err, is_value_error, ◌>>=◌, >>=-eq-ok}
use fpga_mcu_trinity.Protocol.Cobs.{cobs_encode, cobs_decode}
use fpga_mcu_trinity.Protocol.Cobs.Blocks.{cobs_encode_nonzero}
use fpga_mcu_trinity.Protocol.Cobs.RoundTrip.{cobs_decode-cobs_encode, length-cobs_encode}
use fpga_mcu_trinity.Protocol.Cobs.Decode.{cobs_decode_errors}
use fpga_mcu_trinity.Protocol.Pack.{byte_at, seal}
use fpga_mcu_trinity.Protocol.Pack.Seal.{length-seal, get_or-append}
use fpga_mcu_trinity.Protocol.Frame.{
  HostFrame, host_body, or_malformed, is_decode_error, encode_raw, encode_wire, decode_raw,
  decode_wire,
}
use fpga_mcu_trinity.Protocol.Frame.Host.{IsSendable, encode_raw_accepts, decode_raw-encode_raw}

decode_wire_step :
    (front : List ℕ)
    → contains 0 front ≡ false
    → decode_wire (front ++ (0 ∷ [])) ≡ (or_malformed (cobs_decode front) >>= decode_raw)
unfolding decode_wire
decode_wire_step front h = rw (nonempty, last, dropped) (rw h)
  where
    wire : List ℕ
    wire = front ++ (0 ∷ [])

    n : length wire ≡ length front + 1
    n = length-append front (0 ∷ [])

    nonempty : (length wire == 0) ≡ false
    nonempty = ground (arith, n)

    last : byte_at wire (length wire - 1) ≡ 0
    last = get_or-append front (0 ∷ []) (length wire - 1) 0 0 (omega (arith, n))

    dropped : take (length wire - 1) wire ≡ front
    dropped = take-append (length wire - 1) front (0 ∷ []) (omega (arith, n))

-- What decode_wire makes of an encoded buffer.
decode_wire-delimited : (raw : List ℕ) → decode_wire (cobs_encode raw ++ (0 ∷ [])) ≡ decode_raw raw
decode_wire-delimited raw =
    decode_wire_step (cobs_encode raw) (cobs_encode_nonzero raw)
    ∙ ap (λ (r : Result (List ℕ)). or_malformed r >>= decode_raw) (cobs_decode-cobs_encode raw)

encode_wire_lem :
    (f : HostFrame) → encode_wire f ≡ (encode_raw f >>= λ raw. ok (cobs_encode raw ++ (0 ∷ [])))
unfolding encode_wire
encode_wire_lem f = refl

-- A frame whose version is the protocol's and whose command, flags, transaction ID and
-- payload fit their places is encoded for the wire, and decode_wire gives it back.
pub decode_wire-encode_wire :
    (f : HostFrame) → IsSendable f → (encode_wire f >>= decode_wire) ≡ ok f
decode_wire-encode_wire f h =
    ap (λ (r : Result (List ℕ)). r >>= decode_wire)
      (encode_wire_lem f
        ∙ ap (λ (r : Result (List ℕ)). r >>= λ raw. ok (cobs_encode raw ++ (0 ∷ [])))
            (encode_raw_accepts f h))
    ∙ decode_wire-delimited (seal (host_body f))
    ∙ ap (λ (r : Result (List ℕ)). r >>= decode_raw) (sym (encode_raw_accepts f h))
    ∙ decode_raw-encode_raw f h

length-encode_raw : (f : HostFrame) (raw : List ℕ) → encode_raw f ≡ ok raw → length raw ≤ 266
unfolding encode_raw
length-encode_raw f raw e = ground (arith, length-seal (host_body f))

-- Whatever frame encode_wire accepts, the wire form takes at most 269 bytes, and its only
-- zero is the last one.
pub encode_wire_shape :
    (f : HostFrame) (wire : List ℕ)
    → encode_wire f ≡ ok wire
    → (front : List ℕ) × (wire ≡ front ++ (0 ∷ []))
      × (contains 0 front ≡ false)
      × (length wire ≤ 269)
encode_wire_shape f wire e =
    let (raw, encoded, same) = >>=-eq-ok (encode_raw f) _ (sym (encode_wire_lem f) ∙ e) in
    let whole : wire ≡ cobs_encode raw ++ (0 ∷ []) = cc same in
    (
      cobs_encode raw,
      whole,
      cobs_encode_nonzero raw,
      omega (
        arith,
        ap (λ (t : List ℕ). length t) whole,
        length-append (cobs_encode raw) (0 ∷ []),
        length-cobs_encode raw,
        length-encode_raw f raw encoded,
      ),
    )

decode_raw_errors :
    (raw : List ℕ) (e : Exception) → decode_raw raw ≡ err e → is_decode_error e ≡ true
unfolding decode_raw
decode_raw_errors raw e h = ground arith

checked_errors :
    (r : Result (List ℕ)) (e : Exception)
    → ((x : Exception) → r ≡ err x → is_value_error x ≡ true)
    → (or_malformed r >>= decode_raw) ≡ err e
    → is_decode_error e ≡ true
checked_errors (ok raw) e h k = decode_raw_errors raw e k
checked_errors (err x) e h k = ground (arith, h x refl)

-- Whatever the input, an error of decode_wire is a ProtocolDecodeError.
pub decode_wire_errors :
    (wire : List ℕ) (e : Exception) → decode_wire wire ≡ err e → is_decode_error e ≡ true
unfolding decode_wire
decode_wire_errors wire e h = ground (
  arith,
  checked_errors (cobs_decode (take (length wire - 1) wire)) e
      (λ x k. cobs_decode_errors (take (length wire - 1) wire) x k),
)
