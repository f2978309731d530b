-- ===== src/Protocol/Frame/Host.antt =====
-- HostFrame: which buffers decode_raw accepts, and what encode_raw and decode_raw make of each other.
use fpga_mcu_trinity.Base.{
  ℕ, ◌+◌, ◌-◌, ◌*◌, ◌/◌, ◌%◌, ◌≤◌, ◌<◌, ◌≡◌, ◌≢◌, refl, sym, ap, ◌∙◌, subst, arith, List, ◌∷◌, ◌++◌,
  length, take-append, slice, drop, bit_and, length-append, length-take, length-drop, All-take,
  All-drop,
}
use fpga_mcu_trinity.Base.Bits.{bit_and_mask}
use fpga_mcu_trinity.Protocol.Constants.{protocol_version, pc_max_payload}
use fpga_mcu_trinity.Protocol.Errors.{Exception, Result, ok, err, ◌>>=◌, refused}
use fpga_mcu_trinity.Protocol.Crc.{crc16_ccitt_false}
use fpga_mcu_trinity.Protocol.Crc.Rounds.{AreBytes, IsByte}
use fpga_mcu_trinity.Protocol.Pack.Fields.{
  byte_at-lt, u16_at-lt, take_header, masked_byte, u16_high, u16_low,
}
use fpga_mcu_trinity.Protocol.Pack.{byte_at, u16_at, pack_u16, body_of, seal}
use fpga_mcu_trinity.Protocol.Pack.Seal.{
  length-seal, body_of-seal, u16_at-seal, eq-seal, seal_detects, AreBytes-changed,
}
use fpga_mcu_trinity.Protocol.Frame.{HostFrame, host_body, encode_raw, decode_raw}

-- What the tests of decode_raw ask of a buffer.
pub record IsHostRaw (raw : List ℕ) : Type 0 where
  pub version : byte_at raw 0 ≡ protocol_version
  pub reserved : byte_at raw 3 ≡ 0
  pub flags : byte_at raw 2 < 16
  pub room : u16_at raw 6 ≤ pc_max_payload
  pub size : length raw ≡ 8 + u16_at raw 6 + 2
  pub checksum : u16_at raw (length raw - 2) ≡ crc16_ccitt_false (body_of raw)

abbrev pub host_frame_of : List ℕ → HostFrame
host_frame_of raw = record {
  command = byte_at raw 1;
  flags = byte_at raw 2;
  transaction_id = u16_at raw 4;
  payload = slice 8 (length raw - 2) raw;
  version = byte_at raw 0;
}

pub decode_raw_accepts : (raw : List ℕ) → IsHostRaw raw → decode_raw raw ≡ ok (host_frame_of raw)
unfolding decode_raw
decode_raw_accepts raw h = ground (arith, bit_and_mask 4 (byte_at raw 2))

pub decode_raw_inversion :
    (raw : List ℕ) (f : HostFrame) → decode_raw raw ≡ ok f → IsHostRaw raw × (f ≡ host_frame_of raw)
unfolding decode_raw
decode_raw_inversion raw f e = ground (arith, bit_and_mask 4 (byte_at raw 2))

-- A frame that a sender may build: its fields fit their places on the wire.
pub record IsSendable (f : HostFrame) : Type 0 where
  pub version : f.version ≡ protocol_version
  pub command : f.command < 256
  pub flags : f.flags < 16
  pub transaction_id : f.transaction_id < 0x10000
  pub size : length f.payload ≤ pc_max_payload
  pub bytes : AreBytes f.payload

pub encode_raw_accepts : (f : HostFrame) → IsSendable f → encode_raw f ≡ ok (seal (host_body f))
unfolding encode_raw
encode_raw_accepts f h = ground (arith, bit_and_mask 4 f.flags)

AreBytes-host_body : (f : HostFrame) → IsSendable f → AreBytes (host_body f)
AreBytes-host_body f h = (
  omega (arith, h.version),
  (
    omega (arith, bit_and_mask 8 f.command),
    (
      omega (arith, bit_and_mask 8 f.flags),
      (
        omega arith,
        (
          omega (arith, h.transaction_id),
          (omega arith, (omega (arith, h.size), (omega arith, h.bytes))),
        ),
      ),
    ),
  ),
)

IsHostRaw-seal : (f : HostFrame) → IsSendable f → IsHostRaw (seal (host_body f))
unfolding seal
IsHostRaw-seal f h = record {
  version = h.version;
  reserved = refl;
  flags = omega (arith, bit_and_mask 8 f.flags, h.flags);
  room = omega (arith, h.size);
  size = omega (arith, length-seal (host_body f));
  checksum = u16_at-seal (host_body f) ∙ ap crc16_ccitt_false (sym (body_of-seal (host_body f)));
}

host_frame_of-seal : (f : HostFrame) → IsSendable f → host_frame_of (seal (host_body f)) ≡ f
unfolding seal
host_frame_of-seal f h = λ i. record {
  command = command i;
  flags = flags i;
  transaction_id = txid i;
  payload = payload i;
  version = f.version;
}
  where
    command : bit_and f.command 0xFF ≡ f.command
    command = omega (arith, bit_and_mask 8 f.command, h.command)

    flags : bit_and f.flags 0xFF ≡ f.flags
    flags = omega (arith, bit_and_mask 8 f.flags, h.flags)

    txid : f.transaction_id / 0x100 * 0x100 + f.transaction_id % 0x100 ≡ f.transaction_id
    txid = omega arith

    tail : List ℕ
    tail = pack_u16 (crc16_ccitt_false (host_body f))

    payload : slice 8 (length (host_body f ++ tail) - 2) (host_body f ++ tail) ≡ f.payload
    payload =
        take-append (length (host_body f ++ tail) - 2 - 8) f.payload tail
          (omega (arith, length-append f.payload tail))

-- A frame whose version is the protocol's and whose command, flags, transaction ID and
-- payload fit their places is encoded, and decode_raw gives it back.
pub decode_raw-encode_raw : (f : HostFrame) → IsSendable f → (encode_raw f >>= decode_raw) ≡ ok f
decode_raw-encode_raw f h =
    ap (λ (r : Result (List ℕ)). r >>= decode_raw) (encode_raw_accepts f h)
    ∙ decode_raw_accepts (seal (host_body f)) (IsHostRaw-seal f h)
    ∙ ap ok (host_frame_of-seal f h)

host_payload_length :
    (raw : List ℕ) → IsHostRaw raw → length (slice 8 (length raw - 2) raw) ≡ u16_at raw 6
host_payload_length raw h =
    omega (arith, length-take (length raw - 2 - 8) (drop 8 raw), length-drop 8 raw, h.size)

host_frame_of-IsSendable :
    (raw : List ℕ) → AreBytes raw → IsHostRaw raw → IsSendable (host_frame_of raw)
host_frame_of-IsSendable raw hb h = record {
  version = h.version;
  command = byte_at-lt raw 1 hb;
  flags = h.flags;
  transaction_id = u16_at-lt raw 4 hb;
  size = omega (arith, host_payload_length raw h, h.room);
  bytes = All-take IsByte (length raw - 2 - 8) (drop 8 raw) (All-drop IsByte 8 raw hb);
}

host_body-host_frame_of :
    (raw : List ℕ) → AreBytes raw → IsHostRaw raw → host_body (host_frame_of raw) ≡ body_of raw
host_body-host_frame_of raw hb h =
    let n : length (slice 8 (length raw - 2) raw) ≡ u16_at raw 6 = host_payload_length raw h in
    cc (
      take_header raw (length raw - 2) (length raw - 2 - 8) (omega (arith, h.size))
          (omega (arith, h.size)),
      masked_byte raw 1 hb,
      masked_byte raw 2 hb,
      h.reserved,
      u16_high raw 4 hb,
      u16_low raw 4 hb,
      ap (λ (t : ℕ). t / 0x100) n ∙ u16_high raw 6 hb,
      ap (λ (t : ℕ). t % 0x100) n ∙ u16_low raw 6 hb,
    )

accepted_seal :
    (raw : List ℕ) (f : HostFrame) → AreBytes raw → decode_raw raw ≡ ok f → raw ≡ seal (body_of raw)
accepted_seal raw f hb e =
    let h : IsHostRaw raw = (decode_raw_inversion raw f e).0 in
    eq-seal raw hb (omega (arith, h.size)) h.checksum

-- A buffer of bytes that decode_raw accepts is what encode_raw makes of the frame that it
-- returns, and that frame fits its places: no two buffers stand for one frame.
pub encode_raw-decode_raw :
    (raw : List ℕ) (f : HostFrame)
    → AreBytes raw
    → decode_raw raw ≡ ok f
    → IsSendable f × (encode_raw f ≡ ok raw)
encode_raw-decode_raw raw f hb e =
    let (h, same) = decode_raw_inversion raw f e in
    subst (λ (g : HostFrame). IsSendable g × (encode_raw g ≡ ok raw)) (sym same)
      (
        host_frame_of-IsSendable raw hb h,
        encode_raw_accepts (host_frame_of raw) (host_frame_of-IsSendable raw hb h)
            ∙ ap (λ (t : List ℕ). ok (seal t)) (host_body-host_frame_of raw hb h)
            ∙ ap ok (sym (eq-seal raw hb (omega arith) h.checksum)),
      )

-- A buffer of bytes that decode_raw accepts is refused with an error once any one byte of it,
-- header and checksum included, is replaced by another byte.
pub decode_raw_detects :
    (front back : List ℕ) (x y : ℕ) (f : HostFrame)
    → AreBytes (front ++ (x ∷ back))
    → y < 256
    → x ≢ y
    → decode_raw (front ++ (x ∷ back)) ≡ ok f
    → (e : Exception) × (decode_raw (front ++ (y ∷ back)) ≡ err e)
decode_raw_detects front back x y f hb hy ne e = refused (decode_raw (front ++ (y ∷ back))) λ g k.
    let hb' : AreBytes (front ++ (y ∷ back)) = AreBytes-changed front back x y hb hy in
    ne (
      seal_detects front back x y _ _ hb hb' (All-take IsByte _ (front ++ (x ∷ back)) hb)
        (All-take IsByte _ (front ++ (y ∷ back)) hb') (accepted_seal (front ++ (x ∷ back)) f hb e)
        (accepted_seal (front ++ (y ∷ back)) g hb' k))
