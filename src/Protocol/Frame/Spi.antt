-- ===== src/Protocol/Frame/Spi.antt =====
-- SpiPacket: which buffers SpiPacket.decode accepts, and what it and SpiPacket.encode make of each other.
use fpga_mcu_trinity.Base.{
  ℕ, ◌+◌, ◌-◌, ◌*◌, ◌/◌, ◌%◌, ◌≤◌, ◌<◌, ◌≡◌, ◌≢◌, refl, sym, ap, ◌∙◌, subst, arith, List, ◌∷◌, ◌++◌,
  length, take-append, slice, drop, bit_and, length-append, length-take, length-drop, All-take,
  All-drop,
}
use fpga_mcu_trinity.Base.Bits.{bit_and_mask}
use fpga_mcu_trinity.Protocol.Constants.{protocol_version, spi_magic, spi_max_payload}
use fpga_mcu_trinity.Protocol.Errors.{Exception, Result, ok, err, ◌>>=◌, refused}
use fpga_mcu_trinity.Protocol.Crc.{crc16_ccitt_false}
use fpga_mcu_trinity.Protocol.Crc.Rounds.{AreBytes, IsByte}
use fpga_mcu_trinity.Protocol.Pack.Fields.{
  byte_at-lt, u16_at-lt, take_header, masked_byte, u16_high, u16_low,
}
use fpga_mcu_trinity.Protocol.Pack.{byte_at, u16_at, pack_u16, body_of, seal}
use fpga_mcu_trinity.Protocol.Pack.Seal.{
  length-seal, body_of-seal, u16_at-seal, eq-seal, seal_detects, AreBytes-changed,
}
use fpga_mcu_trinity.Protocol.Frame.{SpiPacket, spi_body, spi_encode, spi_decode}

-- What the tests of spi_decode ask of a buffer.
pub record IsSpiPacket (raw : List ℕ) : Type 0 where
  pub magic : byte_at raw 0 ≡ spi_magic
  pub version : byte_at raw 1 ≡ protocol_version
  pub flags : byte_at raw 3 < 16
  pub room : u16_at raw 6 ≤ spi_max_payload
  pub size : length raw ≡ 8 + u16_at raw 6 + 2
  pub checksum : u16_at raw (length raw - 2) ≡ crc16_ccitt_false (body_of raw)

abbrev pub spi_packet_of : List ℕ → SpiPacket
spi_packet_of raw = record {
  command = byte_at raw 2;
  flags = byte_at raw 3;
  transaction_id = u16_at raw 4;
  payload = slice 8 (length raw - 2) raw;
  version = byte_at raw 1;
}

pub spi_decode_accepts : (raw : List ℕ) → IsSpiPacket raw → spi_decode raw ≡ ok (spi_packet_of raw)
unfolding spi_decode
spi_decode_accepts raw h = ground (arith, bit_and_mask 4 (byte_at raw 3))

pub spi_decode_inversion :
    (raw : List ℕ) (f : SpiPacket)
    → spi_decode raw ≡ ok f
    → IsSpiPacket raw × (f ≡ spi_packet_of raw)
unfolding spi_decode
spi_decode_inversion raw f e = ground (arith, bit_and_mask 4 (byte_at raw 3))

-- A frame that a sender may build: its fields fit their places on the wire.
pub record IsSpiSendable (f : SpiPacket) : Type 0 where
  pub version : f.version ≡ protocol_version
  pub command : f.command < 256
  pub flags : f.flags < 16
  pub transaction_id : f.transaction_id < 0x10000
  pub size : length f.payload ≤ spi_max_payload
  pub bytes : AreBytes f.payload

pub spi_encode_accepts : (f : SpiPacket) → IsSpiSendable f → spi_encode f ≡ ok (seal (spi_body f))
unfolding spi_encode
spi_encode_accepts f h = ground (arith, bit_and_mask 4 f.flags)

AreBytes-spi_body : (f : SpiPacket) → IsSpiSendable f → AreBytes (spi_body f)
AreBytes-spi_body f h = (
  omega arith,
  (
    omega (arith, h.version),
    (
      omega (arith, bit_and_mask 8 f.command),
      (
        omega (arith, bit_and_mask 8 f.flags),
        (
          omega (arith, h.transaction_id),
          (omega arith, (omega (arith, h.size), (omega arith, h.bytes))),
        ),
      ),
    ),
  ),
)

IsSpiPacket-seal : (f : SpiPacket) → IsSpiSendable f → IsSpiPacket (seal (spi_body f))
unfolding seal
IsSpiPacket-seal f h = record {
  magic = refl;
  version = h.version;
  flags = omega (arith, bit_and_mask 8 f.flags, h.flags);
  room = omega (arith, h.size);
  size = omega (arith, length-seal (spi_body f));
  checksum = u16_at-seal (spi_body f) ∙ ap crc16_ccitt_false (sym (body_of-seal (spi_body f)));
}

spi_packet_of-seal : (f : SpiPacket) → IsSpiSendable f → spi_packet_of (seal (spi_body f)) ≡ f
unfolding seal
spi_packet_of-seal f h = λ i. record {
  command = command i;
  flags = flags i;
  transaction_id = txid i;
  payload = payload i;
  version = f.version;
}
  where
    command : bit_and f.command 0xFF ≡ f.command
    command = omega (arith, bit_and_mask 8 f.command, h.command)

    flags : bit_and f.flags 0xFF ≡ f.flags
    flags = omega (arith, bit_and_mask 8 f.flags, h.flags)

    txid : f.transaction_id / 0x100 * 0x100 + f.transaction_id % 0x100 ≡ f.transaction_id
    txid = omega arith

    tail : List ℕ
    tail = pack_u16 (crc16_ccitt_false (spi_body f))

    payload : slice 8 (length (spi_body f ++ tail) - 2) (spi_body f ++ tail) ≡ f.payload
    payload =
        take-append (length (spi_body f ++ tail) - 2 - 8) f.payload tail
          (omega (arith, length-append f.payload tail))

-- A packet whose version is the protocol's and whose command, flags, transaction ID and
-- payload fit their places is encoded, and spi_decode gives it back.
pub spi_decode-spi_encode : (f : SpiPacket) → IsSpiSendable f → (spi_encode f >>= spi_decode) ≡ ok f
spi_decode-spi_encode f h =
    ap (λ (r : Result (List ℕ)). r >>= spi_decode) (spi_encode_accepts f h)
    ∙ spi_decode_accepts (seal (spi_body f)) (IsSpiPacket-seal f h)
    ∙ ap ok (spi_packet_of-seal f h)

spi_payload_length :
    (raw : List ℕ) → IsSpiPacket raw → length (slice 8 (length raw - 2) raw) ≡ u16_at raw 6
spi_payload_length raw h =
    omega (arith, length-take (length raw - 2 - 8) (drop 8 raw), length-drop 8 raw, h.size)

spi_packet_of-IsSpiSendable :
    (raw : List ℕ) → AreBytes raw → IsSpiPacket raw → IsSpiSendable (spi_packet_of raw)
spi_packet_of-IsSpiSendable raw hb h = record {
  version = h.version;
  command = byte_at-lt raw 2 hb;
  flags = h.flags;
  transaction_id = u16_at-lt raw 4 hb;
  size = omega (arith, spi_payload_length raw h, h.room);
  bytes = All-take IsByte (length raw - 2 - 8) (drop 8 raw) (All-drop IsByte 8 raw hb);
}

spi_body-spi_packet_of :
    (raw : List ℕ) → AreBytes raw → IsSpiPacket raw → spi_body (spi_packet_of raw) ≡ body_of raw
spi_body-spi_packet_of raw hb h =
    let n : length (slice 8 (length raw - 2) raw) ≡ u16_at raw 6 = spi_payload_length raw h in
    cc (
      take_header raw (length raw - 2) (length raw - 2 - 8) (omega (arith, h.size))
          (omega (arith, h.size)),
      h.magic,
      masked_byte raw 2 hb,
      masked_byte raw 3 hb,
      u16_high raw 4 hb,
      u16_low raw 4 hb,
      ap (λ (t : ℕ). t / 0x100) n ∙ u16_high raw 6 hb,
      ap (λ (t : ℕ). t % 0x100) n ∙ u16_low raw 6 hb,
    )

spi_accepted_seal :
    (raw : List ℕ) (f : SpiPacket) → AreBytes raw → spi_decode raw ≡ ok f → raw ≡ seal (body_of raw)
spi_accepted_seal raw f hb e =
    let h : IsSpiPacket raw = (spi_decode_inversion raw f e).0 in
    eq-seal raw hb (omega (arith, h.size)) h.checksum

-- A packet of bytes that spi_decode accepts is what spi_encode makes of the packet that it
-- returns, and that packet fits its places: no two buffers stand for one packet.
pub spi_encode-spi_decode :
    (raw : List ℕ) (f : SpiPacket)
    → AreBytes raw
    → spi_decode raw ≡ ok f
    → IsSpiSendable f × (spi_encode f ≡ ok raw)
spi_encode-spi_decode raw f hb e =
    let (h, same) = spi_decode_inversion raw f e in
    subst (λ (g : SpiPacket). IsSpiSendable g × (spi_encode g ≡ ok raw)) (sym same)
      (
        spi_packet_of-IsSpiSendable raw hb h,
        spi_encode_accepts (spi_packet_of raw) (spi_packet_of-IsSpiSendable raw hb h)
            ∙ ap (λ (t : List ℕ). ok (seal t)) (spi_body-spi_packet_of raw hb h)
            ∙ ap ok (sym (eq-seal raw hb (omega arith) h.checksum)),
      )

-- A packet of bytes that spi_decode accepts is refused with an error once any one byte of it,
-- header and checksum included, is replaced by another byte.
pub spi_decode_detects :
    (front back : List ℕ) (x y : ℕ) (f : SpiPacket)
    → AreBytes (front ++ (x ∷ back))
    → y < 256
    → x ≢ y
    → spi_decode (front ++ (x ∷ back)) ≡ ok f
    → (e : Exception) × (spi_decode (front ++ (y ∷ back)) ≡ err e)
spi_decode_detects front back x y f hb hy ne e = refused (spi_decode (front ++ (y ∷ back))) λ g k.
    let hb' : AreBytes (front ++ (y ∷ back)) = AreBytes-changed front back x y hb hy in
    ne (
      seal_detects front back x y _ _ hb hb' (All-take IsByte _ (front ++ (x ∷ back)) hb)
        (All-take IsByte _ (front ++ (y ∷ back)) hb')
        (spi_accepted_seal (front ++ (x ∷ back)) f hb e)
        (spi_accepted_seal (front ++ (y ∷ back)) g hb' k))
