-- ===== src/Reference/Packet.antt =====
-- primer1/scripts/reference_checks.py: crc16, spi_packet and parse_spi, set against the host's
-- protocol package. `none` is a failed assertion.
use fpga_mcu_trinity.Base.{
  ℕ, ◌+◌, ◌-◌, ◌*◌, ◌/◌, ◌%◌, ◌^◌, ◌<◌, ◌≡◌, ◌↔◌, refl, sym, ap, ◌∙◌, arith, false, Option, none,
  some, List, [], ◌∷◌, ◌++◌, length, slice, foldl, bit_and, ltb, le→ltb, not, ◌&&◌, ◌==◌,
  if◌then◌else◌,
}
use fpga_mcu_trinity.Base.Bits.{bit_and_fields, bit_and_mask, bit_and-zero}
use fpga_mcu_trinity.Protocol.Crc.{crc16_byte, crc16_ccitt_false}
use fpga_mcu_trinity.Protocol.Crc.Rounds.{AreBytes}
use fpga_mcu_trinity.Protocol.Errors.{Result, ok}
use fpga_mcu_trinity.Protocol.Pack.{byte_at, u16_at, pack_u16, body_of, seal}
use fpga_mcu_trinity.Protocol.Pack.Fields.{byte_at-lt}
use fpga_mcu_trinity.Protocol.Frame.{SpiPacket, spi_body, spi_encode, spi_decode}
use fpga_mcu_trinity.Protocol.Frame.Spi.{
  IsSpiPacket, IsSpiSendable, spi_packet_of, spi_decode_accepts, spi_decode_inversion,
  spi_encode_accepts,
}

unfoldable pub crc16 : List ℕ → ℕ
crc16 bytes = foldl crc16_byte 0xFFFF bytes

-- For a command, flags and a transaction ID that fit their bytes.
unfoldable pub spi_packet : ℕ → ℕ → List ℕ → ℕ → Option (List ℕ)
spi_packet command txid payload flags =
    let body : List ℕ =
      (0xA5 ∷ 0x01 ∷ command ∷ flags ∷ [])
      ++ (pack_u16 txid ++ (pack_u16 (length payload) ++ payload)) in
    if ltb 66 (length payload) then none else some (body ++ pack_u16 (crc16 body))

unfoldable pub parse_spi : List ℕ → Option (ℕ × ℕ × List ℕ)
parse_spi packet =
    if not (not (ltb (length packet) 10) && not (ltb 76 (length packet)))
    then none
    else if not (byte_at packet 0 == 0xA5 && byte_at packet 1 == 0x01)
    then none
    else if not (bit_and (byte_at packet 3) 0xF0 == 0)
    then none
    else if not (length packet == 10 + u16_at packet 6)
    then none
    else if not (crc16 (body_of packet) == u16_at packet (length packet - 2))
    then none
    else some (byte_at packet 2, u16_at packet 4, slice 8 (length packet - 2) packet)

pub crc16_same : (bytes : List ℕ) → crc16 bytes ≡ crc16_ccitt_false bytes
unfolding crc16 crc16_ccitt_false
crc16_same bytes = refl

-- The four high bits of a byte.
high_bits : (b : ℕ) → b < 256 → bit_and b 0xF0 ≡ b / 16 * 16
high_bits b h =
    ap (λ (x : ℕ). bit_and x 0xF0) split
    ∙ bit_and_fields 4 (b / 16) (b % 16) 15 0 (omega arith) (omega arith)
    ∙ omega (arith, bit_and_mask 4 (b / 16), bit_and-zero (b % 16))
  where
    split : b ≡ b / 16 * 2 ^ 4 + b % 16
    split = omega arith

parsed :
    (packet : List ℕ) (r : ℕ × ℕ × List ℕ)
    → AreBytes packet
    → parse_spi packet ≡ some r
    → IsSpiPacket packet
      × (r ≡ (byte_at packet 2, u16_at packet 4, slice 8 (length packet - 2) packet))
unfolding parse_spi
parsed packet r b e =
    ground
      (arith, high_bits (byte_at packet 3) (byte_at-lt packet 3 b), crc16_same (body_of packet))

parses :
    (packet : List ℕ)
    → AreBytes packet
    → IsSpiPacket packet
    → parse_spi packet
      ≡ some (byte_at packet 2, u16_at packet 4, slice 8 (length packet - 2) packet)
unfolding parse_spi
parses packet b h =
    ground
      (arith, high_bits (byte_at packet 3) (byte_at-lt packet 3 b), crc16_same (body_of packet))

-- The reference parser accepts just the packets of bytes that SpiPacket.decode accepts, and gives
-- the command, the transaction ID and the payload of what that returns.
pub parse_spi_agrees :
    (packet : List ℕ) (r : ℕ × ℕ × List ℕ)
    → AreBytes packet
    → (parse_spi packet ≡ some r) ↔ (
        (p : SpiPacket) × (spi_decode packet ≡ ok p)
        × (r ≡ (p.command, p.transaction_id, p.payload)))
parse_spi_agrees packet r b = (
  λ e.
      let (accepted, same_parts) = parsed packet r b e in
      (spi_packet_of packet, spi_decode_accepts packet accepted, same_parts),
  λ (p, e, same_parts).
      let (accepted, same_packet) = spi_decode_inversion packet p e in
      parses packet b accepted
      ∙ ap some (
          ap (λ (q : SpiPacket). (q.command, q.transaction_id, q.payload)) (sym same_packet)
          ∙ sym same_parts),
)

ok_injective : (a b : List ℕ) → ◌≡◌ {A = Result (List ℕ)} (ok a) (ok b) → a ≡ b
ok_injective a b h = cc

built :
    (p : SpiPacket)
    → IsSpiSendable p
    → spi_packet p.command p.transaction_id p.payload p.flags ≡ some (seal (spi_body p))
unfolding spi_packet seal crc16 crc16_ccitt_false
built p h = cc (room, h.version, command, flags)
  where
    room : ltb 66 (length p.payload) ≡ false
    room = le→ltb 66 (length p.payload) h.size

    command : bit_and p.command 0xFF ≡ p.command
    command = omega (arith, bit_and_mask 8 p.command, h.command)

    flags : bit_and p.flags 0xFF ≡ p.flags
    flags = omega (arith, bit_and_mask 8 p.flags, h.flags)

-- A packet whose fields fit their places is built by the reference as SpiPacket.encode builds it.
pub spi_packet_agrees :
    (p : SpiPacket) (bytes : List ℕ)
    → IsSpiSendable p
    → spi_encode p ≡ ok bytes
    → spi_packet p.command p.transaction_id p.payload p.flags ≡ some bytes
spi_packet_agrees p bytes h e =
    built p h ∙ ap some (ok_injective _ bytes (sym (spi_encode_accepts p h) ∙ e))
