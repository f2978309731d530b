-- ===== src/Protocol/Frame.antt =====
-- protocol/frame.py: the frames between PC and SN32, and the SPI packets that SN32 reports.
pub mod Host
pub mod Spi
pub mod Wire
use fpga_mcu_trinity.Base.{
  ℕ, ◌+◌, ◌-◌, Bool, true, false, List, [], ◌∷◌, ◌++◌, length, take, slice, contains, get_or,
  bit_and, bit_or, ltb, ◌==◌, ◌!=◌, if◌then◌else◌,
}
use fpga_mcu_trinity.Base.Enum.{int}
use fpga_mcu_trinity.Protocol.Constants.{
  protocol_version, pc_max_payload, spi_magic, spi_max_payload,
}
use fpga_mcu_trinity.Protocol.Constants.Codes.{ErrorCode}
use fpga_mcu_trinity.Protocol.Constants.Flags.{FrameFlags, frame_flags_enum}
use fpga_mcu_trinity.Protocol.Errors.{
  Exception, Result, ok, err, value_error, protocol_decode_error, is_value_error, raise_if, ◌>>=◌,
  ◌>>◌,
}
use fpga_mcu_trinity.Protocol.Crc.{crc16_ccitt_false, crc32c}
use fpga_mcu_trinity.Protocol.Cobs.{cobs_encode, cobs_decode}
use fpga_mcu_trinity.Protocol.Pack.{byte_at, u16_at, pack_u16, and_not, body_of, seal}

-- int(FrameFlags.RESPONSE | FrameFlags.ERROR | FrameFlags.MORE | FrameFlags.EVENT)
abbrev pub known_flags : ℕ
known_flags =
    bit_or (bit_or (bit_or (int FrameFlags.response) (int FrameFlags.error)) (int FrameFlags.more))
      (int FrameFlags.event)

unfoldable pub check_flags : ℕ → Result (Unit {0})
check_flags flags =
    raise_if (and_not flags known_flags != 0)
      (protocol_decode_error ErrorCode.bad_flags "reserved flag bits set")

abbrev pub is_decode_error : Exception → Bool
is_decode_error (protocol_decode_error c m) = true
is_decode_error _ = false

pub record HostFrame : Type 0 where
  pub command : ℕ
  pub flags : ℕ
  pub transaction_id : ℕ
  pub payload : List ℕ
  pub version : ℕ

abbrev pub host_body : HostFrame → List ℕ
host_body f =
    (f.version ∷ bit_and f.command 0xFF ∷ bit_and f.flags 0xFF ∷ 0 ∷ [])
    ++ (pack_u16 f.transaction_id ++ (pack_u16 (length f.payload) ++ f.payload))

unfoldable pub encode_raw : HostFrame → Result (List ℕ)
unfolding check_flags
encode_raw f = do
  raise_if (f.version != protocol_version) (value_error "unsupported protocol version")
  check_flags f.flags
  raise_if (ltb 0xFFFF f.transaction_id) (value_error "transaction_id out of range")
  raise_if (ltb pc_max_payload (length f.payload)) (value_error "payload exceeds 256 bytes")
  ok (seal (host_body f))

unfoldable pub encode_wire : HostFrame → Result (List ℕ)
encode_wire f = do raw ← encode_raw f; ok (cobs_encode raw ++ (0 ∷ []))

unfoldable pub decode_raw : List ℕ → Result HostFrame
unfolding check_flags
decode_raw raw = do
  raise_if (ltb (length raw) (8 + 2))
      (protocol_decode_error ErrorCode.bad_length "raw host frame too short")
  raise_if (byte_at raw 0 != protocol_version)
      (protocol_decode_error ErrorCode.bad_version "version")
  raise_if (byte_at raw 3 != 0)
      (protocol_decode_error ErrorCode.bad_flags "reserved header byte is non-zero")
  check_flags (byte_at raw 2)
  raise_if (ltb pc_max_payload (u16_at raw 6))
      (protocol_decode_error ErrorCode.bad_length "payload exceeds 256 bytes")
  raise_if (length raw != 8 + u16_at raw 6 + 2)
      (protocol_decode_error ErrorCode.bad_length "length")
  raise_if (u16_at raw (length raw - 2) != crc16_ccitt_false (body_of raw))
      (protocol_decode_error ErrorCode.bad_crc "host frame CRC mismatch")
  ok (record {
    command = byte_at raw 1;
    flags = byte_at raw 2;
    transaction_id = u16_at raw 4;
    payload = slice 8 (length raw - 2) raw;
    version = byte_at raw 0;
  })

-- except ValueError as exc: raise ProtocolDecodeError(ErrorCode.MALFORMED_FRAME, str(exc))
abbrev pub or_malformed {ℓ} : {A : Type ℓ} → Result A → Result A
or_malformed (ok a) = ok a
or_malformed (err e) =
    if is_value_error e then err (protocol_decode_error ErrorCode.malformed_frame "COBS") else err e

unfoldable pub decode_wire : List ℕ → Result HostFrame
decode_wire wire = do
  raise_if (if length wire == 0 then true else byte_at wire (length wire - 1) != 0)
      (protocol_decode_error ErrorCode.malformed_frame "missing COBS delimiter")
  raise_if (contains 0 (take (length wire - 1) wire))
      (protocol_decode_error ErrorCode.malformed_frame "multiple delimiters in one frame")
  raw ← or_malformed (cobs_decode (take (length wire - 1) wire))
  decode_raw raw

pub record SpiPacket : Type 0 where
  pub command : ℕ
  pub flags : ℕ
  pub transaction_id : ℕ
  pub payload : List ℕ
  pub version : ℕ

abbrev pub spi_body : SpiPacket → List ℕ
spi_body p =
    (spi_magic ∷ p.version ∷ bit_and p.command 0xFF ∷ bit_and p.flags 0xFF ∷ [])
    ++ (pack_u16 p.transaction_id ++ (pack_u16 (length p.payload) ++ p.payload))

unfoldable pub spi_encode : SpiPacket → Result (List ℕ)
unfolding check_flags
spi_encode p = do
  raise_if (p.version != protocol_version) (value_error "unsupported protocol version")
  check_flags p.flags
  raise_if (ltb 0xFFFF p.transaction_id) (value_error "transaction_id out of range")
  raise_if (ltb spi_max_payload (length p.payload)) (value_error "SPI payload exceeds 66 bytes")
  ok (seal (spi_body p))

unfoldable pub spi_decode : List ℕ → Result SpiPacket
unfolding check_flags
spi_decode packet = do
  raise_if (ltb (length packet) (8 + 2))
      (protocol_decode_error ErrorCode.bad_length "SPI packet too short")
  raise_if (byte_at packet 0 != spi_magic) (protocol_decode_error ErrorCode.bad_magic "magic")
  raise_if (byte_at packet 1 != protocol_version)
      (protocol_decode_error ErrorCode.bad_version "version")
  check_flags (byte_at packet 3)
  raise_if (ltb spi_max_payload (u16_at packet 6))
      (protocol_decode_error ErrorCode.bad_length "SPI payload exceeds 66 bytes")
  raise_if (length packet != 8 + u16_at packet 6 + 2)
      (protocol_decode_error ErrorCode.bad_length "length")
  raise_if (u16_at packet (length packet - 2) != crc16_ccitt_false (body_of packet))
      (protocol_decode_error ErrorCode.bad_crc "SPI packet CRC mismatch")
  ok (record {
    command = byte_at packet 2;
    flags = byte_at packet 3;
    transaction_id = u16_at packet 4;
    payload = slice 8 (length packet - 2) packet;
    version = byte_at packet 1;
  })

unfoldable pub request_fingerprint_crc32c : ℕ → ℕ → List ℕ → Result ℕ
unfolding check_flags
request_fingerprint_crc32c command flags payload = do
  check_flags flags
  raise_if (ltb 0xFFFF (length payload)) (value_error "payload too large for fingerprint")
  ok (
      crc32c (
        (bit_and command 0xFF ∷ bit_and flags 0xFF ∷ []) ++ (pack_u16 (length payload) ++ payload)))
