-- ===== src/Tests/Codec.antt =====
-- Checksums, COBS and frames at concrete inputs.
use fpga_mcu_trinity.Base.{
  ℕ, ◌≡◌, ◌≢◌, ◌≤◌, refl, arith, true, false, List, [], ◌∷◌, ◌++◌, length, contains,
}
use fpga_mcu_trinity.Protocol.Errors.{
  Exception, ok, err, cobs_decode_error, protocol_decode_error, is_value_error, ◌>>=◌,
}
use fpga_mcu_trinity.Protocol.Constants.Codes.{ErrorCode}
use fpga_mcu_trinity.Protocol.Crc.{crc16_ccitt_false, crc32c}
use fpga_mcu_trinity.Protocol.Crc.Sixteen.{crc16_differs}
use fpga_mcu_trinity.Protocol.Cobs.{cobs_encode, cobs_decode}
use fpga_mcu_trinity.Protocol.Cobs.Decode.{cobs_decode_errors}
use fpga_mcu_trinity.Protocol.Cobs.RoundTrip.{cobs_decode-cobs_encode}
use fpga_mcu_trinity.Protocol.Pack.{seal}
use fpga_mcu_trinity.Protocol.Frame.{
  HostFrame, SpiPacket, encode_raw, encode_wire, decode_raw, decode_wire, spi_encode, spi_decode,
  is_decode_error,
}
use fpga_mcu_trinity.Protocol.Frame.Host.{
  IsSendable, decode_raw-encode_raw, encode_raw-decode_raw, decode_raw_detects,
}
use fpga_mcu_trinity.Protocol.Frame.Spi.{
  IsSpiSendable, spi_decode-spi_encode, spi_encode-spi_decode, spi_decode_detects,
}
use fpga_mcu_trinity.Protocol.Frame.Wire.{
  decode_wire-encode_wire, encode_wire_shape, decode_wire_errors,
}

abbrev digits : List ℕ
digits = 0x31 ∷ 0x32 ∷ 0x33 ∷ 0x34 ∷ 0x35 ∷ 0x36 ∷ 0x37 ∷ 0x38 ∷ 0x39 ∷ []

-- The check values of CRC-16/CCITT-FALSE and CRC-32C.
crc16_digits : crc16_ccitt_false digits ≡ 0x29B1
unfolding crc16_ccitt_false
crc16_digits = refl

crc32c-digits : crc32c digits ≡ 0xE3069283
unfolding crc32c
crc32c-digits = refl

crc16_differs_example :
    crc16_ccitt_false ((7 ∷ []) ++ (1 ∷ 9 ∷ [])) ≢ crc16_ccitt_false ((7 ∷ []) ++ (3 ∷ 9 ∷ []))
crc16_differs_example =
    crc16_differs (7 ∷ []) (9 ∷ []) 1 3 (ground arith) (omega arith) (λ e. omega arith)

cobs_encode_zeros : cobs_encode (0 ∷ 5 ∷ 0 ∷ []) ≡ 1 ∷ 2 ∷ 5 ∷ 1 ∷ []
unfolding cobs_encode
cobs_encode_zeros = refl

cobs_decode-cobs_encode_example : cobs_decode (cobs_encode (0 ∷ 5 ∷ 0 ∷ [])) ≡ ok (0 ∷ 5 ∷ 0 ∷ [])
cobs_decode-cobs_encode_example = cobs_decode-cobs_encode (0 ∷ 5 ∷ 0 ∷ [])

cobs_decode_overrun : cobs_decode (3 ∷ 1 ∷ []) ≡ err (cobs_decode_error "COBS block exceeds input")
unfolding cobs_decode
cobs_decode_overrun = refl

cobs_decode_errors_example : is_value_error (cobs_decode_error "COBS block exceeds input") ≡ true
cobs_decode_errors_example = cobs_decode_errors (3 ∷ 1 ∷ []) _ cobs_decode_overrun

cobs_decode_two : cobs_decode (3 ∷ 1 ∷ 4 ∷ []) ≡ ok (1 ∷ 4 ∷ [])
unfolding cobs_decode
cobs_decode_two = refl

abbrev ping_frame : HostFrame
ping_frame = record {
  command = 1;
  flags = 0;
  transaction_id = 7;
  payload = 0 ∷ 5 ∷ [];
  version = 1;
}

abbrev ping_raw : List ℕ
ping_raw = 1 ∷ 1 ∷ 0 ∷ 0 ∷ 0 ∷ 7 ∷ 0 ∷ 2 ∷ 0 ∷ 5 ∷ 60 ∷ 78 ∷ []

ping_frame-IsSendable : IsSendable ping_frame
ping_frame-IsSendable = record {
  version = refl;
  command = omega arith;
  flags = omega arith;
  transaction_id = omega arith;
  size = omega arith;
  bytes = ground arith;
}

ping_decoded : decode_raw ping_raw ≡ ok ping_frame
unfolding decode_raw crc16_ccitt_false
ping_decoded = refl

decode_raw-encode_raw_example : (encode_raw ping_frame >>= decode_raw) ≡ ok ping_frame
decode_raw-encode_raw_example = decode_raw-encode_raw ping_frame ping_frame-IsSendable

encode_raw-decode_raw_example : IsSendable ping_frame × (encode_raw ping_frame ≡ ok ping_raw)
encode_raw-decode_raw_example =
    encode_raw-decode_raw ping_raw ping_frame (ground arith) ping_decoded

decode_raw_detects_example :
    (e : Exception) × (decode_raw ((1 ∷ 1 ∷ 0 ∷ 0 ∷ 0 ∷ []) ++ (6 ∷ 0 ∷ 2 ∷ 0 ∷ 5 ∷ 60 ∷ 78 ∷ []))
      ≡ err e)
decode_raw_detects_example =
    decode_raw_detects (1 ∷ 1 ∷ 0 ∷ 0 ∷ 0 ∷ []) (0 ∷ 2 ∷ 0 ∷ 5 ∷ 60 ∷ 78 ∷ []) 7 6 ping_frame
      (ground arith) (omega arith) (λ e. omega arith) ping_decoded

decode_wire-encode_wire_example : (encode_wire ping_frame >>= decode_wire) ≡ ok ping_frame
decode_wire-encode_wire_example = decode_wire-encode_wire ping_frame ping_frame-IsSendable

abbrev ping_wire : List ℕ
ping_wire = 3 ∷ 1 ∷ 1 ∷ 1 ∷ 1 ∷ 2 ∷ 7 ∷ 2 ∷ 2 ∷ 4 ∷ 5 ∷ 60 ∷ 78 ∷ 0 ∷ []

ping_encoded : encode_wire ping_frame ≡ ok ping_wire
unfolding encode_wire encode_raw seal crc16_ccitt_false cobs_encode
ping_encoded = refl

encode_wire_shape_example :
    (front : List ℕ) × (ping_wire ≡ front ++ (0 ∷ []))
    × (contains 0 front ≡ false)
    × (length ping_wire ≤ 269)
encode_wire_shape_example = encode_wire_shape ping_frame ping_wire ping_encoded

unended :
    decode_wire (2 ∷ 7 ∷ [])
    ≡ err (protocol_decode_error ErrorCode.malformed_frame "missing COBS delimiter")
unfolding decode_wire
unended = refl

decode_wire_errors_example :
    is_decode_error (protocol_decode_error ErrorCode.malformed_frame "missing COBS delimiter")
    ≡ true
decode_wire_errors_example = decode_wire_errors (2 ∷ 7 ∷ []) _ unended

abbrev info_packet : SpiPacket
info_packet = record { command = 1; flags = 0; transaction_id = 7; payload = 4 ∷ []; version = 1 }

abbrev info_raw : List ℕ
info_raw = 165 ∷ 1 ∷ 1 ∷ 0 ∷ 0 ∷ 7 ∷ 0 ∷ 1 ∷ 4 ∷ 170 ∷ 218 ∷ []

info_packet-IsSpiSendable : IsSpiSendable info_packet
info_packet-IsSpiSendable = record {
  version = refl;
  command = omega arith;
  flags = omega arith;
  transaction_id = omega arith;
  size = omega arith;
  bytes = ground arith;
}

info_decoded : spi_decode info_raw ≡ ok info_packet
unfolding spi_decode crc16_ccitt_false
info_decoded = refl

spi_decode-spi_encode_example : (spi_encode info_packet >>= spi_decode) ≡ ok info_packet
spi_decode-spi_encode_example = spi_decode-spi_encode info_packet info_packet-IsSpiSendable

spi_encode-spi_decode_example : IsSpiSendable info_packet × (spi_encode info_packet ≡ ok info_raw)
spi_encode-spi_decode_example =
    spi_encode-spi_decode info_raw info_packet (ground arith) info_decoded

spi_decode_detects_example :
    (e : Exception) × (spi_decode ((165 ∷ 1 ∷ []) ++ (3 ∷ 0 ∷ 0 ∷ 7 ∷ 0 ∷ 1 ∷ 4 ∷ 170 ∷ 218 ∷ []))
      ≡ err e)
spi_decode_detects_example =
    spi_decode_detects (165 ∷ 1 ∷ []) (0 ∷ 0 ∷ 7 ∷ 0 ∷ 1 ∷ 4 ∷ 170 ∷ 218 ∷ []) 1 3 info_packet
      (ground arith) (omega arith) (λ e. omega arith) info_decoded
