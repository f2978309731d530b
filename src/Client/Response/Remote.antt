-- ===== src/Client/Response/Remote.antt =====
-- The error responses of the SN32: six bytes, that _raise_remote_error reads.
use fpga_mcu_trinity.Base.{ℕ, ◌<◌, ◌≡◌, ◌↔◌, ap, ◌∙◌, arith, List, ◌∷◌, ◌++◌, length, bit_or}
use fpga_mcu_trinity.Base.Enum.{int}
use fpga_mcu_trinity.Base.Bits.{bit_and_bit}
use fpga_mcu_trinity.Protocol.Constants.Codes.{error_code_enum}
use fpga_mcu_trinity.Protocol.Constants.Flags.{FrameFlags, frame_flags_enum}
use fpga_mcu_trinity.Protocol.Crc.Rounds.{AreBytes}
use fpga_mcu_trinity.Protocol.Errors.{RemoteError, ok, err, remote_error}
use fpga_mcu_trinity.Protocol.Pack.{byte_at, u16_at, pack_u16}
use fpga_mcu_trinity.Protocol.Pack.Fields.{drop_byte, drop_u16, drop_all}
use fpga_mcu_trinity.Protocol.Frame.{HostFrame}
use fpga_mcu_trinity.Protocol.Types.{error_code}
use fpga_mcu_trinity.Protocol.Types.Members.{error_code-int, int-error_code}
use fpga_mcu_trinity.Client.Response.{remote_error_of, check_response, more_or_event}

-- struct ">HBBH"
abbrev pub error_layout : RemoteError → List ℕ
error_layout e =
    pack_u16 (int e.code) ++ (e.system_state ∷ e.source ∷ pack_u16 e.related_target_txid)

six_bytes :
    (payload : List ℕ)
    → AreBytes payload
    → length payload ≡ 6
    → payload
      ≡ pack_u16 (u16_at payload 0)
        ++ (byte_at payload 2 ∷ byte_at payload 3 ∷ pack_u16 (u16_at payload 4))
six_bytes payload hb h =
    drop_u16 payload 0 hb (omega arith)
    ∙ ap (λ (t : List ℕ). pack_u16 (u16_at payload 0) ++ t)
        (drop_byte payload 2 (omega arith)
          ∙ ap (λ (t : List ℕ). byte_at payload 2 ∷ t)
              (drop_byte payload 3 (omega arith)
                ∙ ap (λ (t : List ℕ). byte_at payload 3 ∷ t)
                    (drop_u16 payload 4 hb (omega arith)
                      ∙ ap (λ (t : List ℕ). pack_u16 (u16_at payload 4) ++ t)
                          (drop_all 6 payload (omega arith)))))

remote_error_of_inversion :
    (frame : HostFrame) (e : RemoteError)
    → remote_error_of frame ≡ remote_error e
    → (length frame.payload ≡ 6)
      × (error_code (u16_at frame.payload 0) ≡ ok e.code)
      × (byte_at frame.payload 2 ≡ e.system_state)
      × (byte_at frame.payload 3 ≡ e.source)
      × (u16_at frame.payload 4 ≡ e.related_target_txid)
unfolding remote_error_of
remote_error_of_inversion frame e h = ground arith

remote_error_from_layout :
    (frame : HostFrame) (e : RemoteError)
    → frame.payload ≡ error_layout e
    → remote_error_of frame ≡ remote_error e
unfolding remote_error_of
remote_error_from_layout frame e h =
    let related : u16_at (error_layout e) 4 ≡ e.related_target_txid = omega arith in
    let code : u16_at (error_layout e) 0 ≡ int e.code = omega arith in
    ground (arith, h, related, code, error_code-int e.code)

-- What is read from an error payload is what it is the layout of.
remote_error_of-layout :
    (frame : HostFrame) (e : RemoteError)
    → AreBytes frame.payload
    → (remote_error_of frame ≡ remote_error e) ↔ (frame.payload ≡ error_layout e)
remote_error_of-layout frame e hb = (
  (λ h.
      let (size, code, state, source, related) = remote_error_of_inversion frame e h in
      cc (six_bytes frame.payload hb size, int-error_code _ _ code, state, source, related)),
  remote_error_from_layout frame e,
)

check_response_raises :
    (command txid : ℕ) (frame : HostFrame) (e : RemoteError)
    → frame.flags < 16
    → (check_response command txid frame ≡ err (remote_error e)) ↔ (
        (frame.command ≡ command)
        × (frame.transaction_id ≡ txid)
        × (frame.flags ≡ bit_or (int FrameFlags.response) (int FrameFlags.error))
        × (remote_error_of frame ≡ remote_error e))
unfolding check_response
check_response_raises command txid frame e h = (
  (λ q.
      ground
        (arith, bit_and_bit 0 frame.flags, bit_and_bit 1 frame.flags, more_or_event frame.flags)),
  λ p. ground (
    arith,
    bit_and_bit 0 frame.flags,
    bit_and_bit 1 frame.flags,
    more_or_event frame.flags,
    p.0,
    p.1,
    p.2,
    p.3,
  ),
)

-- For a frame with flags below 16 and a payload of bytes, check_response raises a RemoteError exactly
-- if the command and the transaction ID of the frame are those that were sent, its flags are RESPONSE
-- and ERROR, and its payload is the layout ">HBBH" of the code, the system state, the source and the
-- related transaction ID that the error carries.
pub check_response_error :
    (command txid : ℕ) (frame : HostFrame) (e : RemoteError)
    → frame.flags < 16
    → AreBytes frame.payload
    → (check_response command txid frame ≡ err (remote_error e)) ↔ (
        (frame.command ≡ command)
        × (frame.transaction_id ≡ txid)
        × (frame.flags ≡ bit_or (int FrameFlags.response) (int FrameFlags.error))
        × (frame.payload ≡ error_layout e))
check_response_error command txid frame e h hb =
    let (raises, raised) = check_response_raises command txid frame e h in
    let (reads, made) = remote_error_of-layout frame e hb in
    (
      (λ q. let (c, t, f, r) = raises q in (c, t, f, reads r)),
      λ p. raised (p.0, p.1, p.2, made p.3),
    )
