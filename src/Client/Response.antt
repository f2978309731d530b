-- ===== src/Client/Response.antt =====
-- What request makes of a frame that is no event, and _raise_remote_error.
pub mod Remote
use fpga_mcu_trinity.Base.{
  ℕ, ◌+◌, ◌*◌, ◌/◌, ◌%◌, ◌^◌, ◌<◌, ◌≡◌, ◌↔◌, ap, arith, Bool, true, not, ◌||◌, length, bit_and,
  bit_or, ◌!=◌, if◌then◌else◌,
}
use fpga_mcu_trinity.Base.Enum.{int}
use fpga_mcu_trinity.Base.Bits.{bit_and_bit, bit_and_fields, bit_and_mask, bit_and-zero}
use fpga_mcu_trinity.Protocol.Constants.Flags.{FrameFlags, frame_flags_enum}
use fpga_mcu_trinity.Protocol.Errors.{
  Exception, Result, ok, err, host_protocol_error, remote_error, raise_if, is_host_protocol_error,
  ◌>>◌,
}
use fpga_mcu_trinity.Protocol.Pack.{byte_at, u16_at}
use fpga_mcu_trinity.Protocol.Frame.{HostFrame}
use fpga_mcu_trinity.Protocol.Types.{error_code}

-- `flags & int(flag)`, as a test
abbrev pub has_flag : ℕ → FrameFlags → Bool
has_flag flags flag = bit_and flags (int flag) != 0

-- _raise_remote_error, which never returns: what it raises.
unfoldable pub remote_error_of : HostFrame → Exception
remote_error_of frame =
    if length frame.payload != 6
    then host_protocol_error "malformed SN32 error payload"
    else elim (error_code (u16_at frame.payload 0)) [
      | err e ↦ host_protocol_error "unknown remote error code"
      | ok code ↦ remote_error (record {
        code = code;
        system_state = byte_at frame.payload 2;
        source = byte_at frame.payload 3;
        related_target_txid = u16_at frame.payload 4;
      })
    ]

-- What request makes of a frame that is no event.
unfoldable pub check_response : ℕ → ℕ → HostFrame → Result HostFrame
check_response command txid frame = do
  raise_if (frame.command != command || frame.transaction_id != txid)
      (host_protocol_error "response correlation failure")
  raise_if (not (has_flag frame.flags FrameFlags.response))
      (host_protocol_error "SN32 frame is not marked as a response")
  raise_if (bit_and frame.flags (bit_or (int FrameFlags.more) (int FrameFlags.event)) != 0)
      (host_protocol_error "unexpected MORE/EVENT flag in synchronous response")
  raise_if (has_flag frame.flags FrameFlags.error) (remote_error_of frame)
  ok frame

pub more_or_event : (flags : ℕ) → bit_and flags 12 ≡ flags / 4 % 4 * 4
more_or_event flags = omega (
  arith,
  ap (λ (t : ℕ). bit_and t 12) split,
  bit_and_fields 2 (flags / 4) (flags % 4) 3 0 (omega arith) (omega arith),
  bit_and_mask 2 (flags / 4),
  bit_and-zero (flags % 4),
)
  where
    split : flags ≡ flags / 4 * 2 ^ 2 + flags % 4
    split = omega arith

-- For a frame with flags below 16, check_response accepts exactly if its command and
-- transaction ID are those that were sent and RESPONSE is set and no other flag, and it
-- returns the frame as it is.
pub check_response_iff :
    (command txid : ℕ) (frame reply : HostFrame)
    → frame.flags < 16
    → (check_response command txid frame ≡ ok reply) ↔ (
        (reply ≡ frame)
        × (frame.command ≡ command)
        × (frame.transaction_id ≡ txid)
        × (frame.flags ≡ int FrameFlags.response))
unfolding check_response
check_response_iff command txid frame reply h = (
  (λ e.
      ground
        (arith, bit_and_bit 0 frame.flags, bit_and_bit 1 frame.flags, more_or_event frame.flags)),
  λ p. ground (
    arith,
    bit_and_bit 0 frame.flags,
    bit_and_bit 1 frame.flags,
    more_or_event frame.flags,
    p.0,
    p.1,
    p.2,
    p.3,
  ),
)

-- Whatever the payload, what is raised is a HostProtocolError or its subclass.
pub remote_error_kind : (frame : HostFrame) → is_host_protocol_error (remote_error_of frame) ≡ true
unfolding remote_error_of
remote_error_kind frame = ground arith
