-- ===== src/Client/Payloads/LastError.antt =====
-- SessionCommitDiagnostic: the fields of the detail word.
use fpga_mcu_trinity.Base.{
  ℕ, ◌+◌, ◌*◌, ◌/◌, ◌^◌, ◌≤◌, ◌<◌, ◌≡◌, refl, ap, ◌∙◌, arith, Bool, true, false, some, bit_and,
  ◌!=◌, if◌then◌else◌,
}
use fpga_mcu_trinity.Base.Bits.{bit_and_mask, bit_and_bit}
use fpga_mcu_trinity.Protocol.Constants.Codes.{ErrorCode, error_code_enum}
use fpga_mcu_trinity.Client.Payloads.{SessionCommitDiagnostic, from_last_error, bit_is_set}

-- The detail word that the firmware of a failed session commit reports, as the fields lie in it.
unfoldable pub detail_of : SessionCommitDiagnostic → ℕ
detail_of d =
    d.phase * 2 ^ 28
    + (if d.gpio_high then 0x08000000 else 0)
    + d.p1_session_state * 2 ^ 20
    + d.p2_session_state * 2 ^ 16
    + d.p1_secure_flags * 2 ^ 8
    + d.p2_secure_flags

gpio_bit : Bool → ℕ
gpio_bit b = if b then 1 else 0

detail_parts :
    (d : SessionCommitDiagnostic)
    → (detail_of d
        ≡ (((d.phase * 16 + gpio_bit d.gpio_high * 8) * 16 + d.p1_session_state) * 16
              + d.p2_session_state)
            * 65536
          + d.p1_secure_flags * 256
          + d.p2_secure_flags)
      × (gpio_bit d.gpio_high ≤ 1)
unfolding detail_of gpio_bit
detail_parts d = ground arith

gpio_bit_set : (b : Bool) → (gpio_bit b * 0x08000000 != 0) ≡ b
unfolding gpio_bit
gpio_bit_set true = refl
gpio_bit_set false = refl

-- Every diagnosis whose fields fit their places is read back by from_last_error from the
-- detail word of a SESSION_COMMIT_FAILED snapshot, whatever the snapshot's source.
pub from_last_error-detail_of :
    (d : SessionCommitDiagnostic) (source : ℕ)
    → d.phase < 16
    → d.p1_session_state < 16
    → d.p2_session_state < 16
    → d.p1_secure_flags < 256
    → d.p2_secure_flags < 256
    → from_last_error
        (record { code = ErrorCode.session_commit_failed; source = source; detail = detail_of d })
      ≡ some d
unfolding from_last_error
from_last_error-detail_of d source h1 h2 h3 h4 h5 = λ i. some (record {
  phase = phase i;
  gpio_high = high i;
  p1_session_state = p1_state i;
  p2_session_state = p2_state i;
  p1_secure_flags = p1_flags i;
  p2_secure_flags = p2_flags i;
})
  where
    n : ℕ
    n = detail_of d

    phase : bit_and (n / 2 ^ 28) 0x0F ≡ d.phase
    phase = omega (arith, bit_and_mask 4 (n / 2 ^ 28), detail_parts d)

    high : bit_is_set n 0x08000000 ≡ d.gpio_high
    high =
        ap (λ (t : ℕ). t != 0) (omega (arith, bit_and_bit 27 n, detail_parts d))
        ∙ gpio_bit_set d.gpio_high

    p1_state : bit_and (n / 2 ^ 20) 0x0F ≡ d.p1_session_state
    p1_state = omega (arith, bit_and_mask 4 (n / 2 ^ 20), detail_parts d)

    p2_state : bit_and (n / 2 ^ 16) 0x0F ≡ d.p2_session_state
    p2_state = omega (arith, bit_and_mask 4 (n / 2 ^ 16), detail_parts d)

    p1_flags : bit_and (n / 2 ^ 8) 0xFF ≡ d.p1_secure_flags
    p1_flags = omega (arith, bit_and_mask 8 (n / 2 ^ 8), detail_parts d)

    p2_flags : bit_and n 0xFF ≡ d.p2_secure_flags
    p2_flags = omega (arith, bit_and_mask 8 n, detail_parts d)
