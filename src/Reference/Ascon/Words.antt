-- ===== src/Reference/Ascon/Words.antt =====
-- Words and their eight bytes.
use fpga_mcu_trinity.Base.{
  ℕ, zero, suc, ◌/◌, ◌^◌, ◌<◌, ◌≡◌, refl, ap, ap₂, ◌∙◌, arith, List, [], ◌∷◌, length,
}
use native.Mathlib.Nat.{pow-suc}
use fpga_mcu_trinity.Protocol.Crc.Rounds.{AreBytes}
use fpga_mcu_trinity.Reference.Ascon.{from_bytes, to_bytes}

pub length-to_bytes : (n w : ℕ) → length (to_bytes n w) ≡ n
unfolding to_bytes
length-to_bytes zero w = refl
length-to_bytes (suc n) w = omega (arith, length-to_bytes n (w / 256))

pub from_bytes-to_bytes : (n w : ℕ) → w < 256 ^ n → from_bytes (to_bytes n w) ≡ w
unfolding from_bytes to_bytes
from_bytes-to_bytes zero w h = omega (arith, h)
from_bytes-to_bytes (suc n) w h =
    omega (arith, from_bytes-to_bytes n (w / 256) (omega (arith, pow-suc 256 n, h)))

pub from_bytes-lt : (bytes : List ℕ) → AreBytes bytes → from_bytes bytes < 256 ^ length bytes
unfolding from_bytes
from_bytes-lt [] h = omega arith
from_bytes-lt (b ∷ bytes) h =
    omega (arith, from_bytes-lt bytes h.1, pow-suc 256 (length bytes), h.0)

pub to_bytes-from_bytes :
    (bytes : List ℕ) → AreBytes bytes → to_bytes (length bytes) (from_bytes bytes) ≡ bytes
unfolding from_bytes to_bytes
to_bytes-from_bytes [] h = refl
to_bytes-from_bytes (b ∷ bytes) h =
    ap₂ (λ (x : ℕ) (xs : List ℕ). x ∷ xs) (omega (arith, h.0))
      (ap (to_bytes (length bytes)) (omega (arith, h.0)) ∙ to_bytes-from_bytes bytes h.1)
