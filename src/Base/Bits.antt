-- ===== src/Base/Bits.antt =====
-- Laws of the bit operations at every width: the native operations compute digit by digit, and
-- each law here is proved from the equation for the lowest digit.
use Prim.Native.Nat.{
  ℕ, zero, suc, ◌+◌, ◌-◌, ◌*◌, ◌/◌, ◌%◌, ◌^◌, ◌≤◌, ◌<◌, min, bit_and, bit_xor, digits, bitwise,
  bit_and-bitwise, bit_xor-bitwise, differ,
}
use mathlib.Core.Path.{◌≡◌, refl, ap, ap₂, sym, ◌∙◌}
use native.Mathlib.Nat.{
  pow-suc, one-le-pow, div-add-mod, mod-lt, mod-eq_of_lt, mul-add-mod_self_left, div-div-eq-div-mul,
}
use native.Mathlib.Omega.{arith}

module _ (last : ℕ → ℕ) (digit : ℕ → ℕ → ℕ) where
  -- One more round changes nothing once there is a round for every digit.
  spare_round :
      (rounds a b : ℕ)
      → a ≤ rounds
      → digits last digit (suc rounds) a b ≡ digits last digit rounds a b
  spare_round zero zero b enough = refl
  spare_round (suc rounds) zero b enough = refl
  spare_round zero (suc a) b enough = absurd (omega arith)
  spare_round (suc rounds) (suc a) b enough =
      rw (spare_round rounds (suc a / 2) (b / 2) (omega arith))

  spare_rounds :
      (spare rounds a b : ℕ)
      → rounds ≡ a + spare
      → digits last digit rounds a b ≡ bitwise last digit a b
  spare_rounds zero rounds a b e = ap (λ (r : ℕ). digits last digit r a b) (omega arith)
  spare_rounds (suc spare) zero a b e = absurd (omega arith)
  spare_rounds (suc spare) (suc rounds) a b e =
      spare_round rounds a b (omega arith) ∙ spare_rounds spare rounds a b (omega arith)

  lowest_digit :
      (a b half : ℕ)
      → half ≡ suc a / 2
      → bitwise last digit (suc a) b
        ≡ bitwise last digit half (b / 2) * 2 + digit (suc a % 2) (b % 2)
  lowest_digit a b half e =
      ap (λ (t : ℕ). t * 2 + digit (suc a % 2) (b % 2))
        (ap (λ (t : ℕ). digits last digit a t (b / 2)) (sym e)
          ∙ spare_rounds (a - half) a half (b / 2) (omega arith))

differ_table : (a b : ℕ) → a < 2 → b < 2 → differ a b ≡ (a + b) % 2
differ_table zero zero p q = refl
differ_table zero (suc zero) p q = refl
differ_table zero (suc (suc b)) p q = absurd (omega arith)
differ_table (suc zero) zero p q = refl
differ_table (suc zero) (suc zero) p q = refl
differ_table (suc zero) (suc (suc b)) p q = absurd (omega arith)
differ_table (suc (suc a)) b p q = absurd (omega arith)

pub bit_and_step : (x y : ℕ) → bit_and x y ≡ bit_and (x / 2) (y / 2) * 2 + min (x % 2) (y % 2)
bit_and_step zero y = simp bit_and-bitwise (omega arith)
bit_and_step (suc x) y = simp bit_and-bitwise (lowest_digit (λ t. 0) min x y (suc x / 2) refl)

pub bit_xor_step : (a b : ℕ) → bit_xor a b ≡ bit_xor (a / 2) (b / 2) * 2 + (a + b) % 2
bit_xor_step zero b = simp bit_xor-bitwise (omega arith)
bit_xor_step (suc a) b = simp bit_xor-bitwise (
    lowest_digit (λ y. y) differ a b (suc a / 2) refl
    ∙ ap (λ (t : ℕ). bitwise (λ y. y) differ (suc a / 2) (b / 2) * 2 + t)
        (differ_table (suc a % 2) (b % 2) (omega arith) (omega arith) ∙ omega arith))

pub bit_xor_half : (a b : ℕ) → bit_xor a b / 2 ≡ bit_xor (a / 2) (b / 2)
bit_xor_half a b = omega (arith, bit_xor_step a b)

pub bit_xor_parity : (a b : ℕ) → bit_xor a b % 2 ≡ (a + b) % 2
bit_xor_parity a b = omega (arith, bit_xor_step a b)

bit_xor-cancel_fuel : (n a b : ℕ) → a + b ≤ n → bit_xor (bit_xor a b) b ≡ a
bit_xor-cancel_fuel n zero zero h = refl
bit_xor-cancel_fuel zero (suc a) b h = absurd (omega arith)
bit_xor-cancel_fuel zero zero (suc b) h = absurd (omega arith)
bit_xor-cancel_fuel (suc n) a b h = omega (
  arith,
  bit_xor_step (bit_xor a b) b,
  ap (λ (t : ℕ). bit_xor t (b / 2)) (bit_xor_half a b),
  bit_xor_parity a b,
  bit_xor-cancel_fuel n (a / 2) (b / 2) (omega arith),
)

pub bit_xor-cancel : (a b : ℕ) → bit_xor (bit_xor a b) b ≡ a
bit_xor-cancel a b = bit_xor-cancel_fuel (a + b) a b (omega arith)

pub bit_xor_injective : (a b c : ℕ) → bit_xor a c ≡ bit_xor b c → a ≡ b
bit_xor_injective a b c h =
    sym (bit_xor-cancel a c) ∙ ap (λ (t : ℕ). bit_xor t c) h ∙ bit_xor-cancel b c

double_field : (high width : ℕ) → high * 2 ^ suc width ≡ 2 * (high * 2 ^ width)
double_field high width = omega (ap (λ (power : ℕ). high * power) (pow-suc 2 width), arith)

bit_xor-zero_fuel : (n a : ℕ) → a ≤ n → bit_xor a 0 ≡ a
bit_xor-zero_fuel n zero h = refl
bit_xor-zero_fuel zero (suc a) h = absurd (omega arith)
bit_xor-zero_fuel (suc n) (suc a) h =
    omega (arith, bit_xor_step (suc a) 0, bit_xor-zero_fuel n (suc a / 2) (omega arith))

pub bit_xor-zero : (a : ℕ) → bit_xor a 0 ≡ a
bit_xor-zero a = bit_xor-zero_fuel a a (omega arith)

half_field : (k p r : ℕ) → (p * 2 ^ suc k + r) / 2 ≡ p * 2 ^ k + r / 2
half_field k p r = omega (arith, double_field p k)

-- The operations act on the high and the low field of a number apart.
pub bit_xor_fields :
    (k p r q s : ℕ)
    → r < 2 ^ k
    → s < 2 ^ k
    → bit_xor (p * 2 ^ k + r) (q * 2 ^ k + s) ≡ bit_xor p q * 2 ^ k + bit_xor r s
bit_xor_fields zero p r q s hr hs = ground arith
bit_xor_fields (suc k) p r q s hr hs = omega (
  arith,
  bit_xor_step (p * 2 ^ suc k + r) (q * 2 ^ suc k + s),
  bit_xor_step r s,
  ap₂ bit_xor (half_field k p r) (half_field k q s),
  bit_xor_fields k p (r / 2) q (s / 2) (omega (arith, pow-suc 2 k)) (omega (arith, pow-suc 2 k)),
  double_field p k,
  double_field q k,
  double_field (bit_xor p q) k,
)

-- Two numbers of `k` bits have an exclusive or of `k` bits.
pub bit_xor-lt : (k r s : ℕ) → r < 2 ^ k → s < 2 ^ k → bit_xor r s < 2 ^ k
bit_xor-lt zero r s hr hs = ground arith
bit_xor-lt (suc k) r s hr hs = omega (
  arith,
  bit_xor_step r s,
  pow-suc 2 k,
  bit_xor-lt k (r / 2) (s / 2) (omega (arith, pow-suc 2 k)) (omega (arith, pow-suc 2 k)),
)

bit_and-zero_below : (bound x : ℕ) → x < bound → bit_and x 0 ≡ 0
bit_and-zero_below zero x below = absurd (omega arith)
bit_and-zero_below (suc bound) zero below = refl
bit_and-zero_below (suc bound) (suc x) below =
    omega (bit_and-zero_below bound (suc x / 2) (omega arith), bit_and_step (suc x) 0, arith)

pub bit_and-zero : (x : ℕ) → bit_and x 0 ≡ 0
bit_and-zero x = bit_and-zero_below (suc x) x (omega arith)

pub bit_and_fields :
    (k p r q s : ℕ)
    → r < 2 ^ k
    → s < 2 ^ k
    → bit_and (p * 2 ^ k + r) (q * 2 ^ k + s) ≡ bit_and p q * 2 ^ k + bit_and r s
bit_and_fields zero p r q s hr hs = ground arith
bit_and_fields (suc k) p r q s hr hs = omega (
  arith,
  bit_and_step (p * 2 ^ suc k + r) (q * 2 ^ suc k + s),
  bit_and_step r s,
  ap₂ bit_and (half_field k p r) (half_field k q s),
  bit_and_fields k p (r / 2) q (s / 2) (omega (arith, pow-suc 2 k)) (omega (arith, pow-suc 2 k)),
  double_field p k,
  double_field q k,
  double_field (bit_and p q) k,
)

mod_double : (x m : ℕ) → 0 < m → x % (2 * m) ≡ x / 2 % m * 2 + x % 2
mod_double x m h =
    let r = x / 2 % m * 2 + x % 2 in
    let split : x ≡ 2 * m * (x / 2 / m) + r = omega (arith, div-add-mod (x / 2) m) in
    ap (λ (t : ℕ). t % (2 * m)) split
    ∙ mul-add-mod_self_left (2 * m) (x / 2 / m) r
    ∙ mod-eq_of_lt (omega (arith, mod-lt (x / 2) h))

div_double : (x m : ℕ) → x / (2 * m) ≡ x / 2 / m
div_double x m = sym (div-div-eq-div-mul x 2 m)

pow-double : (k : ℕ) → 2 ^ suc k ≡ 2 * 2 ^ k
pow-double k = omega (arith, pow-suc 2 k)

half_mask : (k : ℕ) → (2 ^ suc k - 1) / 2 ≡ 2 ^ k - 1
half_mask k = omega (arith, pow-suc 2 k, one-le-pow k 2)

half_power : (k : ℕ) → 2 ^ suc k / 2 ≡ 2 ^ k
half_power k = omega (arith, pow-suc 2 k)

-- `x & (2 ** k - 1)`
pub bit_and_mask : (k x : ℕ) → bit_and x (2 ^ k - 1) ≡ x % 2 ^ k
bit_and_mask zero x = rw bit_and-zero (omega arith)
bit_and_mask (suc k) x = omega (
  arith,
  bit_and_step x (2 ^ suc k - 1),
  ap (λ (t : ℕ). bit_and (x / 2) t) (half_mask k),
  bit_and_mask k (x / 2),
  mod_double x (2 ^ k) (omega (arith, one-le-pow k 2)),
  ap (λ (t : ℕ). x % t) (pow-double k),
  pow-suc 2 k,
  one-le-pow k 2,
)

-- `x & (1 << k)`
pub bit_and_bit : (k x : ℕ) → bit_and x (2 ^ k) ≡ x / 2 ^ k % 2 * 2 ^ k
bit_and_bit zero x = omega (arith, bit_and_step x 1, bit_and-zero (x / 2))
bit_and_bit (suc k) x = omega (
  arith,
  bit_and_step x (2 ^ suc k),
  ap (λ (t : ℕ). bit_and (x / 2) t) (half_power k),
  bit_and_bit k (x / 2),
  ap (λ (t : ℕ). t % 2 * (2 * 2 ^ k)) (ap (λ (t : ℕ). x / t) (pow-double k) ∙ div_double x (2 ^ k)),
  ap (λ (t : ℕ). x / 2 ^ suc k % 2 * t) (pow-double k),
  pow-suc 2 k,
)

pub zero-bit_xor : (a : ℕ) → bit_xor 0 a ≡ a
zero-bit_xor a = bit_xor-bitwise 0 a

pub bit_xor_self : (a : ℕ) → bit_xor a a ≡ 0
bit_xor_self a = ap (λ (t : ℕ). bit_xor t a) (sym (zero-bit_xor a)) ∙ bit_xor-cancel 0 a

pub bit_xor-eq-zero : (a b : ℕ) → bit_xor a b ≡ 0 → a ≡ b
bit_xor-eq-zero a b h = bit_xor_injective a b b (h ∙ sym (bit_xor_self b))

bit_xor_comm_fuel : (n a b : ℕ) → a + b ≤ n → bit_xor a b ≡ bit_xor b a
bit_xor_comm_fuel n zero b h = zero-bit_xor b ∙ sym (bit_xor-zero b)
bit_xor_comm_fuel zero (suc a) b h = absurd (omega arith)
bit_xor_comm_fuel (suc n) (suc a) b h = omega (
  arith,
  bit_xor_step (suc a) b,
  bit_xor_step b (suc a),
  bit_xor_comm_fuel n (suc a / 2) (b / 2) (omega arith),
)

pub bit_xor_comm : (a b : ℕ) → bit_xor a b ≡ bit_xor b a
bit_xor_comm a b = bit_xor_comm_fuel (a + b) a b (omega arith)

pub bit_xor_injective_right : (a b c : ℕ) → bit_xor c a ≡ bit_xor c b → a ≡ b
bit_xor_injective_right a b c h = bit_xor_injective a b c (bit_xor_comm a c ∙ h ∙ bit_xor_comm c b)
