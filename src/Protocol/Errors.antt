-- ===== src/Protocol/Errors.antt =====
-- The exceptions of the PC host, and what may raise one. A message is kept as its constant part;
-- the numbers that an f-string puts in are left out.
use fpga_mcu_trinity.Base.{ℕ, ◌≡◌, refl, Bool, true, false, String, Option, none, some}
use fpga_mcu_trinity.Protocol.Constants.Codes.{ErrorCode}

-- serial_client_impl.py: the fields of `RemoteError`.
pub record RemoteError : Type 0 where
  pub code : ErrorCode
  pub system_state : ℕ
  pub source : ℕ
  pub related_target_txid : ℕ

pub data Exception : Type 0 where
  value_error cobs_decode_error : String → Exception
  protocol_decode_error : ErrorCode → String → Exception
  struct_error : Exception
  -- What the serial port, a callback or the clock raises.
  outside_error : Exception
  -- No statement of the source raises this: a loop of the model ran out of its rounds.
  out_of_fuel : Exception
  host_protocol_error : String → Exception
  remote_error : RemoteError → Exception
  timeout_error : String → Exception
  index_error : Exception

-- `except ValueError`: the two decode errors are its subclasses.
abbrev pub is_value_error : Exception → Bool
is_value_error (value_error m) = true
is_value_error (cobs_decode_error m) = true
is_value_error (protocol_decode_error c m) = true
is_value_error _ = false

-- `except HostProtocolError`: `RemoteError` is its subclass.
abbrev pub is_host_protocol_error : Exception → Bool
is_host_protocol_error (host_protocol_error m) = true
is_host_protocol_error (remote_error e) = true
is_host_protocol_error _ = false

pub data Result {ℓ} (A : Type ℓ) : Type ℓ where
  ok : A → Result A
  err : Exception → Result A

infixl 5 ◌>>=◌ ◌>>◌
abbrev pub ◌>>=◌ {ℓ κ} : {A : Type ℓ} {B : Type κ} → Result A → (A → Result B) → Result B
err raised >>= next = err raised
ok value >>= next = next value

abbrev pub ◌>>◌ {ℓ} : {B : Type ℓ} → Result (Unit {0}) → Result B → Result B
check >> next = check >>= λ _. next

-- `if test: raise e`
abbrev pub raise_if : Bool → Exception → Result (Unit {0})
raise_if true e = err e
raise_if false e = ok tt

-- A lookup by a class of members, with the error of an unknown number.
abbrev pub or_raise {ℓ} : {A : Type ℓ} → Exception → Option A → Result A
or_raise e none = err e
or_raise e (some a) = ok a

pub >>=-eq-ok {ℓ κ} :
    {A : Type ℓ} {B : Type κ} (first : Result A) (next : A → Result B) {result : B}
    → (first >>= next) ≡ ok result
    → (value : A) × (first ≡ ok value) × (next value ≡ ok result)
>>=-eq-ok (err raised) next same = cc
>>=-eq-ok (ok value) next same = (value, refl, same)

pub raise_if-eq-ok : (t : Bool) (e : Exception) → raise_if t e ≡ ok tt → t ≡ false
raise_if-eq-ok true e h = cc
raise_if-eq-ok false e h = refl

pub or_raise-eq-ok {ℓ} :
    {A : Type ℓ} (e : Exception) (o : Option A) (a : A) → or_raise e o ≡ ok a → o ≡ some a
or_raise-eq-ok e none a h = cc
or_raise-eq-ok e (some b) a h = cc

-- A result that no value can be is an error.
pub refused {ℓ} :
    {A : Type ℓ} (r : Result A) → ((a : A) → r ≡ ok a → ⊥) → (e : Exception) × (r ≡ err e)
refused (ok a) h = absurd (h a refl)
refused (err e) h = (e, refl)
