-- ===== src/Exec/Reaches.antt =====
-- Actions after which a condition holds, whatever held before: on every path, or on return.
use fpga_mcu_trinity.Base.{◌≡◌, refl, arith, Bool, true, false, if◌then◌else◌}
use fpga_mcu_trinity.Protocol.Errors.{Exception, Result, ok, err}
use fpga_mcu_trinity.Exec.{Exec, pure, continue, handle_with, try_except, try_finally, ◌>>=◌}
use fpga_mcu_trinity.Exec.Preserves.{Preserves}

-- On every path, return or raise.
pub record Reaches {S A : Type 0} (P : S → Type 0) (m : Exec S A) : Type 0 where
  pub at : (s : S) → P (m s).1

-- On return.
pub record Leaves {S A : Type 0} (P : S → Type 0) (m : Exec S A) : Type 0 where
  pub at : (s : S) (a : A) → (m s).0 ≡ ok a → P (m s).1

-- An action that never raises.
pub record Total {S A : Type 0} (m : Exec S A) : Type 0 where
  pub value : (s : S) → A
  pub returns : (s : S) → (m s).0 ≡ ok (value s)

module _ {S A B : Type 0} {P : S → Type 0} where
  continue_kept :
      (r : Result A) (f : A → Exec S B) (s : S)
      → P s
      → ((a : A) → Preserves P (f a))
      → P (continue r f s).1
  continue_kept (ok a) f s h k = (k a).at s h
  continue_kept (err e) f s h k = h

  pub Reaches-bind :
      (m : Exec S A) (f : A → Exec S B)
      → Reaches P m
      → ((a : A) → Preserves P (f a))
      → Reaches P (m >>= f)
  unfolding ◌>>=◌
  Reaches-bind m f h k = record { at = λ s. continue_kept (m s).0 f (m s).1 (h.at s) k }

  continue_reached :
      (r : Result A) (a : A) (f : A → Exec S B) (s : S)
      → r ≡ ok a
      → ((a : A) → Reaches P (f a))
      → P (continue r f s).1
  continue_reached (ok b) a f s e k = (k b).at s
  continue_reached (err x) a f s e k = absurd (ground arith)

  pub Reaches-next :
      (m : Exec S A) (f : A → Exec S B)
      → Total m
      → ((a : A) → Reaches P (f a))
      → Reaches P (m >>= f)
  unfolding ◌>>=◌
  Reaches-next m f h k = record {
    at = λ s. continue_reached (m s).0 (h.value s) f (m s).1 (h.returns s) k;
  }

  continue_left :
      (r : Result A) (f : A → Exec S B) (s : S)
      → ((a : A) → Leaves P (f a))
      → (b : B) → (continue r f s).0 ≡ ok b
      → P (continue r f s).1
  continue_left (ok a) f s k b e = (k a).at s b e
  continue_left (err x) f s k b e = absurd (ground arith)

  pub Leaves-next :
      (m : Exec S A) (f : A → Exec S B) → ((a : A) → Leaves P (f a)) → Leaves P (m >>= f)
  unfolding ◌>>=◌
  Leaves-next m f k = record { at = λ s. continue_left (m s).0 f (m s).1 k }

  pub Leaves-bind :
      (m : Exec S A) (f : A → Exec S B)
      → Reaches P m
      → ((a : A) → Preserves P (f a))
      → Leaves P (m >>= f)
  Leaves-bind m f h k = record { at = λ s b e. (Reaches-bind m f h k).at s }

module _ {S A : Type 0} {P : S → Type 0} where
  pub Preserves-reached : {m : Exec S A} → Reaches P m → Preserves P m
  Preserves-reached h = record { at = λ s k. h.at s }

  handled_kept :
      (catches : Exception → Bool) (f : Exception → Exec S A) (r : Result A) (s : S)
      → P s
      → ((e : Exception) → Preserves P (f e))
      → P (handle_with catches f r s).1
  handled_kept catches f (ok a) s h k = h
  handled_kept catches f (err e) s h k = chosen (catches e)
    where
      chosen : (b : Bool) → P (if b then f e s else (err e, s)).1
      chosen true = (k e).at s h
      chosen false = h

  pub Reaches-except :
      (m : Exec S A) (catches : Exception → Bool) (f : Exception → Exec S A)
      → Reaches P m
      → ((e : Exception) → Preserves P (f e))
      → Reaches P (try_except m catches f)
  unfolding try_except
  Reaches-except m catches f h k = record {
    at = λ s. handled_kept catches f (m s).0 (m s).1 (h.at s) k;
  }

  handled_reached :
      (f : Exception → Exec S A) (r : Result A) (s : S)
      → ((a : A) → r ≡ ok a → P s)
      → ((e : Exception) → Reaches P (f e))
      → P (handle_with (λ e. true) f r s).1
  handled_reached f (ok a) s h k = h a refl
  handled_reached f (err e) s h k = (k e).at s

  -- A `try` that catches everything.
  pub Reaches-handled :
      (m : Exec S A) (f : Exception → Exec S A)
      → Leaves P m
      → ((e : Exception) → Reaches P (f e))
      → Reaches P (try_except m (λ e. true) f)
  unfolding try_except
  Reaches-handled m f h k = record { at = λ s. handled_reached f (m s).0 (m s).1 (h.at s) k }

  pub Reaches-finally :
      (m : Exec S A) (last : Exec S (Unit {0})) → Reaches P last → Reaches P (try_finally m last)
  unfolding try_finally
  Reaches-finally m last h = record { at = λ s. h.at (m s).1 }

module _ {S : Type 0} where
  ignored_ok :
      (r : Result (Unit {0})) (s : S) → (handle_with (λ e. true) (λ e. pure tt) r s).0 ≡ ok tt
  ignored_ok (ok u) s = refl
  ignored_ok (err e) s = refl

  -- `try: m` with `except Exception: pass`.
  pub Total-ignored : (m : Exec S (Unit {0})) → Total (try_except m (λ e. true) (λ e. pure tt))
  unfolding try_except
  Total-ignored m = record { value = λ s. tt; returns = λ s. ignored_ok (m s).0 (m s).1 }
