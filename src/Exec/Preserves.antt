-- ===== src/Exec/Preserves.antt =====
-- Invariants of actions, whether they return or raise: one rule for each way to build an action.
use fpga_mcu_trinity.Base.{Bool, true, false, if◌then◌else◌}
use fpga_mcu_trinity.Protocol.Errors.{Exception, Result, ok, err}
use fpga_mcu_trinity.Exec.{
  Exec, pure, raise, lift, act, raise_if, continue, handle_with, try_except, try_finally, ◌>>=◌,
}

pub record Preserves {S A : Type 0} (P : S → Type 0) (m : Exec S A) : Type 0 where
  pub at : (s : S) → P s → P (m s).1

module _ {S A : Type 0} {P : S → Type 0} where
  pub Preserves-pure : (a : A) → Preserves P (pure a)
  Preserves-pure a = record { at = λ s h. h }

  pub Preserves-raise : (e : Exception) → Preserves P (raise {A = A} e)
  Preserves-raise e = record { at = λ s h. h }

  pub Preserves-lift : (r : Result A) → Preserves P (lift r)
  Preserves-lift r = record { at = λ s h. h }

  pub Preserves-act : (f : S → A × S) → ((s : S) → P s → P (f s).1) → Preserves P (act f)
  Preserves-act f h = record { at = h }

module _ {S : Type 0} {P : S → Type 0} where
  pub Preserves-raise_if : (b : Bool) (e : Exception) → Preserves P (raise_if b e)
  Preserves-raise_if true e = record { at = λ s h. h }
  Preserves-raise_if false e = record { at = λ s h. h }

module _ {S A : Type 0} {P : S → Type 0} where
  pub Preserves-if :
      (b : Bool) (m n : Exec S A) → Preserves P m → Preserves P n → Preserves P (if b then m else n)
  Preserves-if true m n km kn = km
  Preserves-if false m n km kn = kn

module _ {S A B : Type 0} {P : S → Type 0} where
  Preserves-continue :
      (r : Result A) (f : A → Exec S B) (s : S)
      → ((a : A) → Preserves P (f a))
      → P s
      → P (continue r f s).1
  Preserves-continue (ok a) f s k h = (k a).at s h
  Preserves-continue (err e) f s k h = h

  pub Preserves-bind :
      (m : Exec S A) (f : A → Exec S B)
      → Preserves P m
      → ((a : A) → Preserves P (f a))
      → Preserves P (m >>= f)
  unfolding ◌>>=◌
  Preserves-bind m f km kf = record {
    at = λ s h. Preserves-continue (m s).0 f (m s).1 kf (km.at s h);
  }

module _ {S A : Type 0} {P : S → Type 0} where
  Preserves-handle_with :
      (catches : Exception → Bool) (f : Exception → Exec S A) (r : Result A) (s : S)
      → ((e : Exception) → Preserves P (f e))
      → P s
      → P (handle_with catches f r s).1
  Preserves-handle_with catches f (ok a) s k h = h
  Preserves-handle_with catches f (err e) s k h = chosen (catches e)
    where
      chosen : (b : Bool) → P (if b then f e s else (err e, s)).1
      chosen true = (k e).at s h
      chosen false = h

  pub Preserves-try_except :
      (m : Exec S A) (catches : Exception → Bool) (f : Exception → Exec S A)
      → Preserves P m
      → ((e : Exception) → Preserves P (f e))
      → Preserves P (try_except m catches f)
  unfolding try_except
  Preserves-try_except m catches f km kf = record {
    at = λ s h. Preserves-handle_with catches f (m s).0 (m s).1 kf (km.at s h);
  }

  pub Preserves-try_finally :
      (m : Exec S A) (last : Exec S (Unit {0}))
      → Preserves P m
      → Preserves P last
      → Preserves P (try_finally m last)
  unfolding try_finally
  Preserves-try_finally m last km kl = record { at = λ s h. kl.at (m s).1 (km.at s h) }

pub ruleset preserves_rules = (
  Preserves-pure, Preserves-raise, Preserves-lift, Preserves-raise_if, Preserves-if, Preserves-bind,
  Preserves-try_except, Preserves-try_finally,
)
