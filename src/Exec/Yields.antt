-- ===== src/Exec/Yields.antt =====
-- What the values that an action returns have in common: one rule for each way to build an action.
use fpga_mcu_trinity.Base.{◌≡◌, refl, ap, subst, arith, Bool, true, false, if◌then◌else◌}
use fpga_mcu_trinity.Protocol.Errors.{Exception, Result, ok, err}
use fpga_mcu_trinity.Exec.{
  Exec, pure, raise, lift, raise_if, continue, handle_with, try_except, try_finally, after, ◌>>=◌,
  ◌>>◌,
}

pub record Yields {S A : Type 0} (Q : A → Type 0) (m : Exec S A) : Type 0 where
  pub holds : (s : S) (a : A) → (m s).0 ≡ ok a → Q a

module _ {S A B : Type 0} {Q : B → Type 0} where
  continue-Yields :
      (x : Result A) (s : S) (f : A → Exec S B)
      → ((a : A) → x ≡ ok a → Yields Q (f a))
      → (b : B) → (continue x f s).0 ≡ ok b
      → Q b
  continue-Yields (ok a) s f h b e = (h a refl).holds s b e
  continue-Yields (err x) s f h b e = absurd (ground arith)

  pub Yields-bind :
      {P : A → Type 0} (m : Exec S A) (f : A → Exec S B)
      → Yields P m
      → ((a : A) → P a → Yields Q (f a))
      → Yields Q (m >>= f)
  unfolding ◌>>=◌
  Yields-bind m f hm h = record {
    holds = λ s. continue-Yields (m s).0 (m s).1 f (λ a e. h a (hm.holds s a e));
  }

  pub Yields-next :
      (m : Exec S A) (f : A → Exec S B) → ((a : A) → Yields Q (f a)) → Yields Q (m >>= f)
  unfolding ◌>>=◌
  Yields-next m f h = record { holds = λ s. continue-Yields (m s).0 (m s).1 f (λ a e. h a) }

  -- A result that is read.
  pub Yields-read :
      (r : Result A) (f : A → Exec S B)
      → ((a : A) → r ≡ ok a → Yields Q (f a))
      → Yields Q (lift r >>= f)
  unfolding ◌>>=◌
  Yields-read r f h = record { holds = λ s. continue-Yields r s f h }

module _ {A : Type 0} {Q : A → Type 0} where
  after-Yields :
      (x : Result A) (l : Result (Unit {0}))
      → ((a : A) → x ≡ ok a → Q a)
      → (a : A) → after x l ≡ ok a
      → Q a
  after-Yields x (ok u) h a e = h a e
  after-Yields x (err q) h a e = absurd (ground arith)

module _ {S A : Type 0} {Q : A → Type 0} where
  -- A test that is passed.
  pub Yields-check :
      (b : Bool) (e : Exception) (m : Exec S A)
      → (b ≡ false → Yields Q m)
      → Yields Q (raise_if b e >> m)
  unfolding ◌>>=◌
  Yields-check true e m h = record { holds = λ s a q. absurd (ground arith) }
  Yields-check false e m h = h refl

  pub Yields-if :
      (b : Bool) (m n : Exec S A) → Yields Q m → Yields Q n → Yields Q (if b then m else n)
  Yields-if true m n hm hn = hm
  Yields-if false m n hm hn = hn

  pub Yields-lift : (r : Result A) → ((a : A) → r ≡ ok a → Q a) → Yields Q (lift {S = S} r)
  Yields-lift r h = record { holds = λ s. h }

  pub Yields-pure : (a : A) → Q a → Yields Q (pure {S = S} a)
  Yields-pure a h = record { holds = λ s b e. subst Q (cc) h }

  pub Yields-finally :
      (m : Exec S A) (last : Exec S (Unit {0})) → Yields Q m → Yields Q (try_finally m last)
  unfolding try_finally
  Yields-finally m last h = record {
    holds = λ s. after-Yields (m s).0 (last (m s).1).0 (h.holds s);
  }

  handled-Yields :
      (catches : Exception → Bool) (f : Exception → Exec S A) (x : Result A) (s : S)
      → ((a : A) → x ≡ ok a → Q a)
      → ((e : Exception) → Yields Q (f e))
      → (a : A) → (handle_with catches f x s).0 ≡ ok a
      → Q a
  handled-Yields catches f (ok b) s h k = h
  handled-Yields catches f (err x) s h k = chosen (catches x)
    where
      chosen : (b : Bool) (a : A) → (if b then f x s else (err x, s)).0 ≡ ok a → Q a
      chosen true a e = (k x).holds s a e
      chosen false a e = absurd (ground arith)

  pub Yields-except :
      (m : Exec S A) (catches : Exception → Bool) (f : Exception → Exec S A)
      → Yields Q m
      → ((e : Exception) → Yields Q (f e))
      → Yields Q (try_except m catches f)
  unfolding try_except
  Yields-except m catches f h k = record {
    holds = λ s. handled-Yields catches f (m s).0 (m s).1 (h.holds s) k;
  }

  pub Yields-raise : (e : Exception) → Yields Q (raise {S = S} e)
  Yields-raise e = record { holds = λ s a q. absurd (ground arith) }

  pub Yields-map : {P : A → Type 0} {m : Exec S A} → ((a : A) → P a → Q a) → Yields P m → Yields Q m
  Yields-map k h = record { holds = λ s a e. k a (h.holds s a e) }

  -- The property of a value that is returned.
  pub yielded : {m : Exec S A} → Yields Q m → (s t : S) (a : A) → m s ≡ (ok a, t) → Q a
  yielded h s t a e = h.holds s a (ap (λ (p : Result A × S). p.0) e)

module _ {S : Type 0} {Q : Unit {0} → Type 0} where
  -- A test that ends an action.
  pub Yields-last :
      (b : Bool) (e : Exception) → (b ≡ false → Q tt) → Yields Q (raise_if {S = S} b e)
  Yields-last true e h = record { holds = λ s a q. absurd (ground arith) }
  Yields-last false e h = record { holds = λ s a q. h refl }
