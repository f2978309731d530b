-- ===== src/Exec/Ends.antt =====
-- What holds of the state and the value that an action returns from one state.
use fpga_mcu_trinity.Base.{◌≡◌, subst, arith, Bool, false}
use fpga_mcu_trinity.Protocol.Errors.{Exception, Result, ok}
use fpga_mcu_trinity.Exec.{Exec, pure, raise_if, ◌>>=◌, ◌>>◌, >>=-returns, raise_if-returns}

pub record Ends {S A : Type 0} (Q : S → A → Type 0) (m : Exec S A) (s : S) : Type 0 where
  pub holds : (t : S) (a : A) → m s ≡ (ok a, t) → Q t a

module _ {S A B : Type 0} {Q : S → B → Type 0} where
  -- Every value that the first part may return, with the state it leaves.
  pub Ends-bind :
      (m : Exec S A) (f : A → Exec S B) (s : S)
      → ((a : A) (u : S) → m s ≡ (ok a, u) → Ends Q (f a) u)
      → Ends Q (m >>= f) s
  Ends-bind m f s h = record {
    holds =
        λ t b e. let (a, u, first, rest) = >>=-returns m f s t b e in (h a u first).holds t b rest;
  }

module _ {S A : Type 0} where
  returned :
      (Q : S → A → Type 0) (a b : A) (s t : S)
      → ◌≡◌ {A = Result A × S} (ok a, s) (ok b, t)
      → Q s a
      → Q t b
  returned Q a b s t e h =
      subst (λ (u : S). Q u b) (cc (e)) (subst (λ (c : A). Q s c) (ground (arith, e)) h)

module _ {S A : Type 0} {Q : S → A → Type 0} where
  pub Ends-check :
      (b : Bool) (e : Exception) (m : Exec S A) (s : S)
      → (b ≡ false → Ends Q m s)
      → Ends Q (raise_if b e >> m) s
  Ends-check b e m s h = record {
    holds =
        λ t a q. let (passed, rest) = raise_if-returns b e m s t a q in (h passed).holds t a rest;
  }

  pub Ends-pure : (a : A) (s : S) → Q s a → Ends Q (pure a) s
  Ends-pure a s h = record { holds = λ t b e. returned Q a b s t e h }
