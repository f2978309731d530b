-- ===== src/Exec/Runs.antt =====
-- Measures of actions: what is left of a bound when an action has run, and that it did not use up
-- the model's fuel.
use fpga_mcu_trinity.Base.{ℕ, ◌≤◌, ◌<◌, ◌≡◌, ◌≢◌, refl, arith, Bool, true, false, if◌then◌else◌}
use fpga_mcu_trinity.Protocol.Errors.{Result, ok, err, out_of_fuel}
use fpga_mcu_trinity.Exec.{Exec, lift, continue, ◌>>=◌}

-- From a state whose measure is below `n`, the action does not raise the model's own error, and if
-- it returns then the measure is below `k`.
pub record Runs {S A : Type 0} (left : S → ℕ) (n k : ℕ) (m : Exec S A) : Type 0 where
  pub returns : (s : S) → left s < n → (m s).0 ≢ err out_of_fuel
  pub below : (s : S) → left s < n → (a : A) → (m s).0 ≡ ok a → left (m s).1 < k

module _ {S A : Type 0} {left : S → ℕ} where
  pub Runs-weaken : {n k l : ℕ} {m : Exec S A} → k ≤ l → Runs left n k m → Runs left n l m
  Runs-weaken h r = record {
    returns = r.returns;
    below = λ s b a e. omega (arith, r.below s b a e);
  }

  pub Runs-zero : {k : ℕ} {m : Exec S A} → Runs left 0 k m
  Runs-zero = record { returns = λ s b. absurd (omega arith); below = λ s b. absurd (omega arith) }

  pub Runs-lift : {n : ℕ} (r : Result A) → r ≢ err out_of_fuel → Runs left n n (lift r)
  Runs-lift r h = record { returns = λ s b. h; below = λ s b a e. b }

  pub Runs-if :
      {n k : ℕ} (b : Bool) (m m' : Exec S A)
      → Runs left n k m
      → Runs left n k m'
      → Runs left n k (if b then m else m')
  Runs-if true m m' r r' = r
  Runs-if false m m' r r' = r'

module _ {S A B : Type 0} {left : S → ℕ} where
  pub continue-Runs :
      {n k : ℕ} (x : Result A) (s : S) (f : A → Exec S B)
      → x ≢ err out_of_fuel
      → ((a : A) → x ≡ ok a → left s < n)
      → ((a : A) → Runs left n k (f a))
      → ((continue x f s).0 ≢ err out_of_fuel)
        × ((b : B) → (continue x f s).0 ≡ ok b → left (continue x f s).1 < k)
  continue-Runs (ok a) s f h l r = ((r a).returns s (l a refl), (r a).below s (l a refl))
  continue-Runs (err e) s f h l r = (λ q. h (cc (q)), λ b q. absurd (cc (q)))

  pub Runs-bind :
      {n k l : ℕ} (m : Exec S A) (f : A → Exec S B)
      → Runs left n k m
      → ((a : A) → Runs left k l (f a))
      → Runs left n l (m >>= f)
  unfolding ◌>>=◌
  Runs-bind m f r rf = record {
    returns = λ s b. (continue-Runs (m s).0 (m s).1 f (r.returns s b) (r.below s b) rf).0;
    below = λ s b. (continue-Runs (m s).0 (m s).1 f (r.returns s b) (r.below s b) rf).1;
  }
