-- ===== src/Exec.antt =====
-- Methods that change an object and may raise. What was changed before a raise stays changed, so
-- the state comes back beside the error too.
pub mod Preserves
pub mod Runs
pub mod Yields
pub mod Ends
pub mod Reaches
use fpga_mcu_trinity.Base.{
  ◌≡◌, ◌≢◌, refl, arith, Bool, true, false, Bool-cases, inl, inr, if◌then◌else◌,
}
use fpga_mcu_trinity.Protocol.Errors.{Exception, Result, ok, err}

abbrev pub Exec : Type 0 → Type 0 → Type 0
Exec S A = S → Result A × S

module _ {S A : Type 0} where
  abbrev pub pure : A → Exec S A
  pure a s = (ok a, s)

  abbrev pub raise : Exception → Exec S A
  raise e s = (err e, s)

  abbrev pub lift : Result A → Exec S A
  lift r s = (r, s)

  -- An action that cannot fail.
  abbrev pub act : (S → A × S) → Exec S A
  act f s = let (a, s') = f s in (ok a, s')

module _ {S A B : Type 0} where
  abbrev pub continue : Result A → (A → Exec S B) → Exec S B
  continue (ok a) f s = f a s
  continue (err e) f s = (err e, s)

  infixl 5 ◌>>=◌ ◌>>◌
  unfoldable pub ◌>>=◌ : Exec S A → (A → Exec S B) → Exec S B
  ◌>>=◌ m f s = let (r, s') = m s in continue r f s'

  abbrev pub ◌>>◌ : Exec S A → Exec S B → Exec S B
  m >> n = m >>= λ _. n

-- `if test: raise e`
abbrev pub raise_if : {S : Type 0} → Bool → Exception → Exec S (Unit {0})
raise_if true e = raise e
raise_if false e = pure tt

-- The last statement's error hides that of the body.
abbrev pub after : {A : Type 0} → Result A → Result (Unit {0}) → Result A
after r (ok u) = r
after r (err e) = err e

module _ {S A : Type 0} where
  abbrev pub handle_with : (Exception → Bool) → (Exception → Exec S A) → Result A → Exec S A
  handle_with catches f (ok a) s = (ok a, s)
  handle_with catches f (err e) s = if catches e then f e s else (err e, s)

  -- `try: m` with one `except` clause.
  unfoldable pub try_except : Exec S A → (Exception → Bool) → (Exception → Exec S A) → Exec S A
  try_except m catches f s = let (r, s') = m s in handle_with catches f r s'

  -- `try: m` with `finally: last`.
  unfoldable pub try_finally : Exec S A → Exec S (Unit {0}) → Exec S A
  try_finally m last s = let (r, s') = m s in let (l, s'') = last s' in (after r l, s'')

continue-returns :
    {S A B : Type 0} (x : Result A × S) (r : Result A) (s' : S) (f : A → Exec S B) (t : S) (b : B)
    → x ≡ (r, s')
    → continue r f s' ≡ (ok b, t)
    → (a : A) × (u : S) × (x ≡ (ok a, u)) × (f a u ≡ (ok b, t))
continue-returns x (ok a) s' f t b p q = (a, s', p, q)
continue-returns x (err e) s' f t b p q = cc

-- The parts of an action that returned.
pub >>=-returns :
    {S A B : Type 0} (m : Exec S A) (f : A → Exec S B) (s t : S) (b : B)
    → (m >>= f) s ≡ (ok b, t)
    → (a : A) × (u : S) × (m s ≡ (ok a, u)) × (f a u ≡ (ok b, t))
unfolding ◌>>=◌
>>=-returns m f s t b e = continue-returns (m s) (m s).0 (m s).1 f t b refl e

module _ {S A : Type 0} where
  -- A test that was passed.
  pub raise_if-returns :
      (b : Bool) (e : Exception) (m : Exec S A) (s t : S) (a : A)
      → (raise_if b e >> m) s ≡ (ok a, t)
      → (b ≡ false) × (m s ≡ (ok a, t))
  unfolding ◌>>=◌
  raise_if-returns true e m s t a h = cc
  raise_if-returns false e m s t a h = (refl, h)

  handled-returns :
      (catches : Exception → Bool) (f : Exception → Exec S A) (r : Result A) (s t : S) (a : A)
      → ((e : Exception) (u : S) → f e u ≢ (ok a, t))
      → handle_with catches f r s ≡ (ok a, t)
      → ◌≡◌ {A = Result A × S} (r, s) (ok a, t)
  handled-returns catches f (ok b) s t a never h = h
  handled-returns catches f (err e) s t a never h = elim (Bool-cases (catches e)) [
    | inl c ↦ absurd (never e s (ground (arith, c, h)))
    | inr c ↦ absurd (ground (arith, c, h))
  ]

  -- A `try` that returned, with a handler that never does.
  pub try_except-returns :
      (m : Exec S A) (catches : Exception → Bool) (f : Exception → Exec S A) (s t : S) (a : A)
      → ((e : Exception) (u : S) → f e u ≢ (ok a, t))
      → try_except m catches f s ≡ (ok a, t)
      → m s ≡ (ok a, t)
  unfolding try_except
  try_except-returns m catches f s t a never h =
      handled-returns catches f (m s).0 (m s).1 t a never h

  after-returns :
      (r : Result A) (l : Result (Unit {0})) (u t : S) (a : A)
      → ◌≡◌ {A = Result A × S} (after r l, u) (ok a, t)
      → (r ≡ ok a) × (l ≡ ok tt) × (u ≡ t)
  after-returns r (ok x) u t a h = ground (arith, h)
  after-returns r (err e) u t a h = absurd (ground (arith, h))

  -- The parts of a `try` with `finally` that returned.
  pub try_finally-returns :
      (m : Exec S A) (last : Exec S (Unit {0})) (s t : S) (a : A)
      → try_finally m last s ≡ (ok a, t)
      → (u : S) × (m s ≡ (ok a, u)) × (last u ≡ (ok tt, t))
  unfolding try_finally
  try_finally-returns m last s t a h =
      let (body, ended, same) = after-returns (m s).0 (last (m s).1).0 (last (m s).1).1 t a h in
      ((m s).1, cc, cc)
