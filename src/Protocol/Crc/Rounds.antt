-- ===== src/Protocol/Crc/Rounds.antt =====
-- What eight rounds and a run over a byte string keep, for either checksum.
use fpga_mcu_trinity.Base.{ℕ, ◌<◌, ◌≡◌, List, [], ◌∷◌, ◌++◌, foldl, All}
use fpga_mcu_trinity.Protocol.Crc.{eight}

-- A round that keeps the register below `n`, and loses nothing there.
module _ (f : ℕ → ℕ) (n : ℕ) (keep : (c : ℕ) → c < n → f c < n)
    (injective : (c d : ℕ) → c < n → d < n → f c ≡ f d → c ≡ d) where
  two_keep : (c : ℕ) → c < n → f (f c) < n
  two_keep c h = keep _ (keep _ h)

  two_injective : (c d : ℕ) → c < n → d < n → f (f c) ≡ f (f d) → c ≡ d
  two_injective c d hc hd e = injective c d hc hd (injective _ _ (keep c hc) (keep d hd) e)

module _ (f : ℕ → ℕ) (n : ℕ) (keep : (c : ℕ) → c < n → f c < n)
    (injective : (c d : ℕ) → c < n → d < n → f c ≡ f d → c ≡ d) where
  four_keep : (c : ℕ) → c < n → f (f (f (f c))) < n
  four_keep =
      two_keep (λ c. f (f c)) n (two_keep f n keep injective) (two_injective f n keep injective)

  four_injective : (c d : ℕ) → c < n → d < n → f (f (f (f c))) ≡ f (f (f (f d))) → c ≡ d
  four_injective =
      two_injective (λ c. f (f c)) n (two_keep f n keep injective)
        (two_injective f n keep injective)

module _ (f : ℕ → ℕ) (n : ℕ) (keep : (c : ℕ) → c < n → f c < n)
    (injective : (c d : ℕ) → c < n → d < n → f c ≡ f d → c ≡ d) where
  pub eight_keep : (c : ℕ) → c < n → eight f c < n
  eight_keep =
      two_keep (λ c. f (f (f (f c)))) n (four_keep f n keep injective)
        (four_injective f n keep injective)

  pub eight_injective : (c d : ℕ) → c < n → d < n → eight f c ≡ eight f d → c ≡ d
  eight_injective =
      two_injective (λ c. f (f (f (f c)))) n (four_keep f n keep injective)
        (four_injective f n keep injective)

abbrev pub IsByte : ℕ → Type 0
IsByte v = v < 256

abbrev pub AreBytes : List ℕ → Type 0
AreBytes = All IsByte

-- A byte step, over registers below `n`.
module _ (step : ℕ → ℕ → ℕ) (n : ℕ) (keep : (c v : ℕ) → c < n → v < 256 → step c v < n)
    (injective : (c d v : ℕ) → c < n → d < n → v < 256 → step c v ≡ step d v → c ≡ d) where
  pub run_keep : (bytes : List ℕ) (c : ℕ) → c < n → AreBytes bytes → foldl step c bytes < n
  run_keep [] c h hb = h
  run_keep (v ∷ bytes) c h hb = run_keep bytes (step c v) (keep c v h hb.0) hb.1

  pub run_injective :
      (bytes : List ℕ) (c d : ℕ)
      → c < n
      → d < n
      → AreBytes bytes
      → foldl step c bytes ≡ foldl step d bytes
      → c ≡ d
  run_injective [] c d hc hd hb e = e
  run_injective (v ∷ bytes) c d hc hd hb e =
      injective c d v hc hd hb.0
        (run_injective bytes (step c v) (step d v) (keep c v hc hb.0) (keep d v hd hb.0) hb.1 e)

module _ (step : ℕ → ℕ → ℕ) (n : ℕ) (keep : (c v : ℕ) → c < n → v < 256 → step c v < n)
    (injective : (c d v : ℕ) → c < n → d < n → v < 256 → step c v ≡ step d v → c ≡ d)
    (reads : (c v w : ℕ) → c < n → v < 256 → w < 256 → step c v ≡ step c w → v ≡ w) where
  -- Byte strings that differ in one byte leave different registers.
  pub run_detects :
      (front back : List ℕ) (x y c : ℕ)
      → c < n
      → AreBytes (front ++ (x ∷ back))
      → y < 256
      → foldl step c (front ++ (x ∷ back)) ≡ foldl step c (front ++ (y ∷ back))
      → x ≡ y
  run_detects [] back x y c hc hb hy e = reads c x y hc hb.0 hy (
      run_injective step n keep injective back (step c x) (step c y) (keep c x hc hb.0)
        (keep c y hc hy) hb.1 e)
  run_detects (v ∷ front) back x y c hc hb hy e =
      run_detects front back x y (step c v) (keep c v hc hb.0) hb.1 hy e
