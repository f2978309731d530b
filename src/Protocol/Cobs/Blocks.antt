-- ===== src/Protocol/Cobs/Blocks.antt =====
-- What cobs_encode writes, block by block.
use fpga_mcu_trinity.Base.{
  ℕ, ◌+◌, ◌≡◌, ◌≢◌, refl, sym, ap, ap₂, ◌∙◌, arith, true, false, List, [], ◌∷◌, ◌++◌, append_assoc,
  foldl, length, length-append, set, set-append, ◌==◌, All, All-append, inl, inr, Bool-cases, ==→eq,
  contains, if◌then◌else◌,
}
use fpga_mcu_trinity.Protocol.Cobs.{Encoder, close_block, encode_step, cobs_encode}

-- The blocks of `bytes` behind an open block that holds `block`.
unfoldable pub blocks : List ℕ → List ℕ → List ℕ
blocks block [] = (length block + 1) ∷ block
blocks block (v ∷ bytes) =
    let closed = (length block + 1) ∷ (block ++ blocks [] bytes) in
    let full = 0xFF ∷ (block ++ (v ∷ blocks [] bytes)) in
    let open_block = blocks (block ++ (v ∷ [])) bytes in
    if v == 0 then closed else if length block + 1 + 1 == 0xFF then full else open_block

finish : Encoder → List ℕ
finish s = set s.out s.code_index s.code

-- The encoder with the blocks `done` behind it and an open block.
abbrev encoder_at : List ℕ → List ℕ → Encoder
encoder_at done block = record {
  out = done ++ (0 ∷ block);
  code_index = length done;
  code = length block + 1;
}

close-encoder_at :
    (done block : List ℕ)
    → close_block (encoder_at done block) ≡ encoder_at (done ++ ((length block + 1) ∷ block)) []
unfolding close_block
close-encoder_at done block =
    ap (λ (o : List ℕ). record { out = o ++ (0 ∷ []); code_index = length o; code = 1 })
      (set-append done block 0 (length block + 1) (length done) refl)

abbrev push : Encoder → ℕ → Encoder
push s value = record s { out = s.out ++ (value ∷ []); code = s.code + 1 }

push-encoder_at :
    (done block : List ℕ) (v : ℕ)
    → push (encoder_at done block) v ≡ encoder_at done (block ++ (v ∷ []))
push-encoder_at done block v =
    let outs : (done ++ (0 ∷ block)) ++ (v ∷ []) ≡ done ++ (0 ∷ (block ++ (v ∷ []))) =
      append_assoc done (0 ∷ block) (v ∷ []) in
    let codes : length block + 1 + 1 ≡ length (block ++ (v ∷ [])) + 1 =
      omega (arith, length-append block (v ∷ [])) in
    λ i. record { out = outs i; code_index = length done; code = codes i }

-- What one byte does to an open block.
step_zero :
    (done block : List ℕ) (v : ℕ)
    → (v == 0) ≡ true
    → encode_step (encoder_at done block) v ≡ close_block (encoder_at done block)
unfolding encode_step
step_zero done block v e = rw e

step_push :
    (done block : List ℕ) (v : ℕ)
    → (v == 0) ≡ false
    → encode_step (encoder_at done block) v ≡ (
        if length block + 1 + 1 == 0xFF
        then close_block (push (encoder_at done block) v)
        else push (encoder_at done block) v)
unfolding encode_step
step_push done block v e = rw e

-- The blocks, one equation for each way that a byte is taken.
module _ (block : List ℕ) (v : ℕ) (bytes : List ℕ) where
  pub blocks_zero :
      (v == 0) ≡ true → blocks block (v ∷ bytes) ≡ (length block + 1) ∷ (block ++ blocks [] bytes)
  unfolding blocks
  blocks_zero e = rw e

  pub blocks_full :
      (v == 0) ≡ false
      → (length block + 1 + 1 == 0xFF) ≡ true
      → blocks block (v ∷ bytes) ≡ 0xFF ∷ (block ++ (v ∷ blocks [] bytes))
  unfolding blocks
  blocks_full e f = rw (e, f)

  pub blocks_open :
      (v == 0) ≡ false
      → (length block + 1 + 1 == 0xFF) ≡ false
      → blocks block (v ∷ bytes) ≡ blocks (block ++ (v ∷ [])) bytes
  unfolding blocks
  blocks_open e f = rw (e, f)

full_block :
    (block : List ℕ) (v : ℕ) (bytes : List ℕ)
    → (length block + 1 + 1 == 0xFF) ≡ true
    → ((length (block ++ (v ∷ [])) + 1) ∷ (block ++ (v ∷ []))) ++ blocks [] bytes
      ≡ 0xFF ∷ (block ++ (v ∷ blocks [] bytes))
full_block block v bytes f =
    ap₂ ◌∷◌ (omega (arith, length-append block (v ∷ []), ==→eq (length block + 1 + 1) 0xFF f))
      (append_assoc block (v ∷ []) (blocks [] bytes))

blocks_lem :
    (bytes done block : List ℕ)
    → finish (foldl encode_step (encoder_at done block) bytes) ≡ done ++ blocks block bytes
unfolding finish
blocks_lem [] done block =
    unfold blocks in set-append done block 0 (length block + 1) (length done) refl
blocks_lem (v ∷ bytes) done block = elim (Bool-cases (v == 0)) [
  | inl e ↦
      ap run (step_zero done block v e ∙ close-encoder_at done block)
      ∙ blocks_lem bytes (done ++ ((length block + 1) ∷ block)) []
      ∙ append_assoc done ((length block + 1) ∷ block) (blocks [] bytes)
      ∙ ap (λ (t : List ℕ). done ++ t) (sym (blocks_zero block v bytes e))
  | inr e ↦ elim (Bool-cases (length block + 1 + 1 == 0xFF)) [
    | inl f ↦
        ap run (
          step_push done block v e
          ∙ rw f (ap close_block (push-encoder_at done block v))
          ∙ close-encoder_at done (block ++ (v ∷ [])))
        ∙ blocks_lem bytes (done ++ ((length (block ++ (v ∷ [])) + 1) ∷ (block ++ (v ∷ [])))) []
        ∙ append_assoc done ((length (block ++ (v ∷ [])) + 1) ∷ (block ++ (v ∷ [])))
            (blocks [] bytes)
        ∙ ap (λ (t : List ℕ). done ++ t)
            (full_block block v bytes f ∙ sym (blocks_full block v bytes e f))
    | inr f ↦
        ap run (step_push done block v e ∙ rw f (push-encoder_at done block v))
        ∙ blocks_lem bytes done (block ++ (v ∷ []))
        ∙ ap (λ (t : List ℕ). done ++ t) (sym (blocks_open block v bytes e f))
  ]
]
  where
    run : Encoder → List ℕ
    run s = finish (foldl encode_step s bytes)

pub cobs_encode-blocks : (bytes : List ℕ) → cobs_encode bytes ≡ blocks [] bytes
unfolding cobs_encode finish
cobs_encode-blocks bytes = blocks_lem bytes [] []

-- The blocks hold no zero, whatever the bytes.
abbrev pub IsNonzero : ℕ → Type 0
IsNonzero v = v ≢ 0

blocks-IsNonzero : (bytes block : List ℕ) → All IsNonzero block → All IsNonzero (blocks block bytes)
unfolding blocks
blocks-IsNonzero [] block h = (omega arith, h)
blocks-IsNonzero (v ∷ bytes) block h = elim (Bool-cases (v == 0)) [
  | inl e ↦
      rw (blocks_zero block v bytes e)
        (omega arith, All-append IsNonzero block (blocks [] bytes) h (blocks-IsNonzero bytes [] tt))
  | inr e ↦ elim (Bool-cases (length block + 1 + 1 == 0xFF)) [
    | inl f ↦ rw (blocks_full block v bytes e f) (
      omega arith,
      All-append IsNonzero block (v ∷ blocks [] bytes) h
          (ground arith, blocks-IsNonzero bytes [] tt),
    )
    | inr f ↦ rw (blocks_open block v bytes e f) (
        blocks-IsNonzero bytes (block ++ (v ∷ []))
          (All-append IsNonzero block (v ∷ []) h (ground arith, tt)))
  ]
]

contains_none : (v : ℕ) (xs : List ℕ) → All (λ x. x ≢ v) xs → contains v xs ≡ false
unfolding contains
contains_none v [] h = refl
contains_none v (x ∷ xs) h = ground (arith, contains_none v xs h.1, h.0)

-- The COBS encoding holds no zero byte.
pub cobs_encode_nonzero : (bytes : List ℕ) → contains 0 (cobs_encode bytes) ≡ false
cobs_encode_nonzero bytes =
    ap (contains 0) (cobs_encode-blocks bytes)
    ∙ contains_none 0 (blocks [] bytes) (blocks-IsNonzero bytes [] tt)
