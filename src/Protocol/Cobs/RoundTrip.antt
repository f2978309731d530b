-- ===== src/Protocol/Cobs/RoundTrip.antt =====
-- cobs_decode behind cobs_encode, and the length of the encoding.
use fpga_mcu_trinity.Base.{
  contains, ℕ, zero, suc, ◌+◌, ◌-◌, ◌/◌, ◌≤◌, ◌<◌, ◌≡◌, refl, sym, ap, ◌∙◌, arith, false, List, [],
  ◌∷◌, ◌++◌, append-nil, append_assoc, length, length-append, take, take-append, drop, drop-append,
  ltb, ◌==◌, inl, inr, Bool-cases, ==→eq,
}
use fpga_mcu_trinity.Protocol.Errors.{ok}
use fpga_mcu_trinity.Protocol.Cobs.{cobs_encode, cobs_decode, decode_loop, separator}
use fpga_mcu_trinity.Protocol.Cobs.Blocks.{
  blocks, blocks_zero, blocks_full, blocks_open, cobs_encode-blocks, cobs_encode_nonzero,
}

-- One round of the loop over a block and what follows it.
decode_block :
    (fuel code : ℕ) (block rest out : List ℕ)
    → code ≡ length block + 1
    → decode_loop (suc fuel) (code ∷ (block ++ rest)) out
      ≡ decode_loop fuel rest (out ++ (block ++ separator code rest))
unfolding decode_loop
decode_block fuel code block rest out h = rw (not_zero, fits, taken, dropped)
  where
    not_zero : (code == 0) ≡ false
    not_zero = ground arith

    fits : ltb (length (block ++ rest)) (code - 1) ≡ false
    fits = ground (arith, length-append block rest)

    taken : take (code - 1) (block ++ rest) ≡ block
    taken = take-append (code - 1) block rest (omega arith)

    dropped : drop (code - 1) (block ++ rest) ≡ rest
    dropped = drop-append (code - 1) block rest (omega arith)

separator-nil : (code : ℕ) → separator code [] ≡ []
separator-nil code = ground arith

separator_zero :
    (code : ℕ) (rest : List ℕ) → code < 0xFF → 0 < length rest → separator code rest ≡ 0 ∷ []
separator_zero code rest h k = ground arith

blocks_pos : (bytes block : List ℕ) → 0 < length (blocks block bytes)
unfolding blocks
blocks_pos [] block = omega arith
blocks_pos (v ∷ bytes) block = ground (arith, blocks_pos bytes (block ++ (v ∷ [])))

-- A closed block, the last one included.
decode_last :
    (fuel : ℕ) (block out : List ℕ)
    → decode_loop (suc fuel) ((length block + 1) ∷ block) out ≡ ok (out ++ (block ++ []))
decode_last fuel block out =
    ap (λ (t : List ℕ). decode_loop (suc fuel) ((length block + 1) ∷ t) out)
      (sym (append-nil block))
    ∙ decode_block fuel (length block + 1) block [] out refl
    ∙ rw separator-nil (unfold decode_loop in refl)

room :
    (block : List ℕ) (v : ℕ)
    → length block ≤ 253
    → (length block + 1 + 1 == 0xFF) ≡ false
    → length (block ++ (v ∷ [])) ≤ 253
room block v h f = ground (arith, length-append block (v ∷ []))

decode_zero :
    (fuel : ℕ) (block rest out : List ℕ)
    → length block ≤ 253
    → 0 < length rest
    → decode_loop (suc fuel) ((length block + 1) ∷ (block ++ rest)) out
      ≡ decode_loop fuel rest (out ++ (block ++ (0 ∷ [])))
decode_zero fuel block rest out h k =
    decode_block fuel (length block + 1) block rest out refl
    ∙ ap (λ (t : List ℕ). decode_loop fuel rest (out ++ (block ++ t)))
        (separator_zero (length block + 1) rest (omega arith) k)

decode_full :
    (fuel v : ℕ) (block rest out : List ℕ)
    → length block + 1 + 1 ≡ 0xFF
    → decode_loop (suc fuel) (0xFF ∷ (block ++ (v ∷ rest))) out
      ≡ decode_loop fuel rest (out ++ (block ++ (v ∷ [])))
decode_full fuel v block rest out h =
    ap (λ (t : List ℕ). decode_loop (suc fuel) (0xFF ∷ t) out)
      (sym (append_assoc block (v ∷ []) rest))
    ∙ decode_block fuel 0xFF (block ++ (v ∷ [])) rest out
        (omega (arith, length-append block (v ∷ [])))
    ∙ ap (λ (t : List ℕ). decode_loop fuel rest (out ++ t)) (append-nil (block ++ (v ∷ [])))

regroup :
    (v : ℕ) (block bytes out : List ℕ)
    → ok ((out ++ (block ++ (v ∷ []))) ++ bytes) ≡ ok (out ++ (block ++ (v ∷ bytes)))
regroup v block bytes out = simp append_assoc

-- The separators come back as the zeros that closed the blocks.
decode-blocks :
    (fuel : ℕ) (bytes block out : List ℕ)
    → length block ≤ 253
    → length (blocks block bytes) ≤ fuel
    → decode_loop fuel (blocks block bytes) out ≡ ok (out ++ (block ++ bytes))
decode-blocks zero bytes block out hb hf = absurd (omega (arith, blocks_pos bytes block))
decode-blocks (suc fuel) [] block out hb hf = unfold blocks in decode_last fuel block out
decode-blocks (suc fuel) (v ∷ bytes) block out hb hf = elim (Bool-cases (v == 0)) [
  | inl e ↦ rw (blocks_zero block v bytes e) (
      decode_zero fuel block (blocks [] bytes) out hb (blocks_pos bytes [])
      ∙ decode-blocks fuel bytes [] (out ++ (block ++ (0 ∷ []))) (omega arith) (
          omega (
            arith,
            ap (λ (t : List ℕ). length t) (blocks_zero block v bytes e),
            length-append block (blocks [] bytes),
          ))
      ∙ regroup 0 block bytes out
      ∙ ap (λ (t : ℕ). ok (out ++ (block ++ (t ∷ bytes)))) (sym (==→eq v 0 e)))
  | inr e ↦ elim (Bool-cases (length block + 1 + 1 == 0xFF)) [
    | inl f ↦ rw (blocks_full block v bytes e f) (
        decode_full fuel v block (blocks [] bytes) out (==→eq (length block + 1 + 1) 0xFF f)
        ∙ decode-blocks fuel bytes [] (out ++ (block ++ (v ∷ []))) (omega arith) (
            omega (
              arith,
              ap (λ (t : List ℕ). length t) (blocks_full block v bytes e f),
              length-append block (v ∷ blocks [] bytes),
            ))
        ∙ regroup v block bytes out)
    | inr f ↦ rw (blocks_open block v bytes e f) (
        decode-blocks (suc fuel) bytes (block ++ (v ∷ [])) out (room block v hb f)
          (omega (arith, ap (λ (t : List ℕ). length t) (blocks_open block v bytes e f)))
        ∙ ap (λ (t : List ℕ). ok (out ++ t)) (append_assoc block (v ∷ []) bytes))
  ]
]

length-blocks :
    (bytes block : List ℕ)
    → length block ≤ 253
    → length (blocks block bytes)
      ≤ length block + length bytes + 1 + (length block + length bytes) / 254
unfolding blocks
length-blocks [] block h = omega arith
length-blocks (v ∷ bytes) block h = elim (Bool-cases (v == 0)) [
  | inl e ↦
      rw (blocks_zero block v bytes e)
        (omega (arith, length-append block (blocks [] bytes), length-blocks bytes [] (omega arith)))
  | inr e ↦ elim (Bool-cases (length block + 1 + 1 == 0xFF)) [
    | inl f ↦ rw (blocks_full block v bytes e f) (
        omega (
          arith,
          length-append block (v ∷ blocks [] bytes),
          ==→eq (length block + 1 + 1) 0xFF f,
          length-blocks bytes [] (omega arith),
        ))
    | inr f ↦ rw (blocks_open block v bytes e f) (
        omega (
          arith,
          length-append block (v ∷ []),
          length-blocks bytes (block ++ (v ∷ [])) (room block v h f),
        ))
  ]
]

-- The COBS encoding is at most one byte longer than the input, and one more for each 254
-- bytes of it.
pub length-cobs_encode :
    (bytes : List ℕ) → length (cobs_encode bytes) ≤ length bytes + 1 + length bytes / 254
length-cobs_encode bytes = omega (
  arith,
  ap (λ (t : List ℕ). length t) (cobs_encode-blocks bytes),
  length-blocks bytes [] (omega arith),
)

decode_checked :
    (bytes : List ℕ)
    → (length bytes == 0) ≡ false
    → contains 0 bytes ≡ false
    → cobs_decode bytes ≡ decode_loop (length bytes) bytes []
unfolding cobs_decode
decode_checked bytes e f = rw (e, f)

-- Every byte string, zeros and long runs included, is decoded by cobs_decode from its COBS
-- encoding.
pub cobs_decode-cobs_encode : (bytes : List ℕ) → cobs_decode (cobs_encode bytes) ≡ ok bytes
cobs_decode-cobs_encode bytes =
    decode_checked (cobs_encode bytes) nonempty (cobs_encode_nonzero bytes)
    ∙ ap (λ (t : List ℕ). decode_loop (length t) t []) (cobs_encode-blocks bytes)
    ∙ decode-blocks (length (blocks [] bytes)) bytes [] [] (omega arith) (omega arith)
  where
    nonempty : (length (cobs_encode bytes) == 0) ≡ false
    nonempty =
        ground
          (arith, blocks_pos bytes [], ap (λ (t : List ℕ). length t) (cobs_encode-blocks bytes))
