-- ===== src/Protocol/Cobs/Decode.antt =====
-- cobs_decode on any input, well formed or not.
use fpga_mcu_trinity.Base.{
  ℕ, zero, suc, ◌+◌, ◌-◌, ◌≤◌, ◌<◌, ◌≡◌, arith, true, List, [], ◌∷◌, ◌++◌, length, length-append,
  take, length-take, drop, length-drop, min,
}
use fpga_mcu_trinity.Protocol.Errors.{Exception, ok, err, is_value_error}
use fpga_mcu_trinity.Protocol.Cobs.{cobs_decode, decode_loop, separator}

-- What a round appends.
abbrev block_of : ℕ → List ℕ → List ℕ
block_of code rest = take (code - 1) rest ++ separator code (drop (code - 1) rest)

decode_loop_errors :
    (fuel : ℕ) (bytes out : List ℕ) (e : Exception)
    → length bytes ≤ fuel
    → decode_loop fuel bytes out ≡ err e
    → is_value_error e ≡ true
unfolding decode_loop
decode_loop_errors zero [] out e h k = cc
decode_loop_errors (suc fuel) [] out e h k = cc
decode_loop_errors zero (code ∷ rest) out e h k = absurd (omega arith)
decode_loop_errors (suc fuel) (code ∷ rest) out e h k = ground (
  arith,
  length-drop (code - 1) rest,
  decode_loop_errors fuel (drop (code - 1) rest) (out ++ block_of code rest) e
      (omega (arith, length-drop (code - 1) rest)),
)

-- Whatever the input, an error of cobs_decode is a ValueError: its loop never runs out of the
-- `len(data)` rounds that it has in the model.
pub cobs_decode_errors :
    (bytes : List ℕ) (e : Exception) → cobs_decode bytes ≡ err e → is_value_error e ≡ true
unfolding cobs_decode
cobs_decode_errors bytes e h =
    ground (arith, decode_loop_errors (length bytes) bytes [] e (omega arith))

length-separator : (code : ℕ) (rest : List ℕ) → length (separator code rest) ≤ min 1 (length rest)
length-separator code rest = ground arith

length-block_of :
    (code : ℕ) (rest : List ℕ)
    → length (block_of code rest) + (length (drop (code - 1) rest) - 1) ≤ length rest
length-block_of code rest = omega (
  arith,
  length-append (take (code - 1) rest) (separator code (drop (code - 1) rest)),
  length-take (code - 1) rest,
  length-drop (code - 1) rest,
  length-separator code (drop (code - 1) rest),
)

-- A round writes no more than it reads, and the last one writes less.
length-decode_loop :
    (fuel : ℕ) (bytes out result : List ℕ)
    → decode_loop fuel bytes out ≡ ok result
    → length result ≤ length out + (length bytes - 1)
unfolding decode_loop
length-decode_loop fuel [] out result e = ground arith
length-decode_loop zero (code ∷ rest) out result e = cc
length-decode_loop (suc fuel) (code ∷ rest) out result e = ground (
  arith,
  length-decode_loop fuel (drop (code - 1) rest) (out ++ block_of code rest) result,
  length-append out (block_of code rest),
  length-block_of code rest,
)

-- What cobs_decode returns is shorter than its input.
pub cobs_decode_shrinks :
    (bytes result : List ℕ) → cobs_decode bytes ≡ ok result → length result < length bytes
unfolding cobs_decode
cobs_decode_shrinks [] result e = cc
cobs_decode_shrinks (b ∷ bytes) result e =
    ground (arith, length-decode_loop (length (b ∷ bytes)) (b ∷ bytes) [] result)
