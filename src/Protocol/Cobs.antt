-- ===== src/Protocol/Cobs.antt =====
-- protocol/cobs.py: byte stuffing that keeps the delimiter 0 out of a frame.
pub mod Blocks
pub mod Decode
pub mod RoundTrip
use fpga_mcu_trinity.Base.{
  ℕ, zero, suc, ◌+◌, ◌-◌, Bool, true, false, ◌&&◌, List, [], ◌∷◌, ◌++◌, foldl, length, set, take,
  drop, contains, ltb, ◌==◌, ◌!=◌, if◌then◌else◌,
}
use fpga_mcu_trinity.Protocol.Errors.{
  Result, ok, err, cobs_decode_error, out_of_fuel, raise_if, ◌>>=◌, ◌>>◌,
}

-- The variables of `cobs_encode`: the code of the open block will stand at `code_index`.
pub record Encoder : Type 0 where
  pub out : List ℕ
  pub code_index : ℕ
  pub code : ℕ

abbrev pub encoder_start : Encoder
encoder_start = record { out = 0 ∷ []; code_index = 0; code = 1 }

-- out[code_index] = code; code_index = len(out); out.append(0); code = 1
unfoldable pub close_block : Encoder → Encoder
close_block s =
    let out = set s.out s.code_index s.code in
    record { out = out ++ (0 ∷ []); code_index = length out; code = 1 }

unfoldable pub encode_step : Encoder → ℕ → Encoder
unfolding close_block
encode_step s value =
    if value == 0
    then close_block s
    else (let s' : Encoder = record s { out = s.out ++ (value ∷ []); code = s.code + 1 } in
        if s'.code == 0xFF then close_block s' else s')

unfoldable pub cobs_encode : List ℕ → List ℕ
unfolding encode_step
cobs_encode bytes = let s = foldl encode_step encoder_start bytes in set s.out s.code_index s.code

-- The byte that stands between two blocks: none behind a full block or at the end of the input.
abbrev pub separator : ℕ → List ℕ → List ℕ
separator code rest = if code != 0xFF && ltb 0 (length rest) then 0 ∷ [] else []

-- The `while` loop: the list is `data[index:]`, and a round reads one block of it.
unfoldable pub decode_loop : ℕ → List ℕ → List ℕ → Result (List ℕ)
decode_loop fuel [] out = ok out
decode_loop zero (code ∷ rest) out = err out_of_fuel
decode_loop (suc fuel) (code ∷ rest) out =
    let count = code - 1 in
    let after = drop count rest in
    let next = decode_loop fuel after (out ++ (take count rest ++ separator code after)) in
    if code == 0
    then err (cobs_decode_error "zero code")
    else if ltb (length rest) count
    then err (cobs_decode_error "COBS block exceeds input")
    else next

-- Each round reads a byte at least, so `len(data)` rounds are enough.
unfoldable pub cobs_decode : List ℕ → Result (List ℕ)
unfolding decode_loop contains
cobs_decode bytes = do
  raise_if (length bytes == 0) (cobs_decode_error "empty COBS frame")
  raise_if (contains 0 bytes) (cobs_decode_error "encoded COBS frame contains zero")
  decode_loop (length bytes) bytes []
