-- ===== src/Reference/Ascon.antt =====
-- primer2/scripts/reference_checks.py: Ascon-AEAD128 on three words of associated data and three of
-- plaintext. `none` is a failed assertion.
pub mod Words
pub mod RoundTrip
use fpga_mcu_trinity.Base.{
  ℕ, zero, suc, ◌+◌, ◌-◌, ◌*◌, ◌/◌, ◌%◌, ◌^◌, Bool, true, false, Option, none, some, List, [], ◌∷◌,
  ◌++◌, length, take, drop, slice, foldl, bit_and, bit_or, bit_xor, bytes_eq, not, ◌&&◌, ◌==◌,
  if◌then◌else◌,
}

abbrev pub mask64 : ℕ
mask64 = 2 ^ 64 - 1

-- RC
abbrev pub round_constants : List ℕ
round_constants =
    0xF0 ∷ 0xE1 ∷ 0xD2 ∷ 0xC3 ∷ 0xB4 ∷ 0xA5 ∷ 0x96 ∷ 0x87 ∷ 0x78 ∷ 0x69 ∷ 0x5A ∷ 0x4B ∷ []

-- IV
abbrev pub initial_word : ℕ
initial_word = 0x00001000808C0001

unfoldable pub ror : ℕ → ℕ → ℕ
ror x n = bit_and (bit_or (x / 2 ^ n) (bit_and (x * 2 ^ (64 - n)) mask64)) mask64

-- ~x & MASK64
abbrev pub complement : ℕ → ℕ
complement x = mask64 - bit_and x mask64

-- The five words of the state.
pub record State : Type 0 where
  pub x0 : ℕ
  pub x1 : ℕ
  pub x2 : ℕ
  pub x3 : ℕ
  pub x4 : ℕ

-- (t ^ ror(t, n) ^ ror(t, m)) & MASK64
unfoldable pub diffuse : ℕ → ℕ → ℕ → ℕ
diffuse n m t = bit_and (bit_xor (bit_xor t (ror t n)) (ror t m)) mask64

-- The lines of a round up to `t2 = ~t2`, from the words after the first four.
abbrev pub substitute : ℕ → ℕ → ℕ → ℕ → ℕ → State
substitute a0 a1 a2 a3 a4 =
    let t0 = bit_xor a0 (bit_and (complement a1) a2) in
    let t1 = bit_xor a1 (bit_and (complement a2) a3) in
    let t2 = bit_xor a2 (bit_and (complement a3) a4) in
    let t3 = bit_xor a3 (bit_and (complement a4) a0) in
    let t4 = bit_xor a4 (bit_and (complement a0) a1) in
    record {
      x0 = bit_xor t0 t4;
      x1 = bit_xor t1 t0;
      x2 = complement t2;
      x3 = bit_xor t3 t2;
      x4 = t4;
    }

unfoldable pub round_fn : State → ℕ → State
round_fn s rc =
    let a2 = bit_xor s.x2 rc in
    let a0 = bit_xor s.x0 s.x4 in
    let a4 = bit_xor s.x4 s.x3 in
    let t = substitute a0 s.x1 (bit_xor a2 s.x1) s.x3 a4 in
    record {
      x0 = diffuse 19 28 t.x0;
      x1 = diffuse 61 39 t.x1;
      x2 = diffuse 1 6 t.x2;
      x3 = diffuse 10 17 t.x3;
      x4 = diffuse 7 41 t.x4;
    }

unfoldable pub permute : State → ℕ → State
permute s first_round = foldl round_fn s (drop first_round round_constants)

-- int.from_bytes(data, "little")
unfoldable pub from_bytes : List ℕ → ℕ
from_bytes [] = 0
from_bytes (b ∷ bytes) = b + from_bytes bytes * 256

-- word.to_bytes(count, "little"), of a word that fits
unfoldable pub to_bytes : ℕ → ℕ → List ℕ
to_bytes zero word = []
to_bytes (suc count) word = word % 256 ∷ to_bytes count (word / 256)

-- The word at `i` of words_le(data)
abbrev pub word_at : ℕ → List ℕ → ℕ
word_at i bytes = from_bytes (slice (8 * i) (8 * i + 8) bytes)

-- Keys, nonce and associated data: both functions up to the first word of text.
unfoldable pub absorb : List ℕ → List ℕ → List ℕ → State
absorb key nonce ad =
    let k0 = word_at 0 key in
    let k1 = word_at 1 key in
    let s =
      permute
        (record { x0 = initial_word; x1 = k0; x2 = k1; x3 = word_at 0 nonce; x4 = word_at 1 nonce })
        0 in
    let s =
      permute
        (record {
          x0 = bit_xor s.x0 (word_at 0 ad);
          x1 = bit_xor s.x1 (word_at 1 ad);
          x2 = s.x2;
          x3 = bit_xor s.x3 k0;
          x4 = bit_xor s.x4 k1;
        })
        4 in
    let s = permute (record s { x0 = bit_xor s.x0 (word_at 2 ad); x1 = bit_xor s.x1 1 }) 4 in
    record s { x4 = bit_xor s.x4 0x8000000000000000 }

-- From the last word of text to the tag.
unfoldable pub tag_of : List ℕ → State → List ℕ
tag_of key s =
    let k0 = word_at 0 key in
    let k1 = word_at 1 key in
    let s =
      permute (record s { x1 = bit_xor s.x1 1; x2 = bit_xor s.x2 k0; x3 = bit_xor s.x3 k1 }) 0 in
    to_bytes 8 (bit_xor s.x3 k0) ++ to_bytes 8 (bit_xor s.x4 k1)

-- The text of a message, in words, and its tag.
unfoldable pub encrypt_words : List ℕ → State → ℕ → ℕ → ℕ → List ℕ × List ℕ
encrypt_words key s p0 p1 p2 =
    let c0 = bit_xor s.x0 p0 in
    let c1 = bit_xor s.x1 p1 in
    let next = permute (record s { x0 = c0; x1 = c1 }) 4 in
    let c2 = bit_xor next.x0 p2 in
    (to_bytes 8 c0 ++ (to_bytes 8 c1 ++ to_bytes 8 c2), tag_of key (record next { x0 = c2 }))

unfoldable pub decrypt_words : List ℕ → State → List ℕ → ℕ → ℕ → ℕ → List ℕ × Bool
decrypt_words key s tag c0 c1 c2 =
    let next = permute (record s { x0 = c0; x1 = c1 }) 4 in
    (
      to_bytes 8 (bit_xor s.x0 c0)
          ++ (to_bytes 8 (bit_xor s.x1 c1) ++ to_bytes 8 (bit_xor next.x0 c2)),
      bytes_eq (tag_of key (record next { x0 = c2 })) tag,
    )

unfoldable pub ascon_encrypt : List ℕ → List ℕ → List ℕ → List ℕ → Option (List ℕ × List ℕ)
ascon_encrypt key nonce ad plaintext =
    if not (length key == 16 && length nonce == 16)
    then none
    else if not (length ad == 24 && length plaintext == 24)
    then none
    else some (
        encrypt_words key (absorb key nonce ad) (word_at 0 plaintext) (word_at 1 plaintext)
          (word_at 2 plaintext))

unfoldable pub ascon_decrypt : List ℕ → List ℕ → List ℕ → List ℕ → List ℕ → Option (List ℕ × Bool)
ascon_decrypt key nonce ad ciphertext tag =
    if not (length key == 16 && length nonce == 16 && length tag == 16)
    then none
    else if not (length ad == 24 && length ciphertext == 24)
    then none
    else some (
        decrypt_words key (absorb key nonce ad) tag (word_at 0 ciphertext) (word_at 1 ciphertext)
          (word_at 2 ciphertext))
