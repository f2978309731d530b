-- ===== src/Reference/Ascon/RoundTrip.antt =====
-- Ascon-AEAD128: ascon_decrypt behind ascon_encrypt.
use fpga_mcu_trinity.Base.{
  ℕ, ◌+◌, ◌-◌, ◌*◌, ◌^◌, ◌<◌, ◌≤◌, ◌≡◌, refl, sym, ap, ◌∙◌, subst, arith, true, some, List, ◌++◌,
  length, take, drop, slice, bit_xor, bit_and, bytes_eq_refl, All-take, All-drop, take-append-drop,
  drop-drop, take_all, length-take, length-drop,
}
use fpga_mcu_trinity.Base.Bits.{bit_and_mask, bit_xor-lt, bit_xor-cancel, bit_xor_comm}
use fpga_mcu_trinity.Protocol.Crc.Rounds.{AreBytes, IsByte}
use fpga_mcu_trinity.Reference.Ascon.{
  State, diffuse, round_fn, permute, absorb, tag_of, from_bytes, to_bytes, word_at, encrypt_words,
  decrypt_words, ascon_encrypt, ascon_decrypt,
}
use fpga_mcu_trinity.Reference.Ascon.Words.{from_bytes-to_bytes, to_bytes-from_bytes, from_bytes-lt}

masked-lt : (x : ℕ) → bit_and x (2 ^ 64 - 1) < 2 ^ 64
masked-lt x = omega (arith, bit_and_mask 64 x)

diffuse-lt : (n m t : ℕ) → diffuse n m t < 2 ^ 64
unfolding diffuse
diffuse-lt n m t = masked-lt _

-- Eight rounds leave words of 64 bits.
permute-lt : (s : State) → ((permute s 4).x0 < 2 ^ 64) × ((permute s 4).x1 < 2 ^ 64)
unfolding permute round_fn
permute-lt s = (diffuse-lt _ _ _, diffuse-lt _ _ _)

absorb-lt :
    (key nonce ad : List ℕ)
    → ((absorb key nonce ad).x0 < 2 ^ 64) × ((absorb key nonce ad).x1 < 2 ^ 64)
unfolding absorb
absorb-lt key nonce ad = permute-lt _

xor_again : (a b : ℕ) → bit_xor a (bit_xor a b) ≡ b
xor_again a b =
    bit_xor_comm a (bit_xor a b)
    ∙ ap (λ (x : ℕ). bit_xor x a) (bit_xor_comm a b)
    ∙ bit_xor-cancel b a

word_at-lt :
    (i : ℕ) (bytes : List ℕ)
    → AreBytes bytes
    → 8 * i + 8 ≤ length bytes
    → (word_at i bytes < 2 ^ 64) × (to_bytes 8 (word_at i bytes) ≡ slice (8 * i) (8 * i + 8) bytes)
word_at-lt i bytes b h = (
  omega (arith, from_bytes-lt chunk chunk-AreBytes, ap (λ (n : ℕ). 256 ^ n) eight),
  ap (λ (n : ℕ). to_bytes n (from_bytes chunk)) (sym eight)
      ∙ to_bytes-from_bytes chunk chunk-AreBytes,
)
  where
    chunk : List ℕ
    chunk = slice (8 * i) (8 * i + 8) bytes

    chunk-AreBytes : AreBytes chunk
    chunk-AreBytes =
        All-take IsByte (8 * i + 8 - 8 * i) (drop (8 * i) bytes) (All-drop IsByte (8 * i) bytes b)

    eight : length chunk ≡ 8
    eight =
        omega
          (arith, length-take (8 * i + 8 - 8 * i) (drop (8 * i) bytes), length-drop (8 * i) bytes)

three_words :
    (bytes : List ℕ)
    → length bytes ≡ 24
    → slice 0 8 bytes ++ (slice 8 16 bytes ++ slice 16 24 bytes) ≡ bytes
three_words bytes h =
    ap (λ (t : List ℕ). take 8 bytes ++ t)
      (ap (λ (t : List ℕ). take 8 (drop 8 bytes) ++ t)
          (take_all 8 (drop 16 bytes) (omega (arith, length-drop 16 bytes))
            ∙ sym (drop-drop 8 8 bytes))
        ∙ take-append-drop 8 (drop 8 bytes))
    ∙ take-append-drop 8 bytes

-- The words of a text that was put together from words.
words_of_text :
    (c0 c1 c2 : ℕ)
    → c0 < 2 ^ 64
    → c1 < 2 ^ 64
    → c2 < 2 ^ 64
    → (word_at 0 (to_bytes 8 c0 ++ (to_bytes 8 c1 ++ to_bytes 8 c2)) ≡ c0)
      × (word_at 1 (to_bytes 8 c0 ++ (to_bytes 8 c1 ++ to_bytes 8 c2)) ≡ c1)
      × (word_at 2 (to_bytes 8 c0 ++ (to_bytes 8 c1 ++ to_bytes 8 c2)) ≡ c2)
unfolding to_bytes
words_of_text c0 c1 c2 h0 h1 h2 = (
  from_bytes-to_bytes 8 c0 (omega (arith, h0)),
  from_bytes-to_bytes 8 c1 (omega (arith, h1)),
  from_bytes-to_bytes 8 c2 (omega (arith, h2)),
)

-- The third word of a text, behind the first two.
abbrev third : State → ℕ → ℕ → ℕ → ℕ
third s p0 p1 p2 =
    bit_xor (permute (record s { x0 = bit_xor s.x0 p0; x1 = bit_xor s.x1 p1 }) 4).x0 p2

decrypt_words-encrypt_words :
    (key : List ℕ) (s : State) (p0 p1 p2 : ℕ)
    → decrypt_words key s
        (encrypt_words key s p0 p1 p2).1
        (bit_xor s.x0 p0)
        (bit_xor s.x1 p1)
        (third s p0 p1 p2)
      ≡ (to_bytes 8 p0 ++ (to_bytes 8 p1 ++ to_bytes 8 p2), true)
unfolding encrypt_words decrypt_words
decrypt_words-encrypt_words key s p0 p1 p2 = λ i. (
  to_bytes 8 (xor_again s.x0 p0 i)
      ++ (to_bytes 8 (xor_again s.x1 p1 i)
          ++ to_bytes 8 (
              xor_again (permute (record s { x0 = bit_xor s.x0 p0; x1 = bit_xor s.x1 p1 }) 4).x0 p2
                i)),
  bytes_eq_refl (encrypt_words key s p0 p1 p2).1 i,
)

encrypt_inversion :
    (key nonce ad plaintext : List ℕ) (sealed : List ℕ × List ℕ)
    → ascon_encrypt key nonce ad plaintext ≡ some sealed
    → (length key ≡ 16)
      × (length nonce ≡ 16)
      × (length ad ≡ 24)
      × (length plaintext ≡ 24)
      × (encrypt_words key
            (absorb key nonce ad)
            (word_at 0 plaintext)
            (word_at 1 plaintext)
            (word_at 2 plaintext)
          ≡ sealed)
unfolding ascon_encrypt
encrypt_inversion key nonce ad plaintext sealed e = ground (arith, e)

-- The ciphertext of 24 bytes and the tag of 16, decrypted with the same inputs.
decrypt_accepts :
    (key nonce ad ciphertext tag : List ℕ)
    → length key ≡ 16
    → length nonce ≡ 16
    → length ad ≡ 24
    → length ciphertext ≡ 24
    → length tag ≡ 16
    → ascon_decrypt key nonce ad ciphertext tag
      ≡ some (
          decrypt_words key
            (absorb key nonce ad)
            tag
            (word_at 0 ciphertext)
            (word_at 1 ciphertext)
            (word_at 2 ciphertext))
unfolding ascon_decrypt
decrypt_accepts key nonce ad ciphertext tag k n a c t = ground arith

sealed_lengths :
    (key : List ℕ) (s : State) (p0 p1 p2 : ℕ)
    → (length (encrypt_words key s p0 p1 p2).0 ≡ 24)
      × (length (encrypt_words key s p0 p1 p2).1 ≡ 16)
unfolding encrypt_words tag_of to_bytes
sealed_lengths key s p0 p1 p2 = (refl, refl)

sealed_words :
    (key : List ℕ) (s : State) (p0 p1 p2 : ℕ)
    → s.x0 < 2 ^ 64
    → s.x1 < 2 ^ 64
    → p0 < 2 ^ 64
    → p1 < 2 ^ 64
    → p2 < 2 ^ 64
    → (word_at 0 (encrypt_words key s p0 p1 p2).0 ≡ bit_xor s.x0 p0)
      × (word_at 1 (encrypt_words key s p0 p1 p2).0 ≡ bit_xor s.x1 p1)
      × (word_at 2 (encrypt_words key s p0 p1 p2).0 ≡ third s p0 p1 p2)
unfolding encrypt_words
sealed_words key s p0 p1 p2 h0 h1 g0 g1 g2 =
    words_of_text (bit_xor s.x0 p0) (bit_xor s.x1 p1) (third s p0 p1 p2)
      (bit_xor-lt 64 s.x0 p0 h0 g0) (bit_xor-lt 64 s.x1 p1 h1 g1)
      (bit_xor-lt 64 _ p2 (permute-lt _).0 g2)

-- What ascon_encrypt makes of a plaintext of bytes, ascon_decrypt takes back to that plaintext under
-- the same key, nonce and associated data, and accepts the tag.
pub ascon_decrypt-ascon_encrypt :
    (key nonce ad plaintext ciphertext tag : List ℕ)
    → AreBytes plaintext
    → ascon_encrypt key nonce ad plaintext ≡ some (ciphertext, tag)
    → ascon_decrypt key nonce ad ciphertext tag ≡ some (plaintext, true)
ascon_decrypt-ascon_encrypt key nonce ad plaintext ciphertext tag b e =
    let (k, n, a, size, made) = encrypt_inversion key nonce ad plaintext (ciphertext, tag) e in
    let s : State = absorb key nonce ad in
    let (b0, t0) = word_at-lt 0 plaintext b (omega (arith, size)) in
    let (b1, t1) = word_at-lt 1 plaintext b (omega (arith, size)) in
    let (b2, t2) = word_at-lt 2 plaintext b (omega (arith, size)) in
    let p0 : ℕ = word_at 0 plaintext in
    let p1 : ℕ = word_at 1 plaintext in
    let p2 : ℕ = word_at 2 plaintext in
    let (w0, w1, w2) =
      sealed_words key s p0 p1 p2 (absorb-lt key nonce ad).0 (absorb-lt key nonce ad).1 b0 b1 b2 in
    let (long, short) = sealed_lengths key s p0 p1 p2 in
    subst
      (λ (sealed : List ℕ × List ℕ).
        ascon_decrypt key nonce ad sealed.0 sealed.1 ≡ some (plaintext, true))
      made
      (decrypt_accepts key nonce ad _ _ k n a long short
        ∙ ap some (
            (λ i. decrypt_words key s (encrypt_words key s p0 p1 p2).1 (w0 i) (w1 i) (w2 i))
            ∙ decrypt_words-encrypt_words key s p0 p1 p2
            ∙ ap (λ (t : List ℕ). (t, true))
                ((λ i. t0 i ++ (t1 i ++ t2 i)) ∙ three_words plaintext size)))
