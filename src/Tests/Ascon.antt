-- ===== src/Tests/Ascon.antt =====
-- Ascon-AEAD128 on the vector that the source calls count 817.
use fpga_mcu_trinity.Base.{ℕ, ◌≡◌, refl, arith, true, some, List, [], ◌∷◌}
use fpga_mcu_trinity.Reference.Ascon.{
  ror, diffuse, round_fn, permute, from_bytes, to_bytes, absorb, tag_of, encrypt_words,
  ascon_encrypt, ascon_decrypt,
}
use fpga_mcu_trinity.Reference.Ascon.RoundTrip.{ascon_decrypt-ascon_encrypt}

abbrev key : List ℕ
key = 0 ∷ 1 ∷ 2 ∷ 3 ∷ 4 ∷ 5 ∷ 6 ∷ 7 ∷ 8 ∷ 9 ∷ 10 ∷ 11 ∷ 12 ∷ 13 ∷ 14 ∷ 15 ∷ []

abbrev nonce : List ℕ
nonce = 16 ∷ 17 ∷ 18 ∷ 19 ∷ 20 ∷ 21 ∷ 22 ∷ 23 ∷ 24 ∷ 25 ∷ 26 ∷ 27 ∷ 28 ∷ 29 ∷ 30 ∷ 31 ∷ []

abbrev associated : List ℕ
associated =
    48 ∷ 49 ∷ 50 ∷ 51 ∷ 52 ∷ 53 ∷ 54 ∷ 55 ∷ 56 ∷ 57 ∷ 58 ∷ 59 ∷ 60 ∷ 61 ∷ 62 ∷ 63 ∷ 64 ∷ 65 ∷ 66
    ∷ 67 ∷ 68 ∷ 69 ∷ 70 ∷ 71 ∷ []

abbrev plaintext : List ℕ
plaintext =
    32 ∷ 33 ∷ 34 ∷ 35 ∷ 36 ∷ 37 ∷ 38 ∷ 39 ∷ 40 ∷ 41 ∷ 42 ∷ 43 ∷ 44 ∷ 45 ∷ 46 ∷ 47 ∷ 48 ∷ 49 ∷ 50
    ∷ 51 ∷ 52 ∷ 53 ∷ 54 ∷ 55 ∷ []

abbrev ciphertext : List ℕ
ciphertext =
    157 ∷ 41 ∷ 249 ∷ 213 ∷ 42 ∷ 223 ∷ 148 ∷ 112 ∷ 175 ∷ 76 ∷ 188 ∷ 224 ∷ 164 ∷ 72 ∷ 26 ∷ 199 ∷ 252
    ∷ 177 ∷ 179 ∷ 41 ∷ 118 ∷ 70 ∷ 152 ∷ 146 ∷ []

abbrev tag : List ℕ
tag = 223 ∷ 235 ∷ 175 ∷ 68 ∷ 82 ∷ 5 ∷ 236 ∷ 155 ∷ 1 ∷ 157 ∷ 2 ∷ 44 ∷ 112 ∷ 66 ∷ 174 ∷ 89 ∷ []

encrypted : ascon_encrypt key nonce associated plaintext ≡ some (ciphertext, tag)
unfolding ascon_encrypt encrypt_words absorb tag_of permute round_fn diffuse ror from_bytes to_bytes
encrypted = refl

ascon_decrypt-ascon_encrypt_example :
    ascon_decrypt key nonce associated ciphertext tag ≡ some (plaintext, true)
ascon_decrypt-ascon_encrypt_example =
    ascon_decrypt-ascon_encrypt key nonce associated plaintext ciphertext tag (ground arith)
      encrypted
