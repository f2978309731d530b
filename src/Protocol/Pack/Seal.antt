-- ===== src/Protocol/Pack/Seal.antt =====
-- A sealed body: its fields, what it is read back to, and that a changed byte breaks the seal.
use fpga_mcu_trinity.Base.{
  ℕ, zero, suc, ◌+◌, ◌-◌, ◌*◌, ◌/◌, ◌%◌, ◌≤◌, ◌<◌, ◌≡◌, refl, sym, ap, ap₂, ◌∙◌, arith, List, [],
  ◌∷◌, ◌++◌, length, length-append, get_or, take-append, drop, take-append-drop, length-drop,
  All-append, All-left, All-right, subst,
}
use fpga_mcu_trinity.Protocol.Crc.{crc16_ccitt_false}
use fpga_mcu_trinity.Protocol.Crc.Rounds.{AreBytes, IsByte}
use fpga_mcu_trinity.Protocol.Crc.Sixteen.{crc16-lt, crc16_detects}
use fpga_mcu_trinity.Protocol.Crc.Residue.{crc16_residue}
use fpga_mcu_trinity.Protocol.Pack.{byte_at, u16_at, pack_u16, body_of, seal}

pub length-seal : (body : List ℕ) → length (seal body) ≡ length body + 2
unfolding seal
length-seal body = length-append body (pack_u16 (crc16_ccitt_false body))

pub body_of-seal : (body : List ℕ) → body_of (seal body) ≡ body
unfolding seal
body_of-seal body =
    take-append _ body (pack_u16 (crc16_ccitt_false body)) (omega (arith, length-seal body))

pub get_or-append :
    (xs ys : List ℕ) (i j d : ℕ) → i ≡ length xs + j → get_or (xs ++ ys) i d ≡ get_or ys j d
get_or-append [] ys i j d h = ap (λ (t : ℕ). get_or ys t d) (h ∙ omega arith)
get_or-append (x ∷ xs) ys zero j d h = absurd (omega arith)
get_or-append (x ∷ xs) ys (suc i) j d h = get_or-append xs ys i j d (omega arith)

pub u16_at_tail :
    (body : List ℕ) (hi lo : ℕ)
    → u16_at (body ++ (hi ∷ lo ∷ [])) (length (body ++ (hi ∷ lo ∷ [])) - 2) ≡ hi * 0x100 + lo
u16_at_tail body hi lo =
    let raw : List ℕ = body ++ (hi ∷ lo ∷ []) in
    let n : length raw ≡ length body + 2 = length-append body (hi ∷ lo ∷ []) in
    omega (
      arith,
      get_or-append body (hi ∷ lo ∷ []) (length raw - 2) 0 0 (omega arith),
      get_or-append body (hi ∷ lo ∷ []) (length raw - 2 + 1) 1 0 (omega arith),
    )

-- The checksum is read back from the end of a sealed body.
pub u16_at-seal :
    (body : List ℕ) → u16_at (seal body) (length (seal body) - 2) ≡ crc16_ccitt_false body
unfolding seal
u16_at-seal body =
    u16_at_tail body (crc16_ccitt_false body / 0x100) (crc16_ccitt_false body % 0x100) ∙ omega arith

two_left : (xs : List ℕ) → length xs ≡ 2 → xs ≡ byte_at xs 0 ∷ byte_at xs 1 ∷ []
two_left [] h = absurd (omega arith)
two_left (x ∷ []) h = absurd (omega arith)
two_left (x ∷ y ∷ []) h = refl
two_left (x ∷ y ∷ z ∷ xs) h = absurd (omega arith)

-- A buffer whose last two bytes are the checksum of the others is a sealed body.
pub eq-seal :
    (raw : List ℕ)
    → AreBytes raw
    → 2 ≤ length raw
    → u16_at raw (length raw - 2) ≡ crc16_ccitt_false (body_of raw)
    → raw ≡ seal (body_of raw)
unfolding seal
eq-seal raw hb hl e =
    let body = body_of raw in
    let tail = drop (length raw - 2) raw in
    let p = byte_at tail 0 in
    let q = byte_at tail 1 in
    let split : raw ≡ body ++ (p ∷ q ∷ []) =
      sym (take-append-drop (length raw - 2) raw)
      ∙ ap (λ (t : List ℕ). body ++ t)
          (two_left tail (omega (arith, length-drop (length raw - 2) raw))) in
    let bytes : AreBytes (p ∷ q ∷ []) =
      All-right IsByte body (p ∷ q ∷ []) (subst AreBytes split hb) in
    let value : u16_at raw (length raw - 2) ≡ p * 0x100 + q =
      ap (λ (r : List ℕ). u16_at r (length r - 2)) split ∙ u16_at_tail body p q in
    let high : p ≡ crc16_ccitt_false body / 0x100 = omega arith in
    let low : q ≡ crc16_ccitt_false body % 0x100 = omega arith in
    split ∙ ap₂ (λ (a b : ℕ). body ++ (a ∷ b ∷ [])) high low

pub AreBytes-seal : (body : List ℕ) → AreBytes body → AreBytes (seal body)
unfolding seal
AreBytes-seal body hb =
    All-append IsByte body (pack_u16 (crc16_ccitt_false body)) hb
      (omega (arith, crc16-lt body hb), (omega arith, tt))

pub crc16-seal : (body : List ℕ) → AreBytes body → crc16_ccitt_false (seal body) ≡ 0
unfolding seal
crc16-seal body hb = crc16_residue body hb

-- Two sealed buffers of one length never differ in one byte.
pub seal_detects :
    (front back : List ℕ) (x y : ℕ) (a b : List ℕ)
    → AreBytes (front ++ (x ∷ back))
    → AreBytes (front ++ (y ∷ back))
    → AreBytes a
    → AreBytes b
    → front ++ (x ∷ back) ≡ seal a
    → front ++ (y ∷ back) ≡ seal b
    → x ≡ y
seal_detects front back x y a b hx hy ha hb ex ey =
    crc16_detects front back x y hx (All-right IsByte front (y ∷ back) hy).0 (
      ap crc16_ccitt_false ex
      ∙ crc16-seal a ha
      ∙ sym (crc16-seal b hb)
      ∙ ap crc16_ccitt_false (sym ey))

pub AreBytes-changed :
    (front back : List ℕ) (x y : ℕ)
    → AreBytes (front ++ (x ∷ back))
    → y < 256
    → AreBytes (front ++ (y ∷ back))
AreBytes-changed front back x y h hy =
    All-append IsByte front (y ∷ back) (All-left IsByte front (x ∷ back) h)
      (hy, (All-right IsByte front (x ∷ back) h).1)
