-- ===== src/Base/Enum.antt =====
-- Python's `IntEnum` and `IntFlag`: a class of named members, each with its number.
use Prim.Native.Nat.{ℕ}
use mathlib.Core.Path.{◌≡◌, ap, sym, ◌∙◌}
use mathlib.Core.Logic.{inl, inr}
use mathlib.Core.Option.{Option, none, some}
use mathlib.Core.List.{List, [], ◌∷◌}
use native.Mathlib.Omega.{arith}
use mathlib.Core.Bool.{Bool, true}
use fpga_mcu_trinity.Base.Tests.{◌==◌, if◌then◌else◌, Bool-cases, ==→eq}

unfoldable pub find_member {ℓ} : {A : Type ℓ} → (A → ℕ) → List A → ℕ → Option A
find_member value [] n = none
find_member value (a ∷ members) n = if value a == n then some a else find_member value members n

pub record IntEnum (A : Type 0) : Type 0 where
  pub value : A → ℕ
  pub members : List A
  pub complete : (a : A) → find_member value members (value a) ≡ some a

-- `int(a)`
abbrev pub int : {A : Type 0} ⦃e : IntEnum A⦄ → A → ℕ
int ⦃e⦄ a = e.value a

-- `a == b` on members
abbrev pub same : {A : Type 0} ⦃e : IntEnum A⦄ → A → A → Bool
same ⦃e⦄ a b = e.value a == e.value b

-- The class called on a number: `none` stands for the `ValueError` of an unknown number.
unfoldable pub of_int : {A : Type 0} ⦃e : IntEnum A⦄ → ℕ → Option A
unfolding find_member
of_int ⦃e⦄ n = find_member e.value e.members n

value_find :
    {A : Type 0} (value : A → ℕ) (members : List A) (n : ℕ) (a : A)
    → find_member value members n ≡ some a
    → value a ≡ n
unfolding find_member
value_find value [] n a h = cc
value_find value (b ∷ members) n a h = elim (Bool-cases (value b == n)) [
  | inl e ↦ ground arith
  | inr e ↦ value_find value members n a (rw e at h)
]

module _ {A : Type 0} ⦃e : IntEnum A⦄ where
  -- Every member is found by its number, and only a member with that number is found.
  pub of_int-int : (a : A) → of_int (int a) ≡ some a
  unfolding of_int
  of_int-int a = e.complete a

  pub int-of_int : (n : ℕ) (a : A) → of_int n ≡ some a → int a ≡ n
  unfolding of_int
  int-of_int n a h = value_find e.value e.members n a h

some_injective : {A : Type 0} (a b : A) → some a ≡ some b → a ≡ b
some_injective a b h = cc

module _ {A : Type 0} ⦃e : IntEnum A⦄ where
  pub int_injective : (a b : A) → int a ≡ int b → a ≡ b
  int_injective a b h =
      some_injective a b (sym (of_int-int a) ∙ ap (λ (n : ℕ). of_int n) h ∙ of_int-int b)

  pub same→eq : (a b : A) → same a b ≡ true → a ≡ b
  same→eq a b h = int_injective a b (==→eq (int a) (int b) h)
