-- ===== src/Prelude/Int.antt =====
-- C's `int`: a signed integer over the native numbers. `negsuc n` is -(n + 1).
use Prim.Native.Nat.{ℕ, zero, suc, ◌+◌, ◌-◌, ◌%◌, ◌^◌, ◌<◌}
use mathlib.Core.Path.{◌≡◌, ap, sym, ◌∙◌}
use mathlib.Core.Bool.{Bool, true, false, true≢false}
use mathlib.Core.Logic.{◌≢◌}
use native.Mathlib.Omega.{arith}
use linux_abiemu.Prelude.Tests.{ltb, leb, ◌==◌, ==_iff, ==_refl, if◌then◌else◌}

pub data ℤ : Type 0 where
  pos : ℕ → ℤ
  negsuc : ℕ → ℤ

abbrev pub pos_part : ℤ → ℕ
pos_part (pos n) = n
pos_part (negsuc n) = 0

abbrev pub neg_part : ℤ → ℕ
neg_part (pos n) = 0
neg_part (negsuc n) = suc n

-- -n, as in `return -EINVAL`.
abbrev pub neg : ℕ → ℤ
neg zero = pos 0
neg (suc n) = negsuc n

abbrev pub is_neg : ℤ → Bool
is_neg (pos n) = false
is_neg (negsuc n) = true

abbrev pub is_zero : ℤ → Bool
is_zero (pos n) = n == 0
is_zero (negsuc n) = false

abbrev pub leb_ℤ : ℤ → ℤ → Bool
leb_ℤ a b = leb (pos_part a + neg_part b) (pos_part b + neg_part a)

abbrev pub eqb_ℤ : ℤ → ℤ → Bool
eqb_ℤ (pos a) (pos b) = a == b
eqb_ℤ (negsuc a) (negsuc b) = a == b
eqb_ℤ _ _ = false

-- The 32-bit register that holds an `int`.
abbrev pub word : ℤ → ℕ
word (pos n) = n % 2 ^ 32
word (negsuc n) = 2 ^ 32 - 1 - n % 2 ^ 32

-- The `int` that a 32-bit register holds.
abbrev pub int32 : ℕ → ℤ
int32 w = if ltb w (2 ^ 31) then pos w else negsuc (2 ^ 32 - 1 - w)

pub word-int32 : (w : ℕ) → w < 2 ^ 32 → word (int32 w) ≡ w
word-int32 w h = ground arith

pub word-lt : (z : ℤ) → word z < 2 ^ 32
word-lt (pos n) = omega arith
word-lt (negsuc n) = omega arith

pub eqb_ℤ_eq : (a b : ℤ) → eqb_ℤ a b ≡ true → a ≡ b
eqb_ℤ_eq (pos a) (pos b) h = ap pos ((==_iff a b).0 h)
eqb_ℤ_eq (pos a) (negsuc b) h = cc
eqb_ℤ_eq (negsuc a) (pos b) h = cc
eqb_ℤ_eq (negsuc a) (negsuc b) h = ap negsuc ((==_iff a b).0 h)

pub eqb_ℤ_refl : (a : ℤ) → eqb_ℤ a a ≡ true
eqb_ℤ_refl (pos n) = ==_refl n
eqb_ℤ_refl (negsuc n) = ==_refl n

pub eqb_ℤ_ne : (a b : ℤ) → eqb_ℤ a b ≡ false → a ≢ b
eqb_ℤ_ne a b h e = true≢false (sym (eqb_ℤ_refl a) ∙ ap (eqb_ℤ a) e ∙ h)
