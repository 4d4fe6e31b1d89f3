-- ===== src/Prelude/Masks.antt =====
-- `&` with a mask of low bits, and `|` of numbers that do not overlap.
use Prim.Native.Nat.{ℕ, zero, suc, ◌+◌, ◌-◌, ◌*◌, ◌/◌, ◌%◌, ◌^◌, ◌<◌, min, max, bit_and, bit_or}
use mathlib.Core.Path.{◌≡◌, refl, ap, ◌∙◌}
use mathlib.Core.Bool.{true, not, ◌&&◌}
use mathlib.Core.Logic.{inl, inr}
use native.Mathlib.Omega.{arith}
use native.Mathlib.Nat.{pow-suc}
use linux_abiemu.Prelude.Tests.{◌==◌, Bool-cases}
use linux_abiemu.Prelude.Bits.{
  bit_and_step, bit_or_step, bit-ext, bit-bit_and, bit-bit_or, bit-zero, bit, shl1, bit_and-shl1,
  bit-shl1, all_below, all_below_sound, agree, eq_of_agree,
}

-- The mask of the k lowest bits, and what it leaves of a number.
abbrev mask : ℕ → ℕ
mask zero = 0
mask (suc k) = mask k * 2 + 1

abbrev low : ℕ → ℕ → ℕ
low zero a = 0
low (suc k) a = low k (a / 2) * 2 + a % 2

bit_and_zero : (a : ℕ) → bit_and a 0 ≡ 0
bit_and_zero a = bit-ext _ _ λ i. bit-bit_and i a 0 ∙ ground (arith, bit-zero i)

bit_or_zero : (a : ℕ) → bit_or a 0 ≡ a
bit_or_zero a = bit-ext _ _ λ i. bit-bit_or i a 0 ∙ ground (arith, bit-zero i)

-- Doubling moves out of a product with a power.
double : (a k : ℕ) → a * 2 ^ suc k ≡ a * 2 ^ k * 2
double a k = rw (pow-suc 2 k) (grind arith)

bit_and-mask : (k a : ℕ) → bit_and a (mask k) ≡ low k a
bit_and-mask zero a = bit_and_zero a
bit_and-mask (suc k) a =
    let half : (mask k * 2 + 1) / 2 ≡ mask k = omega arith in
    let step : bit_and a (mask k * 2 + 1)
        ≡ bit_and (a / 2) (mask k) * 2 + min (a % 2) ((mask k * 2 + 1) % 2) =
      rw half at (bit_and_step a (mask k * 2 + 1)) in
    omega (arith, step, bit_and-mask k (a / 2))

-- `a & 0xff` and `a & 0xffff`
pub bit_and_byte : (a : ℕ) → bit_and a 0xff ≡ a % 2 ^ 8
bit_and_byte a = bit_and-mask 8 a ∙ omega arith

pub bit_and_short : (a : ℕ) → bit_and a 0xffff ≡ a % 2 ^ 16
bit_and_short a = bit_and-mask 16 a ∙ omega arith

-- `a << k | b` is a sum when b has k bits.
pub bit_or_shifted : (k a b : ℕ) → b < 2 ^ k → bit_or (a * 2 ^ k) b ≡ a * 2 ^ k + b
bit_or_shifted zero a b h =
    let none_left : b ≡ 0 = omega arith in rw none_left (bit_or_zero (a * 1) ∙ omega arith)
bit_or_shifted (suc k) a b h =
    let half : a * 2 ^ suc k / 2 ≡ a * 2 ^ k = omega (arith, double a k) in
    let step : bit_or (a * 2 ^ suc k) b
        ≡ bit_or (a * 2 ^ k) (b / 2) * 2 + max (a * 2 ^ suc k % 2) (b % 2) =
      rw half at (bit_or_step (a * 2 ^ suc k) b) in
    omega (arith, step, double a k, bit_or_shifted k a (b / 2) (omega (arith, pow-suc 2 k)))

clear_table :
    all_below 32 (λ k. all_below 32 (λ i. agree (bit i (0xffff_ffff - shl1 k)) (not (i == k))))
    ≡ true
unfolding all_below
clear_table = refl

-- `a & ~(1 << k)` on 32 bits.
pub bit-clear :
    (i k a : ℕ)
    → i < 32
    → k < 32
    → bit i (bit_and a (0xffff_ffff - shl1 k)) ≡ (bit i a && not (i == k))
bit-clear i k a h l =
    bit-bit_and i a _
    ∙ ap (λ b. bit i a && b)
        (eq_of_agree _ _ (all_below_sound 32 _ i (all_below_sound 32 _ k clear_table l) h))

-- A bit that is cut out and shifted.
pub bit-moved :
    (i j k v : ℕ) (shift : ℕ → ℕ)
    → shift (shl1 k) ≡ shl1 j
    → shift 0 ≡ 0
    → bit i (shift (bit_and v (shl1 k))) ≡ (bit k v && (i == j))
bit-moved i j k v shift to_j to_0 = rw (bit_and-shl1 v k) (elim (Bool-cases (bit k v)) [
  | inl e ↦ rw (e, to_j) (bit-shl1 i j)
  | inr e ↦ rw (e, to_0) (bit-zero i)
])
