-- ===== src/Prelude/Bits.antt =====
-- The bits of a machine word, and the laws of `&`, `|` and `1 << k` at variables.
use Prim.Native.Nat.{
  ℕ, zero, suc, ◌+◌, ◌-◌, ◌*◌, ◌/◌, ◌%◌, ◌^◌, ◌≤◌, ◌<◌, min, max, bit_and, bit_or, digits,
  bit_and-bitwise, bit_or-bitwise,
}
use mathlib.Core.Path.{◌≡◌, refl, ◌∙◌, ap}
use mathlib.Core.Bool.{Bool, true, false, not, ◌&&◌, ◌||◌, or-true}
use mathlib.Core.Logic.{inl, inr}
use native.Mathlib.Omega.{arith}
use native.Mathlib.Nat.{pow-suc, mod-eq_of_lt, zero-add, suc-add}
use linux_abiemu.Prelude.Tests.{◌==◌, ==_iff, if◌then◌else◌, Bool-cases}

-- Bit i of a word.
abbrev pub bit : ℕ → ℕ → Bool
bit zero a = a % 2 == 1
bit (suc i) a = bit i (a / 2)

-- `1 << k` (`1UL << k`), where k is below the width.
abbrev pub shl1 : ℕ → ℕ
shl1 k = 2 ^ k

-- The native operations are recursions on binary digits with fuel; one unit more changes nothing.
module _ (tail : ℕ → ℕ) (op : ℕ → ℕ → ℕ) where
  spare_unit : (n x y : ℕ) → x ≤ n → digits tail op (suc n) x y ≡ digits tail op n x y
  spare_unit zero x y h = let none_left : x ≡ 0 = omega arith in rw none_left refl
  spare_unit (suc n) zero y h = refl
  spare_unit (suc n) (suc x) y h =
      ap (λ d. d * 2 + op (suc x % 2) (y % 2)) (spare_unit n (suc x / 2) (y / 2) (omega arith))

  spare_units : (k n x y : ℕ) → x ≤ n → digits tail op (k + n) x y ≡ digits tail op n x y
  spare_units zero n x y h = rw zero-add refl
  spare_units (suc k) n x y h =
      rw suc-add (spare_unit (k + n) x y (omega arith)) ∙ spare_units k n x y h

  -- From fuel a down to the half of a + 1.
  half_fuel : (a y : ℕ) → digits tail op a (suc a / 2) y ≡ digits tail op (suc a / 2) (suc a / 2) y
  half_fuel a y =
      let whole : a ≡ (a - suc a / 2) + suc a / 2 = omega arith in
      ap (λ n. digits tail op n (suc a / 2) y) whole
      ∙ spare_units (a - suc a / 2) (suc a / 2) (suc a / 2) y (omega arith)

pub bit_and_step : (a b : ℕ) → bit_and a b ≡ bit_and (a / 2) (b / 2) * 2 + min (a % 2) (b % 2)
bit_and_step zero b = rw (bit_and-bitwise 0 b, bit_and-bitwise 0 (b / 2)) (omega arith)
bit_and_step (suc a) b =
    rw (bit_and-bitwise (suc a) b, bit_and-bitwise (suc a / 2) (b / 2))
      (ap (λ d. d * 2 + min (suc a % 2) (b % 2)) (half_fuel (λ t. 0) min a (b / 2)))

pub bit_or_step : (a b : ℕ) → bit_or a b ≡ bit_or (a / 2) (b / 2) * 2 + max (a % 2) (b % 2)
bit_or_step zero b = rw (bit_or-bitwise 0 b, bit_or-bitwise 0 (b / 2)) (omega arith)
bit_or_step (suc a) b =
    rw (bit_or-bitwise (suc a) b, bit_or-bitwise (suc a / 2) (b / 2))
      (ap (λ d. d * 2 + max (suc a % 2) (b % 2)) (half_fuel (λ t. t) max a (b / 2)))

bit_and_half : (a b : ℕ) → bit_and a b / 2 ≡ bit_and (a / 2) (b / 2)
bit_and_half a b = omega (arith, bit_and_step a b)

bit_or_half : (a b : ℕ) → bit_or a b / 2 ≡ bit_or (a / 2) (b / 2)
bit_or_half a b = omega (arith, bit_or_step a b)

pub bit-bit_and : (i a b : ℕ) → bit i (bit_and a b) ≡ (bit i a && bit i b)
bit-bit_and zero a b = ground (arith, bit_and_step a b)
bit-bit_and (suc i) a b = ap (bit i) (bit_and_half a b) ∙ bit-bit_and i (a / 2) (b / 2)

pub bit-bit_or : (i a b : ℕ) → bit i (bit_or a b) ≡ (bit i a || bit i b)
bit-bit_or zero a b = ground (arith, bit_or_step a b)
bit-bit_or (suc i) a b = ap (bit i) (bit_or_half a b) ∙ bit-bit_or i (a / 2) (b / 2)

pub bit-zero : (i : ℕ) → bit i 0 ≡ false
bit-zero zero = refl
bit-zero (suc i) = bit-zero i

pub shl1_pos : (k : ℕ) → 0 < shl1 k
shl1_pos zero = omega arith
shl1_pos (suc k) = omega (arith, pow-suc 2 k, shl1_pos k)

half_shl1 : (k : ℕ) → 2 ^ (suc k) / 2 ≡ 2 ^ k
half_shl1 k = omega (arith, pow-suc 2 k)

pub bit-shl1 : (i k : ℕ) → bit i (shl1 k) ≡ (i == k)
bit-shl1 zero zero = refl
bit-shl1 zero (suc k) = ground (arith, pow-suc 2 k)
bit-shl1 (suc i) zero = bit-zero i ∙ ground arith
bit-shl1 (suc i) (suc k) = ap (bit i) (half_shl1 k) ∙ bit-shl1 i k ∙ ground arith

halves_ext : (a b : ℕ) → (a % 2 == 1) ≡ (b % 2 == 1) → a / 2 ≡ b / 2 → a ≡ b
halves_ext a b low high = ground arith

bit-ext_fuel : (n a b : ℕ) → a ≤ n → b ≤ n → ((i : ℕ) → bit i a ≡ bit i b) → a ≡ b
bit-ext_fuel zero a b p q h = omega arith
bit-ext_fuel (suc n) a b p q h =
    halves_ext a b (h 0)
      (bit-ext_fuel n (a / 2) (b / 2) (omega arith) (omega arith) (λ i. h (suc i)))

-- A word is determined by its bits.
pub bit-ext : (a b : ℕ) → ((i : ℕ) → bit i a ≡ bit i b) → a ≡ b
bit-ext a b h = bit-ext_fuel (a + b) a b (omega arith) (omega arith) h

bit-mask_bit : (i v k : ℕ) → (bit i v && (i == k)) ≡ bit i (if bit k v then shl1 k else 0)
bit-mask_bit i v k = ground (arith, bit-shl1 i k, bit-zero i)

pub bit_and-shl1 : (v k : ℕ) → bit_and v (shl1 k) ≡ (if bit k v then shl1 k else 0)
bit_and-shl1 v k =
    bit-ext _ _
      λ i. bit-bit_and i v (shl1 k) ∙ ap (λ t. bit i v && t) (bit-shl1 i k) ∙ bit-mask_bit i v k

-- A test `v & (1 << k)`.
pub mask_test : (v k : ℕ) → (bit_and v (shl1 k) == 0) ≡ not (bit k v)
mask_test v k = rw (bit_and-shl1 v k) (ground (arith, shl1_pos k))

pub shl1_mono : (i j : ℕ) → i < j → shl1 i < shl1 j
shl1_mono i zero h = elim h [ ]
shl1_mono zero (suc j) h = omega (arith, pow-suc 2 j, shl1_pos j)
shl1_mono (suc i) (suc j) h = omega (arith, pow-suc 2 i, pow-suc 2 j, shl1_mono i j (omega arith))

-- A mask that walks up a word of w bits stays exact below the top.
pub shl1_next : (w i : ℕ) → suc i < w → shl1 i * 2 % shl1 w ≡ shl1 (suc i)
shl1_next w i h = rw (← pow-suc 2 i) (mod-eq_of_lt (shl1_mono (suc i) w h))

-- The union of two words of w bits has w bits.
pub bit_or-lt : (w a b : ℕ) → a < shl1 w → b < shl1 w → bit_or a b < shl1 w
bit_or-lt zero a b p q =
    let za : a ≡ 0 = omega arith in let zb : b ≡ 0 = omega arith in rw (za, zb) (omega arith)
bit_or-lt (suc w) a b p q = omega (
  arith,
  pow-suc 2 w,
  bit_or_step a b,
  bit_or-lt w (a / 2) (b / 2) (omega (arith, pow-suc 2 w)) (omega (arith, pow-suc 2 w)),
)

-- Does a test hold at one of the n numbers from i on?
unfoldable pub any_from : ℕ → ℕ → (ℕ → Bool) → Bool
any_from zero i p = false
any_from (suc n) i p = p i || any_from n (suc i) p

pub any_from_hit :
    (n i k : ℕ) (p : ℕ → Bool) → i ≤ k → k < i + n → p k ≡ true → any_from n i p ≡ true
unfolding any_from
any_from_hit zero i k p h l t = absurd (omega arith)
any_from_hit (suc n) i k p h l t = elim (Bool-cases (i == k)) [
  | inl e ↦ let same : i ≡ k = (==_iff i k).0 e in rw (same, t)
  | inr e ↦
      ap (λ b. p i || b) (any_from_hit n (suc i) k p (ground arith) (omega arith) t) ∙ or-true (p i)
]

pub any_from_found :
    (n i : ℕ) (p : ℕ → Bool)
    → any_from n i p ≡ true
    → (k : ℕ) × (i ≤ k) × (k < i + n) × (p k ≡ true)
unfolding any_from
any_from_found zero i p t = cc
any_from_found (suc n) i p t = elim (Bool-cases (p i)) [
  | inl e ↦ (i, omega arith, omega arith, e)
  | inr e ↦ later (any_from_found n (suc i) p (rw e at t))
]
  where
    later :
        (k : ℕ) × (suc i ≤ k) × (k < suc i + n) × (p k ≡ true)
        → (k : ℕ) × (i ≤ k) × (k < i + suc n) × (p k ≡ true)
    later (k, a, b, c) = (k, omega arith, omega arith, c)

-- Does a test hold at every number below a bound? It is evaluated from the top down.
unfoldable pub all_below : ℕ → (ℕ → Bool) → Bool
all_below zero test = true
all_below (suc top) test = if test top then all_below top test else false

pub all_below_sound :
    (bound : ℕ) (test : ℕ → Bool) (k : ℕ) → all_below bound test ≡ true → k < bound → test k ≡ true
unfolding all_below
all_below_sound zero test k checked below = elim below [ ]
all_below_sound (suc top) test k checked below = elim (Bool-cases (k == top)) [
  | inl last ↦ let same : k ≡ top = (==_iff k top).0 last in rw same (ground arith)
  | inr before ↦ all_below_sound top test k (ground arith) (ground arith)
]

-- `~1` keeps all but bit 0.
abbrev pub agree : Bool → Bool → Bool
agree a b = a && b || not a && not b

pub eq_of_agree : (a b : Bool) → agree a b ≡ true → a ≡ b
eq_of_agree a b h = ground arith

low_mask_table : all_below 32 (λ k. agree (bit k 0xffff_fffe) (not (k == 0))) ≡ true
unfolding all_below
low_mask_table = refl

pub bit_low_mask : (i : ℕ) → i < 32 → bit i 0xffff_fffe ≡ not (i == 0)
bit_low_mask i h = eq_of_agree _ _ (all_below_sound 32 _ i low_mask_table h)
