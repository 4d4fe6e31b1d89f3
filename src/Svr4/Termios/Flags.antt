-- ===== src/Svr4/Termios/Flags.antt =====
-- Where the flags of a terminal stand after they were set from the program's and after they were
-- shown to it (abiemu/abi/svr4/termios.c).
use linux_abiemu.Prelude.{
  ℕ, ◌*◌, ◌/◌, ◌%◌, ◌^◌, ◌<◌, bit_and, bit_or, true, false, not, ◌&&◌, ◌||◌, ◌≡◌, refl, sym, ap,
  ap₂, if◌then◌else◌, ◌∙◌, arith, ltb, ◌==◌, inl, inr, Bool-cases,
}
use linux_abiemu.Prelude.Bits.{
  bit, shl1, bit-shl1, bit-bit_and, bit-bit_or, mask_test, all_below, all_below_sound, agree,
  eq_of_agree,
}
use linux_abiemu.Prelude.Masks.{bit-clear, bit-moved, bit_and_short}
use linux_abiemu.Svr4.Termios.{
  clear, has, joined_lflag, moved_lflag, lflag_from_svr4, lflag_to_svr4, cflag_from_svr4,
  cflag_to_svr4,
}

pub has-bit : (k t : ℕ) → has (shl1 k) t ≡ bit k t
has-bit k t = ap not (mask_test t k) ∙ ground arith

-- A bit that is moved to another place.
pub bit-relocated :
    (i j k a : ℕ) (shift : ℕ → ℕ)
    → shift (shl1 k) ≡ shl1 j
    → shift 0 ≡ 0
    → i < 32
    → k < 32
    → bit i (clear (shl1 k) (bit_or a (shift (bit_and a (shl1 k)))))
      ≡ ((bit i a || bit k a && (i == j)) && not (i == k))
bit-relocated i j k a shift to_j to_0 h l =
    bit-clear i k _ h l
    ∙ ap (λ b. b && not (i == k))
        (bit-bit_or i a _ ∙ ap (λ b. bit i a || b) (bit-moved i j k a shift to_j to_0))

low_table : all_below 16 (λ i. bit i 0xffff) ≡ true
unfolding all_below
low_table = refl

pub bit_of_short : (i r : ℕ) → i < 16 → bit i (r % 2 ^ 16) ≡ bit i r
bit_of_short i r h =
    ap (bit i) (sym (bit_and_short r))
    ∙ bit-bit_and i r 0xffff
    ∙ ground (arith, all_below_sound 16 _ i low_table h)

kept_table : all_below 16 (λ i. agree (bit i 0xffff_7e00) (ltb 8 i && not (i == 15))) ≡ true
unfolding all_below
kept_table = refl

-- The flags before the moves: bits 9 to 14 are the union of the old ones and the new.
bit-joined :
    (i old r : ℕ)
    → i < 16
    → bit i (joined_lflag old r) ≡ (bit i old && (ltb 8 i && not (i == 15)) || bit i r)
bit-joined i old r h =
    let kept : bit i 0xffff_7e00 ≡ (ltb 8 i && not (i == 15)) =
      eq_of_agree _ _ (all_below_sound 16 _ i kept_table h) in
    bit-bit_or i _ _
    ∙ ap₂ (λ b c. b || c) (bit-bit_and i old 0xffff_7e00 ∙ ap (λ b. bit i old && b) kept)
        (bit_of_short i r h)

-- IEXTEN goes up by seven places and TOSTOP down by one, and ECHOCTL is put back.
bit-moved_lflag :
    (i old a : ℕ)
    → i < 16
    → bit i (moved_lflag old a) ≡ (
        if i == 15
        then bit 8 a
        else if i == 8
        then bit 9 a
        else if i == 9
        then bit 9 old
        else bit i a)
unfolding moved_lflag
bit-moved_lflag i old a h =
    let t = clear 0x8000 a in
    let t' = clear 0x100 (bit_or t (bit_and t 0x100 * 2 ^ 7)) in
    let t'' = clear 0x200 (bit_or t' (bit_and t' 0x200 / 2)) in
    bit-bit_or i t'' (bit_and old 0x200)
    ∙ ground (
      arith,
      bit-moved i 9 9 old (λ m. m) refl refl,
      bit-relocated i 8 9 t' (λ m. m / 2) refl refl (omega arith) (omega arith),
      bit-relocated i 15 8 t (λ m. m * 2 ^ 7) refl refl (omega arith) (omega arith),
      bit-relocated 9 15 8 t (λ m. m * 2 ^ 7) refl refl (omega arith) (omega arith),
      bit-clear i 15 a (omega arith) (omega arith),
      bit-clear 9 15 a (omega arith) (omega arith),
      bit-clear 8 15 a (omega arith) (omega arith),
    )

-- The local flags of the kernel: bits 0 to 7 are the program's.
pub bit-lflag_from_svr4 :
    (i old r : ℕ)
    → i < 16
    → bit i (lflag_from_svr4 old r) ≡ (
        if i == 15
        then bit 8 r
        else if i == 8
        then bit 9 old || bit 9 r
        else if i == 9
        then bit 9 old
        else bit i old && ltb 8 i || bit i r)
unfolding lflag_from_svr4
bit-lflag_from_svr4 i old r h =
    bit-moved_lflag i old (joined_lflag old r) h
    ∙ ground (
      arith,
      bit-joined i old r h,
      bit-joined 8 old r (omega arith),
      bit-joined 9 old r (omega arith),
    )

pub bit-lflag_to_svr4 :
    (i l : ℕ)
    → i < 16
    → bit i (lflag_to_svr4 l) ≡ (
        if i == 15 then false else if i == 8 then bit 15 l else if i == 9 then bit 8 l else bit i l)
unfolding lflag_to_svr4
bit-lflag_to_svr4 i l h =
    let t = clear 0x200 l in
    let t' = clear 0x100 (bit_or t (bit_and t 0x100 * 2)) in
    let final : _ =
      bit-relocated i 8 15 t' (λ m. m / 2 ^ 7) refl refl (omega arith) (omega arith) in
    final
    ∙ ground (
      arith,
      bit-relocated i 9 8 t (λ m. m * 2) refl refl (omega arith) (omega arith),
      bit-relocated 15 9 8 t (λ m. m * 2) refl refl (omega arith) (omega arith),
      bit-clear i 9 l (omega arith) (omega arith),
      bit-clear 15 9 l (omega arith) (omega arith),
      bit-clear 8 9 l (omega arith) (omega arith),
    )

-- A flag that is added when another one is set.
bit-added :
    (i j k c : ℕ)
    → bit i (if has (shl1 k) c then bit_or c (shl1 j) else c) ≡ (bit i c || bit k c && (i == j))
bit-added i j k c = elim (Bool-cases (bit k c)) [
  | inl e ↦ rw (has-bit k c, e) (bit-bit_or i c (shl1 j) ∙ ap (λ b. bit i c || b) (bit-shl1 i j))
  | inr e ↦ rw (has-bit k c, e) (ground arith)
]

flow_table : all_below 32 (λ i. agree (bit i 0xffff_0fff) (not (ltb 11 i && ltb i 16))) ≡ true
unfolding all_below
flow_table = refl

pub bit-cflag_from_svr4 :
    (i c : ℕ)
    → i < 32
    → bit i (cflag_from_svr4 c) ≡ ((bit i c || bit 15 c && (i == 31)) && not (ltb 11 i && ltb i 16))
unfolding cflag_from_svr4
bit-cflag_from_svr4 i c h =
    bit-bit_and i _ 0xffff_0fff
    ∙ ap₂ (λ a b. a && b) (bit-added i 31 15 c)
        (eq_of_agree _ _ (all_below_sound 32 _ i flow_table h))

pub bit-cflag_to_svr4 :
    (i c : ℕ) → i < 16 → bit i (cflag_to_svr4 c) ≡ (bit i c || bit 31 c && (i == 15))
unfolding cflag_to_svr4
bit-cflag_to_svr4 i c h =
    bit-bit_and i _ 0xffff
    ∙ ap (λ a. a && bit i 0xffff) (bit-added i 15 31 c)
    ∙ ground (arith, all_below_sound 16 _ i low_table h)
