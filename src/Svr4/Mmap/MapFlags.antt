-- ===== src/Svr4/Mmap/MapFlags.antt =====
-- The flags of mmap(2) that reach the kernel.
use linux_abiemu.Prelude.{
  ℕ, ◌<◌, bit_and, bit_or, Bool, true, false, not, ◌&&◌, ◌||◌, ◌≡◌, refl, ap, ap₂, ◌∙◌, ◌==◌,
  ==_iff, if◌then◌else◌, inl, inr, Bool-cases, arith,
}
use linux_abiemu.Prelude.Bits.{
  bit, bit-bit_and, bit-bit_or, bit-shl1, bit-zero, mask_test, all_below, all_below_sound,
}
use linux_abiemu.Svr4.Mmap.{implemented, with_file, mmap_flags}

abbrev same : Bool → Bool → Bool
same a b = a && b || not a && not b

of_same : (a b : Bool) → same a b ≡ true → a ≡ b
of_same a b h = ground arith

known_table : all_below 32 (λ k. same (bit k 0x7fff_ffdf) (not (k == 5 || k == 31))) ≡ true
unfolding all_below
known_table = refl

other_table : all_below 32 (λ k. same (bit k 0xffff_feff) (not (k == 8))) ≡ true
unfolding all_below
other_table = refl

module _ (flags k : ℕ) (h : k < 32) where
  masked : bit k (bit_and flags 0x7fff_ffdf) ≡ (bit k flags && not (k == 5 || k == 31))
  masked =
      bit-bit_and k flags 0x7fff_ffdf
      ∙ ap (λ b. bit k flags && b) (of_same _ _ (all_below_sound 32 _ k known_table h))

  clear_already :
      (i : ℕ)
      → bit i 0x8000_0020 ≡ true
      → (bit_and flags 0x8000_0020 == 0) ≡ true
      → bit i flags ≡ false
  clear_already i m z =
      let zero_word : bit_and flags 0x8000_0020 ≡ 0 = (==_iff _ 0).0 z in
      let both : bit i (bit_and flags 0x8000_0020) ≡ false = ap (bit i) zero_word ∙ bit-zero i in
      ground (arith, bit-bit_and i flags 0x8000_0020)

  bit-implemented : bit k (implemented flags) ≡ (bit k flags && not (k == 5 || k == 31))
  bit-implemented = elim (Bool-cases (bit_and flags 0x8000_0020 == 0)) [
    | inr e ↦ rw e masked
    | inl e ↦
        let five : bit 5 flags ≡ false = clear_already 5 refl e in
        let top : bit 31 flags ≡ false = clear_already 31 refl e in
        rw e (elim (Bool-cases (k == 5)) [
          | inl a ↦ let at : k ≡ 5 = (==_iff k 5).0 a in rw (at, five) refl
          | inr a ↦ elim (Bool-cases (k == 31)) [
            | inl b ↦ let at : k ≡ 31 = (==_iff k 31).0 b in rw (at, top) refl
            | inr b ↦ rw (a, b) (ground arith)
          ]
        ])
  ]

file_test : (flags : ℕ) → with_file (implemented flags) ≡ not (bit 8 flags)
file_test flags =
    mask_test (implemented flags) 8 ∙ ap not (bit-implemented flags 8 (ground arith) ∙ ground arith)

bit_twenty : (k : ℕ) → bit k 0x20 ≡ (k == 5)
bit_twenty k = bit-shl1 k 5

-- With anonymous memory, and with a file: x is the flag, a, b and c tell flags 5, 31 and 8.
anonymous_flag :
    (x a b e : Bool)
    → e ≡ true
    → (x && not (a || b)) ≡ (if a then not e else if b then false else x)
anonymous_flag x a b e h = ground arith

file_flag :
    (x a b c e : Bool)
    → e ≡ false
    → (c ≡ true → x ≡ e)
    → ((x && not (a || b)) && not c || a) ≡ (if a then not e else if b then false else x)
file_flag x a b c e h same = ground arith

masked_file :
    (flags k : ℕ)
    → k < 32
    → bit k (bit_or (bit_and (implemented flags) 0xffff_feff) 0x20)
      ≡ ((bit k flags && not (k == 5 || k == 31)) && not (k == 8) || (k == 5))
masked_file flags k h =
    bit-bit_or k (bit_and (implemented flags) 0xffff_feff) 0x20
    ∙ ap₂ (λ a b. a || b)
        (bit-bit_and k (implemented flags) 0xffff_feff
          ∙ ap₂ (λ a b. a && b) (bit-implemented flags k h)
              (of_same _ _ (all_below_sound 32 _ k other_table h)))
        (bit_twenty k)

-- The flags that mmap(2) hands to the kernel, of the 32: SVR4_MAP_UNIMPL's 31 is dropped, 5
-- (MAP_ANONYMOUS of Linux) is set exactly when the program did not ask for anonymous memory
-- (flag 8), and every other flag is the program's, flag 8 included.
pub bit-mmap_flags :
    (flags k : ℕ)
    → k < 32
    → bit k (mmap_flags flags)
      ≡ (if k == 5 then not (bit 8 flags) else if k == 31 then false else bit k flags)
unfolding mmap_flags
bit-mmap_flags flags k h = elim (Bool-cases (bit 8 flags)) [
  | inl e ↦
      let anon : with_file (implemented flags) ≡ false = file_test flags ∙ ap not e in
      rw anon (bit-implemented flags k h)
      ∙ anonymous_flag (bit k flags) (k == 5) (k == 31) (bit 8 flags) e
  | inr e ↦
      let file : with_file (implemented flags) ≡ true = file_test flags ∙ ap not e in
      rw file (masked_file flags k h)
      ∙ file_flag (bit k flags) (k == 5) (k == 31) (k == 8) (bit 8 flags) e
          (λ eight. ap (λ i. bit i flags) ((==_iff k 8).0 eight))
]
