-- ===== src/Svr4/Signal/Roundtrip.antt =====
-- The flags of a sigaction(2) on their way to the kernel and back.
use linux_abiemu.Prelude.{
  ℕ, bit_and, bit_or, Bool, false, ◌&&◌, ◌||◌, ◌≡◌, refl, sym, ap, ◌∙◌, ◌==◌, arith, Bool-cases,
  ==_iff, inl, inr,
}
use linux_abiemu.Prelude.Bits.{
  bit, shl1, bit-bit_or, bit-bit_and, bit-shl1, bit-zero, bit-ext, mask_test,
}
use linux_abiemu.Svr4.Signal.Action.{add_flag, flags_to_linux, flags_to_abi}

-- ABI_SA_ONSTACK, RESETHAND, RESTART, NODEFER, NOCLDWAIT and NOCLDSTOP: bits 0, 1, 2, 4, 16, 17.
abbrev pub known_flags : ℕ
known_flags = 0x30017

bit-add_flag :
    (k flags i j r : ℕ)
    → bit k (add_flag flags (shl1 i) (shl1 j) r) ≡ (bit k r || (bit i flags && (k == j)))
bit-add_flag k flags i j r =
    ground (arith, mask_test flags i, bit-bit_or k r (shl1 j), bit-shl1 k j)

module _ (k before flags : ℕ) where
  pub bit-flags_to_linux : bit k (flags_to_linux before flags) ≡ (
      bit k before
      || (bit 0 flags && (k == 27))
      || (bit 2 flags && (k == 28))
      || (bit 4 flags && (k == 30))
      || (bit 1 flags && (k == 31))
      || (bit 17 flags && (k == 0))
      || (bit 16 flags && (k == 1)))
  unfolding flags_to_linux
  bit-flags_to_linux =
      rw
        (
          bit-add_flag k flags 16 1 _,
          bit-add_flag k flags 17 0 _,
          bit-add_flag k flags 1 31 _,
          bit-add_flag k flags 4 30 _,
          bit-add_flag k flags 2 28 _,
          bit-add_flag k flags 0 27 _,
        )
        refl

pub bit-flags_to_abi :
    (k flags : ℕ)
    → bit k (flags_to_abi flags) ≡ (
        false
        || (bit 27 flags && (k == 0))
        || (bit 28 flags && (k == 2))
        || (bit 30 flags && (k == 4))
        || (bit 31 flags && (k == 1))
        || (bit 0 flags && (k == 17))
        || (bit 1 flags && (k == 16)))
unfolding flags_to_abi
bit-flags_to_abi k flags =
    rw
      (
        bit-add_flag k flags 1 16 _,
        bit-add_flag k flags 0 17 _,
        bit-add_flag k flags 31 1 _,
        bit-add_flag k flags 30 4 _,
        bit-add_flag k flags 28 2 _,
        bit-add_flag k flags 27 0 _,
        bit-zero k,
      )
      refl

bit-known_flags :
    (k : ℕ)
    → bit k known_flags
      ≡ (false || (k == 0) || (k == 2) || (k == 4) || (k == 1) || (k == 17) || (k == 16))
bit-known_flags k =
    bit-bit_or k (bit_or (bit_or (bit_or (bit_or (shl1 0) (shl1 2)) (shl1 4)) (shl1 1)) (shl1 17))
      (shl1 16)
    ∙ rw
        (
          bit-bit_or k (bit_or (bit_or (bit_or (shl1 0) (shl1 2)) (shl1 4)) (shl1 1)) (shl1 17),
          bit-bit_or k (bit_or (bit_or (shl1 0) (shl1 2)) (shl1 4)) (shl1 1),
          bit-bit_or k (bit_or (shl1 0) (shl1 2)) (shl1 4),
          bit-bit_or k (shl1 0) (shl1 2),
          bit-shl1 k 0,
          bit-shl1 k 2,
          bit-shl1 k 4,
          bit-shl1 k 1,
          bit-shl1 k 17,
          bit-shl1 k 16,
        )
        refl

-- A test of bit i that only matters for bit i.
same_bit :
    (b : Bool) (flags k i : ℕ)
    → ((b || bit i flags) && (k == i)) ≡ ((b && (k == i)) || (bit k flags && (k == i)))
same_bit b flags k i = elim (Bool-cases (k == i)) [
  | inl e ↦ let same : k ≡ i = (==_iff k i).0 e in rw same (ground arith)
  | inr e ↦ rw e (ground arith)
]

-- Two sets of tests that are or-ed in pairs.
gather :
    (f a1 a2 a3 a4 a5 a6 e1 e2 e3 e4 e5 e6 : Bool)
    → (false
        || (a1 || (f && e1))
        || (a2 || (f && e2))
        || (a3 || (f && e3))
        || (a4 || (f && e4))
        || (a5 || (f && e5))
        || (a6 || (f && e6)))
      ≡ ((false || a1 || a2 || a3 || a4 || a5 || a6)
          || (f && (false || e1 || e2 || e3 || e4 || e5 || e6)))
gather f a1 a2 a3 a4 a5 a6 e1 e2 e3 e4 e5 e6 = ground arith

module _ (before flags : ℕ) where
  linux_27 : bit 27 (flags_to_linux before flags) ≡ (bit 27 before || bit 0 flags)
  linux_27 = bit-flags_to_linux 27 before flags ∙ ground arith

  linux_28 : bit 28 (flags_to_linux before flags) ≡ (bit 28 before || bit 2 flags)
  linux_28 = bit-flags_to_linux 28 before flags ∙ ground arith

  linux_30 : bit 30 (flags_to_linux before flags) ≡ (bit 30 before || bit 4 flags)
  linux_30 = bit-flags_to_linux 30 before flags ∙ ground arith

  linux_31 : bit 31 (flags_to_linux before flags) ≡ (bit 31 before || bit 1 flags)
  linux_31 = bit-flags_to_linux 31 before flags ∙ ground arith

  linux_0 : bit 0 (flags_to_linux before flags) ≡ (bit 0 before || bit 17 flags)
  linux_0 = bit-flags_to_linux 0 before flags ∙ ground arith

  linux_1 : bit 1 (flags_to_linux before flags) ≡ (bit 1 before || bit 16 flags)
  linux_1 = bit-flags_to_linux 1 before flags ∙ ground arith

  gathered :
      (k : ℕ)
      → bit k (flags_to_abi (flags_to_linux before flags))
        ≡ (bit k (flags_to_abi before) || (bit k flags && bit k known_flags))
  gathered k =
      bit-flags_to_abi k (flags_to_linux before flags)
      ∙ rw
          (
            linux_27,
            linux_28,
            linux_30,
            linux_31,
            linux_0,
            linux_1,
            same_bit (bit 27 before) flags k 0,
            same_bit (bit 28 before) flags k 2,
            same_bit (bit 30 before) flags k 4,
            same_bit (bit 31 before) flags k 1,
            same_bit (bit 0 before) flags k 17,
            same_bit (bit 1 before) flags k 16,
            bit-flags_to_abi k before,
            bit-known_flags k,
          )
          (gather (bit k flags) _ _ _ _ _ _ _ _ _ _ _ _)

  -- Set and read back, the flags of a sigaction(2) are those that SVR4 knows of the program's flags,
  -- and with them every flag that the kernel's action held before: `abi_sigaction` adds to a word
  -- that it does not clear.
  pub flags_to_abi-flags_to_linux :
      flags_to_abi (flags_to_linux before flags)
      ≡ bit_or (flags_to_abi before) (bit_and flags known_flags)
  flags_to_abi-flags_to_linux = bit-ext _ _ λ k.
      gathered k
      ∙ sym (
          bit-bit_or k (flags_to_abi before) (bit_and flags known_flags)
          ∙ ap (λ b. bit k (flags_to_abi before) || b) (bit-bit_and k flags known_flags))
