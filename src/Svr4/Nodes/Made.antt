-- ===== src/Svr4/Nodes/Made.antt =====
-- Which nodes mknod(2) and xmknod(2) make.
use linux_abiemu.Prelude.{
  ℕ, ◌*◌, ◌%◌, ◌^◌, bit_and, true, false, ◌&&◌, ◌||◌, ◌≡◌, ◌⊎◌, ◌∙◌, inl, inr, refl, sym, ap, pos,
  neg, ltb, ◌==◌, ==_iff, arith, Bool-cases,
}
use linux_abiemu.Prelude.Bits.{bit, bit-bit_and, bit-bit_or, bit_and-shl1}
use linux_abiemu.Kernel.Domain.{einval}
use linux_abiemu.Svr4.Types.{svr4_minor, svr4_major, svr4_o_minor, svr4_o_major, svr4_o_mkdev}
use linux_abiemu.Svr4.Nodes.{NodeHost, svr4_mknod, svr4_do_xmknod, svr4_xmknod}

-- No mode is that of a directory for the test: bit 14 is not in its mask.
not_directory : (mode : ℕ) → (bit_and mode 0x1e00 == 0x4000) ≡ false
not_directory mode = elim (Bool-cases (bit_and mode 0x1e00 == 0x4000)) [
  | inr e ↦ e
  | inl e ↦
      let top : (bit 14 mode && false) ≡ true =
        sym (bit-bit_and 14 mode 0x1e00) ∙ ap (bit 14) ((==_iff _ _).0 e) in
      ground arith
]

o_minor_choice : (dev : ℕ) → (svr4_o_minor dev ≡ 0) ⊎ (svr4_o_minor dev ≡ 8)
o_minor_choice dev = elim (Bool-cases (bit 3 dev)) [
  | inl e ↦ inr (bit_and-shl1 dev 3 ∙ rw e refl)
  | inr e ↦ inl (bit_and-shl1 dev 3 ∙ rw e refl)
]

bit_3_short : (n : ℕ) → bit 3 (n % 2 ^ 16) ≡ bit 3 n
bit_3_short n = ground arith

bit_3_major : (major : ℕ) → bit 3 (major * 2 ^ 8 % 2 ^ 32) ≡ false
bit_3_major major = ground arith

-- The mask 18 leaves no bit that the mask 8 keeps.
masks_disjoint : (major dev : ℕ) → svr4_o_minor (svr4_o_mkdev major (svr4_minor dev) % 2 ^ 16) ≡ 0
masks_disjoint major dev =
    let clear : bit 3 (svr4_o_mkdev major (svr4_minor dev) % 2 ^ 16) ≡ false =
      bit_3_short (svr4_o_mkdev major (svr4_minor dev))
      ∙ bit-bit_or 3 (major * 2 ^ 8 % 2 ^ 32) (svr4_minor dev)
      ∙ rw (bit_3_major major, bit-bit_and 3 dev 18) (ground arith) in
    bit_and-shl1 (svr4_o_mkdev major (svr4_minor dev) % 2 ^ 16) 3 ∙ rw clear refl

module _ (host : NodeHost) (filename mode : ℕ) (w : host.World) where
  -- mknod(2) makes no directory, whatever the mode, and the minor number of what it makes is 0 or 8.
  pub svr4_mknod_lem :
      (dev : ℕ)
      → (minor : ℕ) × ((minor ≡ 0) ⊎ (minor ≡ 8))
        × (svr4_mknod host filename mode dev w
            ≡ host.sys_mknod filename
                (mode % 2 ^ 16)
                (host.types.mkdev (svr4_o_major (dev % 2 ^ 16)) minor)
                w)
  unfolding svr4_mknod
  svr4_mknod_lem dev = (
    svr4_o_minor (dev % 2 ^ 16),
    o_minor_choice (dev % 2 ^ 16),
    rw (not_directory (mode % 2 ^ 16)) refl,
  )

  -- xmknod(2) of version 2 makes nodes of minor number 0 only, or fails with EINVAL.
  pub svr4_do_xmknod_lem :
      (dev : ℕ)
      → (svr4_xmknod host (pos 2) filename mode dev w ≡ (neg einval, w))
        ⊎ ((major : ℕ) × (svr4_xmknod host (pos 2) filename mode dev w
              ≡ host.sys_mknod filename (mode % 2 ^ 16) (host.types.mkdev major 0) w))
  unfolding svr4_xmknod svr4_do_xmknod svr4_mknod
  svr4_do_xmknod_lem dev =
      elim (Bool-cases (ltb 0xff (svr4_minor dev) || ltb 0xff (svr4_major dev))) [
        | inl e ↦ inl (rw e refl)
        | inr e ↦ inr (
          svr4_o_major (svr4_o_mkdev (svr4_major dev) (svr4_minor dev) % 2 ^ 16),
          rw (e, not_directory (mode % 2 ^ 16), masks_disjoint (svr4_major dev) dev) refl,
        )
      ]
