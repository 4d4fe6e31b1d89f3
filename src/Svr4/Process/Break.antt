-- ===== src/Svr4/Process/Break.antt =====
-- brk(2) of abiemu/abi/svr4/misc.c, against what the kernel's brk promises.
use linux_abiemu.Prelude.{
  ℕ, false, ◌≡◌, ◌≢◌, ◌⊎◌, inl, inr, refl, ◌∙◌, sym, ap, pos, neg, ◌==◌, ==_iff, ==_of_ne, ==_ne,
  Bool-cases,
}
use linux_abiemu.Kernel.Domain.{enomem}
use linux_abiemu.Svr4.Process.{ProcessHost, abi_brk, page_align}

-- sys_brk returns the break that the process has afterwards, whether it was moved or not.
pub record Brk (host : ProcessHost) : Type 0 where
  pub sys_brk_current :
      (brk : ℕ) (w : host.World) → (host.sys_brk brk w).0 ≡ host.mm_brk (host.sys_brk brk w).1

module _ (host : ProcessHost) (law : Brk host) (brk : ℕ) (w : host.World) where
  open host use {World, mm_brk, sys_brk}

  -- The break stands where the program wanted it, in pages.
  abbrev pub IsMoved : World → Type 0
  IsMoved w' = page_align (mm_brk w') ≡ page_align brk

  asked :
      (brk == 0) ≡ false
      → (page_align brk == page_align (mm_brk w)) ≡ false
      → ((abi_brk host brk w).0 ≡ pos 0) × IsMoved (abi_brk host brk w).1
        ⊎ ((abi_brk host brk w).0 ≡ neg enomem)
          × (page_align (mm_brk (abi_brk host brk w).1) ≢ page_align brk)
  unfolding abi_brk
  asked e f = elim (Bool-cases (page_align (sys_brk brk w).0 == page_align brk)) [
    | inl g ↦
        rw (e, f, g)
          (inl (refl, ap page_align (sym (law.sys_brk_current brk w)) ∙ (==_iff _ _).0 g))
    | inr g ↦
        rw (e, f, g) (inr (refl, λ h. ==_ne _ _ g (ap page_align (law.sys_brk_current brk w) ∙ h)))
  ]

  -- brk(2) for an address other than 0 returns 0 exactly when the break then stands in the page
  -- that the program wanted, and ENOMEM otherwise.
  pub abi_brk-IsMoved :
      brk ≢ 0
      → ((abi_brk host brk w).0 ≡ pos 0) × IsMoved (abi_brk host brk w).1
        ⊎ ((abi_brk host brk w).0 ≡ neg enomem)
          × (page_align (mm_brk (abi_brk host brk w).1) ≢ page_align brk)
  unfolding abi_brk
  abi_brk-IsMoved h = elim (Bool-cases (page_align brk == page_align (mm_brk w))) [
    | inr f ↦ asked (==_of_ne _ _ h) f
    | inl f ↦ rw (==_of_ne _ _ h, f) (inl (refl, sym ((==_iff _ _).0 f)))
  ]
