-- ===== src/Entry/Cxenix/Served.antt =====
-- Which Xenix calls are carried out.
use linux_abiemu.Prelude.{
  ℕ, Bool, ◌||◌, ◌==◌, Option, none, ◌/◌, ◌^◌, ◌≤◌, ◌<◌, true, some, ◌≡◌, refl, sym, subst, inl,
  inr, neg, leb, get_elem?, get_elem?-none, get_elem?-some, all_of_sound, Bool-cases, arith,
}
use linux_abiemu.Kernel.Domain.{ExecDomain, iabi_errors, einval}
use linux_abiemu.Util.Regs.{Regs, set_error}
use linux_abiemu.Entry.{Sysent, Syscalls}
use linux_abiemu.Entry.Returns.{Dispatched, lcall7_dispatch-Dispatched}
use linux_abiemu.Entry.Cxenix.{CxenixCall, cxenix_table, cxenix, dispatch_entry}

-- A count of words up to 7, or Spl (0x65), where there is a function.
abbrev pub is_served : Option CxenixCall → ℕ → Bool
is_served none n = true
is_served (some f) n = leb n 7 || n == 0x65

abbrev served_entry : Sysent CxenixCall → Bool
served_entry ap = is_served ap.se_syscall ap.se_nargs

module _ (host : Syscalls CxenixCall) (domain : ExecDomain) (regs : Regs) (w : host.World) where
  -- A number past the table is refused; any other call is dispatched by its entry.
  pub data Served (out : Regs × host.World) : Type 0 where
    past_end :
        57 ≤ regs.eax / 2 ^ 8
        → out ≡ (set_error regs (iabi_errors domain (neg einval)), w)
        → Served out
    by_entry :
        (ap : Sysent CxenixCall)
        → regs.eax / 2 ^ 8 < 57
        → get_elem? cxenix_table (regs.eax / 2 ^ 8) ≡ some ap
        → is_served ap.se_syscall ap.se_nargs ≡ true
        → Dispatched host domain 1 regs ap w out
        → Served out

  entry-Dispatched :
      (ap : Sysent CxenixCall)
      → get_elem? cxenix_table (regs.eax / 2 ^ 8) ≡ some ap
      → Dispatched host domain 1 regs ap w (cxenix host domain regs w)
  unfolding cxenix
  entry-Dispatched ap e =
      subst (λ o. Dispatched host domain 1 regs ap w (dispatch_entry host domain regs w o)) (sym e)
        (lcall7_dispatch-Dispatched host domain 1 regs ap w)

  refused :
      57 ≤ regs.eax / 2 ^ 8
      → cxenix host domain regs w ≡ (set_error regs (iabi_errors domain (neg einval)), w)
  unfolding cxenix
  refused h = rw (get_elem?-none cxenix_table (regs.eax / 2 ^ 8) h) refl

  -- Every Xenix call (the number is eax / 256) from 57 on is refused with the translation of
  -- -EINVAL, and any other is handled by its entry in one of the ways of `Dispatched`; an entry
  -- that has a function has a count of words up to 7 or Spl, so that no implemented call is refused
  -- for its count.
  pub cxenix-Served : Served (cxenix host domain regs w)
  cxenix-Served = elim (Bool-cases (leb 57 (regs.eax / 2 ^ 8))) [
    | inl h ↦ past_end (ground arith) (refused (ground arith))
    | inr h ↦
        let (ap, e) = get_elem?-some cxenix_table (regs.eax / 2 ^ 8) (ground arith) in
        by_entry ap (ground arith) e
          (all_of_sound served_entry cxenix_table (regs.eax / 2 ^ 8) ap refl e)
          (entry-Dispatched ap e)
  ]
