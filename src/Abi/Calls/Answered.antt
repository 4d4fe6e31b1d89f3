-- ===== src/Abi/Calls/Answered.antt =====
-- What comes of a system call number in each personality, by its own table.
use linux_abiemu.Prelude.{
  ℕ, ◌≤◌, Bool, true, false, ◌||◌, ◌&&◌, Option, none, some, ◌≡◌, inl, inr, refl, sym, subst,
  get_elem?, get_elem?-none, get_elem?-some, all_of, leb, arith, Bool-cases, bit_and, length, neg,
}
use linux_abiemu.Kernel.Domain.{ExecDomain, iabi_errors, einval}
use linux_abiemu.Util.Regs.{Regs, set_error}
use linux_abiemu.Entry.{Sysent, Syscalls}
use linux_abiemu.Entry.Counts.{entry_serves}
use linux_abiemu.Entry.Returns.{Dispatched, lcall7_dispatch-Dispatched}
use linux_abiemu.Abi.Calls.{Call, by_kernel, sys_pread64, sys_pwrite64}
use linux_abiemu.Abi.Personas.{
  Persona, ibcs, isc, uw7, wyse, solaris, sco, xenix, persona_lcall7, handle_entry,
}
use linux_abiemu.Abi.Calls.Table.{
  Table, calls_of, sysisc, nfscall, tcpcall, entries, syscall_table, each_table,
}

-- pread and pwrite of Solaris stand in its table with the count -4.
abbrev miscounted_call : Option Call → Bool
miscounted_call none = false
miscounted_call (some (by_kernel sys_pread64)) = true
miscounted_call (some (by_kernel sys_pwrite64)) = true
miscounted_call (some _) = false

abbrev pub is_solaris : Table → Bool
is_solaris (calls_of solaris xti) = true
is_solaris _ = false

abbrev pub miscounted : Table → Sysent Call → Bool
miscounted t entry = is_solaris t && miscounted_call entry.se_syscall

abbrev served : Table → Sysent Call → Bool
served t entry = entry_serves entry || miscounted t entry

all_served : (t : Table) → all_of (served t) (entries t) ≡ true
all_served (calls_of ibcs true) = refl
all_served (calls_of ibcs false) = refl
all_served (calls_of isc true) = refl
all_served (calls_of isc false) = refl
all_served (calls_of uw7 true) = refl
all_served (calls_of uw7 false) = refl
all_served (calls_of wyse true) = refl
all_served (calls_of wyse false) = refl
all_served (calls_of solaris true) = refl
all_served (calls_of solaris false) = refl
all_served (calls_of sco true) = refl
all_served (calls_of sco false) = refl
all_served (calls_of xenix true) = refl
all_served (calls_of xenix false) = refl
all_served sysisc = refl
all_served nfscall = refl
all_served tcpcall = refl

module _ (host : Syscalls Call) (domain : ExecDomain) (p : Persona) (xti : Bool) (regs : Regs)
    (w : host.World) where
  abbrev number : ℕ
  number = bit_and regs.eax 0xff

  -- A number past the table is refused; any other call is dispatched by its entry.
  pub data Answered (out : Regs × host.World) : Type 0 where
    past_end :
        length (syscall_table p xti) ≤ bit_and regs.eax 0xff
        → out ≡ (set_error regs (iabi_errors domain (neg einval)), w)
        → Answered out
    by_entry :
        (entry : Sysent Call)
        → get_elem? (syscall_table p xti) (bit_and regs.eax 0xff) ≡ some entry
        → (entry_serves entry || miscounted (calls_of p xti) entry) ≡ true
        → Dispatched host domain 1 regs entry w out
        → Answered out

  entry-Answered :
      (entry : Sysent Call)
      → get_elem? (syscall_table p xti) number ≡ some entry
      → Dispatched host domain 1 regs entry w
          (persona_lcall7 host domain (syscall_table p xti) regs w)
  unfolding persona_lcall7
  entry-Answered entry e =
      subst
        (λ o.
          Dispatched host domain 1 regs entry w
            (handle_entry host domain (syscall_table p xti) regs w o))
        (sym e) (lcall7_dispatch-Dispatched host domain 1 regs entry w)

  refused :
      length (syscall_table p xti) ≤ number
      → persona_lcall7 host domain (syscall_table p xti) regs w
        ≡ (set_error regs (iabi_errors domain (neg einval)), w)
  unfolding persona_lcall7
  refused h = rw (get_elem?-none (syscall_table p xti) number h) refl

  -- In every personality, with its own table, a call number past the table is refused with the
  -- translation of -EINVAL, and any other is handled by its entry in one of the ways of
  -- `Dispatched`; an entry with a function has a count that the dispatcher carries out, but for
  -- pread and pwrite of Solaris.
  pub persona_call-Answered : Answered (persona_lcall7 host domain (syscall_table p xti) regs w)
  persona_call-Answered =
      elim (Bool-cases (leb (length (syscall_table p xti)) (bit_and regs.eax 0xff))) [
        | inl h ↦ past_end (ground arith) (refused (ground arith))
        | inr h ↦
            let (entry, e) =
              get_elem?-some (syscall_table p xti) (bit_and regs.eax 0xff) (ground arith) in
            by_entry entry e (each_table served all_served (calls_of p xti) number entry e)
              (entry-Answered entry e)
      ]
