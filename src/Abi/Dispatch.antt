-- ===== src/Abi/Dispatch.antt =====
-- A system call from the personality's handler to the registers.
use linux_abiemu.Prelude.{
  ◌<◌, some, List, ◌≡◌, sym, subst, bit_and, length, get_elem?, get_elem?-some,
}
use linux_abiemu.Kernel.Domain.{ExecDomain}
use linux_abiemu.Util.Regs.{Regs}
use linux_abiemu.Entry.{Sysent, Syscalls}
use linux_abiemu.Entry.Returns.{Dispatched, lcall7_dispatch-Dispatched}
use linux_abiemu.Abi.Personas.{persona_lcall7, handle_entry}

module _ {Fn : Type 0} (host : Syscalls Fn) (domain : ExecDomain) (table : List (Sysent Fn))
    (regs : Regs) (w : host.World) where
  -- A system call number (the low byte of eax) within the table of the personality is handled by
  -- the entry with that number, in one of the ways of `Dispatched`, with the arguments from one
  -- word above the stack pointer on.
  pub persona_lcall7-Dispatched :
      bit_and regs.eax 0xff < length table
      → (ap : Sysent Fn) × (get_elem? table (bit_and regs.eax 0xff) ≡ some ap)
        × Dispatched host domain 1 regs ap w (persona_lcall7 host domain table regs w)
  unfolding persona_lcall7
  persona_lcall7-Dispatched h =
      let (ap, e) = get_elem?-some table (bit_and regs.eax 0xff) h in
      (
        ap,
        e,
        subst (λ o. Dispatched host domain 1 regs ap w (handle_entry host domain table regs w o))
            (sym e) (lcall7_dispatch-Dispatched host domain 1 regs ap w),
      )
