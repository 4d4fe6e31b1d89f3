-- ===== src/Abi/Calls/Subdispatch.antt =====
-- The subdispatchers of abiemu/abi/isc/sysent.c and abiemu/abi/wyse/sysent.c, each over a table of
-- its own that an entry of the personality's table leads to.
use linux_abiemu.Prelude.{
  ℕ, ◌+◌, ◌/◌, ◌%◌, ◌^◌, ◌≤◌, Bool, Option, none, some, List, ◌≡◌, refl, sym, subst, ℤ, pos, neg,
  get_elem?, get_elem?-beyond, true, false, Option-cases, inl, inr, length, bit_and,
}
use linux_abiemu.Kernel.Domain.{ExecDomain, iabi_errors, einval}
use linux_abiemu.Util.Regs.{Regs, set_error}
use linux_abiemu.Entry.{Sysent, Syscalls, lcall7_dispatch, dispatch_call}
use linux_abiemu.Entry.Returns.{Dispatched, lcall7_dispatch-Dispatched}
use linux_abiemu.Abi.Calls.{Call, LocalCall, by_local, isc_sysisc, wyse_class_nfs, wyse_class_tcp}
use linux_abiemu.Abi.Calls.Isc.{sysisc_table}
use linux_abiemu.Abi.Calls.Wyse.{wyse_nfscall_table, wyse_tcpcall_table}
use linux_abiemu.Abi.Personas.{isc, wyse, persona_lcall7}
use linux_abiemu.Abi.Calls.Table.{syscall_table}

module _ (host : Syscalls Call) (domain : ExecDomain) where
  open host use {World, get_user, call_args, call_regs}

  -- The common end: a number past the table is an error.
  abbrev pub subdispatch : ℕ → Regs → World → Option (Sysent Call) → Regs × World
  subdispatch off regs w none = (set_error regs (iabi_errors domain (neg einval)), w)
  subdispatch off regs w (some entry) = lcall7_dispatch host domain regs entry off w

  -- The number is the word above the return address, and the arguments follow it.
  unfoldable pub sysisc : Regs → World → Regs × World
  sysisc regs w =
      subdispatch 2 regs w (get_elem? sysisc_table (get_user ((regs.esp + 4) % 2 ^ 32) w))

  abbrev pub setostype : ℕ → ℤ
  setostype arg1 = pos 0

  -- The number is `regs->eax >> 8`.
  unfoldable pub class_nfs : Regs → World → Regs × World
  class_nfs regs w = subdispatch 1 regs w (get_elem? wyse_nfscall_table (regs.eax / 2 ^ 8))

  unfoldable pub class_tcp : Regs → World → Regs × World
  class_tcp regs w = subdispatch 1 regs w (get_elem? wyse_tcpcall_table (regs.eax / 2 ^ 8))

  abbrev local_call : LocalCall → Regs → World → ℤ × Regs × World
  local_call isc_sysisc regs w = let (regs', w') = sysisc regs w in (pos 0, regs', w')
  local_call wyse_class_nfs regs w = let (regs', w') = class_nfs regs w in (pos 0, regs', w')
  local_call wyse_class_tcp regs w = let (regs', w') = class_tcp regs w in (pos 0, regs', w')
  local_call f regs w = call_regs (by_local f) regs w

  abbrev local_regs : Call → Regs → World → ℤ × Regs × World
  local_regs (by_local f) regs w = local_call f regs w
  local_regs f regs w = call_regs f regs w

  -- The functions of the tables with the subdispatchers in their places.
  abbrev pub linked : Syscalls Call
  linked = record {
    World = World;
    get_user = get_user;
    call_args = call_args;
    call_regs = local_regs;
  }

  module _ (off n : ℕ) (table : List (Sysent Call)) (regs : Regs) (w : World) where
    -- What a subdispatcher does with a number.
    pub data Subdispatched (out : Regs × World) : Type 0 where
      past_end :
          length table ≤ n
          → out ≡ (set_error regs (iabi_errors domain (neg einval)), w)
          → Subdispatched out
      by_entry :
          (entry : Sysent Call)
          → get_elem? table n ≡ some entry
          → Dispatched host domain off regs entry w out
          → Subdispatched out

    pub subdispatch-Subdispatched : Subdispatched (subdispatch off regs w (get_elem? table n))
    subdispatch-Subdispatched = elim (Option-cases (get_elem? table n)) [
      | inl e ↦ past_end (get_elem?-beyond table n e) (rw e refl)
      | inr (entry, e) ↦ by_entry entry e (
          subst (λ o. Dispatched host domain off regs entry w (subdispatch off regs w o)) (sym e)
            (lcall7_dispatch-Dispatched host domain off regs entry w))
    ]

  module _ (regs : Regs) (w : World) where
    abbrev inner_number : ℕ
    inner_number = get_user ((regs.esp + 4) % 2 ^ 32) w

    sysisc-Subdispatched : Subdispatched 2 inner_number sysisc_table regs w (sysisc regs w)
    unfolding sysisc
    sysisc-Subdispatched = subdispatch-Subdispatched 2 inner_number sysisc_table regs w

    isc_call_105 :
        (xti : Bool)
        → bit_and regs.eax 0xff ≡ 105
        → persona_lcall7 linked domain (syscall_table isc xti) regs w ≡ sysisc regs w
    unfolding persona_lcall7 lcall7_dispatch dispatch_call
    isc_call_105 true e = rw e refl
    isc_call_105 false e = rw e refl

    -- Call 105 of ISC is dispatched twice: the word above the return address is looked up in the
    -- table of sysisc, a number past it is refused, and the entry with that number is handled in one
    -- of the ways of `Dispatched`, with the arguments from two words above the stack pointer on.
    pub isc_sysisc-Subdispatched :
        (xti : Bool)
        → bit_and regs.eax 0xff ≡ 105
        → Subdispatched 2
            (get_user ((regs.esp + 4) % 2 ^ 32) w)
            sysisc_table
            regs
            w
            (persona_lcall7 linked domain (syscall_table isc xti) regs w)
    isc_sysisc-Subdispatched xti e = rw (isc_call_105 xti e) sysisc-Subdispatched

    wyse_call_131 :
        (xti : Bool)
        → bit_and regs.eax 0xff ≡ 131
        → persona_lcall7 linked domain (syscall_table wyse xti) regs w ≡ class_tcp regs w
    unfolding persona_lcall7 lcall7_dispatch dispatch_call
    wyse_call_131 xti e = rw e refl

    -- Call 131 of Wyse is dispatched twice: the upper bytes of eax are looked up in the table of
    -- socket calls, a number past it is refused, and the entry with that number is handled in one of
    -- the ways of `Dispatched`, with the arguments from one word above the stack pointer on.
    pub wyse_class_tcp-Subdispatched :
        (xti : Bool)
        → bit_and regs.eax 0xff ≡ 131
        → Subdispatched 1
            (regs.eax / 2 ^ 8)
            wyse_tcpcall_table
            regs
            w
            (persona_lcall7 linked domain (syscall_table wyse xti) regs w)
    unfolding class_tcp
    wyse_class_tcp-Subdispatched xti e =
        rw (wyse_call_131 xti e)
          (subdispatch-Subdispatched 1 (regs.eax / 2 ^ 8) wyse_tcpcall_table regs w)
