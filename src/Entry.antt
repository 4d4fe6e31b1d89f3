-- ===== src/Entry.antt =====
-- abiemu/arch/i386/kernel/lcall7.c, abiemu/include/abi/util/sysent.h: a system call by lcall7.
-- Tracing (CONFIG_ABI_TRACE) is left out.
pub mod Counts
pub mod Returns
pub mod Cxenix
use Prim.Native.String.{String}
use linux_abiemu.Prelude.{
  ℕ, zero, suc, ◌+◌, ◌-◌, ◌*◌, ◌%◌, ◌^◌, Bool, true, false, not, ◌&&◌, Option, none, some, List, [],
  ◌∷◌, ◌≡◌, ℤ, pos, negsuc, neg, is_neg, ◌==◌, leb, ltb, if◌then◌else◌,
}
use linux_abiemu.Kernel.Domain.{ExecDomain, iabi_errors, enosys, enoioctlcmd}
use linux_abiemu.Util.Regs.{Regs, set_error, clear_error, set_result}

-- Spl: the registers are passed down. Fast: the call sets the registers up itself.
abbrev pub spl : ℕ
spl = 0x65

abbrev pub fast : ℕ
fast = 0x66

abbrev pub unimpl : ℕ
unimpl = 0x67

-- `struct sysent`, over the functions that a table names; none is NULL.
pub record Sysent (Fn : Type 0) : Type 0 where
  pub se_syscall : Option Fn
  pub se_nargs : ℕ
  pub se_name : String
  pub se_args : String

-- The functions behind a table, and user memory. `get_user` is the value that the kernel's macro
-- leaves in its variable: the word at the address, or 0 where it cannot be read.
pub record Syscalls (Fn : Type 0) : Type 1 where
  pub World : Type 0
  pub get_user : ℕ → World → ℕ
  pub call_args : Fn → List ℕ → World → ℤ × World
  pub call_regs : Fn → Regs → World → ℤ × Regs × World

abbrev pub negate : ℤ → ℤ
negate (pos n) = neg n
negate (negsuc n) = pos (suc n)

-- `error > -ENOIOCTLCMD && error < 0`
abbrev pub is_error : ℤ → Bool
is_error (pos n) = false
is_error (negsuc n) = ltb (suc n) enoioctlcmd

-- The end of `lcall7_dispatch`: carry and a translated error number, or a result.
unfoldable pub return_error : ExecDomain → Regs → ℤ → Regs
return_error domain regs error =
    if is_error error
    then set_error regs (iabi_errors domain (negate error))
    else set_result (clear_error regs) error

module _ {Fn : Type 0} (host : Syscalls Fn) (domain : ExecDomain) where
  open host use {World, get_user, call_args, call_regs}

  -- `for (i = 0; i < n; i++) get_user(args[i], ((unsigned long *)regs->esp) + (i + of));`
  unfoldable pub get_args : ℕ → ℕ → Regs → ℕ → World → List ℕ
  get_args zero i regs off w = []
  get_args (suc n) i regs off w =
      get_user ((regs.esp + 4 * (i + off)) % 2 ^ 32) w ∷ get_args n (suc i) regs off w

  -- The `switch` on nargs. The array has 8 words, of which no case uses the last.
  unfoldable pub dispatch_call : Fn → ℕ → List ℕ → Regs → World → Regs × World
  dispatch_call f nargs args regs w =
      if nargs == fast
      then (let (error, regs', w') = call_regs f regs w in (regs', w'))
      else if nargs == spl
      then (let (error, regs', w') = call_regs f regs w in (return_error domain regs' error, w'))
      else if leb nargs 7
      then (let (error, w') = call_args f args w in (return_error domain regs error, w'))
      else (return_error domain regs (neg enosys), w)

  unfoldable pub lcall7_dispatch : Regs → Sysent Fn → ℕ → World → Regs × World
  unfolding dispatch_call
  lcall7_dispatch regs ap off w = elim ap.se_syscall [
    | none ↦ (return_error domain regs (neg enosys), w)
    | some f ↦
        dispatch_call f ap.se_nargs
          (if leb ap.se_nargs 8 then get_args ap.se_nargs 0 regs off w else []) regs w
  ]

  -- `lcall7_syscall`, the indirect system call: `++regs->esp` adds 1, since esp is a `long`.
  unfoldable pub lcall7_syscall : (Regs → World → Regs × World) → Regs → World → Regs × World
  lcall7_syscall handler regs w =
      let number = get_user ((regs.esp + 4) % 2 ^ 32) w in
      let inner = record regs { eax = number; esp = (regs.esp + 1) % 2 ^ 32 } in
      let (regs', w') = handler inner w in
      (record regs' { esp = (regs'.esp + 2 ^ 32 - 1) % 2 ^ 32 }, w')
