-- ===== src/Svr4/Process/Pairs.antt =====
-- The calls of abiemu/abi/svr4/misc.c that return two values, from the personality's handler on.
use linux_abiemu.Prelude.{
  ℕ, Bool, true, false, Option, none, some, List, ◌≡◌, refl, ◌∙◌, ℤ, word, is_zero, bit_and,
  get_elem?,
}
use linux_abiemu.Prelude.Bits.{bit}
use linux_abiemu.Kernel.Domain.{ExecDomain}
use linux_abiemu.Util.Regs.{Regs}
use linux_abiemu.Entry.{
  Sysent, Syscalls, spl, is_error, return_error, lcall7_dispatch, dispatch_call,
}
use linux_abiemu.Entry.Returns.{return_error-Returned}
use linux_abiemu.Abi.Calls.{
  Call, by_svr4, abi_fork, abi_pipe, abi_getpid, abi_getuid, abi_getgid, call,
}
use linux_abiemu.Abi.Personas.{Persona, ibcs, isc, uw7, wyse, solaris, sco, xenix, persona_lcall7}
use linux_abiemu.Abi.Calls.Table.{syscall_table}
use linux_abiemu.Svr4.Process
use linux_abiemu.Svr4.Process.{ProcessHost}

-- The entries of the calls with two values are the same in every table.
record PairEntries (table : List (Sysent Call)) : Type 0 where
  entry_20 : get_elem? table 20 ≡ some (call (by_svr4 abi_getpid) spl "getpid" "")
  entry_24 : get_elem? table 24 ≡ some (call (by_svr4 abi_getuid) spl "getuid" "")
  entry_42 : get_elem? table 42 ≡ some (call (by_svr4 abi_pipe) spl "pipe" "")
  entry_47 : get_elem? table 47 ≡ some (call (by_svr4 abi_getgid) spl "getgid" "")

pair_entries : (p : Persona) (xti : Bool) → PairEntries (syscall_table p xti)
pair_entries ibcs true = record {
  entry_20 = refl;
  entry_24 = refl;
  entry_42 = refl;
  entry_47 = refl;
}
pair_entries ibcs false = record {
  entry_20 = refl;
  entry_24 = refl;
  entry_42 = refl;
  entry_47 = refl;
}
pair_entries isc true = record {
  entry_20 = refl;
  entry_24 = refl;
  entry_42 = refl;
  entry_47 = refl;
}
pair_entries isc false = record {
  entry_20 = refl;
  entry_24 = refl;
  entry_42 = refl;
  entry_47 = refl;
}
pair_entries uw7 true = record {
  entry_20 = refl;
  entry_24 = refl;
  entry_42 = refl;
  entry_47 = refl;
}
pair_entries uw7 false = record {
  entry_20 = refl;
  entry_24 = refl;
  entry_42 = refl;
  entry_47 = refl;
}
pair_entries wyse true = record {
  entry_20 = refl;
  entry_24 = refl;
  entry_42 = refl;
  entry_47 = refl;
}
pair_entries wyse false = record {
  entry_20 = refl;
  entry_24 = refl;
  entry_42 = refl;
  entry_47 = refl;
}
pair_entries solaris true = record {
  entry_20 = refl;
  entry_24 = refl;
  entry_42 = refl;
  entry_47 = refl;
}
pair_entries solaris false = record {
  entry_20 = refl;
  entry_24 = refl;
  entry_42 = refl;
  entry_47 = refl;
}
pair_entries sco true = record {
  entry_20 = refl;
  entry_24 = refl;
  entry_42 = refl;
  entry_47 = refl;
}
pair_entries sco false = record {
  entry_20 = refl;
  entry_24 = refl;
  entry_42 = refl;
  entry_47 = refl;
}
pair_entries xenix true = record {
  entry_20 = refl;
  entry_24 = refl;
  entry_42 = refl;
  entry_47 = refl;
}
pair_entries xenix false = record {
  entry_20 = refl;
  entry_24 = refl;
  entry_42 = refl;
  entry_47 = refl;
}

module _ (host : ProcessHost) (domain : ExecDomain)
    (others : Call → Regs → host.World → ℤ × Regs × host.World)
    (by_words : Call → List ℕ → host.World → ℤ × host.World) where
  open host use {World, pid, parent_pid, uid, euid, gid, egid, do_pipe, do_fork}

  abbrev process_regs : Call → Regs → World → ℤ × Regs × World
  process_regs (by_svr4 abi_fork) regs w = Process.abi_fork host regs w
  process_regs (by_svr4 abi_pipe) regs w = Process.abi_pipe host regs w
  process_regs (by_svr4 abi_getpid) regs w = Process.abi_getpid host regs w
  process_regs (by_svr4 abi_getuid) regs w = Process.abi_getuid host regs w
  process_regs (by_svr4 abi_getgid) regs w = Process.abi_getgid host regs w
  process_regs f regs w = others f regs w

  abbrev word_or_0 : Option ℕ → ℕ
  word_or_0 none = 0
  word_or_0 (some n) = n

  -- The functions of the tables, with those of this component in their places.
  abbrev pub processes : Syscalls Call
  processes = record {
    World = World;
    get_user = λ a w. word_or_0 (host.get_user a w);
    call_args = by_words;
    call_regs = process_regs;
  }

  -- A call number, the two values that the call is to return, and the state it leaves.
  pub data TwoValues (regs : Regs) (w : World) : ℕ → ℤ → ℤ → World → Type 0 where
    getpid : TwoValues regs w 20 (pid w) (parent_pid w) w
    getuid : TwoValues regs w 24 (uid w) (euid w) w
    getgid : TwoValues regs w 47 (gid w) (egid w) w
    pipe :
        is_zero (do_pipe w).0 ≡ true → TwoValues regs w 42 (do_pipe w).1 (do_pipe w).2 (do_pipe w).3

  module _ (p : Persona) (xti : Bool) (regs : Regs) (w : World) where
    spl_call :
        (n : ℕ) (f : Call) (entry : Sysent Call)
        → get_elem? (syscall_table p xti) n ≡ some entry
        → entry.se_syscall ≡ some f
        → entry.se_nargs ≡ spl
        → bit_and regs.eax 0xff ≡ n
        → persona_lcall7 processes domain (syscall_table p xti) regs w ≡ (
          return_error domain (process_regs f regs w).1 (process_regs f regs w).0,
          (process_regs f regs w).2,
        )
    unfolding persona_lcall7 lcall7_dispatch dispatch_call
    spl_call n f entry e g s h = rw (h, e, g, s) refl

    -- The program finds both values in its registers, and no carry.
    pub record Found (a b : ℤ) (w' : World) (out : Regs × World) : Type 0 where
      pub first : out.0.eax ≡ word a
      pub second : out.0.edx ≡ word b
      pub no_carry : bit 0 out.0.eflags ≡ false
      pub state : out.1 ≡ w'

    returned_pair :
        (regs' : Regs) (a b : ℤ) (w' : World)
        → regs'.edx ≡ word b
        → is_error a ≡ false
        → Found a b w' (return_error domain regs' a, w')
    returned_pair regs' a b w' e f =
        let r = return_error-Returned domain regs' a in
        record {
          first = r.result ∙ rw f refl;
          second = r.edx_kept ∙ e;
          no_carry = r.carry ∙ f;
          state = refl;
        }

    pipe_values :
        is_zero (do_pipe w).0 ≡ true
        → Process.abi_pipe host regs w
          ≡ ((do_pipe w).1, record regs { edx = word (do_pipe w).2 }, (do_pipe w).3)
    unfolding Process.abi_pipe
    pipe_values z = rw z refl

    -- getpid, getuid, getgid and pipe in every personality, by its own table: the program finds the
    -- first value in eax and the second in edx, with no carry, when the first is not an error.
    pub persona_lcall7-Found :
        (n : ℕ) (a b : ℤ) (w' : World)
        → TwoValues regs w n a b w'
        → bit_and regs.eax 0xff ≡ n
        → is_error a ≡ false
        → Found a b w' (persona_lcall7 processes domain (syscall_table p xti) regs w)
    persona_lcall7-Found n a b w' getpid h e =
        rw (spl_call 20 (by_svr4 abi_getpid) _ ((pair_entries p xti).entry_20) refl refl h)
          (returned_pair _ a b w' refl e)
    persona_lcall7-Found n a b w' getuid h e =
        rw (spl_call 24 (by_svr4 abi_getuid) _ ((pair_entries p xti).entry_24) refl refl h)
          (returned_pair _ a b w' refl e)
    persona_lcall7-Found n a b w' getgid h e =
        rw (spl_call 47 (by_svr4 abi_getgid) _ ((pair_entries p xti).entry_47) refl refl h)
          (returned_pair _ a b w' refl e)
    persona_lcall7-Found n a b w' (pipe z) h e =
        rw
          (
            spl_call 42 (by_svr4 abi_pipe) _ ((pair_entries p xti).entry_42) refl refl h,
            pipe_values z,
          )
          (returned_pair _ a b w' refl e)
