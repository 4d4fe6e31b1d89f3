-- ===== src/Svr4/Process.antt =====
-- abiemu/abi/svr4/misc.c: processes, their identities, breaks and groups, and signals between them.
pub mod Break
pub mod Pairs
use linux_abiemu.Prelude.{
  ℕ, zero, suc, ◌+◌, ◌-◌, ◌*◌, ◌/◌, ◌%◌, ◌^◌, bit_and, Bool, true, false, not, ◌||◌, Option, none,
  some, ℤ, pos, neg, word, int32, is_neg, is_zero, ◌==◌, eqb_ℤ, ltb, if◌then◌else◌, get_or,
}
use linux_abiemu.Kernel.Domain.{ExecDomain, eperm, enomem, einval, efault}
use linux_abiemu.Util.Regs.{Regs, clear_error}

-- Pages have 4096 bytes (PAGE_ALIGN), in 32 bits.
abbrev pub page_align : ℕ → ℕ
page_align x = (x + 4095) % 2 ^ 32 / 4096 * 4096

-- The name that exec gives, in the kernel or an error.
pub data Program : Type 0 where
  err_ptr : ℤ → Program
  copied : ℕ → Program

-- The kernel's calls and what it knows of the current process. `get_user` is a word, or none.
pub record ProcessHost : Type 1 where
  pub World : Type 0
  pub get_user : ℕ → World → Option ℕ
  pub sys_time : World → ℤ × World
  pub mm_brk : World → ℕ
  pub sys_brk : ℕ → World → ℕ × World
  pub do_fork : ℕ → Regs → World → ℤ × World
  pub do_pipe : World → ℤ × ℤ × ℤ × World
  pub parent_pid : World → ℤ
  pub pid : World → ℤ
  pub uid : World → ℤ
  pub euid : World → ℤ
  pub gid : World → ℤ
  pub egid : World → ℤ
  pub process_group : World → ℤ
  pub sys_setpgid : ℤ → ℤ → World → ℤ × World
  pub sys_getpgid : ℤ → World → ℤ × World
  pub sys_getsid : ℤ → World → ℤ × World
  pub sys_setsid : World → ℤ × World
  pub sys_kill : ℤ → ℤ → World → ℤ × World
  pub getname : ℕ → World → Program × World
  pub putname : ℕ → World → World
  pub do_execve : ℕ → ℕ → ℕ → Regs → World → ℤ × Regs × World
  pub beyond : ℕ → ℤ

module _ (host : ProcessHost) where
  open host use {
    World, get_user, sys_time, mm_brk, sys_brk, do_fork, do_pipe, parent_pid, pid, uid, euid, gid,
    egid, process_group, sys_setpgid, sys_getpgid, sys_getsid, sys_setsid, sys_kill, getname,
    putname, do_execve, beyond,
  }

  abbrev pub abi_time : World → ℤ × World
  abi_time w = sys_time w

  -- The break is asked for when brk is 0.
  unfoldable pub abi_brk : ℕ → World → ℤ × World
  abi_brk brk w =
      if brk == 0
      then (int32 (mm_brk w), w)
      else if page_align brk == page_align (mm_brk w)
      then (pos 0, w)
      else (let (sysbrk, w') = sys_brk brk w in
          if page_align sysbrk == page_align brk then (pos 0, w') else (neg enomem, w'))

  unfoldable pub abi_fork : Regs → World → ℤ × Regs × World
  abi_fork regs w =
      let regs' = record regs { eflags = bit_and regs.eflags 0xffff_fffe } in
      let (retval, w') = do_fork regs'.esp regs' w in (retval, record regs' { edx = 0 }, w')

  unfoldable pub abi_pipe : Regs → World → ℤ × Regs × World
  abi_pipe regs w =
      let (retval, first, second, w') = do_pipe w in
      if is_zero retval then (first, record regs { edx = word second }, w') else (retval, regs, w')

  abbrev pub abi_getpid : Regs → World → ℤ × Regs × World
  abi_getpid regs w = (pid w, record regs { edx = word (parent_pid w) }, w)

  abbrev pub abi_getuid : Regs → World → ℤ × Regs × World
  abi_getuid regs w = (uid w, record regs { edx = word (euid w) }, w)

  abbrev pub abi_getgid : Regs → World → ℤ × Regs × World
  abi_getgid regs w = (gid w, record regs { edx = word (egid w) }, w)

  -- The signal is its low 8 bits; `beyond` is what lies past the table.
  unfoldable pub abi_kill : ExecDomain → ℤ → ℕ → World → ℤ × World
  abi_kill domain pid sig w =
      let insig = bit_and sig 0xff in sys_kill pid (get_or domain.signal_map insig (beyond insig)) w

  abbrev pub exec_named : ℕ → ℕ → Regs → Program × World → ℤ × Regs × World
  exec_named argv envp regs (err_ptr e, w) = (e, regs, w)
  exec_named argv envp regs (copied filename, w) =
      let (error, regs', w') = do_execve filename argv envp regs w in
      (error, regs', putname filename w')

  abbrev exec_words : Option ℕ → Option ℕ → Option ℕ → Regs → World → ℤ × Regs × World
  exec_words (some pgm) (some argv) (some envp) regs w = exec_named argv envp regs (getname pgm w)
  exec_words _ _ _ regs w = (neg efault, regs, w)

  -- The n-th word above the stack pointer.
  abbrev pub stack_word : Regs → ℕ → World → Option ℕ
  stack_word regs n w = get_user ((regs.esp + 4 * n) % 2 ^ 32) w

  unfoldable pub abi_exec : Regs → World → ℤ × Regs × World
  abi_exec regs w =
      exec_words (stack_word regs 1 w) (stack_word regs 2 w) (stack_word regs 3 w) regs w

  -- PERID_SVR3 2, PERID_SCOSVR3 3, PERID_WYSEV386 4 and PERID_XENIX 7.
  abbrev pub remaps : ℕ → Bool
  remaps perid = perid == 2 || perid == 3 || perid == 4 || perid == 7

  -- The string that maps operations; the characters are signed.
  abbrev pub remapped : ℤ → Option ℤ
  remapped op =
      if eqb_ℤ op (pos 0)
      then some (pos 0)
      else if eqb_ℤ op (pos 1)
      then some (pos 1)
      else if eqb_ℤ op (pos 2)
      then some (pos 5)
      else if eqb_ℤ op (pos 3)
      then some (pos 3)
      else if eqb_ℤ op (pos 4) || eqb_ℤ op (pos 5)
      then some (neg 1)
      else none

  -- A parameter that cannot be read is EPERM.
  abbrev with_word : (ℤ → World → ℤ × World) → World → Option ℕ → ℤ × World
  with_word f w none = (neg eperm, w)
  with_word f w (some a) = f (int32 a) w

  -- The `switch`, with the words that the operations read.
  unfoldable pub procids_switch : ℤ → Option ℕ → Option ℕ → World → ℤ × World
  procids_switch op first second w =
      if eqb_ℤ op (pos 0)
      then (process_group w, w)
      else if eqb_ℤ op (pos 1)
      then (let (error, w') = sys_setpgid (pos 0) (pos 0) w in (process_group w', w'))
      else if eqb_ℤ op (pos 2)
      then with_word sys_getsid w first
      else if eqb_ℤ op (pos 3)
      then sys_setsid w
      else if eqb_ℤ op (pos 4)
      then with_word sys_getpgid w first
      else if eqb_ℤ op (pos 5)
      then with_word (λ p v. with_word (λ g u. sys_setpgid p g u) v second) w first
      else (neg einval, w)

  abbrev pub procids_op : ℕ → Regs → World → Option ℤ → ℤ × World
  procids_op offset regs w none = (neg einval, w)
  procids_op offset regs w (some op) =
      procids_switch op (stack_word regs (2 + offset) w) (stack_word regs (3 + offset) w) w

  abbrev procids_word : ℕ → Regs → World → Option ℕ → ℤ × World
  procids_word perid regs w none = (neg eperm, w)
  procids_word perid regs w (some op) =
      if remaps perid
      then procids_op 1 regs w (remapped (int32 op))
      else procids_op 0 regs w (some (int32 op))

  unfoldable pub abi_procids : ℕ → Regs → World → ℤ × World
  abi_procids perid regs w = procids_word perid regs w (stack_word regs 1 w)
