-- ===== src/Svr4/Wait.antt =====
-- abiemu/abi/svr4/svr4.c: waitid(2) and the small calls of that file but pathconf.
pub mod Status
pub mod Waited
use linux_abiemu.Prelude.{
  ℕ, ◌+◌, ◌/◌, ◌^◌, bit_and, bit_or, Bool, ◌||◌, Option, none, some, ℤ, pos, neg, word, int32,
  is_neg, is_zero, ◌==◌, leb, if◌then◌else◌, eqb_ℤ, get_or,
}
use linux_abiemu.Kernel.Domain.{ExecDomain, einval}
use linux_abiemu.Util.Regs.{Regs, get_syscall_parameter}
use linux_abiemu.Entry.{negate}

-- SVR4_CLD_EXITED to SVR4_CLD_CONTINUED.
abbrev pub cld_exited : ℕ
cld_exited = 1

abbrev pub cld_killed : ℕ
cld_killed = 2

abbrev pub cld_dumped : ℕ
cld_dumped = 3

abbrev pub cld_stopped : ℕ
cld_stopped = 5

abbrev pub cld_continued : ℕ
cld_continued = 6

-- SIGCHLD, SIGSTOP and SIGTSTP of Linux.
abbrev pub sigchld : ℕ
sigchld = 17

abbrev pub sigstop : ℕ
sigstop = 19

abbrev pub sigtstp : ℕ
sigtstp = 20

-- The kernel's calls. sys_wait4 gets the process, the options and nowhere to put the resources; the
-- status is what stands in its variable afterwards. `beyond` is what lies past a signal table.
pub record WaitHost : Type 1 where
  pub World : Type 0
  pub read : ℕ → World → ℕ
  pub verify_area : ℕ → World → ℤ
  pub put_user : ℕ → ℤ → World → World
  pub put_word : ℕ → ℕ → World → World
  pub sys_wait4 : ℤ → ℕ → World → ℤ × ℕ × World
  pub sys_access : ℕ → ℕ → World → ℤ × World
  pub sys_setreuid16 : ℤ → ℤ → World → ℤ × World
  pub sys_setregid16 : ℤ → ℤ → World → ℤ × World
  pub beyond : ℕ → ℤ

-- P_PID, P_PGID and P_ALL.
abbrev pub wait_pid : ℤ → ℤ → Option ℤ
wait_pid idtype id =
    if eqb_ℤ idtype (pos 0)
    then some id
    else if eqb_ℤ idtype (pos 1)
    then some (int32 (word (negate id)))
    else if eqb_ℤ idtype (pos 7)
    then some (neg 1)
    else none

-- WNOHANG is 1 and WUNTRACED is 2.
abbrev pub wait_options : ℕ → ℕ
wait_options options =
    let kopt = if bit_and options 0x40 == 0 then 0 else bit_or 0 1 in
    if bit_and options 4 == 0 then kopt else bit_or kopt 2

-- `status >> 8` of an int.
abbrev pub exit_code : ℕ → ℕ
exit_code status = status / 2 ^ 8 + (if leb (2 ^ 31) status then 0xff00_0000 else 0)

module _ (host : WaitHost) (domain : ExecDomain) where
  open host use {
    World, read, verify_area, put_user, put_word, sys_wait4, sys_access, sys_setreuid16,
    sys_setregid16, beyond,
  }

  abbrev pub inverse_signal : ℕ → ℤ
  inverse_signal st = get_or domain.signal_invmap st (beyond st)

  -- The code and the status that the program gets for a status of the kernel.
  unfoldable pub child_status : ℕ → ℕ × ℤ
  child_status status =
      if bit_and status 0xff == 0
      then (cld_exited, pos (exit_code status))
      else (let st = bit_and status 0xff00 / 2 ^ 8 in
          if bit_and status 0xff == 0x7f
          then (
            if st == sigstop || st == sigtstp then cld_stopped else cld_continued,
            inverse_signal st,
          )
          else (if bit_and status 0x80 == 0 then cld_killed else cld_dumped, inverse_signal st))

  -- si_signo, _pid, si_code and _status stand at 0, 12, 4 and 20.
  unfoldable pub report_child : ℕ → ℤ → ℕ → World → World
  report_child infop result status w =
      let w = put_user infop (get_or domain.signal_map sigchld (beyond sigchld)) w in
      let w = put_user (infop + 12) result w in
      let (op, st) = child_status status in
      put_user (infop + 20) st (put_user (infop + 4) (pos op) w)

  -- `if (infop)`: a NULL pointer is none.
  abbrev pub unwritable_info : Option ℕ → World → ℤ
  unwritable_info none w = pos 0
  unwritable_info (some infop) w = verify_area infop w

  abbrev pub tell : Option ℕ → ℤ → ℕ → World → World
  tell none result status w = w
  tell (some infop) result status w = report_child infop result status w

  unfoldable pub wait_for : ℤ → Option ℕ → ℕ → World → ℤ × World
  wait_for pid infop options w =
      let refused = unwritable_info infop w in
      if is_zero refused
      then (let (result, status, w') = sys_wait4 pid (wait_options options) w in
          if is_neg result then (result, w') else (pos 0, tell infop result status w'))
      else (refused, w)

  abbrev pub wait_known : Option ℤ → Option ℕ → ℕ → World → ℤ × World
  wait_known none infop options w = (neg einval, w)
  wait_known (some pid) infop options w = wait_for pid infop options w

  unfoldable pub svr4_waitid : ℤ → ℤ → Option ℕ → ℕ → World → ℤ × World
  svr4_waitid idtype id infop options w = wait_known (wait_pid idtype id) infop options w

  -- `mode & 007`
  abbrev pub svr4_access : ℕ → ℕ → World → ℤ × World
  svr4_access path mode w = sys_access path (bit_and mode 7) w

  abbrev pub svr4_seteuid : ℤ → World → ℤ × World
  svr4_seteuid uid w = sys_setreuid16 (neg 1) uid w

  abbrev pub svr4_setegid : ℤ → World → ℤ × World
  svr4_setegid gid w = sys_setregid16 (neg 1) gid w

  -- Function 2 fills a set, by plain stores to the user's address; function 1 is not there.
  unfoldable pub svr4_sigpending : ℤ → ℕ → World → ℤ × World
  svr4_sigpending which_routine set w =
      if eqb_ℤ which_routine (pos 1)
      then (neg einval, w)
      else if eqb_ℤ which_routine (pos 2)
      then (
        pos 0,
        put_word (set + 12) 0
            (put_word (set + 8) 0 (put_word (set + 4) 0 (put_word set 0xffff_ffff w))),
      )
      else (neg einval, w)

  -- getcontext and setcontext only print.
  unfoldable pub svr4_context : Regs → World → ℤ × World
  svr4_context regs w =
      let context_fn = get_syscall_parameter (λ a. read a w) regs 0 in
      if context_fn == 0
      then (pos 0, w)
      else if context_fn == 1
      then (pos 0, w)
      else (neg einval, w)
