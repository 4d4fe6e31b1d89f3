-- ===== src/Svr4/Signal.antt =====
-- abiemu/abi/svr4/signal.c: signal(2), sigset(2) and their kin, by registers. Tracing is left out.
pub mod Host
pub mod Action
pub mod Acted
pub mod Refused
pub mod Sets
pub mod Roundtrip
use linux_abiemu.Prelude.{
  ℕ, zero, suc, ◌+◌, ◌-◌, bit_and, bit_or, Bool, true, false, not, Option, none, some, ℤ, pos, neg,
  is_neg, is_zero, eqb_ℤ, ◌==◌, leb, if◌then◌else◌,
}
use linux_abiemu.Kernel.Domain.{ExecDomain, iabi_errors, einval}
use linux_abiemu.Util.Map.{Sigsets, sig_entry, sig_mask}
use linux_abiemu.Util.Regs.{Regs, set_error, set_result, get_syscall_parameter}
use linux_abiemu.Entry.{negate}
use Host.{SignalHost, Sigaction, sig_block, sig_unblock, sa_oneshot_nomask}

-- NSIGNALS is 32; `(u_int)sig >= NSIGNALS`. The signal is its 32 bits.
unfoldable pub abi_mapsig : ExecDomain → ℕ → ℤ
abi_mapsig domain sig = if leb 32 sig then neg 1 else sig_entry domain.signal_map sig

module _ (sets : Sigsets) (host : SignalHost sets) (domain : ExecDomain) where
  open sets use {Sigset, sigemptyset, sigaddset}
  open host use {
    World, read, sigdelset_pending, recalc_sigpending, sys_rt_sigaction, sys_rt_sigprocmask,
    sys_sigsuspend,
  }

  unfoldable pub deactivate_signal : ℤ → World → World
  deactivate_signal signum w = recalc_sigpending (sigdelset_pending signum w)

  abbrev pub signal_number : Regs → World → ℕ
  signal_number regp w = get_syscall_parameter (λ a. read a w) regp 0

  abbrev pub second_param : Regs → World → ℕ
  second_param regp w = get_syscall_parameter (λ a. read a w) regp 1

  -- The registers with the error set, or the signal's number for Linux.
  unfoldable pub abi_signo : Regs → World → Regs × Option ℤ
  abi_signo regp w =
      let value = abi_mapsig domain (bit_and (signal_number regp w) 0xff) in
      if eqb_ℤ value (neg 1)
      then (set_error regp (iabi_errors domain (pos einval)), none)
      else (regp, some value)

  -- `if (error < 0) set_error(regp, iABI_errors(-error));`
  abbrev pub set_if_error : Regs → ℤ → Regs
  set_if_error regp error =
      if is_neg error then set_error regp (iabi_errors domain (negate error)) else regp

  unfoldable pub abi_sig_handler : Regs → ℤ → ℕ → Bool → World → Regs × World
  abi_sig_handler regp sig handler oneshot w =
      let act : Sigaction sets = record {
        sa_handler = handler;
        sa_flags = if oneshot then bit_or 0 sa_oneshot_nomask else 0;
        sa_mask = sigemptyset;
      } in
      let (error, oact, w') = sys_rt_sigaction sig (some act) true w in
      (
        if is_neg error
            then set_error regp (iabi_errors domain (negate error))
            else set_result regp (pos oact.sa_handler),
        w',
      )

  -- The end of sigset, sighold and sigrelse: a mask of one signal.
  unfoldable pub mask_one : ℕ → Regs → ℤ → World → Regs × World
  mask_one action regp sig w =
      let (error, old, w') = sys_rt_sigprocmask (pos action) (some (sigaddset sigemptyset sig)) w in
      (set_if_error regp error, w')

  -- What a call does once the signal is known; without one the error stands.
  abbrev pub with_signo : (Regs → ℤ → World → Regs × World) → World → Regs × Option ℤ → Regs × World
  with_signo f w (regp, none) = (regp, w)
  with_signo f w (regp, some sig) = f regp sig w

  abbrev pub signal_body : Regs → ℤ → World → Regs × World
  signal_body regp sig w = abi_sig_handler regp sig (second_param regp w) true w

  unfoldable pub abi_signal : Regs → World → Regs × World
  abi_signal regp w = with_signo signal_body w (abi_signo regp w)

  -- SIG_HOLD is 2.
  abbrev pub sigset_body : Regs → ℤ → World → Regs × World
  sigset_body regp sig w =
      let vec = second_param regp w in
      let (regp', w') = abi_sig_handler regp sig vec false (deactivate_signal sig w) in
      if vec == 2 then mask_one sig_block regp sig w else mask_one sig_unblock regp' sig w'

  unfoldable pub abi_sigset : Regs → World → Regs × World
  abi_sigset regp w = with_signo sigset_body w (abi_signo regp w)

  unfoldable pub abi_sighold : Regs → World → Regs × World
  abi_sighold regp w = with_signo (mask_one sig_block) w (abi_signo regp w)

  unfoldable pub abi_sigrelse : Regs → World → Regs × World
  abi_sigrelse regp w = with_signo (mask_one sig_unblock) w (abi_signo regp w)

  -- SIG_IGN is 1.
  abbrev pub sigignore_body : Regs → ℤ → World → Regs × World
  sigignore_body regp sig w =
      let act : Sigaction sets = record { sa_handler = 1; sa_flags = 0; sa_mask = sigemptyset } in
      let (error, oact, w') = sys_rt_sigaction sig (some act) true w in
      (set_if_error regp error, w')

  unfoldable pub abi_sigignore : Regs → World → Regs × World
  abi_sigignore regp w = with_signo sigignore_body w (abi_signo regp w)

  -- `error = sys_sigsuspend(...) < 0`: the error is the test's value, 1.
  abbrev pub sigpause_body : Regs → ℤ → World → Regs × World
  sigpause_body regs sig w =
      let (rval, w') = sys_sigsuspend (sig_mask sig) w in
      (if is_neg rval then set_error regs (iabi_errors domain (neg 1)) else regs, w')

  unfoldable pub abi_sigpause : Regs → World → Regs × World
  abi_sigpause regs w = with_signo sigpause_body w (abi_signo regs w)

  -- `HIDDEN_PARAM`: the function that the upper bits of the signal number select.
  abbrev pub hidden_param : Regs → World → ℕ
  hidden_param regp w = bit_and (signal_number regp w) 0xffff_ff00

  abbrev pub cleared : Regs → Regs
  cleared regp = record regp { eflags = bit_and regp.eflags 0xffff_fffe; eax = 0 }

  -- The `switch` of `abi_sigfunc`. The error of an unknown function is not translated.
  unfoldable pub sigfunc_switch : ℕ → Regs → World → Regs × World
  sigfunc_switch sig_type regp w =
      if sig_type == 0
      then abi_signal regp w
      else if sig_type == 0x100
      then abi_sigset regp w
      else if sig_type == 0x200
      then abi_sighold regp w
      else if sig_type == 0x400
      then abi_sigrelse regp w
      else if sig_type == 0x800
      then abi_sigignore regp w
      else if sig_type == 0x1000
      then abi_sigpause regp w
      else (set_error regp (pos einval), w)

  unfoldable pub abi_sigfunc : Regs → World → ℤ × Regs × World
  abi_sigfunc regp w =
      let (regp', w') = sigfunc_switch (hidden_param regp w) (cleared regp) w in (pos 0, regp', w')
