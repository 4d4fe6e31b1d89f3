-- ===== src/Svr4/Signal/Action.antt =====
-- abiemu/abi/svr4/signal.c: sigaction(2), sigprocmask(2) and sigsuspend(2) of SVR4.
use linux_abiemu.Prelude.{
  ℕ, bit_and, bit_or, Bool, true, false, not, Option, none, some, List, [], ◌∷◌, ℤ, pos, neg,
  is_zero, eqb_ℤ, ◌==◌, get_elem?, if◌then◌else◌,
}
use linux_abiemu.Kernel.Domain.{ExecDomain, einval, efault}
use linux_abiemu.Util.Map.{Sigsets, map_bitvec, map_sigvec_to_kernel, map_sigvec_from_kernel}
use linux_abiemu.Util.Regs.{Regs}
use linux_abiemu.Svr4.Signal.{abi_mapsig, signal_number}
use linux_abiemu.Svr4.Signal.Host.{SignalHost, Sigaction, AbiSigaction}

-- `if (flags & from) r |= to;`
abbrev pub add_flag : ℕ → ℕ → ℕ → ℕ → ℕ
add_flag flags from to r = if bit_and flags from == 0 then r else bit_or r to

-- ABI_SA_ONSTACK, RESTART, NODEFER, RESETHAND, NOCLDSTOP, NOCLDWAIT to SA_ of Linux, added to
-- what the flags of the kernel's action hold before.
unfoldable pub flags_to_linux : ℕ → ℕ → ℕ
flags_to_linux before flags = add_flag flags 0x10000 2 (
    add_flag flags 0x20000 1 (
      add_flag flags 2 0x8000_0000 (
        add_flag flags 16 0x4000_0000
          (add_flag flags 4 0x1000_0000 (add_flag flags 1 0x0800_0000 before)))))

unfoldable pub flags_to_abi : ℕ → ℕ
flags_to_abi flags = add_flag flags 2 0x10000 (
    add_flag flags 1 0x20000 (
      add_flag flags 0x8000_0000 2 (
        add_flag flags 0x4000_0000 16
          (add_flag flags 0x1000_0000 4 (add_flag flags 0x0800_0000 1 0)))))

-- `howcnv`; its index is not checked.
abbrev pub howcnv : List ℤ
howcnv = pos 2 ∷ pos 0 ∷ pos 1 ∷ pos 2 ∷ []

module _ (sets : Sigsets) (host : SignalHost sets) (domain : ExecDomain) where
  open host use {
    World, sys_rt_sigaction, sys_rt_sigprocmask, sys_sigsuspend, verify_area, copy_from_user,
    copy_to_user, get_user, put_user, beyond_howcnv, stack_flags,
  }

  -- The kernel's action for the program's; the flags are added to those on the stack.
  unfoldable pub to_kernel_action : World → AbiSigaction → Sigaction sets
  to_kernel_action w new_sa = record {
    sa_handler = new_sa.sa_handler;
    sa_flags = flags_to_linux (stack_flags w) new_sa.sa_flags;
    sa_mask = map_sigvec_to_kernel sets new_sa.sa_mask domain.signal_map;
  }

  unfoldable pub to_abi_action : Sigaction sets → AbiSigaction
  to_abi_action osa = record {
    sa_flags = flags_to_abi osa.sa_flags;
    sa_handler = osa.sa_handler;
    sa_mask = map_sigvec_from_kernel sets osa.sa_mask domain.signal_invmap;
  }

  abbrev pub copied : World → Option World → ℤ × World
  copied w none = (neg efault, w)
  copied w (some w') = (pos 0, w')

  -- From the call of the kernel on.
  unfoldable pub change_action : ℤ → Option (Sigaction sets) → Option ℕ → World → ℤ × World
  change_action signo nsa none w =
      (let (error, osa, w') = sys_rt_sigaction signo nsa false w in (error, w'))
  change_action signo nsa (some old) w =
      let (error, osa, w') = sys_rt_sigaction signo nsa true w in
      if not (is_zero error)
      then (error, w')
      else copied w' (copy_to_user old (to_abi_action osa) w')

  abbrev pub read_action : ℤ → Option ℕ → World → Option AbiSigaction → ℤ × World
  read_action signo oldaction w none = (neg efault, w)
  read_action signo oldaction w (some new_sa) =
      change_action signo (some (to_kernel_action w new_sa)) oldaction w

  abbrev pub given_action : ℤ → Option ℕ → Option ℕ → World → ℤ × World
  given_action signo none oldaction w = change_action signo none oldaction w
  given_action signo (some a) oldaction w = read_action signo oldaction w (copy_from_user a w)

  -- `if (oldaction) error = verify_area(…)`
  abbrev pub unwritable : Option ℕ → World → Bool
  unwritable none w = false
  unwritable (some a) w = not (is_zero (verify_area a w))

  unfoldable pub abi_sigaction : ℕ → Option ℕ → Option ℕ → World → ℤ × World
  abi_sigaction abi_signum action oldaction w =
      let signo = abi_mapsig domain abi_signum in
      if eqb_ℤ signo (neg 1)
      then (neg einval, w)
      else if unwritable oldaction w
      then (neg efault, w)
      else given_action signo action oldaction w

  abbrev pub how_entry : ℕ → Option ℤ → ℤ
  how_entry how none = beyond_howcnv how
  how_entry how (some h) = h

  -- `get_user(new_set_abi, abinset)` leaves 0 where it fails, and its error is dropped.
  abbrev pub user_word : Option ℕ → ℕ
  user_word none = 0
  user_word (some v) = v

  abbrev pub new_mask : Option ℕ → World → Option sets.Sigset
  new_mask none w = none
  new_mask (some a) w =
      some (map_sigvec_to_kernel sets (user_word (get_user a w)) domain.signal_map)

  abbrev pub give_old : Option ℕ → sets.Sigset → World → World
  give_old none old_set w = w
  give_old (some a) old_set w =
      put_user a (map_sigvec_from_kernel sets old_set domain.signal_invmap) w

  unfoldable pub abi_sigprocmask : ℕ → Option ℕ → Option ℕ → World → ℤ × World
  abi_sigprocmask how abinset abioset w =
      let (error, old_set, w') =
        sys_rt_sigprocmask (how_entry how (get_elem? howcnv how)) (new_mask abinset w) w in
      (error, if is_zero error then give_old abioset old_set w' else w')

  abbrev pub suspend_on : World → Option ℕ → ℤ × World
  suspend_on w none = (neg efault, w)
  suspend_on w (some abi_mask) = sys_sigsuspend (map_bitvec abi_mask domain.signal_map) w

  unfoldable pub abi_sigsuspend : Regs → World → ℤ × World
  abi_sigsuspend regs w = suspend_on w (get_user (signal_number sets host domain regs w) w)
