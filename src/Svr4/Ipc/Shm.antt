-- ===== src/Svr4/Ipc/Shm.antt =====
-- abiemu/abi/svr4/ipc.c: shared memory.
use linux_abiemu.Prelude.{
  ℕ, Bool, false, ◌||◌, ℤ, pos, negsuc, neg, is_neg, int32, ltb, ◌==◌, suc, if◌then◌else◌,
}
use linux_abiemu.Kernel.Domain.{ExecDomain, iabi_errors, einval}
use linux_abiemu.Util.Regs.{Regs, set_error, clear_error, set_result, get_syscall_parameter}
use linux_abiemu.Entry.{negate}
use linux_abiemu.Svr4.Ipc.Convert.{ishm_to_lshm, lshm_to_ishm, ishm_to_lshm_l, lshm_to_ishm_l}
use linux_abiemu.Svr4.Ipc.Host.{IpcHost, through_set, through_stat}

-- `err < 0 && err > -255`
abbrev pub is_shm_error : ℤ → Bool
is_shm_error (pos n) = false
is_shm_error (negsuc n) = ltb (suc n) 255

-- From `out:` on.
unfoldable pub shm_return : ExecDomain → Regs → ℤ → Regs
shm_return domain regp err =
    if is_shm_error err
    then set_error regp (iabi_errors domain (negate err))
    else set_result (clear_error regp) err

module _ (host : IpcHost) where
  open host use {
    World, read, ibcs_shm, abi_shm, sys_shmctl, sys_shmctl_set, sys_shmctl_stat, sys_shmdt,
    sys_shmget, do_shmat,
  }

  -- SHM_LOCK and SHM_UNLOCK of Linux are 11 and 12, IPC_RMID is 0.
  unfoldable pub svr4_shmctl : ℕ → ℕ → ℕ → World → ℤ × World
  svr4_shmctl arg1 cmd arg3 w =
      if cmd == 3
      then sys_shmctl arg1 11 arg3 w
      else if cmd == 4
      then sys_shmctl arg1 12 arg3 w
      else if cmd == 1
      then through_set ibcs_shm ishm_to_lshm lshm_to_ishm (sys_shmctl_set arg1) arg3 w
      else if cmd == 11
      then through_set abi_shm ishm_to_lshm_l lshm_to_ishm_l (sys_shmctl_set arg1) arg3 w
      else if cmd == 0 || cmd == 10
      then sys_shmctl arg1 0 arg3 w
      else if cmd == 2
      then through_stat ibcs_shm ishm_to_lshm lshm_to_ishm (sys_shmctl_stat arg1) arg3 w
      else if cmd == 12
      then through_stat abi_shm ishm_to_lshm_l lshm_to_ishm_l (sys_shmctl_stat arg1) arg3 w
      else (neg einval, w)

  abbrev pub shm_param : Regs → World → ℕ → ℕ
  shm_param regp w n = get_syscall_parameter (λ a. read a w) regp n

  unfoldable pub svr4_shmdt : Regs → World → ℤ × World
  svr4_shmdt regp w = sys_shmdt (shm_param regp w 1) w

  -- The case SVR4_shmat: the address is the result, as an int.
  unfoldable pub attach : ℕ → ℕ → ℕ → World → ℤ × World
  attach arg1 arg2 arg3 w =
      let (err, raddr, w') = do_shmat arg1 arg2 arg3 w in
      (if is_neg err then err else int32 raddr, w')

  -- What `svr4_shmsys` comes to before it sets the registers.
  unfoldable pub shm_result : Regs → World → ℤ × World
  shm_result regp w =
      let cmd = shm_param regp w 0 in
      let arg1 = shm_param regp w 1 in
      let arg2 = shm_param regp w 2 in
      let arg3 = shm_param regp w 3 in
      if cmd == 2
      then svr4_shmdt regp w
      else if cmd == 0
      then attach arg1 arg2 arg3 w
      else if cmd == 3
      then sys_shmget arg1 arg2 arg3 w
      else if cmd == 1
      then svr4_shmctl arg1 arg2 arg3 w
      else (neg einval, w)

  unfoldable pub svr4_shmsys : ExecDomain → Regs → World → ℤ × Regs × World
  svr4_shmsys domain regp w =
      let (err, w') = shm_result regp w in (pos 0, shm_return domain regp err, w')
