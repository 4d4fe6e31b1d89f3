-- ===== src/Svr4/Ipc/Sem.antt =====
-- abiemu/abi/svr4/ipc.c: semaphores.
use linux_abiemu.Prelude.{
  ℕ, ◌+◌, ◌*◌, ◌%◌, ◌^◌, ◌||◌, Option, none, some, List, [], ◌∷◌, ℤ, neg, get_or, ◌==◌,
  if◌then◌else◌,
}
use linux_abiemu.Kernel.Domain.{einval, efault}
use linux_abiemu.Util.Regs.{Regs, get_syscall_parameter}
use linux_abiemu.Svr4.Ipc.Convert.{isem_to_lsem, lsem_to_isem, isem_to_lsem_l, lsem_to_isem_l}
use linux_abiemu.Svr4.Ipc.Host.{IpcHost, through_set}

-- The operations of Linux by those of SVR4. It is read before the operation is checked; what lies
-- beyond is not used.
abbrev pub svr4sem2linux : List ℕ
svr4sem2linux = 0 ∷ 1 ∷ 2 ∷ 14 ∷ 11 ∷ 12 ∷ 13 ∷ 15 ∷ 16 ∷ 17 ∷ 0 ∷ 1 ∷ 2 ∷ []

module _ (host : IpcHost) where
  open host use {
    World, read, get_user, ibcs_sem, abi_sem, sys_semctl_ds, sys_semctl, sys_semget, sys_semop,
  }

  abbrev pub ibcs2_at : ℕ → ℕ → ℕ → World → Option ℕ → ℤ × World
  ibcs2_at first second third w none = (neg efault, w)
  ibcs2_at first second third w (some isp) =
      through_set ibcs_sem isem_to_lsem lsem_to_isem (sys_semctl_ds first second third) isp w

  -- `__ibcs2_semctl`
  unfoldable pub ibcs2_semctl : ℕ → ℕ → ℕ → ℕ → World → ℤ × World
  ibcs2_semctl first second third fourth w = ibcs2_at first second third w (get_user fourth w)

  abbrev pub abi4_at : ℕ → ℕ → ℕ → World → Option ℕ → ℤ × World
  abi4_at first second third w none = (neg efault, w)
  abi4_at first second third w (some isp) =
      through_set abi_sem isem_to_lsem_l lsem_to_isem_l (sys_semctl_ds first second third) isp w

  -- `__abi4_semctl`
  unfoldable pub abi4_semctl : ℕ → ℕ → ℕ → ℕ → World → ℤ × World
  abi4_semctl first second third fourth w = abi4_at first second third w (get_user fourth w)

  unfoldable pub svr4_semctl : ℕ → ℕ → ℕ → ℕ → World → ℤ × World
  svr4_semctl arg1 arg2 arg3 arg4 w =
      let cmd = get_or svr4sem2linux arg3 0 in
      if arg3 == 9 || arg3 == 6
      then ibcs2_semctl arg1 0 cmd arg4 w
      else if arg3 == 0
          || arg3 == 10
          || arg3 == 8
          || arg3 == 5
          || arg3 == 4
          || arg3 == 3
          || arg3 == 7
      then sys_semctl arg1 arg2 cmd arg4 w
      else if arg3 == 1 || arg3 == 2
      then ibcs2_semctl arg1 arg2 cmd arg4 w
      else if arg3 == 12 || arg3 == 11
      then abi4_semctl arg1 arg2 cmd arg4 w
      else (neg einval, w)

  abbrev pub sem_param : Regs → World → ℕ → ℕ
  sem_param regp w n = get_syscall_parameter (λ a. read a w) regp n

  -- The fourth argument is the address of the fifth word above the stack pointer.
  unfoldable pub svr4_semsys : Regs → World → ℤ × World
  svr4_semsys regp w =
      let which = sem_param regp w 0 in
      let arg1 = sem_param regp w 1 in
      let arg2 = sem_param regp w 2 in
      let arg3 = sem_param regp w 3 in
      if which == 0
      then svr4_semctl arg1 arg2 arg3 ((regp.esp + 4 * 5) % 2 ^ 32) w
      else if which == 1
      then sys_semget arg1 arg2 arg3 w
      else if which == 2
      then sys_semop arg1 arg2 arg3 w
      else (neg einval, w)
