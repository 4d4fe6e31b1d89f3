-- ===== src/Svr4/Ipc/Msg.antt =====
-- abiemu/abi/svr4/ipc.c: message queues.
use linux_abiemu.Prelude.{ℕ, ◌||◌, Option, none, some, ℤ, pos, negsuc, neg, ◌==◌, if◌then◌else◌}
use linux_abiemu.Kernel.Domain.{einval, efault}
use linux_abiemu.Util.Regs.{Regs, get_syscall_parameter}
use linux_abiemu.Svr4.Ipc.Structs.{IbcsMsq, AbiMsq}
use linux_abiemu.Svr4.Ipc.Convert.{imsq_to_lmsq, lmsq_to_imsq, imsq_to_lmsq_l, lmsq_to_imsq_l}
use linux_abiemu.Svr4.Ipc.Host.{IpcHost, copied, through_stat}

module _ (host : IpcHost) where
  open host use {
    World, read, ibcs_msq, abi_msq, sys_msgctl, sys_msgctl_set, sys_msgctl_stat, sys_msgget,
    sys_msgrcv, sys_msgsnd,
  }

  -- IPC_SET of the two kinds: what sys_msgctl returns is overwritten.
  abbrev pub set_queue : ℕ → ℕ → World → Option IbcsMsq → ℤ × World
  set_queue arg1 arg3 w none = (neg efault, w)
  set_queue arg1 arg3 w (some im) =
      let (err, lm, w') = sys_msgctl_set arg1 (imsq_to_lmsq im) w in
      copied (ibcs_msq.copy_to_user arg3 (lmsq_to_imsq lm) w')

  abbrev pub set_queue_l : ℕ → ℕ → World → Option AbiMsq → ℤ × World
  set_queue_l arg1 arg3 w none = (neg efault, w)
  set_queue_l arg1 arg3 w (some im4) =
      let (err, lm, w') = sys_msgctl_set arg1 (imsq_to_lmsq_l im4) w in
      copied (abi_msq.copy_to_user arg3 (lmsq_to_imsq_l lm) w')

  unfoldable pub svr4_msgctl : ℕ → ℕ → ℕ → World → ℤ × World
  svr4_msgctl arg1 cmd arg3 w =
      if cmd == 1
      then set_queue arg1 arg3 w (ibcs_msq.copy_from_user arg3 w)
      else if cmd == 11
      then set_queue_l arg1 arg3 w (abi_msq.copy_from_user arg3 w)
      else if cmd == 0 || cmd == 10
      then sys_msgctl arg1 0 arg3 w
      else if cmd == 2
      then through_stat ibcs_msq imsq_to_lmsq lmsq_to_imsq (sys_msgctl_stat arg1) arg3 w
      else if cmd == 12
      then through_stat abi_msq imsq_to_lmsq_l lmsq_to_imsq_l (sys_msgctl_stat arg1) arg3 w
      else (neg einval, w)

  abbrev pub msg_param : Regs → World → ℕ → ℕ
  msg_param regp w n = get_syscall_parameter (λ a. read a w) regp n

  -- `(err > 0) ? 0 : err`
  abbrev pub at_most_zero : ℤ → ℤ
  at_most_zero (pos n) = pos 0
  at_most_zero (negsuc n) = negsuc n

  unfoldable pub send : ℕ → ℕ → ℕ → ℕ → World → ℤ × World
  send arg1 arg2 arg3 arg4 w =
      let (err, w') = sys_msgsnd arg1 arg2 arg3 arg4 w in (at_most_zero err, w')

  unfoldable pub svr4_msgsys : Regs → World → ℤ × World
  svr4_msgsys regp w =
      let cmd = msg_param regp w 0 in
      let arg1 = msg_param regp w 1 in
      let arg2 = msg_param regp w 2 in
      let arg3 = msg_param regp w 3 in
      let arg4 = msg_param regp w 4 in
      let arg5 = msg_param regp w 5 in
      if cmd == 0
      then sys_msgget arg1 arg2 w
      else if cmd == 1
      then svr4_msgctl arg1 arg2 arg3 w
      else if cmd == 2
      then sys_msgrcv arg1 arg2 arg3 arg4 arg5 w
      else if cmd == 3
      then send arg1 arg2 arg3 arg4 w
      else (neg einval, w)
