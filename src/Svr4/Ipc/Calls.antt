-- ===== src/Svr4/Ipc/Calls.antt =====
-- The IPC calls as the program sees them.
use linux_abiemu.Prelude.{
  ℕ, ◌<◌, ◌≤◌, true, false, some, ◌≡◌, refl, ℤ, pos, neg, negsuc, is_neg, neg_part, arith,
}
use linux_abiemu.Kernel.Domain.{ExecDomain, einval}
use linux_abiemu.Util.Regs.{Regs, clear_error, set_result}
use linux_abiemu.Entry.{return_error}
use linux_abiemu.Svr4.Ipc.Structs.{IbcsMsq}
use linux_abiemu.Svr4.Ipc.Convert.{imsq_to_lmsq, lmsq_to_imsq}
use linux_abiemu.Svr4.Ipc.Host.{IpcHost}
use linux_abiemu.Svr4.Ipc.Sem.{svr4_semctl}
use linux_abiemu.Svr4.Ipc.Shm.{svr4_shmctl, shm_return}
use linux_abiemu.Svr4.Ipc.Msg.{svr4_msgctl}

-- shmsys(2) sets the registers as the lcall7 entry does, but for the results from -514 to -255: the
-- entry makes errors of them, shmsys results.
pub shm_return-return_error :
    (domain : ExecDomain) (regp : Regs) (err : ℤ)
    → (neg_part err < 255 → shm_return domain regp err ≡ return_error domain regp err)
      × (514 < neg_part err → shm_return domain regp err ≡ return_error domain regp err)
      × (255 ≤ neg_part err → shm_return domain regp err ≡ set_result (clear_error regp) err)
unfolding shm_return return_error
shm_return-return_error domain regp (pos n) = (λ h. refl, λ h. refl, λ h. refl)
shm_return-return_error domain regp (negsuc n) =
    (λ h. ground arith, λ h. ground arith, λ h. ground arith)

module _ (host : IpcHost) where
  open host use {World, sys_msgctl_set, ibcs_msq}

  -- An operation above 12, which SVR4 does not have, is refused by semctl, shmctl and msgctl with
  -- -EINVAL and nothing done.
  pub unknown_command :
      (id cmd arg num : ℕ) (w : World)
      → 12 < cmd
      → (svr4_semctl host id num cmd arg w ≡ (neg einval, w))
        × (svr4_shmctl host id cmd arg w ≡ (neg einval, w))
        × (svr4_msgctl host id cmd arg w ≡ (neg einval, w))
  unfolding svr4_semctl svr4_shmctl svr4_msgctl
  unknown_command id cmd arg num w h = (ground arith, ground arith, ground arith)

  -- IPC_SET (SVR4_IPC_SET) on a message queue reports success when the kernel refused the change,
  -- if the structure could be read and written back.
  pub msgctl_set_ignores :
      (id arg : ℕ) (w : World) (im : IbcsMsq)
      → ibcs_msq.copy_from_user arg w ≡ some im
      → is_neg (sys_msgctl_set id (imsq_to_lmsq im) w).0 ≡ true
      → (ibcs_msq.copy_to_user arg
          (lmsq_to_imsq (sys_msgctl_set id (imsq_to_lmsq im) w).1)
          (sys_msgctl_set id (imsq_to_lmsq im) w).2).0
        ≡ false
      → (svr4_msgctl host id 1 arg w).0 ≡ pos 0
  unfolding svr4_msgctl
  msgctl_set_ignores id arg w im r e c = rw (r, c) refl
