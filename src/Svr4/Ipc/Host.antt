-- ===== src/Svr4/Ipc/Host.antt =====
-- What abiemu/abi/svr4/ipc.c calls: the kernel's IPC system calls and user memory.
use linux_abiemu.Prelude.{ℕ, Bool, Option, none, some, ℤ, pos, neg, is_neg, if◌then◌else◌}
use linux_abiemu.Kernel.Domain.{efault}
use linux_abiemu.Svr4.Ipc.Structs.{
  IbcsSem, AbiSem, SemidDs, IbcsShm, AbiShm, ShmidDs, IbcsMsq, AbiMsq, MsqidDs,
}

-- copy_from_user and copy_to_user for one type of structure; the Boolean says that a byte was not
-- copied.
pub record UserCopy (World S : Type 0) : Type 0 where
  pub copy_from_user : ℕ → World → Option S
  pub copy_to_user : ℕ → S → World → Bool × World

-- A call on a structure returns the structure as the kernel leaves it. `get_user` reads a pointer, and
-- fails with EFAULT.
pub record IpcHost : Type 1 where
  pub World : Type 0
  pub read : ℕ → World → ℕ
  pub get_user : ℕ → World → Option ℕ
  pub ibcs_sem : UserCopy World IbcsSem
  pub abi_sem : UserCopy World AbiSem
  pub ibcs_shm : UserCopy World IbcsShm
  pub abi_shm : UserCopy World AbiShm
  pub ibcs_msq : UserCopy World IbcsMsq
  pub abi_msq : UserCopy World AbiMsq
  -- `sys_ipc(SEMCTL, first, second, third, &lsemun, 0)` and the same with the program's union
  pub sys_semctl_ds : ℕ → ℕ → ℕ → SemidDs → World → ℤ × SemidDs × World
  pub sys_semctl : ℕ → ℕ → ℕ → ℕ → World → ℤ × World
  pub sys_semget : ℕ → ℕ → ℕ → World → ℤ × World
  pub sys_semop : ℕ → ℕ → ℕ → World → ℤ × World
  -- IPC_SET, IPC_STAT, and any command on the program's own pointer
  pub sys_shmctl_set : ℕ → ShmidDs → World → ℤ × ShmidDs × World
  pub sys_shmctl_stat : ℕ → World → ℤ × ShmidDs × World
  pub sys_shmctl : ℕ → ℕ → ℕ → World → ℤ × World
  pub sys_shmdt : ℕ → World → ℤ × World
  pub sys_shmget : ℕ → ℕ → ℕ → World → ℤ × World
  -- the error and `raddr`, the address
  pub do_shmat : ℕ → ℕ → ℕ → World → ℤ × ℕ × World
  pub sys_msgctl_set : ℕ → MsqidDs → World → ℤ × MsqidDs × World
  pub sys_msgctl_stat : ℕ → World → ℤ × MsqidDs × World
  pub sys_msgctl : ℕ → ℕ → ℕ → World → ℤ × World
  pub sys_msgget : ℕ → ℕ → World → ℤ × World
  pub sys_msgrcv : ℕ → ℕ → ℕ → ℕ → ℕ → World → ℤ × World
  pub sys_msgsnd : ℕ → ℕ → ℕ → ℕ → World → ℤ × World

-- `copy_to_user(…) ? -EFAULT : 0`
abbrev pub copied : {World : Type 0} → Bool × World → ℤ × World
copied (failed, w) = (if failed then neg efault else pos 0, w)

-- A structure of the program (S) goes to the kernel as its own (L) and comes back, unless
-- the kernel fails.
module _ {World S L : Type 0} (mem : UserCopy World S) (to : S → L) (from : L → S) where
  abbrev pub set_read : (L → World → ℤ × L × World) → ℕ → World → Option S → ℤ × World
  set_read call addr w none = (neg efault, w)
  set_read call addr w (some is) =
      let (err, ls, w') = call (to is) w in
      if is_neg err then (err, w') else copied (mem.copy_to_user addr (from ls) w')

  unfoldable pub through_set : (L → World → ℤ × L × World) → ℕ → World → ℤ × World
  through_set call addr w = set_read call addr w (mem.copy_from_user addr w)

  unfoldable pub through_stat : (World → ℤ × L × World) → ℕ → World → ℤ × World
  through_stat call addr w =
      let (err, ls, w') = call w in
      if is_neg err then (err, w') else copied (mem.copy_to_user addr (from ls) w')
