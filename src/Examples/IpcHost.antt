-- ===== src/Examples/IpcHost.antt =====
-- A small kernel and structures for the IPC calls.
use linux_abiemu.Prelude.{ℕ, suc, [], ◌∷◌, false, some, pos, neg}
use linux_abiemu.Svr4.Ipc.Structs.{
  IbcsPerm, AbiPerm, IbcsSem, AbiSem, IbcsShm, AbiShm, IbcsMsq, AbiMsq,
}
use linux_abiemu.Svr4.Ipc.Convert.{ishm_to_lshm, imsq_to_lmsq}
use linux_abiemu.Svr4.Ipc.Host.{IpcHost, UserCopy}

-- User memory that holds one structure everywhere and takes every write.
abbrev pub holding : {S : Type 0} → S → UserCopy ℕ S
holding s = record { copy_from_user = λ a w. some s; copy_to_user = λ a x w. (false, suc w) }

abbrev pub ibcs_perm : IbcsPerm
ibcs_perm = record { uid = 1; gid = 2; cuid = 3; cgid = 4; mode = 5; seq = 6; key = 7 }

abbrev pub abi_perm : AbiPerm
abi_perm = record {
  uid = 1;
  gid = 2;
  cuid = 3;
  cgid = 4;
  mode = 5;
  seq = 6;
  key = 7;
  pad = 0 ∷ 0 ∷ 0 ∷ 0 ∷ [];
}

abbrev pub ibcs_sem : IbcsSem
ibcs_sem = record {
  sem_perm = ibcs_perm;
  sem_base = 1;
  sem_nsems = 2;
  sem_otime = 3;
  sem_ctime = 4;
}

abbrev pub abi_sem : AbiSem
abi_sem = record {
  sem_perm = abi_perm;
  sem_base = 1;
  sem_nsems = 2;
  sem_otime = 3;
  sem_ctime = 4;
  pad = 0 ∷ 0 ∷ 0 ∷ 0 ∷ 0 ∷ 0 ∷ 0 ∷ [];
}

abbrev pub ibcs_shm : IbcsShm
ibcs_shm = record {
  shm_perm = ibcs_perm;
  shm_segsz = 1;
  shm_lpid = 2;
  shm_cpid = 3;
  shm_nattch = 4;
  shm_atime = 5;
  shm_dtime = 6;
  shm_ctime = 7;
}

abbrev pub abi_shm : AbiShm
abi_shm = record {
  shm_perm = abi_perm;
  shm_segsz = 1;
  shm_lpid = 2;
  shm_cpid = 3;
  shm_nattch = 4;
  shm_atime = 5;
  shm_dtime = 6;
  shm_ctime = 7;
  pad = 0 ∷ 0 ∷ 0 ∷ 0 ∷ 0 ∷ 0 ∷ 0 ∷ 0 ∷ 0 ∷ 0 ∷ 0 ∷ [];
}

abbrev pub ibcs_msq : IbcsMsq
ibcs_msq = record {
  msg_perm = ibcs_perm;
  msg_first = 1;
  msg_last = 2;
  msg_cbytes = 3;
  msg_qnum = 4;
  msg_qbytes = 5;
  msg_lspid = 6;
  msg_lrpid = 7;
  msg_stime = 8;
  msg_rtime = 9;
  msg_ctime = 10;
}

abbrev pub abi_msq : AbiMsq
abi_msq = record {
  msg_perm = abi_perm;
  msg_first = 1;
  msg_last = 2;
  msg_cbytes = 3;
  msg_qnum = 4;
  msg_qbytes = 5;
  msg_lspid = 6;
  msg_lrpid = 7;
  msg_stime = 8;
  msg_rtime = 9;
  msg_ctime = 10;
  pad = 0 ∷ 0 ∷ 0 ∷ 0 ∷ 0 ∷ 0 ∷ 0 ∷ 0 ∷ [];
}

-- A kernel that refuses every change of a queue with EPERM, and leaves structures alone.
abbrev pub ipc_host : IpcHost
ipc_host = record {
  World = ℕ;
  read = λ a w. a;
  get_user = λ a w. some a;
  ibcs_sem = holding ibcs_sem;
  abi_sem = holding abi_sem;
  ibcs_shm = holding ibcs_shm;
  abi_shm = holding abi_shm;
  ibcs_msq = holding ibcs_msq;
  abi_msq = holding abi_msq;
  sys_semctl_ds = λ a b c s w. (pos 0, s, w);
  sys_semctl = λ a b c d w. (pos 0, w);
  sys_semget = λ a b c w. (pos 0, w);
  sys_semop = λ a b c w. (pos 0, w);
  sys_shmctl_set = λ a s w. (pos 0, s, w);
  sys_shmctl_stat = λ a w. (pos 0, ishm_to_lshm ibcs_shm, w);
  sys_shmctl = λ a b c w. (pos 0, w);
  sys_shmdt = λ a w. (pos 0, w);
  sys_shmget = λ a b c w. (pos 0, w);
  do_shmat = λ a b c w. (pos 0, 4096, w);
  sys_msgctl_set = λ a s w. (neg 1, s, w);
  sys_msgctl_stat = λ a w. (pos 0, imsq_to_lmsq ibcs_msq, w);
  sys_msgctl = λ a b c w. (pos 0, w);
  sys_msgget = λ a b w. (pos 0, w);
  sys_msgrcv = λ a b c d e w. (pos 0, w);
  sys_msgsnd = λ a b c d w. (pos 0, w);
}
