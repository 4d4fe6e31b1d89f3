-- ===== src/Svr4/Ipc/Structs.antt =====
-- abiemu/include/abi/svr4/ipc.h: the IPC structures of iBCS2 and of SVR4, and the kernel's for i386.
-- A member is its bits: those of the kernel's permissions have 16, but for the key's 32. The members
-- that no conversion reads or sets are left out; `pad` lists the padding words.
use linux_abiemu.Prelude.{ℕ, List}

pub record IbcsPerm : Type 0 where
  pub uid : ℕ
  pub gid : ℕ
  pub cuid : ℕ
  pub cgid : ℕ
  pub mode : ℕ
  pub seq : ℕ
  pub key : ℕ

pub record AbiPerm : Type 0 where
  pub uid : ℕ
  pub gid : ℕ
  pub cuid : ℕ
  pub cgid : ℕ
  pub mode : ℕ
  pub seq : ℕ
  pub key : ℕ
  pub pad : List ℕ

-- The kernel's `struct ipc_perm`.
pub record IpcPerm : Type 0 where
  pub uid : ℕ
  pub gid : ℕ
  pub cuid : ℕ
  pub cgid : ℕ
  pub mode : ℕ
  pub seq : ℕ
  pub key : ℕ

pub record IbcsSem : Type 0 where
  pub sem_perm : IbcsPerm
  pub sem_base : ℕ
  pub sem_nsems : ℕ
  pub sem_otime : ℕ
  pub sem_ctime : ℕ

pub record AbiSem : Type 0 where
  pub sem_perm : AbiPerm
  pub sem_base : ℕ
  pub sem_nsems : ℕ
  pub sem_otime : ℕ
  pub sem_ctime : ℕ
  pub pad : List ℕ

pub record SemidDs : Type 0 where
  pub sem_perm : IpcPerm
  pub sem_base : ℕ
  pub sem_nsems : ℕ
  pub sem_otime : ℕ
  pub sem_ctime : ℕ

pub record IbcsShm : Type 0 where
  pub shm_perm : IbcsPerm
  pub shm_segsz : ℕ
  pub shm_lpid : ℕ
  pub shm_cpid : ℕ
  pub shm_nattch : ℕ
  pub shm_atime : ℕ
  pub shm_dtime : ℕ
  pub shm_ctime : ℕ

pub record AbiShm : Type 0 where
  pub shm_perm : AbiPerm
  pub shm_segsz : ℕ
  pub shm_lpid : ℕ
  pub shm_cpid : ℕ
  pub shm_nattch : ℕ
  pub shm_atime : ℕ
  pub shm_dtime : ℕ
  pub shm_ctime : ℕ
  pub pad : List ℕ

pub record ShmidDs : Type 0 where
  pub shm_perm : IpcPerm
  pub shm_segsz : ℕ
  pub shm_lpid : ℕ
  pub shm_cpid : ℕ
  pub shm_nattch : ℕ
  pub shm_atime : ℕ
  pub shm_dtime : ℕ
  pub shm_ctime : ℕ

pub record IbcsMsq : Type 0 where
  pub msg_perm : IbcsPerm
  pub msg_first : ℕ
  pub msg_last : ℕ
  pub msg_cbytes : ℕ
  pub msg_qnum : ℕ
  pub msg_qbytes : ℕ
  pub msg_lspid : ℕ
  pub msg_lrpid : ℕ
  pub msg_stime : ℕ
  pub msg_rtime : ℕ
  pub msg_ctime : ℕ

pub record AbiMsq : Type 0 where
  pub msg_perm : AbiPerm
  pub msg_first : ℕ
  pub msg_last : ℕ
  pub msg_cbytes : ℕ
  pub msg_qnum : ℕ
  pub msg_qbytes : ℕ
  pub msg_lspid : ℕ
  pub msg_lrpid : ℕ
  pub msg_stime : ℕ
  pub msg_rtime : ℕ
  pub msg_ctime : ℕ
  pub pad : List ℕ

pub record MsqidDs : Type 0 where
  pub msg_perm : IpcPerm
  pub msg_first : ℕ
  pub msg_last : ℕ
  pub msg_cbytes : ℕ
  pub msg_qnum : ℕ
  pub msg_qbytes : ℕ
  pub msg_lspid : ℕ
  pub msg_lrpid : ℕ
  pub msg_stime : ℕ
  pub msg_rtime : ℕ
  pub msg_ctime : ℕ
