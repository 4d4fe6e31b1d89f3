-- ===== src/Svr4/Ipc/Convert.antt =====
-- abiemu/abi/svr4/ipc.c: conversions between the programs' IPC structures and the kernel's. An
-- assignment to a member of 16 bits drops the upper bits.
use linux_abiemu.Prelude.{ℕ, zero, suc, ◌%◌, ◌^◌, List, [], ◌∷◌}
use linux_abiemu.Svr4.Ipc.Structs.{
  IbcsPerm, AbiPerm, IpcPerm, IbcsSem, AbiSem, SemidDs, IbcsShm, AbiShm, ShmidDs, IbcsMsq, AbiMsq,
  MsqidDs,
}

-- n words that memset cleared.
abbrev pub zeros : ℕ → List ℕ
zeros zero = []
zeros (suc n) = 0 ∷ zeros n

unfoldable pub ip_to_lp : IbcsPerm → IpcPerm
ip_to_lp ip = record {
  uid = ip.uid;
  gid = ip.gid;
  cuid = ip.cuid;
  cgid = ip.cgid;
  mode = ip.mode;
  seq = ip.seq;
  key = ip.key;
}

unfoldable pub lp_to_ip : IpcPerm → IbcsPerm
lp_to_ip lp = record {
  uid = lp.uid;
  gid = lp.gid;
  cuid = lp.cuid;
  cgid = lp.cgid;
  mode = lp.mode;
  seq = lp.seq;
  key = lp.key;
}

unfoldable pub ip_to_lp_l : AbiPerm → IpcPerm
ip_to_lp_l ip = record {
  uid = ip.uid % 2 ^ 16;
  gid = ip.gid % 2 ^ 16;
  cuid = ip.cuid % 2 ^ 16;
  cgid = ip.cgid % 2 ^ 16;
  mode = ip.mode % 2 ^ 16;
  seq = ip.seq % 2 ^ 16;
  key = ip.key;
}

-- `pad` is cleared by the callers.
unfoldable pub lp_to_ip_l : IpcPerm → AbiPerm
lp_to_ip_l lp = record {
  uid = lp.uid;
  gid = lp.gid;
  cuid = lp.cuid;
  cgid = lp.cgid;
  mode = lp.mode;
  seq = lp.seq;
  key = lp.key;
  pad = zeros 4;
}

unfoldable pub isem_to_lsem : IbcsSem → SemidDs
isem_to_lsem is = record {
  sem_perm = ip_to_lp is.sem_perm;
  sem_base = is.sem_base;
  sem_nsems = is.sem_nsems;
  sem_otime = is.sem_otime;
  sem_ctime = is.sem_ctime;
}

unfoldable pub lsem_to_isem : SemidDs → IbcsSem
lsem_to_isem ls = record {
  sem_perm = lp_to_ip ls.sem_perm;
  sem_base = ls.sem_base;
  sem_nsems = ls.sem_nsems;
  sem_otime = ls.sem_otime;
  sem_ctime = ls.sem_ctime;
}

unfoldable pub isem_to_lsem_l : AbiSem → SemidDs
isem_to_lsem_l is = record {
  sem_perm = ip_to_lp_l is.sem_perm;
  sem_base = is.sem_base;
  sem_nsems = is.sem_nsems;
  sem_otime = is.sem_otime;
  sem_ctime = is.sem_ctime;
}

unfoldable pub lsem_to_isem_l : SemidDs → AbiSem
lsem_to_isem_l ls = record {
  sem_perm = lp_to_ip_l ls.sem_perm;
  sem_base = ls.sem_base;
  sem_nsems = ls.sem_nsems;
  sem_otime = ls.sem_otime;
  sem_ctime = ls.sem_ctime;
  pad = zeros 7;
}

unfoldable pub ishm_to_lshm : IbcsShm → ShmidDs
ishm_to_lshm is = record {
  shm_perm = ip_to_lp is.shm_perm;
  shm_segsz = is.shm_segsz;
  shm_lpid = is.shm_lpid;
  shm_cpid = is.shm_cpid;
  shm_nattch = is.shm_nattch;
  shm_atime = is.shm_atime;
  shm_dtime = is.shm_dtime;
  shm_ctime = is.shm_ctime;
}

unfoldable pub lshm_to_ishm : ShmidDs → IbcsShm
lshm_to_ishm ls = record {
  shm_perm = lp_to_ip ls.shm_perm;
  shm_segsz = ls.shm_segsz;
  shm_lpid = ls.shm_lpid;
  shm_cpid = ls.shm_cpid;
  shm_nattch = ls.shm_nattch;
  shm_atime = ls.shm_atime;
  shm_dtime = ls.shm_dtime;
  shm_ctime = ls.shm_ctime;
}

unfoldable pub ishm_to_lshm_l : AbiShm → ShmidDs
ishm_to_lshm_l is = record {
  shm_perm = ip_to_lp_l is.shm_perm;
  shm_segsz = is.shm_segsz;
  shm_lpid = is.shm_lpid % 2 ^ 16;
  shm_cpid = is.shm_cpid % 2 ^ 16;
  shm_nattch = is.shm_nattch % 2 ^ 16;
  shm_atime = is.shm_atime;
  shm_dtime = is.shm_dtime;
  shm_ctime = is.shm_ctime;
}

unfoldable pub lshm_to_ishm_l : ShmidDs → AbiShm
lshm_to_ishm_l ls = record {
  shm_perm = lp_to_ip_l ls.shm_perm;
  shm_segsz = ls.shm_segsz;
  shm_lpid = ls.shm_lpid;
  shm_cpid = ls.shm_cpid;
  shm_nattch = ls.shm_nattch;
  shm_atime = ls.shm_atime;
  shm_dtime = ls.shm_dtime;
  shm_ctime = ls.shm_ctime;
  pad = zeros 11;
}

unfoldable pub imsq_to_lmsq : IbcsMsq → MsqidDs
imsq_to_lmsq is = record {
  msg_perm = ip_to_lp is.msg_perm;
  msg_first = is.msg_first;
  msg_last = is.msg_last;
  msg_cbytes = is.msg_cbytes;
  msg_qnum = is.msg_qnum;
  msg_qbytes = is.msg_qbytes;
  msg_lspid = is.msg_lspid;
  msg_lrpid = is.msg_lrpid;
  msg_stime = is.msg_stime;
  msg_rtime = is.msg_rtime;
  msg_ctime = is.msg_ctime;
}

unfoldable pub lmsq_to_imsq : MsqidDs → IbcsMsq
lmsq_to_imsq ls = record {
  msg_perm = lp_to_ip ls.msg_perm;
  msg_first = ls.msg_first;
  msg_last = ls.msg_last;
  msg_cbytes = ls.msg_cbytes;
  msg_qnum = ls.msg_qnum;
  msg_qbytes = ls.msg_qbytes;
  msg_lspid = ls.msg_lspid;
  msg_lrpid = ls.msg_lrpid;
  msg_stime = ls.msg_stime;
  msg_rtime = ls.msg_rtime;
  msg_ctime = ls.msg_ctime;
}

unfoldable pub imsq_to_lmsq_l : AbiMsq → MsqidDs
imsq_to_lmsq_l is = record {
  msg_perm = ip_to_lp_l is.msg_perm;
  msg_first = is.msg_first;
  msg_last = is.msg_last;
  msg_cbytes = is.msg_cbytes % 2 ^ 16;
  msg_qnum = is.msg_qnum % 2 ^ 16;
  msg_qbytes = is.msg_qbytes % 2 ^ 16;
  msg_lspid = is.msg_lspid % 2 ^ 16;
  msg_lrpid = is.msg_lrpid % 2 ^ 16;
  msg_stime = is.msg_stime;
  msg_rtime = is.msg_rtime;
  msg_ctime = is.msg_ctime;
}

unfoldable pub lmsq_to_imsq_l : MsqidDs → AbiMsq
lmsq_to_imsq_l ls = record {
  msg_perm = lp_to_ip_l ls.msg_perm;
  msg_first = ls.msg_first;
  msg_last = ls.msg_last;
  msg_cbytes = ls.msg_cbytes;
  msg_qnum = ls.msg_qnum;
  msg_qbytes = ls.msg_qbytes;
  msg_lspid = ls.msg_lspid;
  msg_lrpid = ls.msg_lrpid;
  msg_stime = ls.msg_stime;
  msg_rtime = ls.msg_rtime;
  msg_ctime = ls.msg_ctime;
  pad = zeros 8;
}
