-- ===== src/Svr4/Ipc/Roundtrip.antt =====
-- The IPC structures of a program on their way to the kernel and back.
use linux_abiemu.Prelude.{ℕ, ◌%◌, ◌^◌, ◌<◌, ◌≡◌, sym, arith}
use linux_abiemu.Svr4.Ipc.Structs.{AbiPerm, AbiSem, AbiShm, AbiMsq}
use linux_abiemu.Svr4.Ipc.Convert.{
  zeros, ip_to_lp_l, lp_to_ip_l, isem_to_lsem_l, lsem_to_isem_l, ishm_to_lshm_l, lshm_to_ishm_l,
  imsq_to_lmsq_l, lmsq_to_imsq_l,
}

-- Members of 32 bits whose values fit the kernel's 16.
pub record IsNarrow (ip : AbiPerm) : Type 0 where
  pub uid_fits : ip.uid < 2 ^ 16
  pub gid_fits : ip.gid < 2 ^ 16
  pub cuid_fits : ip.cuid < 2 ^ 16
  pub cgid_fits : ip.cgid < 2 ^ 16
  pub mode_fits : ip.mode < 2 ^ 16
  pub seq_fits : ip.seq < 2 ^ 16
  pub pad_zero : ip.pad ≡ zeros 4

fits : (n : ℕ) → n < 2 ^ 16 → n % 2 ^ 16 ≡ n
fits n h = omega arith

perm_round_trip : (ip : AbiPerm) → IsNarrow ip → lp_to_ip_l (ip_to_lp_l ip) ≡ ip
unfolding ip_to_lp_l lp_to_ip_l
perm_round_trip ip h = λ i. record {
  uid = fits ip.uid h.uid_fits i;
  gid = fits ip.gid h.gid_fits i;
  cuid = fits ip.cuid h.cuid_fits i;
  cgid = fits ip.cgid h.cgid_fits i;
  mode = fits ip.mode h.mode_fits i;
  seq = fits ip.seq h.seq_fits i;
  key = ip.key;
  pad = sym h.pad_zero i;
}

abbrev pub FitsSem : AbiSem → Type 0
FitsSem s = IsNarrow s.sem_perm × (s.pad ≡ zeros 7)

abbrev pub FitsShm : AbiShm → Type 0
FitsShm s =
    IsNarrow s.shm_perm
    × (s.shm_lpid < 2 ^ 16)
    × (s.shm_cpid < 2 ^ 16)
    × (s.shm_nattch < 2 ^ 16)
    × (s.pad ≡ zeros 11)

abbrev pub FitsMsq : AbiMsq → Type 0
FitsMsq s =
    IsNarrow s.msg_perm
    × (s.msg_cbytes < 2 ^ 16)
    × (s.msg_qnum < 2 ^ 16)
    × (s.msg_qbytes < 2 ^ 16)
    × (s.msg_lspid < 2 ^ 16)
    × (s.msg_lrpid < 2 ^ 16)
    × (s.pad ≡ zeros 8)

-- A structure of SVR4 (each of the three kinds) that the kernel leaves alone comes back as it was, when its members fit the
-- kernel's 16 bits and its padding is zero.
pub abi_round_trip :
    (sem : AbiSem) (shm : AbiShm) (msq : AbiMsq)
    → FitsSem sem
    → FitsShm shm
    → FitsMsq msq
    → (lsem_to_isem_l (isem_to_lsem_l sem) ≡ sem)
      × (lshm_to_ishm_l (ishm_to_lshm_l shm) ≡ shm)
      × (lmsq_to_imsq_l (imsq_to_lmsq_l msq) ≡ msq)
unfolding isem_to_lsem_l lsem_to_isem_l ishm_to_lshm_l lshm_to_ishm_l imsq_to_lmsq_l lmsq_to_imsq_l
abi_round_trip sem shm msq (p, z) (p', l, c, n, z') (p'', cb, qn, qb, ls, lr, z'') = (
  λ i. record sem { sem_perm = perm_round_trip sem.sem_perm p i; pad = sym z i },
  λ i. record shm {
    shm_perm = perm_round_trip shm.shm_perm p' i;
    shm_lpid = fits shm.shm_lpid l i;
    shm_cpid = fits shm.shm_cpid c i;
    shm_nattch = fits shm.shm_nattch n i;
    pad = sym z' i;
  },
  λ i. record msq {
    msg_perm = perm_round_trip msq.msg_perm p'' i;
    msg_cbytes = fits msq.msg_cbytes cb i;
    msg_qnum = fits msq.msg_qnum qn i;
    msg_qbytes = fits msq.msg_qbytes qb i;
    msg_lspid = fits msq.msg_lspid ls i;
    msg_lrpid = fits msq.msg_lrpid lr i;
    pad = sym z'' i;
  },
)
