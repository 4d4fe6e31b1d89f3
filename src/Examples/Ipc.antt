-- ===== src/Examples/Ipc.antt =====
-- IPC structures that fit the kernel.
use linux_abiemu.Prelude.{◌≡◌, refl, arith}
use linux_abiemu.Svr4.Ipc.Convert.{
  isem_to_lsem_l, lsem_to_isem_l, ishm_to_lshm_l, lshm_to_ishm_l, imsq_to_lmsq_l, lmsq_to_imsq_l,
}
use linux_abiemu.Svr4.Ipc.Roundtrip.{IsNarrow, abi_round_trip}
use linux_abiemu.Examples.IpcHost.{abi_perm, abi_sem, abi_shm, abi_msq}

narrow : IsNarrow abi_perm
narrow = record {
  uid_fits = omega arith;
  gid_fits = omega arith;
  cuid_fits = omega arith;
  cgid_fits = omega arith;
  mode_fits = omega arith;
  seq_fits = omega arith;
  pad_zero = refl;
}

abi_round_trip_example :
    (lsem_to_isem_l (isem_to_lsem_l abi_sem) ≡ abi_sem)
    × (lshm_to_ishm_l (ishm_to_lshm_l abi_shm) ≡ abi_shm)
    × (lmsq_to_imsq_l (imsq_to_lmsq_l abi_msq) ≡ abi_msq)
abi_round_trip_example =
    abi_round_trip abi_sem abi_shm abi_msq (narrow, refl)
      (narrow, omega arith, omega arith, omega arith, refl)
      (narrow, omega arith, omega arith, omega arith, omega arith, omega arith, refl)
