-- ===== src/Svr4/Ulimit.antt =====
-- abiemu/abi/svr4/ulimit.c: ulimit(2), getrlimit(2) and setrlimit(2).
pub mod FileSize
use linux_abiemu.Prelude.{
  ℕ, ◌+◌, ◌*◌, ◌/◌, ◌^◌, Bool, true, false, not, ◌||◌, Option, none, some, ℤ, pos, neg, int32,
  is_neg, pos_part, ltb, ◌==◌, if◌then◌else◌,
}
use linux_abiemu.Kernel.Domain.{eperm, einval, erange}

-- The limits of the process (`current->signal->rlim`) that the code reads or writes, unsigned longs.
pub record Limits : Type 0 where
  pub fsize_cur : ℕ
  pub fsize_max : ℕ
  pub data_cur : ℕ
  pub nofile_cur : ℕ

-- `INT_MAX >> ULIM_BLOCKSIZE_BITS`, in blocks of 512 bytes.
abbrev pub ulim_max_blocksize : ℕ
ulim_max_blocksize = 4194303

-- U_SETFSIZE; `capable` is `capable(CAP_SYS_RESOURCE)`. A value in range does not overflow by
-- the shift.
unfoldable pub set_fsize : Bool → ℤ → Limits → ℤ × Limits
set_fsize capable val lim =
    if ltb ulim_max_blocksize (pos_part val) || is_neg val
    then (neg erange, lim)
    else (let size = pos_part val * 2 ^ 9 in
        if ltb lim.fsize_max size
        then (if not capable
            then (neg eperm, lim)
            else (pos 0, record lim { fsize_cur = size; fsize_max = size }))
        else (pos 0, record lim { fsize_cur = size }))

unfoldable pub svr4_ulimit : Bool → ℕ → ℤ → Limits → ℤ × Limits
unfolding set_fsize
svr4_ulimit capable cmd val lim =
    if cmd == 1
    then (int32 (lim.fsize_cur / 2 ^ 9), lim)
    else if cmd == 2
    then set_fsize capable val lim
    else if cmd == 3
    then (int32 lim.data_cur, lim)
    else if cmd == 4
    then (int32 lim.nofile_cur, lim)
    else (neg einval, lim)

-- The kernel's getrlimit(2) and setrlimit(2), on a resource number and a user address.
pub record Rlimits : Type 1 where
  pub World : Type 0
  pub sys_getrlimit : ℕ → ℕ → World → ℤ × World
  pub sys_setrlimit : ℕ → ℕ → World → ℤ × World

-- RLIMIT_CPU, RLIMIT_FSIZE, RLIMIT_DATA, RLIMIT_STACK, RLIMIT_CORE, RLIMIT_NOFILE and RLIMIT_AS of
-- Linux, for U_RLIMIT_CPU to U_RLIMIT_AS.
abbrev pub rlimit_number : ℕ → Option ℕ
rlimit_number cmd =
    if cmd == 0
    then some 0
    else if cmd == 1
    then some 1
    else if cmd == 2
    then some 2
    else if cmd == 3
    then some 3
    else if cmd == 4
    then some 4
    else if cmd == 5
    then some 7
    else if cmd == 6
    then some 9
    else none

module _ (host : Rlimits) where
  open host use {World, sys_getrlimit}

  unfoldable pub svr4_getrlimit : ℕ → ℕ → World → ℤ × World
  svr4_getrlimit cmd val w = elim (rlimit_number cmd) [
    | some resource ↦ sys_getrlimit resource val w
    | none ↦ (neg einval, w)
  ]

  -- The source calls `sys_getrlimit` here too.
  unfoldable pub svr4_setrlimit : ℕ → ℕ → World → ℤ × World
  svr4_setrlimit cmd val w = elim (rlimit_number cmd) [
    | some resource ↦ sys_getrlimit resource val w
    | none ↦ (neg einval, w)
  ]
