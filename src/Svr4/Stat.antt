-- ===== src/Svr4/Stat.antt =====
-- abiemu/abi/svr4/stat.c: the records of a file's state, and the six calls that report them.
pub mod Records
pub mod Reports
use linux_abiemu.Prelude.{
  ℕ, ◌+◌, ◌*◌, ◌/◌, ◌%◌, ◌^◌, Bool, Option, none, some, ℤ, pos, neg, word, is_zero, leb_ℤ, eqb_ℤ,
  if◌then◌else◌,
}
use linux_abiemu.Kernel.Domain.{efault, einval}
use linux_abiemu.Svr4.Types.{
  KernelTypes, linux_to_svr4_dev_t, linux_to_svr4_o_dev_t, linux_to_svr4_ino_t,
  linux_to_svr4_o_ino_t,
}

abbrev pub eoverflow : ℕ
eoverflow = 75

-- MAX_NON_LFS
abbrev pub max_non_lfs : ℤ
max_non_lfs = pos 0x7fff_ffff

pub record Timespec : Type 0 where
  pub tv_sec : ℕ
  pub tv_nsec : ℕ

pub record Timeval : Type 0 where
  pub tv_sec : ℕ
  pub tv_usec : ℕ

-- The kernel's `struct kstat`.
pub record Kstat : Type 0 where
  pub dev : ℕ
  pub ino : ℕ
  pub mode : ℕ
  pub nlink : ℕ
  pub uid : ℕ
  pub gid : ℕ
  pub rdev : ℕ
  pub size : ℤ
  pub atime : Timespec
  pub mtime : Timespec
  pub ctime : Timespec
  pub blksize : ℕ
  pub blocks : ℕ

-- `struct svr4_stat`: 16 bits up to st_rdev, then 32.
pub record Svr4Stat : Type 0 where
  pub st_dev : ℕ
  pub st_ino : ℕ
  pub st_mode : ℕ
  pub st_nlink : ℕ
  pub st_uid : ℕ
  pub st_gid : ℕ
  pub st_rdev : ℕ
  pub st_size : ℕ
  pub st_atime : ℕ
  pub st_mtime : ℕ
  pub st_ctime : ℕ

-- `struct svr4_xstat` without the members that stay 0 (padding and st_fstype).
pub record Svr4Xstat : Type 0 where
  pub st_dev : ℕ
  pub st_ino : ℕ
  pub st_mode : ℕ
  pub st_nlink : ℕ
  pub st_uid : ℕ
  pub st_gid : ℕ
  pub st_rdev : ℕ
  pub st_size : ℕ
  pub st_atim : Timeval
  pub st_mtim : Timeval
  pub st_ctim : Timeval
  pub st_blksize : ℕ
  pub st_blocks : ℕ

-- `tv_usec = tv_nsec / 1000`
abbrev pub to_timeval : Timespec → Timeval
to_timeval t = record { tv_sec = t.tv_sec % 2 ^ 32; tv_usec = t.tv_nsec / 1000 }

-- The records, and none for a file that is too large.
abbrev pub svr4_record : KernelTypes → Kstat → Svr4Stat
svr4_record types stp = record {
  st_dev = linux_to_svr4_o_dev_t types stp.dev;
  st_ino = linux_to_svr4_o_ino_t stp.ino;
  st_mode = stp.mode % 2 ^ 16;
  st_nlink = stp.nlink % 2 ^ 16;
  st_uid = types.high2lowuid stp.uid % 2 ^ 16;
  st_gid = types.high2lowgid stp.gid % 2 ^ 16;
  st_rdev = linux_to_svr4_o_dev_t types stp.rdev;
  st_size = word stp.size;
  st_atime = stp.atime.tv_sec % 2 ^ 32;
  st_mtime = stp.mtime.tv_sec % 2 ^ 32;
  st_ctime = stp.ctime.tv_sec % 2 ^ 32;
}

unfoldable pub svr4_stat_of : KernelTypes → Kstat → Option Svr4Stat
svr4_stat_of types stp = if leb_ℤ stp.size max_non_lfs then some (svr4_record types stp) else none

-- The Boolean is the personality's flag of short inodes.
abbrev pub svr4_xrecord : KernelTypes → Bool → Kstat → Svr4Xstat
svr4_xrecord types short stp = record {
  st_dev = linux_to_svr4_dev_t types stp.dev;
  st_ino = linux_to_svr4_ino_t short stp.ino;
  st_mode = stp.mode;
  st_nlink = stp.nlink;
  st_uid = stp.uid;
  st_gid = stp.gid;
  st_rdev = linux_to_svr4_dev_t types stp.rdev;
  st_size = word stp.size;
  st_atim = to_timeval stp.atime;
  st_mtim = to_timeval stp.mtime;
  st_ctim = to_timeval stp.ctime;
  st_blksize = stp.blksize % 2 ^ 32;
  st_blocks = stp.blocks % 2 ^ 32;
}

unfoldable pub svr4_xstat_of : KernelTypes → Bool → Kstat → Option Svr4Xstat
svr4_xstat_of types short stp =
    if leb_ℤ stp.size max_non_lfs then some (svr4_xrecord types short stp) else none

-- The kernel's lookups, which give 0 and the state or an error, and copies to user memory.
pub record StatHost : Type 1 where
  pub World : Type 0
  pub types : KernelTypes
  pub short_inode : Bool
  pub vfs_stat : ℕ → World → ℤ × Kstat × World
  pub vfs_lstat : ℕ → World → ℤ × Kstat × World
  pub vfs_fstat : ℤ → World → ℤ × Kstat × World
  pub copy_stat : ℕ → Svr4Stat → World → Option World
  pub copy_xstat : ℕ → Svr4Xstat → World → Option World

module _ (host : StatHost) where
  open host use {World, types, short_inode, vfs_stat, vfs_lstat, vfs_fstat, copy_stat, copy_xstat}

  abbrev pub copied : World → Option World → ℤ × World
  copied w none = (neg efault, w)
  copied w (some w') = (pos 0, w')

  -- The end of both reports.
  abbrev pub copy_record :
      {A : Type 0} → (ℕ → A → World → Option World) → ℕ → World → Option A → ℤ × World
  copy_record copy bufp w none = (neg eoverflow, w)
  copy_record copy bufp w (some buf) = copied w (copy bufp buf w)

  unfoldable pub report_svr4_stat : Kstat → ℕ → World → ℤ × World
  report_svr4_stat stp bufp w = copy_record copy_stat bufp w (svr4_stat_of types stp)

  unfoldable pub report_svr4_xstat : Kstat → ℕ → World → ℤ × World
  report_svr4_xstat stp bufp w = copy_record copy_xstat bufp w (svr4_xstat_of types short_inode stp)

  -- `if (!error) error = report_svr4_stat(&st, bufp);`
  abbrev pub if_found : (Kstat → World → ℤ × World) → ℤ × Kstat × World → ℤ × World
  if_found report (error, st, w) = if is_zero error then report st w else (error, w)

  unfoldable pub svr4_stat : ℕ → ℕ → World → ℤ × World
  svr4_stat filename bufp w = if_found (λ st w'. report_svr4_stat st bufp w') (vfs_stat filename w)

  unfoldable pub svr4_lstat : ℕ → ℕ → World → ℤ × World
  svr4_lstat filename bufp w =
      if_found (λ st w'. report_svr4_stat st bufp w') (vfs_lstat filename w)

  unfoldable pub svr4_fstat : ℤ → ℕ → World → ℤ × World
  svr4_fstat fd bufp w = if_found (λ st w'. report_svr4_stat st bufp w') (vfs_fstat fd w)

  -- The `switch` on the version: SVR4_stat is 1 and SVR4_xstat is 2.
  unfoldable pub by_version : ℤ → ℕ → Kstat → World → ℤ × World
  by_version vers bufp st w =
      if eqb_ℤ vers (pos 1)
      then report_svr4_stat st bufp w
      else if eqb_ℤ vers (pos 2)
      then report_svr4_xstat st bufp w
      else (neg einval, w)

  unfoldable pub svr4_xstat : ℤ → ℕ → ℕ → World → ℤ × World
  svr4_xstat vers filename bufp w = if_found (by_version vers bufp) (vfs_stat filename w)

  unfoldable pub svr4_lxstat : ℤ → ℕ → ℕ → World → ℤ × World
  svr4_lxstat vers filename bufp w = if_found (by_version vers bufp) (vfs_lstat filename w)

  unfoldable pub svr4_fxstat : ℤ → ℤ → ℕ → World → ℤ × World
  svr4_fxstat vers fd bufp w = if_found (by_version vers bufp) (vfs_fstat fd w)
