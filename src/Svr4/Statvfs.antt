-- ===== src/Svr4/Statvfs.antt =====
-- abiemu/abi/svr4/statvfs.c, abiemu/abi/sco/statvfs.c and the statfs calls of abiemu/abi/svr4/open.c:
-- the state of a file system, by a name or by an open file.
pub mod Held
use linux_abiemu.Prelude.{
  take, ℕ, ◌+◌, ◌*◌, ◌%◌, ◌^◌, bit_or, Bool, true, false, ◌&&◌, Option, none, some, List, [], ◌∷◌,
  ℤ, pos, neg, is_zero, leb_ℤ, ◌==◌, if◌then◌else◌,
}
use linux_abiemu.Kernel.Domain.{einval, efault}
use linux_abiemu.Svr4.Readdir.{ebadf}

-- The kernel's `struct kstatfs`.
pub record Kstatfs : Type 0 where
  pub f_type : ℕ
  pub f_bsize : ℕ
  pub f_blocks : ℕ
  pub f_bfree : ℕ
  pub f_bavail : ℕ
  pub f_files : ℕ
  pub f_ffree : ℕ
  pub f_namelen : ℕ

-- `struct sco_statvfs`, and `struct svr4_statvfs` without f_favail; members that stay 0 are left out.
pub record Statvfs : Type 0 where
  pub f_bsize : ℕ
  pub f_frsize : ℕ
  pub f_blocks : ℕ
  pub f_bfree : ℕ
  pub f_bavail : ℕ
  pub f_files : ℕ
  pub f_free : ℕ
  pub f_favail : Option ℕ
  pub f_sid : ℕ
  pub f_basetype : List ℕ
  pub f_flag : ℕ
  pub f_namemax : ℕ

-- `struct svr4_statfs` without the names, which stay empty.
pub record Svr4Statfs : Type 0 where
  pub f_type : ℕ
  pub f_bsize : ℕ
  pub f_frsize : ℕ
  pub f_blocks : ℕ
  pub f_bfree : ℕ
  pub f_files : ℕ
  pub f_ffree : ℕ

-- Numbers stand for a path that is walked to, or an open file, and the inode there. `stack_type` is
-- what the stack holds at `ibcsstat.f_type`. A copy gives false where memory cannot be written; the
-- length is that of the copy.
pub record FsHost : Type 1 where
  pub World : Type 0
  pub user_path_walk : ℕ → World → ℤ × ℕ × World
  pub path_release : ℕ → World → World
  pub fget : ℤ → World → Option ℕ × World
  pub fput : ℕ → World → World
  pub vfs_statfs : ℕ → World → ℤ × Kstatfs × World
  pub s_dev : ℕ → World → ℕ
  pub type_name : ℕ → World → List ℕ
  pub is_rdonly : ℕ → World → Bool
  pub is_nosuid : ℕ → World → Bool
  pub stack_type : World → ℕ
  pub copy_statvfs : ℕ → Statvfs → World → Bool × World
  pub copy_statfs : ℕ → Svr4Statfs → ℤ → World → Bool × World

-- "ext2" and "HTFS".
abbrev pub ext2 : List ℕ
ext2 = 0x65 ∷ 0x78 ∷ 0x74 ∷ 0x32 ∷ []

abbrev pub htfs : List ℕ
htfs = 0x48 ∷ 0x54 ∷ 0x46 ∷ 0x53 ∷ []

abbrev pub same_chars : List ℕ → List ℕ → Bool
same_chars [] [] = true
same_chars (a ∷ xs) (b ∷ ys) = a == b && same_chars xs ys
same_chars _ _ = false

-- `strncmp(name, "ext2", 4) == 0`
abbrev pub sco_type_name : List ℕ → List ℕ
sco_type_name name = if same_chars (take 4 name) ext2 then htfs else name

module _ (host : FsHost) where
  open host use {
    World, user_path_walk, path_release, fget, fput, vfs_statfs, s_dev, type_name, is_rdonly,
    is_nosuid, stack_type, copy_statvfs, copy_statfs,
  }

  abbrev pub statvfs_flags : ℕ → World → ℕ
  statvfs_flags at w =
      let flag = if is_rdonly at w then bit_or 0 1 else 0 in
      if is_nosuid at w then bit_or flag 2 else flag

  -- The record of both personalities; the Boolean says that it is SCO's.
  abbrev pub statvfs_of : Bool → ℕ → Kstatfs → World → Statvfs
  statvfs_of sco at s w = record {
    f_bsize = s.f_bsize % 2 ^ 32;
    f_frsize = s.f_bsize % 2 ^ 32;
    f_blocks = s.f_blocks % 2 ^ 32;
    f_bfree = s.f_bfree % 2 ^ 32;
    f_bavail = s.f_bavail % 2 ^ 32;
    f_files = s.f_files % 2 ^ 32;
    f_free = s.f_ffree % 2 ^ 32;
    f_favail = if sco then some (s.f_ffree % 2 ^ 32) else none;
    f_sid = s_dev at w % 2 ^ 32;
    f_basetype = if sco then sco_type_name (type_name at w) else type_name at w;
    f_flag = statvfs_flags at w;
    f_namemax = s.f_namelen % 2 ^ 32;
  }

  abbrev copied : Bool × World → ℤ × World
  copied (ok, w) = (if ok then pos 0 else neg efault, w)

  unfoldable pub report_statvfs : Bool → ℕ → ℕ → World → ℤ × World
  report_statvfs sco bufp at w =
      let (error, s, w') = vfs_statfs at w in
      if is_zero error then copied (copy_statvfs bufp (statvfs_of sco at s w') w') else (error, w')

  -- What is done between a walk to a path and its release, and between fget and fput.
  abbrev released : ℕ → ℤ × World → ℤ × World
  released at (error, w) = (error, path_release at w)

  abbrev pub with_path : (ℕ → World → ℤ × World) → ℤ × ℕ × World → ℤ × World
  with_path f (error, at, w) = if is_zero error then released at (f at w) else (error, w)

  abbrev put_back : ℕ → ℤ × World → ℤ × World
  put_back fp (error, w) = (error, fput fp w)

  abbrev pub with_file : (ℕ → World → ℤ × World) → Option ℕ × World → ℤ × World
  with_file f (none, w) = (neg ebadf, w)
  with_file f (some fp, w) = put_back fp (f fp w)

  unfoldable pub svr4_statvfs : ℕ → ℕ → World → ℤ × World
  svr4_statvfs filename bufp w = with_path (report_statvfs false bufp) (user_path_walk filename w)

  unfoldable pub svr4_fstatvfs : ℤ → ℕ → World → ℤ × World
  svr4_fstatvfs fd bufp w = with_file (report_statvfs false bufp) (fget fd w)

  unfoldable pub sco_statvfs : ℕ → ℕ → World → ℤ × World
  sco_statvfs filename bufp w = with_path (report_statvfs true bufp) (user_path_walk filename w)

  unfoldable pub sco_fstatvfs : ℤ → ℕ → World → ℤ × World
  sco_fstatvfs fd bufp w = with_file (report_statvfs true bufp) (fget fd w)

  -- `copy_kstatfs`; sizeof(struct svr4_statfs) is 40.
  abbrev pub statfs_of : Kstatfs → Svr4Statfs
  statfs_of st = record {
    f_type = st.f_type % 2 ^ 16;
    f_bsize = st.f_bsize % 2 ^ 32;
    f_frsize = 0;
    f_blocks = st.f_blocks % 2 ^ 32;
    f_bfree = st.f_bfree % 2 ^ 32;
    f_files = st.f_files % 2 ^ 32;
    f_ffree = st.f_ffree % 2 ^ 32;
  }

  unfoldable pub report_statfs : ℕ → ℕ → World → ℤ × World
  report_statfs buf at w =
      let (error, s, w') = vfs_statfs at w in
      if is_zero error then copied (copy_statfs buf (statfs_of s) (pos 40) w') else (error, w')

  -- The answer for a file system that is not mounted. Its type is not set.
  abbrev pub unmounted : ℕ → Svr4Statfs
  unmounted type = record {
    f_type = type;
    f_bsize = 1024;
    f_frsize = 0;
    f_blocks = 8 * 1024 * 1024;
    f_bfree = 500 * 1024;
    f_files = 60000;
    f_ffree = 50000;
  }

  abbrev pub report_unmounted : ℕ → ℤ → World → ℤ × World
  report_unmounted buf len w = copied (copy_statfs buf (unmounted (stack_type w)) len w)

  unfoldable pub svr4_statfs : ℕ → ℕ → ℤ → ℤ → World → ℤ × World
  svr4_statfs path buf len fstype w =
      if leb_ℤ len (pos 40)
      then (if is_zero fstype
          then with_path (report_statfs buf) (user_path_walk path w)
          else report_unmounted buf len w)
      else (neg einval, w)

  unfoldable pub svr4_fstatfs : ℤ → ℕ → ℤ → ℤ → World → ℤ × World
  svr4_fstatfs fd buf len fstype w =
      if leb_ℤ len (pos 40)
      then (if is_zero fstype
          then with_file (report_statfs buf) (fget fd w)
          else report_unmounted buf len w)
      else (neg einval, w)
