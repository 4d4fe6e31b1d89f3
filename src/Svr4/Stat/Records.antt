-- ===== src/Svr4/Stat/Records.antt =====
-- What the two records of a file's state hold.
use linux_abiemu.Prelude.{
  ℕ, ◌+◌, ◌*◌, ◌/◌, ◌%◌, ◌^◌, ◌<◌, Bool, true, false, some, ◌≡◌, ◌≢◌, refl, subst, inl, inr, word,
  leb_ℤ, arith, Bool-cases,
}
use linux_abiemu.Prelude.Masks.{bit_and_short, bit_or_shifted}
use linux_abiemu.Svr4.Types.{
  KernelTypes, linux_to_svr4_dev_t, linux_to_svr4_o_dev_t, linux_to_svr4_ino_t,
  linux_to_svr4_o_ino_t,
}
use linux_abiemu.Svr4.Stat.{
  Kstat, Svr4Stat, Svr4Xstat, svr4_record, svr4_xrecord, svr4_stat_of, max_non_lfs,
}

-- A folded inode number keeps the low 16 bits that are not all zero, and is never 0, which would
-- mark an unused directory slot.
o_ino_ne_zero : (ino : ℕ) → linux_to_svr4_o_ino_t ino ≢ 0
o_ino_ne_zero ino = ground (arith, bit_and_short ino)

ino_ne_zero : (ino : ℕ) → linux_to_svr4_ino_t true ino % 2 ^ 16 ≢ 0
ino_ne_zero ino = ground (arith, bit_and_short ino)

o_dev_parts :
    (types : KernelTypes) (dev : ℕ)
    → types.major dev < 256
    → types.minor dev < 256
    → (linux_to_svr4_o_dev_t types dev / 256 ≡ types.major dev)
      × (linux_to_svr4_o_dev_t types dev % 256 ≡ types.minor dev)
o_dev_parts types dev h l =
    let small : types.major dev * 2 ^ 8 % 2 ^ 32 ≡ types.major dev * 2 ^ 8 = omega arith in
    let joined : linux_to_svr4_o_dev_t types dev ≡ types.major dev * 2 ^ 8 + types.minor dev =
      rw (small, bit_or_shifted 8 (types.major dev) (types.minor dev) l) (omega arith) in
    (omega (arith, joined), omega (arith, joined))

dev_parts :
    (types : KernelTypes) (dev : ℕ)
    → types.major dev < 2 ^ 14
    → types.minor dev < 2 ^ 18
    → (linux_to_svr4_dev_t types dev / 2 ^ 18 ≡ types.major dev)
      × (linux_to_svr4_dev_t types dev % 2 ^ 18 ≡ types.minor dev)
dev_parts types dev h l =
    let small : types.major dev * 2 ^ 18 % 2 ^ 32 ≡ types.major dev * 2 ^ 18 = omega arith in
    let joined : linux_to_svr4_dev_t types dev ≡ types.major dev * 2 ^ 18 + types.minor dev =
      rw (small, bit_or_shifted 18 (types.major dev) (types.minor dev) l) refl in
    (omega (arith, joined), omega (arith, joined))

-- What the old record shows of a file: a member is cut to its width, and a device number whose
-- parts fit 8 bits each has the major number in its upper byte.
pub record Shows (types : KernelTypes) (st : Kstat) (buf : Svr4Stat) : Type 0 where
  pub whole_size : buf.st_size ≡ word st.size
  pub used_slot : buf.st_ino ≢ 0
  pub mode_short : buf.st_mode ≡ st.mode % 2 ^ 16
  pub links_short : buf.st_nlink ≡ st.nlink % 2 ^ 16
  pub times :
      (buf.st_atime ≡ st.atime.tv_sec % 2 ^ 32)
      × (buf.st_mtime ≡ st.mtime.tv_sec % 2 ^ 32)
      × (buf.st_ctime ≡ st.ctime.tv_sec % 2 ^ 32)
  pub device :
      types.major st.rdev < 256
      → types.minor st.rdev < 256
      → (buf.st_rdev / 256 ≡ types.major st.rdev) × (buf.st_rdev % 256 ≡ types.minor st.rdev)

pub record-Shows : (types : KernelTypes) (st : Kstat) → Shows types st (svr4_record types st)
record-Shows types st = record {
  whole_size = refl;
  used_slot = o_ino_ne_zero st.ino;
  mode_short = refl;
  links_short = refl;
  times = (refl, refl, refl);
  device = o_dev_parts types st.rdev;
}

-- What the new record shows: users, mode and links whole, times with their microseconds, a device
-- number with 18 bits of minor number, and an inode number that is whole or, for a personality of
-- short inodes, has low 16 bits that are not all zero.
pub record ShowsMore (types : KernelTypes) (short : Bool) (st : Kstat) (buf : Svr4Xstat)
    : Type 0 where
  pub x_size : buf.st_size ≡ word st.size
  pub x_mode : (buf.st_mode ≡ st.mode) × (buf.st_nlink ≡ st.nlink)
  pub x_owner : (buf.st_uid ≡ st.uid) × (buf.st_gid ≡ st.gid)
  pub x_modified :
      (buf.st_mtim.tv_sec ≡ st.mtime.tv_sec % 2 ^ 32)
      × (buf.st_mtim.tv_usec ≡ st.mtime.tv_nsec / 1000)
  pub x_accessed :
      (buf.st_atim.tv_sec ≡ st.atime.tv_sec % 2 ^ 32)
      × (buf.st_atim.tv_usec ≡ st.atime.tv_nsec / 1000)
  pub x_changed :
      (buf.st_ctim.tv_sec ≡ st.ctime.tv_sec % 2 ^ 32)
      × (buf.st_ctim.tv_usec ≡ st.ctime.tv_nsec / 1000)
  pub x_whole_inode : short ≡ false → buf.st_ino ≡ st.ino
  pub x_short_inode : short ≡ true → buf.st_ino % 2 ^ 16 ≢ 0
  pub x_device :
      types.major st.rdev < 2 ^ 14
      → types.minor st.rdev < 2 ^ 18
      → (buf.st_rdev / 2 ^ 18 ≡ types.major st.rdev) × (buf.st_rdev % 2 ^ 18 ≡ types.minor st.rdev)

short_slot : (short : Bool) (ino : ℕ) → short ≡ true → linux_to_svr4_ino_t short ino % 2 ^ 16 ≢ 0
short_slot short ino e = rw e (ino_ne_zero ino)

pub xrecord-ShowsMore :
    (types : KernelTypes) (short : Bool) (st : Kstat)
    → ShowsMore types short st (svr4_xrecord types short st)
xrecord-ShowsMore types short st = record {
  x_size = refl;
  x_mode = (refl, refl);
  x_owner = (refl, refl);
  x_modified = (refl, refl);
  x_accessed = (refl, refl);
  x_changed = (refl, refl);
  x_whole_inode = λ e. rw e refl;
  x_short_inode = short_slot short st.ino;
  x_device = dev_parts types st.rdev;
}

some_record : (a b : Svr4Stat) → some a ≡ some b → a ≡ b
some_record a b h = cc

-- A file that has an old record is below 2 GB. The record shows the size as it is, an inode number
-- that is not 0, and, for a device whose numbers fit 8 bits each, the major and minor number in its
-- upper and lower byte.
pub svr4_stat_of_lem :
    (types : KernelTypes) (st : Kstat) (buf : Svr4Stat)
    → svr4_stat_of types st ≡ some buf
    → (leb_ℤ st.size max_non_lfs ≡ true) × Shows types st buf
unfolding svr4_stat_of
svr4_stat_of_lem types st buf h = elim (Bool-cases (leb_ℤ st.size max_non_lfs)) [
  | inr e ↦ cc (rw e at h)
  | inl e ↦ (e, subst (Shows types st) (some_record _ _ (rw e at h)) (record-Shows types st))
]
