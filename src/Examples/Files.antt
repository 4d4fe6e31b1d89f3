-- ===== src/Examples/Files.antt =====
-- Calls on files and file systems at small kernels.
use linux_abiemu.Prelude.{
  ℕ, suc, ◌+◌, ◌*◌, ◌/◌, ◌-◌, ◌%◌, ◌^◌, true, false, none, some, [], ◌∷◌, ◌≡◌, ◌⊎◌, refl, arith, ℤ,
  pos, neg, is_neg, Bool, eqb_ℤ, eqb_ℤ_eq, not, ◌&&◌, ◌||◌, if◌then◌else◌, Bool-cases, inl, inr, ap,
  ◌∙◌,
}
use linux_abiemu.Svr4.Types.{KernelTypes, svr4_o_major}
use linux_abiemu.Svr4.Stat.{Kstat, Timespec, StatHost, svr4_xstat, svr4_lxstat, svr4_fxstat}
use linux_abiemu.Svr4.Stat.Reports.{Versioned, xstat-Versioned}
use linux_abiemu.Svr4.Nodes.{NodeHost, svr4_mknod}
use linux_abiemu.Svr4.Nodes
use linux_abiemu.Svr4.Nodes.Made.{svr4_mknod_lem}
use linux_abiemu.Svr4.Open.{OpenHost, svr4_open}
use linux_abiemu.Svr4.Open
use linux_abiemu.Svr4.Open.Descriptors.{Descriptors, IsAccounted, is_result, svr4_open-IsAccounted}
use linux_abiemu.Svr4.Statvfs.{
  FsHost, Kstatfs, svr4_statvfs, svr4_fstatvfs, sco_statvfs, sco_fstatvfs, svr4_statfs,
  svr4_fstatfs,
}
use linux_abiemu.Svr4.Statvfs.Held.{Holding, statvfs_held}

-- Device numbers of 8 bits each.
abbrev types : KernelTypes
types = record {
  major = λ dev. dev / 256;
  minor = λ dev. dev % 256;
  mkdev = λ ma mi. ma * 256 + mi;
  high2lowuid = λ u. u;
  high2lowgid = λ g. g;
}

abbrev midnight : Timespec
midnight = record { tv_sec = 0; tv_nsec = 0 }

abbrev file : Kstat
file = record {
  dev = 0x301;
  ino = 5;
  mode = 0x81a4;
  nlink = 1;
  uid = 0;
  gid = 0;
  rdev = 0;
  size = pos 1000;
  atime = midnight;
  mtime = midnight;
  ctime = midnight;
  blksize = 4096;
  blocks = 2;
}

abbrev stat_host : StatHost
stat_host = record {
  World = ℕ;
  types = types;
  short_inode = true;
  vfs_stat = λ f w. (pos 0, file, w);
  vfs_lstat = λ f w. (neg 2, file, w);
  vfs_fstat = λ f w. (pos 0, file, w);
  copy_stat = λ a b w. some (suc w);
  copy_xstat = λ a b w. none;
}

xstat-Versioned_example :
    Versioned stat_host (pos 2) 8 (pos 0, file, 0) (svr4_xstat stat_host (pos 2) 4 8 0)
    × Versioned stat_host (pos 2) 8 (neg 2, file, 0) (svr4_lxstat stat_host (pos 2) 4 8 0)
    × Versioned stat_host (pos 2) 8 (pos 0, file, 0) (svr4_fxstat stat_host (pos 2) (pos 3) 8 0)
xstat-Versioned_example = xstat-Versioned stat_host (pos 2) 8 4 (pos 3) 0

-- A kernel that counts the nodes that it makes.
abbrev node_host : NodeHost
node_host = record {
  World = ℕ;
  types = types;
  getname = λ a w. (Nodes.copied (0x61 ∷ []), w);
  sys_mkdir = λ n m w. (pos 0, w);
  sys_mknod = λ f m d w. (pos 0, suc w);
}

-- The device (5, 13), with the mode of a directory.
svr4_mknod_lem_example :
    (minor : ℕ) × ((minor ≡ 0) ⊎ (minor ≡ 8))
    × (svr4_mknod node_host 4 0x4000 0x50d 0
        ≡ node_host.sys_mknod 4
            (0x4000 % 2 ^ 16)
            (types.mkdev (svr4_o_major (0x50d % 2 ^ 16)) minor)
            0)
svr4_mknod_lem_example = svr4_mknod_lem node_host 4 0x4000 0 0x50d

-- A name that is a socket, to which no connection can be made. A process has descriptor 5 to open,
-- and there is none left when it is open.
abbrev opens_5 : (ℤ → Bool) → ℤ × (ℤ → Bool)
opens_5 w = (if w (pos 5) then neg 24 else pos 5, λ k. w k || eqb_ℤ k (pos 5))

abbrev socket_host : OpenHost
socket_host = record {
  World = ℤ → Bool;
  sys_open = λ f g m w. opens_5 w;
  sys_close = λ fd w k. w k && not (eqb_ℤ k fd);
  fget = λ fd w. (some 1, w);
  fput = λ f w. w;
  is_sock = λ f w. true;
  socket = λ w. opens_5 w;
  connect = λ fd p w. (neg 111, w);
  getname = λ a w. (Open.copied 9 4, w);
  putname = λ p w. w;
}

named_only : (e : ℤ) → Open.copied 9 4 ≡ Open.err_ptr e → is_neg e ≡ true
named_only e h = cc h

opens_5_new : (w : ℤ → Bool) → is_neg (opens_5 w).0 ≡ false → w (opens_5 w).0 ≡ false
opens_5_new w h = elim (Bool-cases (w (pos 5))) [ inl e ↦ cc (rw e at h) | inr e ↦ rw e e ]

opens_5_opens : (w : ℤ → Bool) (k : ℤ) → (opens_5 w).1 k ≡ (w k || is_result (opens_5 w).0 k)
opens_5_opens w k = elim (Bool-cases (w (pos 5))) [
  | inr e ↦ rw e refl
  | inl e ↦ rw e (elim (Bool-cases (eqb_ℤ k (pos 5))) [
    | inl five ↦ let same : w k ≡ true = ap w (eqb_ℤ_eq k (pos 5) five) ∙ e in rw (five, same) refl
    | inr other ↦ rw other refl
  ])
]

abbrev descriptors : Descriptors socket_host
descriptors = record {
  is_open = λ w. w;
  open_new = λ p f m w h. opens_5_new w h;
  open_opens = λ p f m w k. opens_5_opens w k;
  socket_new = λ w h. opens_5_new w h;
  socket_opens = λ w k. opens_5_opens w k;
  close_closes = λ fd w k. refl;
  fget_keeps = λ fd w k. refl;
  fput_keeps = λ f w k. refl;
  connect_keeps = λ fd p w k. refl;
  getname_keeps = λ p w k. refl;
  putname_keeps = λ p w k. refl;
  connect_error = λ fd p w h. refl;
  getname_error = λ p w e h. named_only e h;
}

-- Descriptor 0 is open.
svr4_open-IsAccounted_example :
    IsAccounted socket_host descriptors 4
      (λ k. eqb_ℤ k (pos 0))
      (svr4_open socket_host 4 2 0 (λ k. eqb_ℤ k (pos 0)))
svr4_open-IsAccounted_example =
    svr4_open-IsAccounted socket_host descriptors 4 2 0 (λ k. eqb_ℤ k (pos 0))

abbrev disk : Kstatfs
disk = record {
  f_type = 0xef53;
  f_bsize = 1024;
  f_blocks = 100;
  f_bfree = 50;
  f_bavail = 40;
  f_files = 10;
  f_ffree = 5;
  f_namelen = 255;
}

-- The state counts what is held.
abbrev fs_host : FsHost
fs_host = record {
  World = ℕ;
  user_path_walk = λ p w. (pos 0, 1, w + 1);
  path_release = λ at w. w - 1;
  fget = λ fd w. (none, w);
  fput = λ fp w. w - 1;
  vfs_statfs = λ at w. (pos 0, disk, w);
  s_dev = λ at w. 0x301;
  type_name = λ at w. 0x65 ∷ 0x78 ∷ 0x74 ∷ 0x32 ∷ [];
  is_rdonly = λ at w. false;
  is_nosuid = λ at w. true;
  stack_type = λ w. 9;
  copy_statvfs = λ a b w. (false, w);
  copy_statfs = λ a b len w. (true, w);
}

walks : (w : ℕ) → true ≡ false → w + 1 ≡ w
walks w h = cc h

opens_none : (fp w : ℕ) → none ≡ some fp → w ≡ w + 1
opens_none fp w h = cc h

abbrev holding : Holding fs_host
holding = record {
  held = λ w. w;
  held-walk = λ p w h. refl;
  held-walk_failed = λ p w h. walks w h;
  held-release = λ at n w h. omega arith;
  held-fget = λ fd fp w h. opens_none fp w h;
  held-fget_none = λ fd w h. refl;
  held-fput = λ fp n w h. omega arith;
  held-statfs = λ at w. refl;
  held-copy_statvfs = λ a b w. refl;
  held-copy_statfs = λ a b len w. refl;
}

statvfs_held_example :
    ((svr4_statvfs fs_host 4 8 2).1 ≡ 2)
    × ((svr4_fstatvfs fs_host (pos 3) 8 2).1 ≡ 2)
    × ((sco_statvfs fs_host 4 8 2).1 ≡ 2)
    × ((sco_fstatvfs fs_host (pos 3) 8 2).1 ≡ 2)
    × ((svr4_statfs fs_host 4 8 (pos 40) (pos 0) 2).1 ≡ 2)
    × ((svr4_fstatfs fs_host (pos 3) 8 (pos 40) (pos 0) 2).1 ≡ 2)
statvfs_held_example = statvfs_held fs_host holding 4 8 (pos 3) (pos 40) (pos 0) 2
