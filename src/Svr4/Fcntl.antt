-- ===== src/Svr4/Fcntl.antt =====
-- abiemu/abi/svr4/fcntl.c: fcntl(2).
pub mod Flags
pub mod Locks
use linux_abiemu.Prelude.{
  ℕ, ◌+◌, ◌-◌, ◌*◌, ◌%◌, ◌^◌, Bool, true, false, not, Option, none, some, List, [], ◌∷◌, ℤ, pos,
  negsuc, neg, is_neg, is_zero, word, ◌==◌, ltb, if◌then◌else◌, ◌||◌,
}
use linux_abiemu.Util.Map.{map_flags}
use linux_abiemu.Kernel.Domain.{efault, einval}

-- `struct svr4_flock`; a member is its bits, 16 or 32 of them.
pub record Svr4Flock : Type 0 where
  pub l_type : ℕ
  pub l_whence : ℕ
  pub l_start : ℕ
  pub l_len : ℕ
  pub l_sysid : ℕ
  pub l_pid : ℕ

-- The kernel's `struct flock` on i386: l_pid has 32 bits, and there is no l_sysid.
pub record Flock : Type 0 where
  pub type : ℕ
  pub whence : ℕ
  pub start : ℕ
  pub len : ℕ
  pub pid : ℕ

-- What the code calls: the kernel's system calls, and copies from and to user memory.
pub record Files : Type 1 where
  pub World : Type 0
  pub sys_fcntl : ℤ → ℕ → ℕ → World → ℤ × World
  -- `sys_fcntl(fd, cmd, (unsigned long)&l_fl)`
  pub sys_fcntl_flock : ℤ → ℕ → Flock → World → ℤ × Flock × World
  pub sys_ftruncate : ℤ → ℕ → World → ℤ × World
  -- `sys_ioctl(fd, FIONREAD, (long)&nbytes)`
  pub sys_ioctl_fionread : ℤ → World → ℤ × ℤ × World
  -- `verify_area(VERIFY_WRITE, flp, sizeof(struct svr4_flock))`, 0 where the area may be written
  pub verify_area : ℕ → World → ℤ
  pub copy_from_user : ℕ → World → Option Svr4Flock
  pub copy_to_user : ℕ → Svr4Flock → World → Option World

abbrev pub fl_svr4_to_linux : List ℕ
fl_svr4_to_linux =
    0x0001 ∷ 0x0002 ∷ 0x0800 ∷ 0x0400 ∷ 0x1000 ∷ 0x0000 ∷ 0x0000 ∷ 0x0800 ∷ 0x0040 ∷ 0x0240 ∷ 0x0080
    ∷ 0x0100 ∷ 0x0000 ∷ 0x0000 ∷ 0x0000 ∷ 0x0000 ∷ []

abbrev pub fl_linux_to_svr4 : List ℕ
fl_linux_to_svr4 =
    0x0001 ∷ 0x0002 ∷ 0x0000 ∷ 0x0000 ∷ 0x0000 ∷ 0x0000 ∷ 0x0100 ∷ 0x0400 ∷ 0x0800 ∷ 0x0200 ∷ 0x0008
    ∷ 0x0004 ∷ 0x0010 ∷ 0x0000 ∷ 0x0000 ∷ 0x0000 ∷ []

-- `int16_t` to `int`: the sign is carried into the upper half.
abbrev pub sign_extend16 : ℕ → ℕ
sign_extend16 n = if ltb n (2 ^ 15) then n else n + (2 ^ 32 - 2 ^ 16)

-- The numbers of the lock types differ by one.
unfoldable pub to_flock : Svr4Flock → Flock
to_flock fl = record {
  type = (fl.l_type + 2 ^ 16 - 1) % 2 ^ 16;
  whence = fl.l_whence;
  start = fl.l_start;
  len = fl.l_len;
  pid = sign_extend16 fl.l_pid;
}

unfoldable pub from_flock : Flock → Svr4Flock
from_flock l_fl = record {
  l_type = (l_fl.type + 1) % 2 ^ 16;
  l_whence = l_fl.whence;
  l_start = l_fl.start;
  l_len = l_fl.len;
  l_sysid = 0;
  l_pid = l_fl.pid % 2 ^ 16;
}

module _ (host : Files) where
  open host use {
    World, sys_fcntl, sys_fcntl_flock, sys_ftruncate, sys_ioctl_fionread, verify_area,
    copy_from_user, copy_to_user,
  }

  abbrev pub write_back : ℕ → World → Option World → ℤ × World
  write_back arg w none = (neg efault, w)
  write_back arg w (some w') = (pos 0, w')

  abbrev pub lock_user : ℤ → ℕ → ℕ → World → Option Svr4Flock → ℤ × World
  lock_user fd cmd arg w none = (neg efault, w)
  lock_user fd cmd arg w (some fl) =
      let (rval, l_fl, w') = sys_fcntl_flock fd cmd (to_flock fl) w in
      if not (is_zero rval)
      then (rval, w')
      else write_back arg w' (copy_to_user arg (from_flock l_fl) w')

  unfoldable pub svr4_fcntl_flock : ℤ → ℕ → ℕ → World → ℤ × World
  svr4_fcntl_flock fd cmd arg w =
      if not (is_zero (verify_area arg w))
      then (neg efault, w)
      else lock_user fd cmd arg w (copy_from_user arg w)

  unfoldable pub f_rdchk : ℤ → World → ℤ × World
  f_rdchk fd w =
      let (rval, nbytes, w') = sys_ioctl_fionread fd w in
      if is_neg rval then (rval, w') else (if is_zero nbytes then pos 0 else pos 1, w')

  -- `return map_flags(rval, fl_linux_to_svr4)`: the int is converted to u_short.
  unfoldable pub f_getfl : ℤ → ℕ → ℕ → World → ℤ × World
  f_getfl fd cmd arg w =
      let (rval, w') = sys_fcntl fd cmd arg w in
      (pos (map_flags (word rval % 2 ^ 16) fl_linux_to_svr4), w')

  unfoldable pub svr4_fcntl : ℤ → ℕ → ℕ → World → ℤ × World
  svr4_fcntl fd cmd arg w =
      if cmd == 0 || (cmd == 1 || cmd == 2)
      then sys_fcntl fd cmd arg w
      else if cmd == 3
      then f_getfl fd cmd arg w
      else if cmd == 4
      then sys_fcntl fd cmd (map_flags arg fl_svr4_to_linux) w
      else if cmd == 14
      then svr4_fcntl_flock fd 5 arg w
      else if cmd == 5 || (cmd == 6 || cmd == 7)
      then svr4_fcntl_flock fd cmd arg w
      else if cmd == 10 || cmd == 11
      then (pos 0, w)
      else if cmd == 0x6000
      then sys_ftruncate fd arg w
      else if cmd == 0x6001
      then f_rdchk fd w
      else (neg einval, w)
