-- ===== src/Svr4/Sysconf.antt =====
-- abiemu/abi/svr4/sysconf.c, and pathconf(2) of abiemu/abi/svr4/svr4.c: the limits of the system.
pub mod Reported
use linux_abiemu.Prelude.{
  ℕ, ◌*◌, ◌/◌, ◌%◌, ◌^◌, Option, none, some, List, [], ◌∷◌, ℤ, pos, neg, ◌-◌, ◌||◌, int32, is_zero,
  ◌==◌, if◌then◌else◌, eqb_ℤ,
}
use linux_abiemu.Kernel.Domain.{einval}

-- The kernel's constants of its limits.h and parameters, and what it counts at run time.
pub record SystemLimits : Type 0 where
  pub ngroups_max : ℕ
  pub child_max : ℕ
  pub open_max : ℕ
  pub arg_max : ℕ
  pub link_max : ℕ
  pub max_canon : ℕ
  pub max_input : ℕ
  pub path_max : ℕ
  pub pipe_buf : ℕ
  pub page_shift : ℕ
  pub hz : ℕ
  pub num_online_cpus : ℕ
  pub max_mapnr : ℕ

module _ (limits : SystemLimits) where
  -- `max_mapnr << (PAGE_SHIFT-10)`, in kilobytes.
  abbrev pub memory : ℤ
  memory = int32 (limits.max_mapnr * 2 ^ (limits.page_shift - 10) % 2 ^ 32)

  abbrev pub page_size : ℤ
  page_size = pos (2 ^ limits.page_shift)

  unfoldable pub svr4_sysconfig : ℕ → ℤ
  svr4_sysconfig name =
      if name == 2
      then pos limits.ngroups_max
      else if name == 3
      then pos limits.child_max
      else if name == 4
      then pos limits.open_max
      else if name == 5
      then pos 199009
      else if name == 6
      then page_size
      else if name == 7
      then pos limits.hz
      else if name == 8
      then pos 4
      else if name == 9
      then pos 0
      else if name == 11
      then pos 4000
      else if name == 12 || name == 13
      then pos limits.num_online_cpus
      else if name == 14
      then memory
      else if name == 15 || name == 16
      then memory
      else if name == 17
      then pos 0
      else if name == 18 || name == 19 || name == 20
      then pos 1
      else if name == 21
      then pos 32
      else if name == 23
      then neg einval
      else if name == 10
      then pos limits.arg_max
      else neg einval

  unfoldable pub ibcs_sysconf : ℕ → ℤ
  ibcs_sysconf name =
      if name == 0
      then pos limits.arg_max
      else if name == 1
      then pos limits.child_max
      else if name == 2
      then pos limits.hz
      else if name == 3
      then pos limits.ngroups_max
      else if name == 4
      then pos limits.open_max
      else if name == 5
      then pos 1
      else if name == 6
      then pos 1
      else if name == 11 || name == 34
      then page_size
      else if name == 7
      then pos 198808
      else neg einval

  -- The `switch` of pathconf and of fpathconf but for _PC_NAME_MAX, 4.
  abbrev pub path_limit : ℕ → ℤ
  path_limit name =
      if name == 1
      then pos limits.link_max
      else if name == 2
      then pos limits.max_canon
      else if name == 3
      then pos limits.max_input
      else if name == 5
      then pos limits.path_max
      else if name == 6
      then pos limits.pipe_buf
      else if name == 9
      then pos 0
      else if name == 7
      then pos 1
      else if name == 8
      then pos 1
      else neg einval

-- `getname` copies a name into the kernel, or fails with an error; `putname` frees the copy.
pub data Name : Type 0 where
  err_ptr : ℤ → Name
  copied : ℕ → Name

-- The file system calls give an error and the length of a name (`f_namelen`).
pub record NameHost : Type 1 where
  pub World : Type 0
  pub getname : ℕ → World → Name × World
  pub putname : ℕ → World → World
  pub sys_statfs : ℕ → World → ℤ × ℕ × World
  pub sys_fstatfs : ℤ → World → ℤ × ℕ × World

module _ (limits : SystemLimits) (host : NameHost) where
  open host use {World, getname, putname, sys_statfs, sys_fstatfs}

  -- `if (!error) return buf.f_namelen; return error;`
  abbrev pub name_length : ℤ → ℕ → ℤ
  name_length error namelen = if is_zero error then int32 namelen else error

  abbrev pub name_max : Name × World → ℤ × World
  name_max (err_ptr error, w) = (error, w)
  name_max (copied p, w) =
      let (error, namelen, w') = sys_statfs p w in (name_length error namelen, putname p w')

  unfoldable pub svr4_pathconf : ℕ → ℕ → World → ℤ × World
  svr4_pathconf path name w =
      if name == 4 then name_max (getname path w) else (path_limit limits name, w)

  unfoldable pub svr4_fpathconf : ℤ → ℕ → World → ℤ × World
  svr4_fpathconf fildes name w =
      if name == 4
      then (let (error, namelen, w') = sys_fstatfs fildes w in (name_length error namelen, w'))
      else (path_limit limits name, w)
