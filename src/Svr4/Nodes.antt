-- ===== src/Svr4/Nodes.antt =====
-- abiemu/abi/svr4/misc.c: mkdir(2), mknod(2) and xmknod(2).
pub mod Made
use linux_abiemu.Prelude.{
  ℕ, ◌*◌, ◌/◌, ◌%◌, ◌^◌, bit_and, Bool, ◌||◌, Option, none, some, List, [], ◌∷◌, ℤ, pos, neg, ltb,
  ◌==◌, eqb_ℤ, if◌then◌else◌,
}
use linux_abiemu.Kernel.Domain.{einval}
use linux_abiemu.Svr4.Types.{
  KernelTypes, svr4_minor, svr4_major, svr4_o_minor, svr4_o_major, svr4_o_mkdev,
}

-- `getname` of a name in user memory, its characters or an error; the copy is freed. A name that is
-- got is not empty.
pub data GotName : Type 0 where
  err_ptr : ℤ → GotName
  copied : List ℕ → GotName

-- sys_mkdir gets the kernel's copy of a name, sys_mknod the program's address.
pub record NodeHost : Type 1 where
  pub World : Type 0
  pub types : KernelTypes
  pub getname : ℕ → World → GotName × World
  pub sys_mkdir : List ℕ → ℕ → World → ℤ × World
  pub sys_mknod : ℕ → ℕ → ℕ → World → ℤ × World

-- '/'
abbrev pub slash : ℕ
slash = 0x2f

-- One slash at the end is cut off.
unfoldable pub strip_slash : List ℕ → List ℕ
strip_slash [] = []
strip_slash (c ∷ []) = if c == slash then [] else c ∷ []
strip_slash (c ∷ d ∷ cs) = c ∷ strip_slash (d ∷ cs)

module _ (host : NodeHost) where
  open host use {World, types, getname, sys_mkdir, sys_mknod}

  abbrev pub mkdir_named : ℕ → GotName × World → ℤ × World
  mkdir_named mode (err_ptr e, w) = (e, w)
  mkdir_named mode (copied name, w) = sys_mkdir (strip_slash name) mode w

  unfoldable pub abi_mkdir : ℕ → ℕ → World → ℤ × World
  abi_mkdir fname mode w = mkdir_named mode (getname fname w)

  -- The call converts the mode and the device to 16 bits. The test is
  -- `(mode & 0017000) == 0040000`.
  unfoldable pub svr4_mknod : ℕ → ℕ → ℕ → World → ℤ × World
  svr4_mknod filename mode32 dev32 w =
      let mode = mode32 % 2 ^ 16 in
      let dev = dev32 % 2 ^ 16 in
      if bit_and mode 0x1e00 == 0x4000
      then abi_mkdir filename mode w
      else sys_mknod filename mode (types.mkdev (svr4_o_major dev) (svr4_o_minor dev)) w

  unfoldable pub svr4_do_xmknod : ℕ → ℕ → ℕ → World → ℤ × World
  svr4_do_xmknod filename mode dev w =
      let minor = svr4_minor dev in
      let major = svr4_major dev in
      if ltb 0xff minor || ltb 0xff major
      then (neg einval, w)
      else svr4_mknod filename mode (svr4_o_mkdev major minor) w

  -- SVR4_mknod is 1 and SVR4_xmknod is 2.
  unfoldable pub svr4_xmknod : ℤ → ℕ → ℕ → ℕ → World → ℤ × World
  svr4_xmknod vers filename mode dev w =
      if eqb_ℤ vers (pos 1)
      then svr4_mknod filename mode dev w
      else if eqb_ℤ vers (pos 2)
      then svr4_do_xmknod filename mode dev w
      else (neg einval, w)
