-- ===== src/Kernel/Domain.antt =====
-- abiemu/include/linux/personality.h: the description of an execution domain.
use Prim.Native.String.{String}
use linux_abiemu.Prelude.{ℕ, bit_and, Option, List, ℤ, pos}
use linux_abiemu.Util.Map.{MapSegment, map_value}

-- `struct exec_domain`. Pointers are numbers, 0 for NULL: the handler is a function's address,
-- `module` the module's, and `next` the next domain's on the list of those registered.
pub record ExecDomain : Type 0 where
  pub name : String
  pub handler : ℕ
  pub pers_low : ℕ
  pub pers_high : ℕ
  pub signal_map : List ℤ
  pub signal_invmap : List ℤ
  pub err_map : Option (List MapSegment)
  pub socktype_map : Option (List MapSegment)
  pub sockopt_map : Option (List MapSegment)
  pub af_map : Option (List MapSegment)
  pub module_of : ℕ
  pub next : ℕ

-- `get_personality_id`
abbrev pub get_personality_id : ℕ → ℕ
get_personality_id personality = bit_and personality 0xff

-- `iABI_errors` (abiemu/include/abi/util/errno.h) in the domain of the current process.
unfoldable pub iabi_errors : ExecDomain → ℤ → ℤ
iabi_errors domain errno = map_value domain.err_map errno (pos 1)

abbrev pub eperm : ℕ
eperm = 1

abbrev pub eintr : ℕ
eintr = 4

abbrev pub enoexec : ℕ
enoexec = 8

abbrev pub enomem : ℕ
enomem = 12

abbrev pub efault : ℕ
efault = 14

abbrev pub ebusy : ℕ
ebusy = 16

abbrev pub einval : ℕ
einval = 22

abbrev pub erange : ℕ
erange = 34

abbrev pub enosys : ℕ
enosys = 38

abbrev pub enoioctlcmd : ℕ
enoioctlcmd = 515
