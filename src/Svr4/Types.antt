-- ===== src/Svr4/Types.antt =====
-- abiemu/include/abi/svr4/types.h: device and inode numbers and users, as System V has them.
use linux_abiemu.Prelude.{
  ℕ, ◌+◌, ◌*◌, ◌/◌, ◌%◌, ◌^◌, bit_and, bit_or, Bool, ◌==◌, ltb, if◌then◌else◌,
}

-- The kernel's device numbers (MAJOR, MINOR and MKDEV), and its 16-bit users and groups.
pub record KernelTypes : Type 0 where
  pub major : ℕ → ℕ
  pub minor : ℕ → ℕ
  pub mkdev : ℕ → ℕ → ℕ
  pub high2lowuid : ℕ → ℕ
  pub high2lowgid : ℕ → ℕ

-- A new device number has 14 and 18 bits, an old one 8 and 8, of a signed short. Numbers are the
-- bits that hold them.
abbrev pub svr4_mkdev : ℕ → ℕ → ℕ
svr4_mkdev ma mi = bit_or (ma * 2 ^ 18 % 2 ^ 32) mi

abbrev pub svr4_o_mkdev : ℕ → ℕ → ℕ
svr4_o_mkdev ma mi = bit_or (ma * 2 ^ 8 % 2 ^ 32) mi

-- `dev >> SVR4_MINORBITS`, of an unsigned number.
abbrev pub svr4_major : ℕ → ℕ
svr4_major dev = dev / 2 ^ 18

-- The source masks with the number of bits.
abbrev pub svr4_minor : ℕ → ℕ
svr4_minor dev = bit_and dev 18

-- `dev >> SVR4_O_MINORBITS`: a signed short is shifted as an int.
abbrev pub svr4_o_major : ℕ → ℕ
svr4_o_major dev = dev / 2 ^ 8 + (if ltb dev (2 ^ 15) then 0 else 0xffff_ff00)

abbrev pub svr4_o_minor : ℕ → ℕ
svr4_o_minor dev = bit_and dev 8

abbrev pub linux_to_svr4_dev_t : KernelTypes → ℕ → ℕ
linux_to_svr4_dev_t types dev = svr4_mkdev (types.major dev) (types.minor dev)

-- The result is cut to 16 bits.
abbrev pub linux_to_svr4_o_dev_t : KernelTypes → ℕ → ℕ
linux_to_svr4_o_dev_t types dev = svr4_o_mkdev (types.major dev) (types.minor dev) % 2 ^ 16

-- The Boolean is `is_cur_personality_flag(PERF_SHORT_INODE)`.
abbrev pub linux_to_svr4_ino_t : Bool → ℕ → ℕ
linux_to_svr4_ino_t short ino =
    if short then (if bit_and ino 0xffff == 0 then 0xffff_fffe else ino) else ino

abbrev pub linux_to_svr4_o_ino_t : ℕ → ℕ
linux_to_svr4_o_ino_t ino = if bit_and ino 0xffff == 0 then 0xfffe else ino % 2 ^ 16
