-- ===== src/Util/Regs.antt =====
-- abiemu/include/asm-i386/abi_machdep.h: results and errors in the saved registers.
use linux_abiemu.Prelude.{ℕ, ◌+◌, ◌*◌, bit_and, bit_or, ℤ, word, int32}

-- The members of `struct pt_regs` that the emulation reads or writes.
pub record Regs : Type 0 where
  pub eax : ℕ
  pub edx : ℕ
  pub esp : ℕ
  pub eflags : ℕ

unfoldable pub set_error : Regs → ℤ → Regs
set_error regs errno = record regs { eax = word errno; eflags = bit_or regs.eflags 1 }

-- `~1` in 32 bits.
unfoldable pub clear_error : Regs → Regs
clear_error regs = record regs { eflags = bit_and regs.eflags 0xffff_fffe }

unfoldable pub set_result : Regs → ℤ → Regs
set_result regs r = record regs { eax = word r }

unfoldable pub get_result : Regs → ℤ
get_result regs = int32 regs.eax

-- The n-th parameter stands n + 1 words above the stack pointer; `read` is `__get_user`.
unfoldable pub get_syscall_parameter : (ℕ → ℕ) → Regs → ℕ → ℕ
get_syscall_parameter read regs n = read (regs.esp + 4 * (n + 1))
