-- ===== src/Svr4/Signal/Host.antt =====
-- What abiemu/abi/svr4/signal.c calls and keeps: the kernel's signals and user memory.
use linux_abiemu.Prelude.{ℕ, Bool, Option, ℤ}
use linux_abiemu.Util.Map.{Sigsets}

abbrev pub sig_block : ℕ
sig_block = 0

abbrev pub sig_unblock : ℕ
sig_unblock = 1

abbrev pub sig_setmask : ℕ
sig_setmask = 2

-- `SA_ONESHOT | SA_NOMASK` of Linux on i386.
abbrev pub sa_oneshot_nomask : ℕ
sa_oneshot_nomask = 0xc000_0000

-- The kernel's `struct sigaction`; the restorer is NULL throughout.
pub record Sigaction (sets : Sigsets) : Type 0 where
  pub sa_handler : ℕ
  pub sa_flags : ℕ
  pub sa_mask : sets.Sigset

-- `struct abi_sigaction` of SVR4. The reserved words are not read.
pub record AbiSigaction : Type 0 where
  pub sa_flags : ℕ
  pub sa_handler : ℕ
  pub sa_mask : ℕ

-- A pointer that may be NULL is an option. The Boolean of `sys_rt_sigaction` says that the old
-- action is asked for. `sys_sigsuspend` reads the blocked set of the process by itself.
pub record SignalHost (sets : Sigsets) : Type 1 where
  pub World : Type 0
  pub read : ℕ → World → ℕ
  pub sigdelset_pending : ℤ → World → World
  pub recalc_sigpending : World → World
  pub sys_rt_sigaction : ℤ → Option (Sigaction sets) → Bool → World → ℤ × Sigaction sets × World
  pub sys_rt_sigprocmask : ℤ → Option sets.Sigset → World → ℤ × sets.Sigset × World
  pub sys_sigsuspend : ℕ → World → ℤ × World
  -- `verify_area(VERIFY_WRITE, …)` and copies of a `struct abi_sigaction`
  pub verify_area : ℕ → World → ℤ
  pub copy_from_user : ℕ → World → Option AbiSigaction
  pub copy_to_user : ℕ → AbiSigaction → World → Option World
  -- A word of user memory, none where it cannot be read; a write that fails changes nothing.
  pub get_user : ℕ → World → Option ℕ
  pub put_user : ℕ → ℕ → World → World
  -- The words that lie beyond the table `howcnv` in the kernel's memory.
  pub beyond_howcnv : ℕ → ℤ
  -- What the stack holds at `nsa.sa_flags` when `abi_sigaction` is entered.
  pub stack_flags : World → ℕ
