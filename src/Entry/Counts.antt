-- ===== src/Entry/Counts.antt =====
-- Which counts of a system call table the dispatcher carries out.
use linux_abiemu.Prelude.{ℕ, Bool, true, ◌||◌, Option, none, some, ◌==◌, leb}
use linux_abiemu.Entry.{Sysent, spl, fast}

module _ {Fn : Type 0} where
  -- An entry with no function, or with a count that the dispatcher carries out.
  abbrev pub count_serves : Option Fn → ℕ → Bool
  count_serves none n = true
  count_serves (some f) n = leb n 7 || n == spl || n == fast

  abbrev pub entry_serves : Sysent Fn → Bool
  entry_serves ap = count_serves ap.se_syscall ap.se_nargs
