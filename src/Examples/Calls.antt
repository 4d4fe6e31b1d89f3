-- ===== src/Examples/Calls.antt =====
-- System calls by lcall7, fcntl(2) and ulimit(2) at concrete arguments.
use linux_abiemu.Prelude.{◌/◌, suc, ℕ, ◌≤◌, false, some, [], ◌∷◌, ◌≡◌, refl, pos, arith}
use linux_abiemu.Kernel.Domain.{ExecDomain}
use linux_abiemu.Util.Regs.{Regs, set_error}
use linux_abiemu.Entry.{Syscalls, Sysent, lcall7_dispatch}
use linux_abiemu.Entry.Returns.{Dispatched, lcall7_dispatch-Dispatched}
use linux_abiemu.Abi.Personas.{sco, domain_of, persona_lcall7}
use linux_abiemu.Entry.Cxenix.{CxenixCall, cxenix}
use linux_abiemu.Entry.Cxenix.Served.{Served, cxenix-Served}
use linux_abiemu.Abi.Errors.{persona_lcall7_past_end}
use linux_abiemu.Svr4.Fcntl.{svr4_fcntl}
use linux_abiemu.Svr4.Fcntl.Locks.{Locked, svr4_fcntl-Locked}
use linux_abiemu.Svr4.Ulimit.{Limits, svr4_ulimit}
use linux_abiemu.Svr4.Ulimit.FileSize.{svr4_ulimit-IsOrdered}
use linux_abiemu.Examples.Hosts.{first_word, call_host, lock_host}

abbrev domain : ExecDomain
domain = domain_of sco 0 0

abbrev regs : Regs
regs = record { eax = 3; edx = 0; esp = 100; eflags = 0x203 }

abbrev read_entry : Sysent ℕ
read_entry = record { se_syscall = some 5; se_nargs = 3; se_name = "read"; se_args = "dpd" }

lcall7_dispatch-Dispatched_example :
    Dispatched call_host domain 1 regs read_entry 0
      (lcall7_dispatch call_host domain regs read_entry 1 0)
lcall7_dispatch-Dispatched_example = lcall7_dispatch-Dispatched call_host domain 1 regs read_entry 0

-- A table of two entries, and call number 3.
persona_lcall7_past_end_example :
    persona_lcall7 call_host domain (read_entry ∷ read_entry ∷ []) regs 0
    ≡ (set_error regs (pos 1), 0)
persona_lcall7_past_end_example =
    persona_lcall7_past_end sco 0 0 call_host (read_entry ∷ read_entry ∷ []) regs 0 (omega arith)

svr4_fcntl-Locked_example : Locked lock_host (pos 3) 400 0 5 (svr4_fcntl lock_host (pos 3) 14 400 0)
svr4_fcntl-Locked_example = svr4_fcntl-Locked lock_host (pos 3) 400 0 14 refl

abbrev limits : Limits
limits = record { fsize_cur = 1024; fsize_max = 4096; data_cur = 0; nofile_cur = 20 }

-- Eight blocks fit the hard limit, nine do not.
svr4_ulimit-IsOrdered_example :
    ((svr4_ulimit false 2 (pos 8) limits).1.fsize_cur
      ≤ (svr4_ulimit false 2 (pos 8) limits).1.fsize_max)
    × (false ≡ false → (svr4_ulimit false 2 (pos 8) limits).1.fsize_max ≡ 4096)
svr4_ulimit-IsOrdered_example = svr4_ulimit-IsOrdered false 2 (pos 8) limits (omega arith)

abbrev nap_host : Syscalls CxenixCall
nap_host = record {
  World = ℕ;
  get_user = λ a w. a / 4;
  call_args = λ f args w. (first_word args, suc w);
  call_regs = λ f regs w. (pos regs.eax, regs, suc w);
}

-- Call 12, nap, with the word that xnx_nap returns.
abbrev nap_regs : Regs
nap_regs = record regs { eax = 0xc28 }

cxenix-Served_example : Served nap_host domain nap_regs 0 (cxenix nap_host domain nap_regs 0)
cxenix-Served_example = cxenix-Served nap_host domain nap_regs 0
