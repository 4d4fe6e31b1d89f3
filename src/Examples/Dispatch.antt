-- ===== src/Examples/Dispatch.antt =====
-- System calls through the tables of the personalities.
use linux_abiemu.Prelude.{ℕ, ◌/◌, ◌&&◌, suc, true, false, some, ◌≡◌, ◌⊎◌, refl, pos}
use linux_abiemu.Util.Regs.{Regs}
use linux_abiemu.Entry.{Syscalls}
use linux_abiemu.Abi.Personas.{isc, sco, solaris, domain_of, persona_lcall7}
use linux_abiemu.Abi.Calls.{Call, by_svr4, svr4_fcntl, call}
use linux_abiemu.Abi.Calls.Prototypes.{words}
use linux_abiemu.Abi.Calls.Table.{calls_of, syscall_table}
use linux_abiemu.Abi.Calls.Conventions.{passed, has_mismatch, mismatched, calls_take_prototypes}
use linux_abiemu.Abi.Calls.Answered.{Answered, persona_call-Answered}
use linux_abiemu.Svr4.Process.{ProcessHost, err_ptr}
use linux_abiemu.Svr4.Process.Pairs.{processes, Found, pipe, persona_lcall7-Found}
use linux_abiemu.Examples.Hosts.{first_word}

-- fcntl stands at 62 in the table of ISC.
calls_take_prototypes_example :
    (passed 3 ≡ words 3)
    ⊎ ((has_mismatch (calls_of isc false) && mismatched (by_svr4 svr4_fcntl)) ≡ true)
calls_take_prototypes_example =
    calls_take_prototypes (calls_of isc false) 62 (call (by_svr4 svr4_fcntl) 3 "fcntl" "dxx")
      (by_svr4 svr4_fcntl) (words 3) refl refl refl

-- The word at an address is a quarter of it, and the state counts the calls.
abbrev table_host : Syscalls Call
table_host = record {
  World = ℕ;
  get_user = λ a w. a / 4;
  call_args = λ f args w. (first_word args, suc w);
  call_regs = λ f regs w. (pos regs.eax, regs, suc w);
}

abbrev at_call : ℕ → Regs
at_call n = record { eax = n; edx = 0; esp = 100; eflags = 0x203 }

persona_call-Answered_example :
    Answered table_host
      (domain_of sco 0 0)
      sco
      false
      (at_call 62)
      0
      (persona_lcall7 table_host (domain_of sco 0 0) (syscall_table sco false) (at_call 62) 0)
persona_call-Answered_example =
    persona_call-Answered table_host (domain_of sco 0 0) sco false (at_call 62) 0

-- A process 7 with the parent 6; the next pipe has the descriptors 3 and 4. The state is the break.
abbrev pub process_host : ProcessHost
process_host = record {
  World = ℕ;
  get_user = λ a w. some (a / 4);
  sys_time = λ w. (pos 5, w);
  mm_brk = λ w. w;
  sys_brk = λ brk w. (brk, brk);
  do_fork = λ sp regs w. (pos 8, w);
  do_pipe = λ w. (pos 0, pos 3, pos 4, w);
  parent_pid = λ w. pos 6;
  pid = λ w. pos 7;
  uid = λ w. pos 1;
  euid = λ w. pos 0;
  gid = λ w. pos 2;
  egid = λ w. pos 2;
  process_group = λ w. pos 7;
  sys_setpgid = λ p g w. (pos 0, w);
  sys_getpgid = λ p w. (p, w);
  sys_getsid = λ p w. (p, w);
  sys_setsid = λ w. (pos 7, w);
  sys_kill = λ p s w. (pos 0, w);
  getname = λ a w. (err_ptr (pos 0), w);
  putname = λ p w. w;
  do_execve = λ f a e regs w. (pos 0, regs, w);
  beyond = λ i. pos 0;
}

abbrev pipe_host : Syscalls Call
pipe_host =
    processes process_host (domain_of solaris 0 0) (λ f regs w. (pos 0, regs, w))
      (λ f args w. (pos 0, w))

persona_lcall7-Found_example :
    Found process_host
      (domain_of solaris 0 0)
      (λ f regs w. (pos 0, regs, w))
      (λ f args w. (pos 0, w))
      solaris
      true
      (at_call 42)
      0
      (pos 3)
      (pos 4)
      0
      (persona_lcall7 pipe_host (domain_of solaris 0 0) (syscall_table solaris true) (at_call 42) 0)
persona_lcall7-Found_example =
    persona_lcall7-Found process_host (domain_of solaris 0 0) (λ f regs w. (pos 0, regs, w))
      (λ f args w. (pos 0, w)) solaris true (at_call 42) 0 42 (pos 3) (pos 4) 0 (pipe refl) refl
      refl
