-- ===== src/Examples/Processes.antt =====
-- Breaks, children and timers of a process at small kernels.
use linux_abiemu.Prelude.{
  ℕ, ◌≡◌, ◌≢◌, ◌⊎◌, refl, arith, ◌+◌, true, false, if◌then◌else◌, ◌==◌, some, pos, neg,
}
use linux_abiemu.Abi.Personas.{sco, domain_of}
use linux_abiemu.Svr4.Wait.{WaitHost, child_status}
use linux_abiemu.Svr4.Wait.Status.{killed, told, child_status-told}
use linux_abiemu.Svr4.Waitpid.{WaitpidHost}
use linux_abiemu.Util.Regs.{Regs}
use linux_abiemu.Svr4.Process.{page_align, abi_brk}
use linux_abiemu.Svr4.Process.Break.{Brk, abi_brk-IsMoved}
use linux_abiemu.Svr4.Hrtsys.{HrtHost, no_time, hrt_command}
use linux_abiemu.Svr4.Hrtsys.Timed.{Timed, hrt_command-Timed}
use linux_abiemu.Examples.Dispatch.{process_host}

-- A child 8 that signal 11 ended.
abbrev wait_host : WaitHost
wait_host = record {
  World = ℕ;
  read = λ a w. 0;
  verify_area = λ a w. pos 0;
  put_user = λ a v w. w + 1;
  put_word = λ a v w. w;
  sys_wait4 = λ p o w. (pos 8, 11, w);
  sys_access = λ p m w. (pos 0, w);
  sys_setreuid16 = λ r e w. (pos 0, w);
  sys_setregid16 = λ r e w. (pos 0, w);
  beyond = λ i. pos 0;
}

child_status-told_example :
    child_status wait_host (domain_of sco 0 0) 139
    ≡ told wait_host (domain_of sco 0 0) (killed 11 true)
child_status-told_example =
    child_status-told wait_host (domain_of sco 0 0) (killed 11 true) (omega arith, omega arith)

-- A kernel that tells of that child; user memory holds its status at every place but the stack,
-- where 48 stands.
abbrev waitpid_host : WaitpidHost
waitpid_host = record {
  World = ℕ;
  xenix = λ w. false;
  get_user = λ a w. if a == 48 then 139 else 48;
  put_user = λ a v w. v;
  wait4_kernel = λ p o w. (pos 8, 139, w);
  wait4_user = λ p a o w. (pos 8, w);
}

abbrev wait_regs : Regs
wait_regs = record { eax = 7; edx = 0; esp = 100; eflags = 0x202 }

abbrev brk_law : Brk process_host
brk_law = record { sys_brk_current = λ brk w. refl }

abi_brk-IsMoved_example :
    ((abi_brk process_host 0x5001 0x4000).0 ≡ pos 0)
      × (page_align (abi_brk process_host 0x5001 0x4000).1 ≡ page_align 0x5001)
    ⊎ ((abi_brk process_host 0x5001 0x4000).0 ≡ neg 12)
      × (page_align (abi_brk process_host 0x5001 0x4000).1 ≢ page_align 0x5001)
abi_brk-IsMoved_example = abi_brk-IsMoved process_host brk_law 0x5001 0x4000 (ground arith)

-- A kernel that takes every timer.
abbrev hrt_host : HrtHost
hrt_host = record {
  World = ℕ;
  get_user = λ a w. 1000000;
  put_user = λ a v w. w;
  verify_area = λ a w. pos 0;
  sys_gettimeofday = λ a w. (pos 0, w);
  sys_setitimer = λ t v w. (pos 0, w + 1);
  sys_getitimer = λ t w. (neg 22, record { it_interval = no_time; it_value = no_time }, w);
  copy_timeval = λ a w. some no_time;
  copy_itimerval = λ a v w. w;
}

hrt_command-Timed_example : Timed hrt_host 400 0 5 0xf (hrt_command hrt_host 0xf 400 0 5)
hrt_command-Timed_example = hrt_command-Timed hrt_host 400 0 5 0xf
