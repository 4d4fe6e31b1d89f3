-- ===== src/Abi/Calls.antt =====
-- The functions that the personalities' system call tables name, by the header of
-- abiemu/include/abi that declares them, and how the dispatcher is to call them.
pub mod Prototypes
pub mod Table
pub mod Conventions
pub mod Answered
pub mod Miscalled
pub mod Subdispatch
pub mod Ibcs
pub mod Isc
pub mod Sco
pub mod Solaris
pub mod Uw7
pub mod Wyse
use Prim.Native.String.{String}
use linux_abiemu.Prelude.{ℕ, Bool, Option, none, some, if◌then◌else◌}
use linux_abiemu.Entry.{Sysent}

-- svr4/sysent.h; `abi_syscall` is another name of lcall7_syscall.
pub data Svr4Call : Type 0 where
  lcall7_syscall abi_fork abi_read svr4_open abi_wait abi_exec abi_time svr4_mknod : Svr4Call
  abi_brk svr4_stat abi_getpid abi_getuid svr4_fstat svr4_statfs abi_kill : Svr4Call
  svr4_fstatfs abi_procids abi_pipe abi_getgid abi_sigfunc svr4_msgsys svr4_sysi86 : Svr4Call
  svr4_shmsys svr4_semsys svr4_ioctl v7_utsname svr4_fcntl svr4_ulimit abi_mkdir : Svr4Call
  svr4_getdents svr4_sysfs svr4_getmsg svr4_putmsg svr4_lstat abi_sigprocmask : Svr4Call
  abi_sigsuspend abi_sigaction svr4_sigpending svr4_context svr4_statvfs : Svr4Call
  svr4_fstatvfs svr4_hrtsys svr4_pathconf svr4_mmap svr4_fpathconf svr4_xstat : Svr4Call
  svr4_lxstat svr4_fxstat svr4_xmknod svr4_getrlimit svr4_setrlimit svr4_getpmsg : Svr4Call
  svr4_putpmsg abi_utsname svr4_setegid svr4_sysconfig svr4_sysinfo socksys_syscall : Svr4Call
  svr4_seteuid ibcs_sysconf svr4_waitid : Svr4Call

-- uw7/sysent.h
pub data Uw7Call : Type 0 where
  uw7_stty uw7_gtty uw7_access uw7_ioctl uw7_sigaltstack uw7_context uw7_xstat : Uw7Call
  uw7_lxstat uw7_fxstat uw7_setegid uw7_seteuid uw7_mldmode uw7_pread uw7_pwrite : Uw7Call
  uw7_sleep uw7_fstatvfs64 uw7_statvfs64 uw7_ftruncate64 uw7_truncate64 : Uw7Call
  uw7_getrlimit64 uw7_setrlimit64 uw7_lseek64 uw7_mmap64 uw7_pread64 uw7_pwrite64 : Uw7Call
  uw7_creat64 : Uw7Call

-- solaris/sysent.h
pub data SolarisCall : Type 0 where
  sol_llseek sol_acl sol_getdents64 sol_mmap64 sol_stat64 sol_lstat64 sol_fstat64 : SolarisCall
  sol_open64 solaris_socket solaris_socketpair solaris_bind solaris_listen : SolarisCall
  solaris_accept solaris_connect solaris_shutdown solaris_recv solaris_recvfrom : SolarisCall
  solaris_recvmsg solaris_send solaris_sendmsg solaris_sendto solaris_getpeername : SolarisCall
  solaris_getsockname solaris_getsockopt solaris_setsockopt : SolarisCall

-- sco/sysent.h
pub data ScoCall : Type 0 where
  sco_lseek sco_ptrace sco_sysi86 sco_ioctl sco_fcntl sw_security sco_statvfs : ScoCall
  sco_fstatvfs sco_mmap sco_xstat sco_lxstat sco_fxstat : ScoCall

-- wyse/sysent.h
pub data WyseCall : Type 0 where
  wyse_socket wyse_send wyse_recv wyse_setsockopt wyse_getsockopt wyse_recvfrom : WyseCall
  wyse_sendto wyse_wait3 wyse_ptrace wyse_gethostname wyse_getdomainname : WyseCall

-- What a table's own file defines, and cxenix of cxenix/sysent.h.
pub data LocalCall : Type 0 where
  isc_setostype isc_sysisc wyse_class_tcp wyse_class_nfs cxenix : LocalCall

-- The kernel's own system calls.
pub data KernelCall : Type 0 where
  sys_exit sys_write sys_close sys_creat sys_link sys_unlink sys_chdir sys_chmod : KernelCall
  sys_chown sys_lseek sys_umount sys_setuid sys_stime sys_alarm sys_pause : KernelCall
  sys_utime sys_access sys_nice sys_sync sys_dup sys_times sys_setgid sys_acct : KernelCall
  sys_fsync sys_umask sys_chroot sys_rmdir sys_poll sys_symlink sys_readlink : KernelCall
  sys_setgroups sys_getgroups sys_fchmod sys_fchown sys_mprotect sys_munmap : KernelCall
  sys_fchdir sys_readv sys_writev sys_rename sys_setitimer sys_getitimer : KernelCall
  sys_gettimeofday sys_settimeofday sys_truncate sys_ftruncate sys_getgroups16 : KernelCall
  sys_setgroups16 sys_waitpid sys_setsid sys_setpgid sys_mincore sys_pread64 : KernelCall
  sys_pwrite64 sys_nanosleep sys_setreuid sys_setregid sys_mkdir sys_lchown : KernelCall
  sys_select sys_connect sys_accept sys_bind sys_listen sys_shutdown : KernelCall
  sys_socketpair sys_getpeername sys_getsockname sys_sethostname sys_setdomainname : KernelCall

pub data Call : Type 0 where
  by_svr4 : Svr4Call → Call
  by_uw7 : Uw7Call → Call
  by_solaris : SolarisCall → Call
  by_sco : ScoCall → Call
  by_wyse : WyseCall → Call
  by_local : LocalCall → Call
  by_kernel : KernelCall → Call

-- An entry with a function, one without, and one that has its function only with XTI compiled in
-- (CONFIG_ABI_XTI).
abbrev pub call : Call → ℕ → String → String → Sysent Call
call f n name args = record { se_syscall = some f; se_nargs = n; se_name = name; se_args = args }

abbrev pub absent : ℕ → String → String → Sysent Call
absent n name args = record { se_syscall = none; se_nargs = n; se_name = name; se_args = args }

abbrev pub with_xti : Bool → Call → ℕ → String → String → Sysent Call
with_xti xti f n name args = if xti then call f n name args else absent n name args
