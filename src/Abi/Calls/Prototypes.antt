-- ===== src/Abi/Calls/Prototypes.antt =====
-- The prototypes in the headers abi/*/sysent.h of abiemu/include, as far as a call needs them.
use linux_abiemu.Prelude.{ℕ, Option, none, some}
use linux_abiemu.Abi.Calls.{
  Call, by_svr4, by_uw7, by_solaris, by_sco, by_wyse, by_local, by_kernel, Svr4Call, Uw7Call,
  SolarisCall, ScoCall, WyseCall, LocalCall, KernelCall, lcall7_syscall, abi_fork, abi_read,
  svr4_open, abi_wait, abi_exec, abi_time, svr4_mknod, abi_brk, svr4_stat, abi_getpid, abi_getuid,
  svr4_fstat, svr4_statfs, abi_kill, svr4_fstatfs, abi_procids, abi_pipe, abi_getgid, abi_sigfunc,
  svr4_msgsys, svr4_sysi86, svr4_shmsys, svr4_semsys, svr4_ioctl, v7_utsname, svr4_fcntl,
  svr4_ulimit, abi_mkdir, svr4_getdents, svr4_sysfs, svr4_getmsg, svr4_putmsg, svr4_lstat,
  abi_sigprocmask, abi_sigsuspend, abi_sigaction, svr4_sigpending, svr4_context, svr4_statvfs,
  svr4_fstatvfs, svr4_hrtsys, svr4_pathconf, svr4_mmap, svr4_fpathconf, svr4_xstat, svr4_lxstat,
  svr4_fxstat, svr4_xmknod, svr4_getrlimit, svr4_setrlimit, svr4_getpmsg, svr4_putpmsg, abi_utsname,
  svr4_setegid, svr4_sysconfig, svr4_sysinfo, socksys_syscall, svr4_seteuid, ibcs_sysconf,
  svr4_waitid, uw7_stty, uw7_gtty, uw7_access, uw7_ioctl, uw7_sigaltstack, uw7_context, uw7_xstat,
  uw7_lxstat, uw7_fxstat, uw7_setegid, uw7_seteuid, uw7_mldmode, uw7_pread, uw7_pwrite, uw7_sleep,
  uw7_fstatvfs64, uw7_statvfs64, uw7_ftruncate64, uw7_truncate64, uw7_getrlimit64, uw7_setrlimit64,
  uw7_lseek64, uw7_mmap64, uw7_pread64, uw7_pwrite64, uw7_creat64, sol_llseek, sol_acl,
  sol_getdents64, sol_mmap64, sol_stat64, sol_lstat64, sol_fstat64, sol_open64, solaris_socket,
  solaris_socketpair, solaris_bind, solaris_listen, solaris_accept, solaris_connect,
  solaris_shutdown, solaris_recv, solaris_recvfrom, solaris_recvmsg, solaris_send, solaris_sendmsg,
  solaris_sendto, solaris_getpeername, solaris_getsockname, solaris_getsockopt, solaris_setsockopt,
  sco_lseek, sco_ptrace, sco_sysi86, sco_ioctl, sco_fcntl, sw_security, sco_statvfs, sco_fstatvfs,
  sco_mmap, sco_xstat, sco_lxstat, sco_fxstat, wyse_socket, wyse_send, wyse_recv, wyse_setsockopt,
  wyse_getsockopt, wyse_recvfrom, wyse_sendto, wyse_wait3, wyse_ptrace, wyse_gethostname,
  wyse_getdomainname, isc_setostype, isc_sysisc, wyse_class_tcp, wyse_class_nfs, cxenix,
  sys_getsockname,
}

-- A function takes a number of words, or the registers (`struct pt_regs *`) alone.
pub data Convention : Type 0 where
  words : ℕ → Convention
  registers : Convention

abbrev pub svr4_prototype : Svr4Call → Convention
svr4_prototype lcall7_syscall = registers
svr4_prototype abi_fork = registers
svr4_prototype abi_read = words 3
svr4_prototype svr4_open = words 3
svr4_prototype abi_wait = registers
svr4_prototype abi_exec = registers
svr4_prototype abi_time = words 0
svr4_prototype svr4_mknod = words 3
svr4_prototype abi_brk = words 1
svr4_prototype svr4_stat = words 2
svr4_prototype abi_getpid = registers
svr4_prototype abi_getuid = registers
svr4_prototype svr4_fstat = words 2
svr4_prototype svr4_statfs = words 4
svr4_prototype abi_kill = words 2
svr4_prototype svr4_fstatfs = words 4
svr4_prototype abi_procids = registers
svr4_prototype abi_pipe = registers
svr4_prototype abi_getgid = registers
svr4_prototype abi_sigfunc = registers
svr4_prototype svr4_msgsys = registers
svr4_prototype svr4_sysi86 = words 3
svr4_prototype svr4_shmsys = registers
svr4_prototype svr4_semsys = registers
svr4_prototype svr4_ioctl = registers
svr4_prototype v7_utsname = words 1
svr4_prototype svr4_fcntl = words 3
svr4_prototype svr4_ulimit = words 2
svr4_prototype abi_mkdir = words 2
svr4_prototype svr4_getdents = words 3
svr4_prototype svr4_sysfs = words 3
svr4_prototype svr4_getmsg = registers
svr4_prototype svr4_putmsg = registers
svr4_prototype svr4_lstat = words 2
svr4_prototype abi_sigprocmask = words 3
svr4_prototype abi_sigsuspend = registers
svr4_prototype abi_sigaction = words 3
svr4_prototype svr4_sigpending = words 2
svr4_prototype svr4_context = registers
svr4_prototype svr4_statvfs = words 2
svr4_prototype svr4_fstatvfs = words 2
svr4_prototype svr4_hrtsys = registers
svr4_prototype svr4_pathconf = words 2
svr4_prototype svr4_mmap = words 6
svr4_prototype svr4_fpathconf = words 2
svr4_prototype svr4_xstat = words 3
svr4_prototype svr4_lxstat = words 3
svr4_prototype svr4_fxstat = words 3
svr4_prototype svr4_xmknod = words 4
svr4_prototype svr4_getrlimit = words 2
svr4_prototype svr4_setrlimit = words 2
svr4_prototype svr4_getpmsg = registers
svr4_prototype svr4_putpmsg = registers
svr4_prototype abi_utsname = words 1
svr4_prototype svr4_setegid = words 1
svr4_prototype svr4_sysconfig = words 1
svr4_prototype svr4_sysinfo = words 3
svr4_prototype socksys_syscall = words 1
svr4_prototype svr4_seteuid = words 1
svr4_prototype ibcs_sysconf = words 1
svr4_prototype svr4_waitid = words 4

abbrev pub uw7_prototype : Uw7Call → Convention
uw7_prototype uw7_stty = words 2
uw7_prototype uw7_gtty = words 2
uw7_prototype uw7_access = words 2
uw7_prototype uw7_ioctl = registers
uw7_prototype uw7_sigaltstack = words 2
uw7_prototype uw7_context = registers
uw7_prototype uw7_xstat = words 3
uw7_prototype uw7_lxstat = words 3
uw7_prototype uw7_fxstat = words 3
uw7_prototype uw7_setegid = words 1
uw7_prototype uw7_seteuid = words 1
uw7_prototype uw7_mldmode = words 1
uw7_prototype uw7_pread = words 4
uw7_prototype uw7_pwrite = words 4
uw7_prototype uw7_sleep = words 1
uw7_prototype uw7_fstatvfs64 = words 2
uw7_prototype uw7_statvfs64 = words 2
uw7_prototype uw7_ftruncate64 = words 3
uw7_prototype uw7_truncate64 = words 3
uw7_prototype uw7_getrlimit64 = words 2
uw7_prototype uw7_setrlimit64 = words 2
uw7_prototype uw7_lseek64 = words 4
uw7_prototype uw7_mmap64 = words 7
uw7_prototype uw7_pread64 = words 5
uw7_prototype uw7_pwrite64 = words 5
uw7_prototype uw7_creat64 = words 2

abbrev pub solaris_prototype : SolarisCall → Convention
solaris_prototype sol_llseek = registers
solaris_prototype sol_acl = words 4
solaris_prototype sol_getdents64 = words 3
solaris_prototype sol_mmap64 = words 7
solaris_prototype sol_stat64 = words 2
solaris_prototype sol_lstat64 = words 2
solaris_prototype sol_fstat64 = words 2
solaris_prototype sol_open64 = words 3
solaris_prototype solaris_socket = words 3
solaris_prototype solaris_socketpair = words 1
solaris_prototype solaris_bind = words 3
solaris_prototype solaris_listen = words 2
solaris_prototype solaris_accept = words 3
solaris_prototype solaris_connect = words 3
solaris_prototype solaris_shutdown = words 2
solaris_prototype solaris_recv = words 4
solaris_prototype solaris_recvfrom = words 6
solaris_prototype solaris_recvmsg = words 3
solaris_prototype solaris_send = words 4
solaris_prototype solaris_sendmsg = words 3
solaris_prototype solaris_sendto = words 6
solaris_prototype solaris_getpeername = words 3
solaris_prototype solaris_getsockname = words 3
solaris_prototype solaris_getsockopt = words 5
solaris_prototype solaris_setsockopt = words 5

abbrev pub sco_prototype : ScoCall → Convention
sco_prototype sco_lseek = words 3
sco_prototype sco_ptrace = words 4
sco_prototype sco_sysi86 = words 3
sco_prototype sco_ioctl = registers
sco_prototype sco_fcntl = words 3
sco_prototype sw_security = words 6
sco_prototype sco_statvfs = words 2
sco_prototype sco_fstatvfs = words 2
sco_prototype sco_mmap = words 6
sco_prototype sco_xstat = words 3
sco_prototype sco_lxstat = words 3
sco_prototype sco_fxstat = words 3

abbrev pub wyse_prototype : WyseCall → Convention
wyse_prototype wyse_socket = words 3
wyse_prototype wyse_send = words 4
wyse_prototype wyse_recv = words 4
wyse_prototype wyse_setsockopt = words 5
wyse_prototype wyse_getsockopt = words 5
wyse_prototype wyse_recvfrom = words 6
wyse_prototype wyse_sendto = words 6
wyse_prototype wyse_wait3 = words 1
wyse_prototype wyse_ptrace = words 4
wyse_prototype wyse_gethostname = words 2
wyse_prototype wyse_getdomainname = words 2

abbrev pub local_prototype : LocalCall → Convention
local_prototype isc_setostype = words 1
local_prototype isc_sysisc = registers
local_prototype wyse_class_nfs = registers
local_prototype wyse_class_tcp = registers
local_prototype cxenix = registers

-- The kernel declares its system calls elsewhere; of the one that a table calls with the registers,
-- the definition is in abiemu/net/socket.c.
abbrev pub kernel_prototype : KernelCall → Option Convention
kernel_prototype sys_getsockname = some (words 3)
kernel_prototype _ = none

abbrev pub prototype : Call → Option Convention
prototype (by_svr4 f) = some (svr4_prototype f)
prototype (by_uw7 f) = some (uw7_prototype f)
prototype (by_solaris f) = some (solaris_prototype f)
prototype (by_sco f) = some (sco_prototype f)
prototype (by_wyse f) = some (wyse_prototype f)
prototype (by_local f) = some (local_prototype f)
prototype (by_kernel f) = kernel_prototype f
