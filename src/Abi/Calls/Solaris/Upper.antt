-- ===== src/Abi/Calls/Solaris/Upper.antt =====
-- abiemu/abi/solaris/sysent.c: the system calls of Solaris from 128 on.
-- The count -4 of pread and pwrite is written as the 32 bits that the dispatcher compares.
use linux_abiemu.Prelude.{List, [], ◌∷◌, Bool}
use linux_abiemu.Entry.{Sysent, spl, unimpl}
use linux_abiemu.Abi.Calls.{
  Call, abi_utsname, absent, by_kernel, by_solaris, by_svr4, call, socksys_syscall, sol_acl,
  sol_fstat64, sol_getdents64, sol_llseek, sol_lstat64, sol_mmap64, sol_open64, sol_stat64,
  solaris_accept, solaris_bind, solaris_connect, solaris_getpeername, solaris_getsockname,
  solaris_getsockopt, solaris_listen, solaris_recv, solaris_recvfrom, solaris_recvmsg, solaris_send,
  solaris_sendmsg, solaris_sendto, solaris_setsockopt, solaris_shutdown, solaris_socket,
  solaris_socketpair, svr4_getpmsg, svr4_getrlimit, svr4_putpmsg, svr4_setegid, svr4_seteuid,
  svr4_setrlimit, svr4_sysconfig, svr4_sysinfo, sys_getitimer, sys_gettimeofday, sys_nanosleep,
  sys_pread64, sys_pwrite64, sys_rename, sys_setitimer, sys_setregid, sys_setreuid, with_xti,
}

abbrev pub solaris_calls_high : Bool → List (Sysent Call)
solaris_calls_high xti =
    (call (by_svr4 svr4_getrlimit) 2 "setrlimit" "dx")
    ∷ (call (by_svr4 svr4_setrlimit) 2 "getrlimit" "dx")
    ∷ (absent 3 "lchown" "sdd")
    ∷ (absent unimpl "memcntl" "")
    ∷ (with_xti xti (by_svr4 svr4_getpmsg) 5 "getpmsg" "dxxxx")
    ∷ (with_xti xti (by_svr4 svr4_putpmsg) 5 "putpmsg" "dxxdd")
    ∷ (call (by_kernel sys_rename) 2 "rename" "ss")
    ∷ (call (by_svr4 abi_utsname) 1 "uname" "x")
    ∷ (call (by_svr4 svr4_setegid) 1 "setegid" "d")
    ∷ (call (by_svr4 svr4_sysconfig) 1 "sysconfig" "d")
    ∷ (absent unimpl "adjtime" "")
    ∷ (call (by_svr4 svr4_sysinfo) 3 "systeminfo" "dsd")
    ∷ (call (by_svr4 socksys_syscall) 1 "socksys_syscall" "x")
    ∷ (call (by_svr4 svr4_seteuid) 1 "seteuid" "d")
    ∷ (absent unimpl "vtrace" "")
    ∷ (absent unimpl "fork1" "")
    ∷ (absent unimpl "sigtimedwait" "")
    ∷ (absent unimpl "lwp_info" "")
    ∷ (absent unimpl "yield" "")
    ∷ (absent unimpl "lwp_sema_wait" "")
    ∷ (absent unimpl "lwp_sema_post" "")
    ∷ (absent unimpl "lwp_sema_trywait" "")
    ∷ (absent unimpl "?" "")
    ∷ (absent unimpl "?" "")
    ∷ (absent unimpl "modctl" "")
    ∷ (absent unimpl "fchroot" "")
    ∷ (absent unimpl "utimes" "")
    ∷ (absent unimpl "vhangup" "")
    ∷ (call (by_kernel sys_gettimeofday) 2 "gettimeofday" "xx")
    ∷ (call (by_kernel sys_getitimer) 2 "getitimer" "dx")
    ∷ (call (by_kernel sys_setitimer) 3 "setitimer" "dxx")
    ∷ (absent unimpl "lwp_create" "")
    ∷ (absent unimpl "lwp_exit" "")
    ∷ (absent unimpl "lwp_suspend" "")
    ∷ (absent unimpl "lwp_continue" "")
    ∷ (absent unimpl "lwp_kill" "")
    ∷ (absent unimpl "lwp_self" "")
    ∷ (absent unimpl "lwp_setprivate" "")
    ∷ (absent unimpl "lwp_getprivate" "")
    ∷ (absent unimpl "lwp_wait" "")
    ∷ (absent unimpl "lwp_mutex_unlock" "")
    ∷ (absent unimpl "lwp_mutex_lock" "")
    ∷ (absent unimpl "lwp_cond_wait" "")
    ∷ (absent unimpl "lwp_cond_signal" "")
    ∷ (absent unimpl "lwp_cond_broadcast" "")
    ∷ (call (by_kernel sys_pread64) 0xffff_fffc "pread" "dpdd")
    ∷ (call (by_kernel sys_pwrite64) 0xffff_fffc "pwrite" "dpdd")
    ∷ (call (by_solaris sol_llseek) spl "llseek" "dxxd")
    ∷ (absent unimpl "inst_sync" "")
    ∷ (absent unimpl "?" "")
    ∷ (absent unimpl "kaio" "")
    ∷ (absent unimpl "?" "")
    ∷ (absent unimpl "?" "")
    ∷ (absent unimpl "?" "")
    ∷ (absent unimpl "?" "")
    ∷ (absent unimpl "?" "")
    ∷ (absent unimpl "tsolsys" "")
    ∷ (call (by_solaris sol_acl) 4 "acl" "sddp")
    ∷ (absent unimpl "auditsys" "")
    ∷ (absent unimpl "processor_bind" "")
    ∷ (absent unimpl "processor_info" "")
    ∷ (absent unimpl "p_online" "")
    ∷ (absent unimpl "sigqueue" "")
    ∷ (absent unimpl "clock_gettime" "")
    ∷ (absent unimpl "clock_settime" "")
    ∷ (absent unimpl "clock_getres" "")
    ∷ (absent unimpl "timer_create" "")
    ∷ (absent unimpl "timer_delete" "")
    ∷ (absent unimpl "timer_settime" "")
    ∷ (absent unimpl "timer_gettime" "")
    ∷ (absent unimpl "timer_getoverrun" "")
    ∷ (call (by_kernel sys_nanosleep) 2 "nanosleep" "pp")
    ∷ (absent unimpl "modstat" "")
    ∷ (absent unimpl "facl" "")
    ∷ (call (by_kernel sys_setreuid) 2 "setreuid" "dd")
    ∷ (call (by_kernel sys_setregid) 2 "setregid" "dd")
    ∷ (absent unimpl "install_utrap" "")
    ∷ (absent unimpl "signotify" "")
    ∷ (absent unimpl "schedctl" "")
    ∷ (absent unimpl "pset" "")
    ∷ (absent unimpl "?" "")
    ∷ (absent unimpl "resolvepath" "")
    ∷ (absent unimpl "signotifywait" "")
    ∷ (absent unimpl "lwp_sigredirect" "")
    ∷ (absent unimpl "lwp_alarm" "")
    ∷ (call (by_solaris sol_getdents64) 3 "getdents64" "dxd")
    ∷ (call (by_solaris sol_mmap64) 7 "mmap64" "pxdddxx")
    ∷ (call (by_solaris sol_stat64) 2 "stat64" "sp")
    ∷ (call (by_solaris sol_lstat64) 2 "lstat64" "sp")
    ∷ (call (by_solaris sol_fstat64) 2 "fstat64" "dp")
    ∷ (absent unimpl "statvfs64" "")
    ∷ (absent unimpl "fstatvfs64" "")
    ∷ (absent unimpl "setrlimit64" "")
    ∷ (absent unimpl "getrlimit64" "")
    ∷ (absent unimpl "pread64" "")
    ∷ (absent unimpl "pwrite64" "")
    ∷ (absent unimpl "creat64" "")
    ∷ (call (by_solaris sol_open64) 3 "open64" "soo")
    ∷ (absent unimpl "rpcsys" "")
    ∷ (absent unimpl "?" "")
    ∷ (absent unimpl "?" "")
    ∷ (absent unimpl "?" "")
    ∷ (call (by_solaris solaris_socket) 3 "so_socket" "ddd")
    ∷ (call (by_solaris solaris_socketpair) 1 "so_socketpair" "dddx")
    ∷ (call (by_solaris solaris_bind) 3 "bind" "dxd")
    ∷ (call (by_solaris solaris_listen) 2 "listen" "dd")
    ∷ (call (by_solaris solaris_accept) 3 "accept" "dxx")
    ∷ (call (by_solaris solaris_connect) 3 "connect" "dxd")
    ∷ (call (by_solaris solaris_shutdown) 2 "shutdown" "dd")
    ∷ (call (by_solaris solaris_recv) 4 "recv" "dxdd")
    ∷ (call (by_solaris solaris_recvfrom) 6 "recvfrom" "dxddxd")
    ∷ (call (by_solaris solaris_recvmsg) 3 "recvmsg" "dxd")
    ∷ (call (by_solaris solaris_send) 4 "send" "dxdd")
    ∷ (call (by_solaris solaris_sendmsg) 3 "sendmsg" "dxd")
    ∷ (call (by_solaris solaris_sendto) 6 "sendto" "dxddxd")
    ∷ (call (by_solaris solaris_getpeername) 3 "getpeername" "dxx")
    ∷ (call (by_solaris solaris_getsockname) 3 "getsockname" "dxx")
    ∷ (call (by_solaris solaris_getsockopt) 5 "getsockopt" "dddxx")
    ∷ (call (by_solaris solaris_setsockopt) 5 "setsockopt" "dddxd")
    ∷ (absent unimpl "sockconfig" "")
    ∷ (absent unimpl "ntp_gettime" "")
    ∷ (absent unimpl "ntp_adjtime" "")
    ∷ (absent unimpl "?" "")
    ∷ (absent unimpl "?" "")
    ∷ (absent unimpl "?" "")
    ∷ (absent unimpl "?" "")
    ∷ (absent unimpl "?" "")
    ∷ (absent unimpl "?" "")
    ∷ []
