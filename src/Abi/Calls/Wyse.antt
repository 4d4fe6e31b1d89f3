-- ===== src/Abi/Calls/Wyse.antt =====
-- abiemu/abi/wyse/sysent.c: the system call table of Wyse V/386.
use linux_abiemu.Prelude.{List, [], ◌∷◌, ◌++◌}
use linux_abiemu.Entry.{Sysent, spl, fast, unimpl}
use linux_abiemu.Abi.Calls.{
  Call, abi_brk, abi_exec, abi_fork, abi_getgid, abi_getpid, abi_getuid, abi_kill, abi_mkdir,
  abi_pipe, abi_procids, abi_read, abi_sigfunc, abi_time, abi_wait, absent, by_kernel, by_local,
  by_svr4, by_wyse, call, lcall7_syscall, svr4_fcntl, svr4_fstat, svr4_fstatfs, svr4_getdents,
  svr4_getmsg, svr4_ioctl, svr4_lstat, svr4_mknod, svr4_msgsys, svr4_open, svr4_putmsg, svr4_semsys,
  svr4_shmsys, svr4_stat, svr4_statfs, svr4_sysfs, svr4_sysi86, svr4_ulimit, sys_accept, sys_access,
  sys_acct, sys_alarm, sys_bind, sys_chdir, sys_chmod, sys_chown, sys_chroot, sys_close,
  sys_connect, sys_creat, sys_dup, sys_exit, sys_fsync, sys_getpeername, sys_getsockname, sys_link,
  sys_listen, sys_lseek, sys_nice, sys_pause, sys_poll, sys_readlink, sys_rmdir, sys_select,
  sys_setdomainname, sys_setgid, sys_sethostname, sys_setregid, sys_setreuid, sys_setuid,
  sys_shutdown, sys_socketpair, sys_stime, sys_symlink, sys_sync, sys_times, sys_umask, sys_umount,
  sys_unlink, sys_utime, sys_write, v7_utsname, wyse_class_nfs, wyse_class_tcp, wyse_getdomainname,
  wyse_gethostname, wyse_getsockopt, wyse_ptrace, wyse_recv, wyse_recvfrom, wyse_send, wyse_sendto,
  wyse_setsockopt, wyse_socket, wyse_wait3,
}

abbrev pub wyse_nfscall_table : List (Sysent Call)
wyse_nfscall_table =
    (absent unimpl "nfs_svc" "")
    ∷ (absent unimpl "async_daemon" "")
    ∷ (absent unimpl "nfs_getfh" "")
    ∷ (absent unimpl "nfsmount" "")
    ∷ []

abbrev pub wyse_tcpcall_table : List (Sysent Call)
wyse_tcpcall_table =
    (call (by_kernel sys_select) 5 "select" "dxxxx")
    ∷ (call (by_wyse wyse_socket) 3 "socket" "ddd")
    ∷ (call (by_kernel sys_connect) 3 "connect" "dxd")
    ∷ (call (by_kernel sys_accept) 3 "accept" "dxx")
    ∷ (call (by_wyse wyse_send) 4 "send" "dxdd")
    ∷ (call (by_wyse wyse_recv) 4 "recv" "dxdd")
    ∷ (call (by_kernel sys_bind) 3 "bind" "dxd")
    ∷ (call (by_wyse wyse_setsockopt) 5 "setsockopt" "dddxx")
    ∷ (call (by_kernel sys_listen) 2 "listen" "dd")
    ∷ (absent 3 "recvmsg" "dxd")
    ∷ (absent 3 "sendmsg" "dxd")
    ∷ (call (by_wyse wyse_getsockopt) 5 "getsockopt" "dddxx")
    ∷ (call (by_wyse wyse_recvfrom) 6 "recvfrom" "dxddxd")
    ∷ (call (by_wyse wyse_sendto) 6 "sendto" "dxddxd")
    ∷ (call (by_kernel sys_shutdown) 2 "shutdown" "dd")
    ∷ (call (by_kernel sys_socketpair) 4 "socketpair" "dddx")
    ∷ (absent unimpl "trace" "")
    ∷ (call (by_kernel sys_getpeername) 3 "getpeername" "dxx")
    ∷ (call (by_kernel sys_getsockname) spl "getsockname" "dxx")
    ∷ (call (by_wyse wyse_wait3) 1 "wait3" "x")
    ∷ []

abbrev pub wyse_calls_low : List (Sysent Call)
wyse_calls_low =
    (call (by_svr4 lcall7_syscall) fast "syscall" "")
    ∷ (call (by_kernel sys_exit) 1 "exit" "d")
    ∷ (call (by_svr4 abi_fork) spl "fork" "")
    ∷ (call (by_svr4 abi_read) 3 "read" "dpd")
    ∷ (call (by_kernel sys_write) 3 "write" "dpd")
    ∷ (call (by_svr4 svr4_open) 3 "open" "soo")
    ∷ (call (by_kernel sys_close) 1 "close" "d")
    ∷ (call (by_svr4 abi_wait) spl "wait" "xxx")
    ∷ (call (by_kernel sys_creat) 2 "creat" "so")
    ∷ (call (by_kernel sys_link) 2 "link" "ss")
    ∷ (call (by_kernel sys_unlink) 1 "unlink" "s")
    ∷ (call (by_svr4 abi_exec) spl "exec" "sxx")
    ∷ (call (by_kernel sys_chdir) 1 "chdir" "s")
    ∷ (call (by_svr4 abi_time) 0 "time" "")
    ∷ (call (by_svr4 svr4_mknod) 3 "mknod" "soo")
    ∷ (call (by_kernel sys_chmod) 2 "chmod" "so")
    ∷ (call (by_kernel sys_chown) 3 "chown" "sdd")
    ∷ (call (by_svr4 abi_brk) 1 "brk/break" "x")
    ∷ (call (by_svr4 svr4_stat) 2 "stat" "sp")
    ∷ (call (by_kernel sys_lseek) 3 "seek/lseek" "ddd")
    ∷ (call (by_svr4 abi_getpid) spl "getpid" "")
    ∷ (absent unimpl "mount" "")
    ∷ (call (by_kernel sys_umount) 1 "umount" "s")
    ∷ (call (by_kernel sys_setuid) 1 "setuid" "d")
    ∷ (call (by_svr4 abi_getuid) spl "getuid" "")
    ∷ (call (by_kernel sys_stime) 1 "stime" "d")
    ∷ (call (by_wyse wyse_ptrace) 4 "ptrace" "xdxx")
    ∷ (call (by_kernel sys_alarm) 1 "alarm" "d")
    ∷ (call (by_svr4 svr4_fstat) 2 "fstat" "dp")
    ∷ (call (by_kernel sys_pause) 0 "pause" "")
    ∷ (call (by_kernel sys_utime) 2 "utime" "xx")
    ∷ (absent unimpl "stty" "")
    ∷ (absent unimpl "gtty" "")
    ∷ (call (by_kernel sys_access) 2 "access" "so")
    ∷ (call (by_kernel sys_nice) 1 "nice" "d")
    ∷ (call (by_svr4 svr4_statfs) 4 "statfs" "spdd")
    ∷ (call (by_kernel sys_sync) 0 "sync" "")
    ∷ (call (by_svr4 abi_kill) 2 "kill" "dd")
    ∷ (call (by_svr4 svr4_fstatfs) 4 "fstatfs" "dpdd")
    ∷ (call (by_svr4 abi_procids) spl "procids" "d")
    ∷ (absent unimpl "cxenix" "")
    ∷ (call (by_kernel sys_dup) 1 "dup" "d")
    ∷ (call (by_svr4 abi_pipe) spl "pipe" "")
    ∷ (call (by_kernel sys_times) 1 "times" "p")
    ∷ (absent 4 "prof" "xxxx")
    ∷ (absent unimpl "lock/plock" "")
    ∷ (call (by_kernel sys_setgid) 1 "setgid" "d")
    ∷ (call (by_svr4 abi_getgid) spl "getgid" "")
    ∷ (call (by_svr4 abi_sigfunc) fast "sigfunc" "xxx")
    ∷ (call (by_svr4 svr4_msgsys) spl "msgsys" "dxddd")
    ∷ (call (by_svr4 svr4_sysi86) 3 "sysi86/sys3b" "d")
    ∷ (call (by_kernel sys_acct) 1 "acct/sysacct" "x")
    ∷ (call (by_svr4 svr4_shmsys) fast "shmsys" "ddxo")
    ∷ (call (by_svr4 svr4_semsys) spl "semsys" "dddx")
    ∷ (call (by_svr4 svr4_ioctl) spl "ioctl" "dxx")
    ∷ (absent 3 "uadmin" "xxx")
    ∷ (absent unimpl "?" "")
    ∷ (call (by_svr4 v7_utsname) 1 "utsys" "x")
    ∷ (call (by_kernel sys_fsync) 1 "fsync" "d")
    ∷ (call (by_svr4 abi_exec) spl "execv" "spp")
    ∷ (call (by_kernel sys_umask) 1 "umask" "o")
    ∷ (call (by_kernel sys_chroot) 1 "chroot" "s")
    ∷ (call (by_svr4 svr4_fcntl) 3 "fcntl" "dxx")
    ∷ (call (by_svr4 svr4_ulimit) 2 "ulimit" "xx")
    ∷ (absent unimpl "?" "")
    ∷ (absent unimpl "?" "")
    ∷ (absent unimpl "?" "")
    ∷ (absent unimpl "?" "")
    ∷ (absent unimpl "?" "")
    ∷ (absent unimpl "?" "")
    ∷ (absent unimpl "advfs" "")
    ∷ (absent unimpl "unadvfs" "")
    ∷ (absent unimpl "rmount" "")
    ∷ (absent unimpl "rumount" "")
    ∷ (absent unimpl "rfstart" "")
    ∷ (absent unimpl "?" "")
    ∷ (absent unimpl "rdebug" "")
    ∷ (absent unimpl "rfstop" "")
    ∷ (absent unimpl "rfsys" "")
    ∷ (call (by_kernel sys_rmdir) 1 "rmdir" "s")
    ∷ (call (by_svr4 abi_mkdir) 2 "mkdir" "so")
    ∷ (call (by_svr4 svr4_getdents) 3 "getdents" "dxd")
    ∷ (absent unimpl "libattach" "")
    ∷ (absent unimpl "libdetach" "")
    ∷ (call (by_svr4 svr4_sysfs) 3 "sysfs" "dxx")
    ∷ (call (by_svr4 svr4_getmsg) spl "getmsg" "dxxx")
    ∷ (call (by_svr4 svr4_putmsg) spl "putmsg" "dxxd")
    ∷ (call (by_kernel sys_poll) 3 "poll" "xdd")
    ∷ (absent unimpl "nosys88" "")
    ∷ (absent unimpl "nosys89" "")
    ∷ (absent unimpl "nosys90" "")
    ∷ (absent unimpl "nosys91" "")
    ∷ (absent unimpl "nosys92" "")
    ∷ (absent unimpl "nosys93" "")
    ∷ (absent unimpl "nosys94" "")
    ∷ (absent unimpl "nosys95" "")
    ∷ (absent unimpl "nosys96" "")
    ∷ (absent unimpl "nosys97" "")
    ∷ (absent unimpl "nosys98" "")
    ∷ (absent unimpl "nosys99" "")
    ∷ (absent unimpl "nosys100" "")
    ∷ (absent unimpl "nosys101" "")
    ∷ (absent unimpl "nosys102" "")
    ∷ (absent unimpl "nosys103" "")
    ∷ (absent unimpl "nosys104" "")
    ∷ (absent unimpl "nosys105" "")
    ∷ (absent unimpl "nosys106" "")
    ∷ (absent unimpl "nosys107" "")
    ∷ (absent unimpl "nosys108" "")
    ∷ (absent unimpl "nosys109" "")
    ∷ (absent unimpl "nosys110" "")
    ∷ (absent unimpl "nosys111" "")
    ∷ (absent unimpl "nosys112" "")
    ∷ (absent unimpl "nosys113" "")
    ∷ (absent unimpl "nosys114" "")
    ∷ (absent unimpl "nosys115" "")
    ∷ (absent unimpl "nosys116" "")
    ∷ (absent unimpl "nosys117" "")
    ∷ (absent unimpl "nosys118" "")
    ∷ (absent unimpl "nosys119" "")
    ∷ (absent unimpl "nosys120" "")
    ∷ (absent unimpl "nosys121" "")
    ∷ (absent unimpl "nosys122" "")
    ∷ (absent unimpl "nosys123" "")
    ∷ (absent unimpl "nosys124" "")
    ∷ (absent unimpl "nosys125" "")
    ∷ (absent unimpl "nosys126" "")
    ∷ (absent unimpl "nosys127" "")
    ∷ []

abbrev pub wyse_calls_high : List (Sysent Call)
wyse_calls_high =
    (call (by_svr4 svr4_lstat) 2 "lstat" "sp")
    ∷ (call (by_kernel sys_readlink) 3 "readlink" "spd")
    ∷ (call (by_kernel sys_symlink) 2 "symlink" "ss")
    ∷ (call (by_local wyse_class_tcp) fast "" "")
    ∷ (call (by_local wyse_class_nfs) fast "" "")
    ∷ (call (by_wyse wyse_gethostname) 2 "gethostname" "xd")
    ∷ (call (by_kernel sys_sethostname) 2 "sethostname" "sd")
    ∷ (call (by_wyse wyse_getdomainname) 2 "getdomainname" "xd")
    ∷ (call (by_kernel sys_setdomainname) 2 "setdomainname" "sd")
    ∷ (absent unimpl "?" "")
    ∷ (call (by_kernel sys_setreuid) 2 "setreuid" "dd")
    ∷ (call (by_kernel sys_setregid) 2 "setregid" "dd")
    ∷ []

abbrev pub wyse_syscall_table : List (Sysent Call)
wyse_syscall_table = wyse_calls_low ++ wyse_calls_high
