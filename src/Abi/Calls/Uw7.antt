-- ===== src/Abi/Calls/Uw7.antt =====
-- abiemu/abi/uw7/sysent.c: the system call table of UnixWare 7.
mod Upper
use linux_abiemu.Abi.Calls.Uw7.Upper.{uw7_calls_high}
use linux_abiemu.Prelude.{List, [], ◌∷◌, ◌++◌, Bool}
use linux_abiemu.Entry.{Sysent, spl, fast, unimpl}
use linux_abiemu.Abi.Calls.{
  Call, abi_brk, abi_exec, abi_fork, abi_getgid, abi_getpid, abi_getuid, abi_kill, abi_pipe,
  abi_procids, abi_read, abi_sigaction, abi_sigfunc, abi_sigprocmask, abi_sigsuspend, abi_time,
  abi_wait, absent, by_kernel, by_svr4, by_uw7, call, lcall7_syscall, svr4_fcntl, svr4_fpathconf,
  svr4_fstat, svr4_fstatfs, svr4_fstatvfs, svr4_getdents, svr4_getmsg, svr4_hrtsys, svr4_lstat,
  svr4_mknod, svr4_mmap, svr4_msgsys, svr4_open, svr4_pathconf, svr4_putmsg, svr4_semsys,
  svr4_shmsys, svr4_sigpending, svr4_stat, svr4_statfs, svr4_statvfs, svr4_sysfs, svr4_sysi86,
  svr4_ulimit, svr4_waitid, svr4_xmknod, sys_acct, sys_alarm, sys_chdir, sys_chmod, sys_chown,
  sys_chroot, sys_close, sys_creat, sys_dup, sys_exit, sys_fchdir, sys_fchmod, sys_fchown,
  sys_fsync, sys_getgroups, sys_link, sys_lseek, sys_mkdir, sys_mprotect, sys_munmap, sys_nice,
  sys_pause, sys_poll, sys_readlink, sys_readv, sys_rmdir, sys_setgid, sys_setgroups, sys_setuid,
  sys_stime, sys_symlink, sys_sync, sys_times, sys_umask, sys_umount, sys_unlink, sys_utime,
  sys_write, sys_writev, uw7_access, uw7_context, uw7_fxstat, uw7_gtty, uw7_ioctl, uw7_lxstat,
  uw7_sigaltstack, uw7_stty, uw7_xstat, v7_utsname,
}

abbrev pub uw7_calls_low : List (Sysent Call)
uw7_calls_low =
    (call (by_svr4 lcall7_syscall) fast "syscall" "")
    ∷ (call (by_kernel sys_exit) 1 "exit" "d")
    ∷ (call (by_svr4 abi_fork) spl "fork" "")
    ∷ (call (by_svr4 abi_read) 3 "read" "dpd")
    ∷ (call (by_kernel sys_write) 3 "write" "dpd")
    ∷ (call (by_svr4 svr4_open) 3 "open" "soo")
    ∷ (call (by_kernel sys_close) 1 "close" "d")
    ∷ (call (by_svr4 abi_wait) spl "wait" "xxx")
    ∷ (call (by_kernel sys_creat) 2 "creat" "so")
    ∷ (call (by_kernel sys_link) 2 "link" "ss")
    ∷ (call (by_kernel sys_unlink) 1 "unlink" "s")
    ∷ (call (by_svr4 abi_exec) spl "exec" "sxx")
    ∷ (call (by_kernel sys_chdir) 1 "chdir" "s")
    ∷ (call (by_svr4 abi_time) 0 "time" "")
    ∷ (call (by_svr4 svr4_mknod) 3 "mknod" "soo")
    ∷ (call (by_kernel sys_chmod) 2 "chmod" "so")
    ∷ (call (by_kernel sys_chown) 3 "chown" "sdd")
    ∷ (call (by_svr4 abi_brk) 1 "brk/break" "x")
    ∷ (call (by_svr4 svr4_stat) 2 "stat" "sp")
    ∷ (call (by_kernel sys_lseek) 3 "seek/lseek" "ddd")
    ∷ (call (by_svr4 abi_getpid) spl "getpid" "")
    ∷ (absent unimpl "mount" "")
    ∷ (call (by_kernel sys_umount) 1 "umount" "s")
    ∷ (call (by_kernel sys_setuid) 1 "setuid" "d")
    ∷ (call (by_svr4 abi_getuid) spl "getuid" "")
    ∷ (call (by_kernel sys_stime) 1 "stime" "d")
    ∷ (absent 4 "ptrace" "")
    ∷ (call (by_kernel sys_alarm) 1 "alarm" "d")
    ∷ (call (by_svr4 svr4_fstat) 2 "fstat" "dp")
    ∷ (call (by_kernel sys_pause) 0 "pause" "")
    ∷ (call (by_kernel sys_utime) 2 "utime" "xx")
    ∷ (call (by_uw7 uw7_stty) 2 "stty" "dd")
    ∷ (call (by_uw7 uw7_gtty) 2 "gtty" "dd")
    ∷ (call (by_uw7 uw7_access) 2 "access" "so")
    ∷ (call (by_kernel sys_nice) 1 "nice" "d")
    ∷ (call (by_svr4 svr4_statfs) 4 "statfs" "spdd")
    ∷ (call (by_kernel sys_sync) 0 "sync" "")
    ∷ (call (by_svr4 abi_kill) 2 "kill" "dd")
    ∷ (call (by_svr4 svr4_fstatfs) 4 "fstatfs" "dpdd")
    ∷ (call (by_svr4 abi_procids) spl "procids" "d")
    ∷ (absent unimpl "cxenix" "")
    ∷ (call (by_kernel sys_dup) 1 "dup" "d")
    ∷ (call (by_svr4 abi_pipe) spl "pipe" "")
    ∷ (call (by_kernel sys_times) 1 "times" "p")
    ∷ (absent 4 "" "")
    ∷ (absent unimpl "plock" "")
    ∷ (call (by_kernel sys_setgid) 1 "setgid" "d")
    ∷ (call (by_svr4 abi_getgid) spl "getgid" "")
    ∷ (call (by_svr4 abi_sigfunc) fast "sigfunc" "xxx")
    ∷ (call (by_svr4 svr4_msgsys) spl "msgsys" "dxddd")
    ∷ (call (by_svr4 svr4_sysi86) 3 "sysi86/sys3b" "d")
    ∷ (call (by_kernel sys_acct) 1 "acct/sysacct" "x")
    ∷ (call (by_svr4 svr4_shmsys) fast "shmsys" "ddxo")
    ∷ (call (by_svr4 svr4_semsys) spl "semsys" "dddx")
    ∷ (call (by_uw7 uw7_ioctl) spl "ioctl" "dxx")
    ∷ (absent 3 "uadmin" "xxx")
    ∷ (absent unimpl "unimpl/exch" "")
    ∷ (call (by_svr4 v7_utsname) 1 "utsys" "x")
    ∷ (call (by_kernel sys_fsync) 1 "fsync" "d")
    ∷ (call (by_svr4 abi_exec) spl "execv" "spp")
    ∷ (call (by_kernel sys_umask) 1 "umask" "o")
    ∷ (call (by_kernel sys_chroot) 1 "chroot" "s")
    ∷ (call (by_svr4 svr4_fcntl) 3 "fcntl" "dxx")
    ∷ (call (by_svr4 svr4_ulimit) 2 "ulimit" "xx")
    ∷ (absent unimpl "cg_ids" "")
    ∷ (absent unimpl "cg_processors" "")
    ∷ (absent unimpl "cg_info" "")
    ∷ (absent unimpl "cg_bind" "")
    ∷ (absent unimpl "cg_current" "")
    ∷ (absent unimpl "cg_memloc" "")
    ∷ (absent unimpl "unimpl/advfs" "")
    ∷ (absent unimpl "unimpl/unadvfs" "")
    ∷ (absent unimpl "unimpl/rmount" "")
    ∷ (absent unimpl "unimpl/rumount" "")
    ∷ (absent unimpl "unimpl/rfstart" "")
    ∷ (absent unimpl "unimpl 75" "")
    ∷ (absent unimpl "unimpl/rdebug" "")
    ∷ (absent unimpl "unimpl/rfstop" "")
    ∷ (absent unimpl "rfsys" "")
    ∷ (call (by_kernel sys_rmdir) 1 "rmdir" "s")
    ∷ (call (by_kernel sys_mkdir) 2 "mkdir" "so")
    ∷ (call (by_svr4 svr4_getdents) 3 "getdents" "dxd")
    ∷ (absent unimpl "unimpl/libattach" "")
    ∷ (absent unimpl "unimpl/libdetach" "")
    ∷ (call (by_svr4 svr4_sysfs) 3 "sysfs" "dxx")
    ∷ (call (by_svr4 svr4_getmsg) spl "getmsg" "dxxx")
    ∷ (call (by_svr4 svr4_putmsg) spl "putmsg" "dxxd")
    ∷ (call (by_kernel sys_poll) 3 "poll" "xdd")
    ∷ (call (by_svr4 svr4_lstat) 2 "lstat" "sp")
    ∷ (call (by_kernel sys_symlink) 2 "symlink" "ss")
    ∷ (call (by_kernel sys_readlink) 3 "readlink" "spd")
    ∷ (call (by_kernel sys_setgroups) 2 "setgroups" "dp")
    ∷ (call (by_kernel sys_getgroups) 2 "getgroups" "dp")
    ∷ (call (by_kernel sys_fchmod) 2 "fchmod" "do")
    ∷ (call (by_kernel sys_fchown) 3 "fchown" "ddd")
    ∷ (call (by_svr4 abi_sigprocmask) 3 "sigprocmask" "dxx")
    ∷ (call (by_svr4 abi_sigsuspend) spl "sigsuspend" "x")
    ∷ (call (by_uw7 uw7_sigaltstack) 2 "sigaltstack" "xx")
    ∷ (call (by_svr4 abi_sigaction) 3 "sigaction" "dxx")
    ∷ (call (by_svr4 svr4_sigpending) 2 "sigpending" "dp")
    ∷ (call (by_uw7 uw7_context) spl "ucontext" "")
    ∷ (absent unimpl "evsys" "")
    ∷ (absent unimpl "evtrapret" "")
    ∷ (call (by_svr4 svr4_statvfs) 2 "statvfs" "sp")
    ∷ (call (by_svr4 svr4_fstatvfs) 2 "fstatvfs" "dp")
    ∷ (absent unimpl "reserved 105" "")
    ∷ (absent unimpl "nfssys" "")
    ∷ (call (by_svr4 svr4_waitid) 4 "waitid" "ddxd")
    ∷ (absent 3 "sigsendsys" "ddd")
    ∷ (call (by_svr4 svr4_hrtsys) spl "hrtsys" "xxx")
    ∷ (absent 3 "acancel" "dxd")
    ∷ (absent unimpl "async" "")
    ∷ (absent unimpl "priocntlsys" "")
    ∷ (call (by_svr4 svr4_pathconf) 2 "pathconf" "sd")
    ∷ (absent 3 "mincore" "xdx")
    ∷ (call (by_svr4 svr4_mmap) 6 "mmap" "xxxxdx")
    ∷ (call (by_kernel sys_mprotect) 3 "mprotect" "xdx")
    ∷ (call (by_kernel sys_munmap) 2 "munmap" "xd")
    ∷ (call (by_svr4 svr4_fpathconf) 2 "fpathconf" "dd")
    ∷ (call (by_svr4 abi_fork) spl "vfork" "")
    ∷ (call (by_kernel sys_fchdir) 1 "fchdir" "d")
    ∷ (call (by_kernel sys_readv) 3 "readv" "dxd")
    ∷ (call (by_kernel sys_writev) 3 "writev" "dxd")
    ∷ (call (by_uw7 uw7_xstat) 3 "xstat" "dsx")
    ∷ (call (by_uw7 uw7_lxstat) 3 "lxstat" "dsx")
    ∷ (call (by_uw7 uw7_fxstat) 3 "fxstat" "ddx")
    ∷ (call (by_svr4 svr4_xmknod) 4 "xmknod" "dsox")
    ∷ (absent spl "syslocal" "d")
    ∷ []

abbrev pub uw7_syscall_table : Bool → List (Sysent Call)
uw7_syscall_table xti = uw7_calls_low ++ uw7_calls_high xti
