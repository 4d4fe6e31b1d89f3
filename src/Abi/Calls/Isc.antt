-- ===== src/Abi/Calls/Isc.antt =====
-- abiemu/abi/isc/sysent.c: the system call table of ISC.
mod Upper
use linux_abiemu.Abi.Calls.Isc.Upper.{isc_calls_high}
use linux_abiemu.Prelude.{List, [], ◌∷◌, ◌++◌, Bool}
use linux_abiemu.Entry.{Sysent, spl, fast, unimpl}
use linux_abiemu.Abi.Calls.{
  Call, abi_brk, abi_exec, abi_fork, abi_getgid, abi_getpid, abi_getuid, abi_kill, abi_mkdir,
  abi_pipe, abi_procids, abi_read, abi_sigaction, abi_sigfunc, abi_sigprocmask, abi_sigsuspend,
  abi_time, abi_wait, absent, by_kernel, by_local, by_svr4, call, ibcs_sysconf, isc_setostype,
  isc_sysisc, lcall7_syscall, svr4_context, svr4_fcntl, svr4_fpathconf, svr4_fstat, svr4_fstatfs,
  svr4_fstatvfs, svr4_fxstat, svr4_getdents, svr4_getmsg, svr4_hrtsys, svr4_ioctl, svr4_lstat,
  svr4_lxstat, svr4_mknod, svr4_mmap, svr4_msgsys, svr4_open, svr4_pathconf, svr4_putmsg,
  svr4_semsys, svr4_shmsys, svr4_sigpending, svr4_stat, svr4_statfs, svr4_statvfs, svr4_sysfs,
  svr4_sysi86, svr4_ulimit, svr4_xmknod, svr4_xstat, sys_access, sys_acct, sys_alarm, sys_chdir,
  sys_chmod, sys_chown, sys_chroot, sys_close, sys_creat, sys_dup, sys_exit, sys_fchdir, sys_fchmod,
  sys_fchown, sys_fsync, sys_getgroups, sys_getgroups16, sys_link, sys_lseek, sys_mprotect,
  sys_munmap, sys_nice, sys_pause, sys_poll, sys_readlink, sys_readv, sys_rename, sys_rmdir,
  sys_setgid, sys_setgroups, sys_setgroups16, sys_setpgid, sys_setsid, sys_setuid, sys_stime,
  sys_symlink, sys_sync, sys_times, sys_umask, sys_umount, sys_unlink, sys_utime, sys_waitpid,
  sys_write, sys_writev, v7_utsname,
}

abbrev pub sysisc_table : List (Sysent Call)
sysisc_table =
    (absent unimpl "sysisc0" "")
    ∷ (call (by_local isc_setostype) 1 "setostype" "d")
    ∷ (call (by_kernel sys_rename) 2 "rename" "ss")
    ∷ (call (by_svr4 abi_sigaction) 3 "sigaction" "dxx")
    ∷ (call (by_svr4 abi_sigprocmask) 3 "sicprocmask" "dxx")
    ∷ (absent 1 "sigpending" "x")
    ∷ (call (by_kernel sys_getgroups16) 2 "getgroups" "dp")
    ∷ (call (by_kernel sys_setgroups16) 2 "setgroups" "dp")
    ∷ (absent unimpl "pathconf" "")
    ∷ (absent unimpl "fpathconf" "")
    ∷ (call (by_svr4 ibcs_sysconf) 1 "sysconf" "d")
    ∷ (call (by_kernel sys_waitpid) 3 "waitpid" "dxx")
    ∷ (call (by_kernel sys_setsid) 0 "setsid" "")
    ∷ (call (by_kernel sys_setpgid) 2 "setpgid" "dd")
    ∷ (absent unimpl "adduser" "")
    ∷ (absent unimpl "setuser" "")
    ∷ (absent unimpl "sysisc16" "")
    ∷ (call (by_svr4 abi_sigsuspend) spl "sigsuspend" "x")
    ∷ (call (by_kernel sys_symlink) 2 "symlink" "ss")
    ∷ (call (by_kernel sys_readlink) 3 "readlink" "spd")
    ∷ (absent unimpl "getmajor" "")
    ∷ []

abbrev pub isc_calls_low : List (Sysent Call)
isc_calls_low =
    (call (by_svr4 lcall7_syscall) fast "syscall" "")
    ∷ (call (by_kernel sys_exit) 1 "exit" "d")
    ∷ (call (by_svr4 abi_fork) spl "fork" "")
    ∷ (call (by_svr4 abi_read) 3 "read" "dpd")
    ∷ (call (by_kernel sys_write) 3 "write" "dpd")
    ∷ (call (by_svr4 svr4_open) 3 "open" "soo")
    ∷ (call (by_kernel sys_close) 1 "close" "d")
    ∷ (call (by_svr4 abi_wait) spl "wait" "xxx")
    ∷ (call (by_kernel sys_creat) 2 "creat" "so")
    ∷ (call (by_kernel sys_link) 2 "link" "ss")
    ∷ (call (by_kernel sys_unlink) 1 "unlink" "s")
    ∷ (call (by_svr4 abi_exec) spl "exec" "sxx")
    ∷ (call (by_kernel sys_chdir) 1 "chdir" "s")
    ∷ (call (by_svr4 abi_time) 0 "time" "")
    ∷ (call (by_svr4 svr4_mknod) 3 "mknod" "soo")
    ∷ (call (by_kernel sys_chmod) 2 "chmod" "so")
    ∷ (call (by_kernel sys_chown) 3 "chown" "sdd")
    ∷ (call (by_svr4 abi_brk) 1 "brk/break" "x")
    ∷ (call (by_svr4 svr4_stat) 2 "stat" "sp")
    ∷ (call (by_kernel sys_lseek) 3 "seek/lseek" "ddd")
    ∷ (call (by_svr4 abi_getpid) spl "getpid" "")
    ∷ (absent unimpl "mount" "")
    ∷ (call (by_kernel sys_umount) 1 "umount" "s")
    ∷ (call (by_kernel sys_setuid) 1 "setuid" "d")
    ∷ (call (by_svr4 abi_getuid) spl "getuid" "")
    ∷ (call (by_kernel sys_stime) 1 "stime" "d")
    ∷ (absent unimpl "ptrace" "")
    ∷ (call (by_kernel sys_alarm) 1 "alarm" "d")
    ∷ (call (by_svr4 svr4_fstat) 2 "fstat" "dp")
    ∷ (call (by_kernel sys_pause) 0 "pause" "")
    ∷ (call (by_kernel sys_utime) 2 "utime" "xx")
    ∷ (absent unimpl "stty" "")
    ∷ (absent unimpl "gtty" "")
    ∷ (call (by_kernel sys_access) 2 "access" "so")
    ∷ (call (by_kernel sys_nice) 1 "nice" "d")
    ∷ (call (by_svr4 svr4_statfs) 4 "statfs" "spdd")
    ∷ (call (by_kernel sys_sync) 0 "sync" "")
    ∷ (call (by_svr4 abi_kill) 2 "kill" "dd")
    ∷ (call (by_svr4 svr4_fstatfs) 4 "fstatfs" "dpdd")
    ∷ (call (by_svr4 abi_procids) spl "procids" "d")
    ∷ (absent unimpl "cxenix" "")
    ∷ (call (by_kernel sys_dup) 1 "dup" "d")
    ∷ (call (by_svr4 abi_pipe) spl "pipe" "")
    ∷ (call (by_kernel sys_times) 1 "times" "p")
    ∷ (absent unimpl "prof" "")
    ∷ (absent unimpl "lock/plock" "")
    ∷ (call (by_kernel sys_setgid) 1 "setgid" "d")
    ∷ (call (by_svr4 abi_getgid) spl "getgid" "")
    ∷ (call (by_svr4 abi_sigfunc) fast "sigfunc" "xxx")
    ∷ (call (by_svr4 svr4_msgsys) spl "msgsys" "dxddd")
    ∷ (call (by_svr4 svr4_sysi86) 3 "sysi86" "d")
    ∷ (call (by_kernel sys_acct) 1 "acct/sysacct" "x")
    ∷ (call (by_svr4 svr4_shmsys) fast "shmsys" "ddxo")
    ∷ (call (by_svr4 svr4_semsys) spl "semsys" "dddx")
    ∷ (call (by_svr4 svr4_ioctl) spl "ioctl" "dxx")
    ∷ (absent 3 "uadmin" "xxx")
    ∷ (absent unimpl "?" "")
    ∷ (call (by_svr4 v7_utsname) 1 "utsys" "x")
    ∷ (call (by_kernel sys_fsync) 1 "fsync" "d")
    ∷ (call (by_svr4 abi_exec) spl "execv" "spp")
    ∷ (call (by_kernel sys_umask) 1 "umask" "o")
    ∷ (call (by_kernel sys_chroot) 1 "chroot" "s")
    ∷ (call (by_svr4 svr4_fcntl) 3 "fcntl" "dxx")
    ∷ (call (by_svr4 svr4_ulimit) 2 "ulimit" "xx")
    ∷ (absent unimpl "?" "")
    ∷ (absent unimpl "?" "")
    ∷ (absent unimpl "?" "")
    ∷ (absent unimpl "?" "")
    ∷ (absent unimpl "?" "")
    ∷ (absent unimpl "?" "")
    ∷ (absent unimpl "advfs" "")
    ∷ (absent unimpl "unadvfs" "")
    ∷ (absent unimpl "rmount" "")
    ∷ (absent unimpl "rumount" "")
    ∷ (absent unimpl "rfstart" "")
    ∷ (absent unimpl "?" "")
    ∷ (absent unimpl "rdebug" "")
    ∷ (absent unimpl "rfstop" "")
    ∷ (absent unimpl "rfsys" "")
    ∷ (call (by_kernel sys_rmdir) 1 "rmdir" "s")
    ∷ (call (by_svr4 abi_mkdir) 2 "mkdir" "so")
    ∷ (call (by_svr4 svr4_getdents) 3 "getdents" "dxd")
    ∷ (absent unimpl "libattach" "")
    ∷ (absent unimpl "libdetach" "")
    ∷ (call (by_svr4 svr4_sysfs) 3 "sysfs" "dxx")
    ∷ (call (by_svr4 svr4_getmsg) spl "getmsg" "dxxx")
    ∷ (call (by_svr4 svr4_putmsg) spl "putmsg" "dxxd")
    ∷ (call (by_kernel sys_poll) 3 "poll" "xdd")
    ∷ (call (by_svr4 svr4_lstat) 2 "lstat" "sp")
    ∷ (call (by_kernel sys_symlink) 2 "symlink" "ss")
    ∷ (call (by_kernel sys_readlink) 3 "readlink" "spd")
    ∷ (call (by_kernel sys_setgroups) 2 "setgroups" "dp")
    ∷ (call (by_kernel sys_getgroups) 2 "getgroups" "dp")
    ∷ (call (by_kernel sys_fchmod) 2 "fchmod" "do")
    ∷ (call (by_kernel sys_fchown) 3 "fchown" "ddd")
    ∷ (call (by_svr4 abi_sigprocmask) 3 "sigprocmask" "dxx")
    ∷ (call (by_svr4 abi_sigsuspend) spl "sigsuspend" "x")
    ∷ (absent 2 "sigaltstack" "xx")
    ∷ (call (by_svr4 abi_sigaction) 3 "sigaction" "dxx")
    ∷ (call (by_svr4 svr4_sigpending) 2 "sigpending" "dp")
    ∷ (call (by_svr4 svr4_context) spl "context" "")
    ∷ (absent unimpl "evsys" "")
    ∷ (absent unimpl "evtrapret" "")
    ∷ (call (by_svr4 svr4_statvfs) 2 "statvfs" "sp")
    ∷ (call (by_svr4 svr4_fstatvfs) 2 "fstatvfs" "dp")
    ∷ (call (by_local isc_sysisc) fast "sysisc" "")
    ∷ (absent unimpl "nfssys" "")
    ∷ (absent 4 "waitid" "ddxd")
    ∷ (absent 3 "sigsendsys" "ddd")
    ∷ (call (by_svr4 svr4_hrtsys) spl "hrtsys" "xxx")
    ∷ (absent 3 "acancel" "dxd")
    ∷ (absent unimpl "async" "")
    ∷ (absent unimpl "priocntlsys" "")
    ∷ (call (by_svr4 svr4_pathconf) 2 "pathconf" "sd")
    ∷ (absent 3 "mincore" "xdx")
    ∷ (call (by_svr4 svr4_mmap) 6 "mmap" "xxxxdx")
    ∷ (call (by_kernel sys_mprotect) 3 "mprotect" "xdx")
    ∷ (call (by_kernel sys_munmap) 2 "munmap" "xd")
    ∷ (call (by_svr4 svr4_fpathconf) 2 "fpathconf" "dd")
    ∷ (call (by_svr4 abi_fork) spl "vfork" "")
    ∷ (call (by_kernel sys_fchdir) 1 "fchdir" "d")
    ∷ (call (by_kernel sys_readv) 3 "readv" "dxd")
    ∷ (call (by_kernel sys_writev) 3 "writev" "dxd")
    ∷ (call (by_svr4 svr4_xstat) 3 "xstat" "dsx")
    ∷ (call (by_svr4 svr4_lxstat) 3 "lxstat" "dsx")
    ∷ (call (by_svr4 svr4_fxstat) 3 "fxstat" "ddx")
    ∷ (call (by_svr4 svr4_xmknod) 4 "xmknod" "dsox")
    ∷ (absent unimpl "syslocal" "d")
    ∷ []

abbrev pub isc_syscall_table : Bool → List (Sysent Call)
isc_syscall_table xti = isc_calls_low ++ isc_calls_high xti
