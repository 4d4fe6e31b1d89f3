-- ===== src/Abi/Calls/Uw7/Upper.antt =====
-- abiemu/abi/uw7/sysent.c: the system calls of UnixWare 7 from 128 on.
use linux_abiemu.Prelude.{List, [], ◌∷◌, Bool}
use linux_abiemu.Entry.{Sysent, spl, unimpl}
use linux_abiemu.Abi.Calls.{
  Call, abi_fork, abi_utsname, absent, by_kernel, by_svr4, by_uw7, call, socksys_syscall,
  svr4_getpmsg, svr4_getrlimit, svr4_putpmsg, svr4_setrlimit, svr4_sysconfig, svr4_sysinfo,
  sys_ftruncate, sys_getitimer, sys_gettimeofday, sys_lchown, sys_rename, sys_setitimer,
  sys_settimeofday, sys_truncate, uw7_creat64, uw7_fstatvfs64, uw7_ftruncate64, uw7_getrlimit64,
  uw7_lseek64, uw7_mldmode, uw7_mmap64, uw7_pread, uw7_pread64, uw7_pwrite, uw7_pwrite64,
  uw7_setegid, uw7_seteuid, uw7_setrlimit64, uw7_sleep, uw7_statvfs64, uw7_truncate64, with_xti,
}

abbrev pub uw7_calls_high : Bool → List (Sysent Call)
uw7_calls_high xti =
    (call (by_svr4 svr4_getrlimit) 2 "setrlimit" "dx")
    ∷ (call (by_svr4 svr4_setrlimit) 2 "getrlimit" "dx")
    ∷ (call (by_kernel sys_lchown) 3 "lchown" "sdd")
    ∷ (absent unimpl "memcntl" "")
    ∷ (with_xti xti (by_svr4 svr4_getpmsg) 5 "getpmsg" "dxxxx")
    ∷ (with_xti xti (by_svr4 svr4_putpmsg) 5 "putpmsg" "dxxdd")
    ∷ (call (by_kernel sys_rename) 2 "rename" "ss")
    ∷ (call (by_svr4 abi_utsname) 1 "uname" "x")
    ∷ (call (by_uw7 uw7_setegid) 1 "setegid" "d")
    ∷ (call (by_svr4 svr4_sysconfig) 1 "sysconfig" "d")
    ∷ (absent unimpl "adjtime" "")
    ∷ (call (by_svr4 svr4_sysinfo) 3 "systeminfo" "dsd")
    ∷ (call (by_svr4 socksys_syscall) 1 "socksys_syscall" "x")
    ∷ (call (by_uw7 uw7_seteuid) 1 "seteuid" "d")
    ∷ (absent unimpl "unimpl 142" "")
    ∷ (absent unimpl "keyctl" "")
    ∷ (absent 2 "secsys" "dx")
    ∷ (absent 4 "filepriv" "sdxd")
    ∷ (absent 3 "procpriv" "dxd")
    ∷ (absent 3 "devstat" "sdx")
    ∷ (absent 5 "aclipc" "ddddx")
    ∷ (absent 3 "fdevstat" "ddx")
    ∷ (absent 3 "flvlfile" "ddx")
    ∷ (absent 3 "lvlfile" "sdx")
    ∷ (absent unimpl "sendv" "")
    ∷ (absent 2 "lvlequal" "xx")
    ∷ (absent 2 "lvlproc" "dx")
    ∷ (absent unimpl "unimpl 155" "")
    ∷ (absent 4 "lvlipc" "dddx")
    ∷ (absent 4 "acl" "sddx")
    ∷ (absent unimpl "auditevt" "")
    ∷ (absent unimpl "auditctl" "")
    ∷ (absent unimpl "auditdmp" "")
    ∷ (absent unimpl "auditlog" "")
    ∷ (absent unimpl "auditbuf" "")
    ∷ (absent 2 "lvldom" "xx")
    ∷ (absent unimpl "lvlvfs" "")
    ∷ (absent 2 "mkmld" "so")
    ∷ (call (by_uw7 uw7_mldmode) 1 "mldmode" "d")
    ∷ (absent 2 "secadvise" "xx")
    ∷ (absent unimpl "online" "")
    ∷ (call (by_kernel sys_setitimer) 3 "setitimer" "dxx")
    ∷ (call (by_kernel sys_getitimer) 2 "getitimer" "dx")
    ∷ (call (by_kernel sys_gettimeofday) 2 "gettimeofday" "xx")
    ∷ (call (by_kernel sys_settimeofday) 2 "settimeofday" "xx")
    ∷ (absent unimpl "lwpcreate" "")
    ∷ (absent unimpl "lwpexit" "")
    ∷ (absent unimpl "lwpwait" "")
    ∷ (absent unimpl "lwpself" "")
    ∷ (absent unimpl "lwpinfo" "")
    ∷ (absent unimpl "lwpprivate" "")
    ∷ (absent unimpl "processorbind" "")
    ∷ (absent unimpl "processorexbind" "")
    ∷ (absent unimpl "unimpl 181" "")
    ∷ (absent unimpl "sendv64" "")
    ∷ (absent unimpl "prepblock" "")
    ∷ (absent unimpl "block" "")
    ∷ (absent unimpl "rdblock" "")
    ∷ (absent unimpl "unblock" "")
    ∷ (absent unimpl "cancelblock" "")
    ∷ (absent unimpl "unimpl 188" "")
    ∷ (call (by_uw7 uw7_pread) 4 "pread" "dsdd")
    ∷ (call (by_uw7 uw7_pwrite) 4 "pwrite" "dsdd")
    ∷ (call (by_kernel sys_truncate) 2 "truncate" "sd")
    ∷ (call (by_kernel sys_ftruncate) 2 "ftruncate" "dd")
    ∷ (absent unimpl "lwpkill" "")
    ∷ (absent unimpl "sigwait" "")
    ∷ (call (by_svr4 abi_fork) spl "fork1" "")
    ∷ (call (by_svr4 abi_fork) spl "forkall" "")
    ∷ (absent unimpl "modload" "")
    ∷ (absent unimpl "moduload" "")
    ∷ (absent unimpl "modpath" "")
    ∷ (absent unimpl "modstat" "")
    ∷ (absent unimpl "modadm" "")
    ∷ (absent unimpl "getksym" "")
    ∷ (absent unimpl "lwpsuspend" "")
    ∷ (absent unimpl "lwpcontinue" "")
    ∷ (absent unimpl "priocntllst" "")
    ∷ (call (by_uw7 uw7_sleep) 1 "sleep" "d")
    ∷ (absent unimpl "lwp_sema_wait" "")
    ∷ (absent unimpl "lwp_sema_post" "")
    ∷ (absent unimpl "lwp_sema_trywait" "")
    ∷ (absent unimpl "reserved 210" "")
    ∷ (absent unimpl "unused 211" "")
    ∷ (absent unimpl "unused 212" "")
    ∷ (absent unimpl "unused 213" "")
    ∷ (absent unimpl "unused 214" "")
    ∷ (absent unimpl "unused 215" "")
    ∷ (call (by_uw7 uw7_fstatvfs64) 2 "fstatvfs64" "dp")
    ∷ (call (by_uw7 uw7_statvfs64) 2 "statvfs64" "sp")
    ∷ (call (by_uw7 uw7_ftruncate64) 3 "ftruncate64" "sdd")
    ∷ (call (by_uw7 uw7_truncate64) 3 "truncate64" "ddd")
    ∷ (call (by_uw7 uw7_getrlimit64) 2 "getrlimit64" "dp")
    ∷ (call (by_uw7 uw7_setrlimit64) 2 "setrlimit64" "dp")
    ∷ (call (by_uw7 uw7_lseek64) 4 "lseek64" "dddd")
    ∷ (call (by_uw7 uw7_mmap64) 7 "mmap64" "xxxxdxx")
    ∷ (call (by_uw7 uw7_pread64) 5 "pread64" "dsddd")
    ∷ (call (by_uw7 uw7_pwrite64) 5 "pwrite64" "dsddd")
    ∷ (call (by_uw7 uw7_creat64) 2 "creat64" "so")
    ∷ (absent unimpl "dshmsys" "")
    ∷ (absent unimpl "invlpg" "")
    ∷ (absent unimpl "rfork1" "")
    ∷ (absent unimpl "rforkall" "")
    ∷ (absent unimpl "rexecve" "")
    ∷ (absent unimpl "migrate" "")
    ∷ (absent unimpl "kill3" "")
    ∷ (absent unimpl "ssisys" "")
    ∷ (absent unimpl "xaccept" "")
    ∷ (absent unimpl "xbind" "")
    ∷ (absent unimpl "xbindresvport" "")
    ∷ (absent unimpl "xconnect" "")
    ∷ (absent unimpl "xgetsockaddr" "")
    ∷ (absent unimpl "xgetsockopt" "")
    ∷ (absent unimpl "xlisten" "")
    ∷ (absent unimpl "xrecvmsg" "")
    ∷ (absent unimpl "xsendmsg" "")
    ∷ (absent unimpl "xsetsockaddr" "")
    ∷ (absent unimpl "xsetsockopt" "")
    ∷ (absent unimpl "xshutdown" "")
    ∷ (absent unimpl "xsocket" "")
    ∷ (absent unimpl "xsocketpair" "")
    ∷ (absent unimpl "unused 249" "")
    ∷ (absent unimpl "unused 250" "")
    ∷ []
