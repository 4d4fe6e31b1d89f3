-- ===== src/Abi/Calls/Ibcs/Upper.antt =====
-- abiemu/abi/ibcs/sysent.c: the system calls of iBCS2 from 128 on.
use linux_abiemu.Prelude.{List, [], ◌∷◌, Bool}
use linux_abiemu.Entry.{Sysent, unimpl}
use linux_abiemu.Abi.Calls.{
  Call, abi_utsname, absent, by_kernel, by_svr4, call, socksys_syscall, svr4_getpmsg,
  svr4_getrlimit, svr4_putpmsg, svr4_setegid, svr4_seteuid, svr4_setrlimit, svr4_sysconfig,
  svr4_sysinfo, sys_ftruncate, sys_getitimer, sys_gettimeofday, sys_rename, sys_setitimer,
  sys_settimeofday, sys_truncate, with_xti,
}

abbrev pub ibcs_calls_high : Bool → List (Sysent Call)
ibcs_calls_high xti =
    (call (by_svr4 svr4_getrlimit) 2 "setrlimit" "dx")
    ∷ (call (by_svr4 svr4_setrlimit) 2 "getrlimit" "dx")
    ∷ (absent 3 "lchown" "sdd")
    ∷ (absent unimpl "memcntl" "")
    ∷ (with_xti xti (by_svr4 svr4_getpmsg) 5 "getpmsg" "dxxxx")
    ∷ (with_xti xti (by_svr4 svr4_putpmsg) 5 "putpmsg" "dxxdd")
    ∷ (call (by_kernel sys_rename) 2 "rename" "ss")
    ∷ (call (by_svr4 abi_utsname) 1 "uname" "x")
    ∷ (call (by_svr4 svr4_setegid) 1 "setegid" "d")
    ∷ (call (by_svr4 svr4_sysconfig) 1 "sysconfig" "d")
    ∷ (absent unimpl "adjtime" "")
    ∷ (call (by_svr4 svr4_sysinfo) 3 "systeminfo" "dsd")
    ∷ (call (by_svr4 socksys_syscall) 1 "socksys" "x")
    ∷ (call (by_svr4 svr4_seteuid) 1 "seteuid" "d")
    ∷ (absent unimpl "?" "")
    ∷ (absent unimpl "?" "")
    ∷ (absent 2 "secsys" "dx")
    ∷ (absent 4 "filepriv" "sdxd")
    ∷ (absent 3 "procpriv" "dxd")
    ∷ (absent 3 "devstat" "sdx")
    ∷ (absent 5 "aclipc" "ddddx")
    ∷ (absent 3 "fdevstat" "ddx")
    ∷ (absent 3 "flvlfile" "ddx")
    ∷ (absent 3 "lvlfile" "sdx")
    ∷ (absent unimpl "?" "")
    ∷ (absent 2 "lvlequal" "xx")
    ∷ (absent 2 "lvlproc" "dx")
    ∷ (absent unimpl "?" "")
    ∷ (absent 4 "lvlipc" "dddx")
    ∷ (absent 4 "acl" "sddx")
    ∷ (absent unimpl "auditevt" "")
    ∷ (absent unimpl "auditctl" "")
    ∷ (absent unimpl "auditdmp" "")
    ∷ (absent unimpl "auditlog" "")
    ∷ (absent unimpl "auditbuf" "")
    ∷ (absent 2 "lvldom" "xx")
    ∷ (absent unimpl "lvlvfs" "")
    ∷ (absent 2 "mkmld" "so")
    ∷ (absent unimpl "mlddone" "")
    ∷ (absent 2 "secadvise" "xx")
    ∷ (absent unimpl "online" "")
    ∷ (call (by_kernel sys_setitimer) 3 "setitimer" "dxx")
    ∷ (call (by_kernel sys_getitimer) 2 "getitimer" "dx")
    ∷ (call (by_kernel sys_gettimeofday) 2 "gettimeofday" "xx")
    ∷ (call (by_kernel sys_settimeofday) 2 "settimeofday" "xx")
    ∷ (absent unimpl "lwpcreate" "")
    ∷ (absent unimpl "lwpexit" "")
    ∷ (absent unimpl "lwpwait" "")
    ∷ (absent unimpl "lwpself" "")
    ∷ (absent unimpl "lwpinfo" "")
    ∷ (absent unimpl "lwpprivate" "")
    ∷ (absent unimpl "processorbind" "")
    ∷ (absent unimpl "processorexbind" "")
    ∷ (absent unimpl "" "")
    ∷ (absent unimpl "sync_mailbox" "")
    ∷ (absent unimpl "prepblock" "")
    ∷ (absent unimpl "block" "")
    ∷ (absent unimpl "rdblock" "")
    ∷ (absent unimpl "unblock" "")
    ∷ (absent unimpl "cancelblock" "")
    ∷ (absent unimpl "?" "")
    ∷ (absent unimpl "pread" "")
    ∷ (absent unimpl "pwrite" "")
    ∷ (call (by_kernel sys_truncate) 2 "truncate" "sd")
    ∷ (call (by_kernel sys_ftruncate) 2 "ftruncate" "dd")
    ∷ (absent unimpl "lwpkill" "")
    ∷ (absent unimpl "sigwait" "")
    ∷ (absent unimpl "fork1" "")
    ∷ (absent unimpl "forkall" "")
    ∷ (absent unimpl "modload" "")
    ∷ (absent unimpl "moduload" "")
    ∷ (absent unimpl "modpath" "")
    ∷ (absent unimpl "modstat" "")
    ∷ (absent unimpl "modadm" "")
    ∷ (absent unimpl "getksym" "")
    ∷ (absent unimpl "lwpsuspend" "")
    ∷ (absent unimpl "lwpcontinue" "")
    ∷ (absent unimpl "?" "")
    ∷ (absent unimpl "?" "")
    ∷ (absent unimpl "?" "")
    ∷ (absent unimpl "?" "")
    ∷ (absent unimpl "?" "")
    ∷ (absent unimpl "?" "")
    ∷ (absent unimpl "?" "")
    ∷ (absent unimpl "?" "")
    ∷ (absent unimpl "?" "")
    ∷ (absent unimpl "?" "")
    ∷ (absent unimpl "?" "")
    ∷ []
