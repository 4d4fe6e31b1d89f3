-- ===== src/Entry/Cxenix.antt =====
-- abiemu/abi/cxenix/sysent.c: the subdispatcher of the Xenix calls.
pub mod Served
use Prim.Native.String.{String}
use linux_abiemu.Prelude.{ℕ, ◌/◌, ◌^◌, Option, none, some, List, [], ◌∷◌, neg, get_elem?}
use linux_abiemu.Kernel.Domain.{ExecDomain, iabi_errors, einval}
use linux_abiemu.Util.Regs.{Regs, set_error}
use linux_abiemu.Entry.{Sysent, Syscalls, spl, unimpl, lcall7_dispatch}

-- The functions that the table names.
pub data CxenixCall : Type 0 where
  xnx_locking xnx_creatsem xnx_opensem xnx_sigsem xnx_waitsem xnx_nbwaitsem xnx_rdchk : CxenixCall
  sys_ftruncate xnx_ftime xnx_nap xnx_sdget xnx_sdfree xnx_sdenter xnx_sdleave xnx_sdgetv :
      CxenixCall
  xnx_sdwaitv xnx_proctl xnx_execseg xnx_unexecseg sys_select xnx_eaccess xnx_paccess : CxenixCall
  xnx_sigaction abi_sigprocmask xnx_sigpending abi_sigsuspend sys_getgroups16 : CxenixCall
  sys_setgroups16 ibcs_sysconf xnx_pathconf xnx_fpathconf sys_rename xnx_utsname : CxenixCall
  sys_getitimer sys_setitimer : CxenixCall

abbrev entry : Option CxenixCall → ℕ → String → String → Sysent CxenixCall
entry f n name args = record { se_syscall = f; se_nargs = n; se_name = name; se_args = args }

abbrev pub cxenix_table : List (Sysent CxenixCall)
cxenix_table =
    (entry none unimpl "syscall" "")
    ∷ (entry (some xnx_locking) 3 "locking" "ddd")
    ∷ (entry (some xnx_creatsem) 2 "creatsem" "sd")
    ∷ (entry (some xnx_opensem) 1 "opensem" "s")
    ∷ (entry (some xnx_sigsem) 1 "sigsem" "d")
    ∷ (entry (some xnx_waitsem) 1 "waitsem" "d")
    ∷ (entry (some xnx_nbwaitsem) 1 "nbwaitsem" "d")
    ∷ (entry (some xnx_rdchk) 1 "rdchk" "d")
    ∷ (entry none unimpl "stkgro" "")
    ∷ (entry none unimpl "?" "")
    ∷ (entry (some sys_ftruncate) 2 "chsize" "dd")
    ∷ (entry (some xnx_ftime) 1 "ftime" "x")
    ∷ (entry (some xnx_nap) 1 "nap" "d")
    ∷ (entry (some xnx_sdget) 4 "sdget" "sddd")
    ∷ (entry (some xnx_sdfree) 1 "sdfree" "x")
    ∷ (entry (some xnx_sdenter) 2 "sdenter" "xd")
    ∷ (entry (some xnx_sdleave) 1 "sdleave" "x")
    ∷ (entry (some xnx_sdgetv) 1 "sdgetv" "x")
    ∷ (entry (some xnx_sdwaitv) 2 "sdwaitv" "xd")
    ∷ (entry none unimpl "brkctl" "")
    ∷ (entry none unimpl "?" "")
    ∷ (entry none 2 "sco-getcwd?" "dx")
    ∷ (entry none unimpl "?" "")
    ∷ (entry none unimpl "?" "")
    ∷ (entry none unimpl "?" "")
    ∷ (entry none unimpl "?" "")
    ∷ (entry none unimpl "?" "")
    ∷ (entry none unimpl "?" "")
    ∷ (entry none unimpl "?" "")
    ∷ (entry none unimpl "?" "")
    ∷ (entry none unimpl "?" "")
    ∷ (entry none unimpl "?" "")
    ∷ (entry (some xnx_proctl) 3 "proctl" "ddx")
    ∷ (entry (some xnx_execseg) 2 "execseg" "xd")
    ∷ (entry (some xnx_unexecseg) 1 "unexecseg" "x")
    ∷ (entry none unimpl "?" "")
    ∷ (entry (some sys_select) 5 "select" "dxxxx")
    ∷ (entry (some xnx_eaccess) 2 "eaccess" "so")
    ∷ (entry (some xnx_paccess) 5 "paccess" "dddds")
    ∷ (entry (some xnx_sigaction) 3 "sigaction" "dxx")
    ∷ (entry (some abi_sigprocmask) 3 "sigprocmask" "dxx")
    ∷ (entry (some xnx_sigpending) 1 "sigpending" "x")
    ∷ (entry (some abi_sigsuspend) spl "sigsuspend" "x")
    ∷ (entry (some sys_getgroups16) 2 "getgroups" "dx")
    ∷ (entry (some sys_setgroups16) 2 "setgroups" "dx")
    ∷ (entry (some ibcs_sysconf) 1 "sysconf" "d")
    ∷ (entry (some xnx_pathconf) 2 "pathconf" "sd")
    ∷ (entry (some xnx_fpathconf) 2 "fpathconf" "dd")
    ∷ (entry (some sys_rename) 2 "rename" "ss")
    ∷ (entry none unimpl "?" "")
    ∷ (entry (some xnx_utsname) 1 "utsname" "x")
    ∷ (entry none unimpl "?" "")
    ∷ (entry none unimpl "?" "")
    ∷ (entry none unimpl "?" "")
    ∷ (entry none unimpl "?" "")
    ∷ (entry (some sys_getitimer) 2 "getitimer" "dx")
    ∷ (entry (some sys_setitimer) 3 "setitimer" "dxx")
    ∷ []

module _ (host : Syscalls CxenixCall) (domain : ExecDomain) where
  open host use {World}

  abbrev pub dispatch_entry : Regs → World → Option (Sysent CxenixCall) → Regs × World
  dispatch_entry regs w none = (set_error regs (iabi_errors domain (neg einval)), w)
  dispatch_entry regs w (some ap) = lcall7_dispatch host domain regs ap 1 w

  -- `sysno = regs->eax >> 8`; a number past the table is an error.
  unfoldable pub cxenix : Regs → World → Regs × World
  cxenix regs w = dispatch_entry regs w (get_elem? cxenix_table (regs.eax / 2 ^ 8))
