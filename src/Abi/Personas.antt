-- ===== src/Abi/Personas.antt =====
-- The seven execution domains that the personality modules register, and their common handler.
use linux_abiemu.Prelude.{ℕ, Option, none, some, List, neg, get_elem?, bit_and}
use linux_abiemu.Kernel.Domain.{ExecDomain, iabi_errors, einval}
use linux_abiemu.Util.Regs.{Regs, set_error}
use linux_abiemu.Entry.{Sysent, Syscalls, lcall7_dispatch}
use linux_abiemu.Abi.Ibcs.{ibcs_err_table, ibcs_exec_domain}
use linux_abiemu.Abi.Isc.{isc_err_table, isc_exec_domain}
use linux_abiemu.Abi.Uw7.{uw7_err_table, uw7_exec_domain}
use linux_abiemu.Abi.Wyse.{wyse_err_table, wyse_exec_domain}
use linux_abiemu.Abi.Solaris.{solaris_err_table, solaris_exec_domain}
use linux_abiemu.Abi.Sco.{sco_err_table, sco_exec_domain, xenix_exec_domain}

pub data Persona : Type 0 where
  ibcs isc uw7 wyse solaris sco xenix : Persona

abbrev pub domain_of : Persona → ℕ → ℕ → ExecDomain
domain_of ibcs handler module_of = ibcs_exec_domain handler module_of
domain_of isc handler module_of = isc_exec_domain handler module_of
domain_of uw7 handler module_of = uw7_exec_domain handler module_of
domain_of wyse handler module_of = wyse_exec_domain handler module_of
domain_of solaris handler module_of = solaris_exec_domain handler module_of
domain_of sco handler module_of = sco_exec_domain handler module_of
domain_of xenix handler module_of = xenix_exec_domain handler module_of

abbrev pub err_table_of : Persona → List ℕ
err_table_of ibcs = ibcs_err_table
err_table_of isc = isc_err_table
err_table_of uw7 = uw7_err_table
err_table_of wyse = wyse_err_table
err_table_of solaris = solaris_err_table
err_table_of sco = sco_err_table
err_table_of xenix = sco_err_table

module _ {Fn : Type 0} (host : Syscalls Fn) (domain : ExecDomain) (table : List (Sysent Fn)) where
  open host use {World}

  abbrev pub handle_entry : Regs → World → Option (Sysent Fn) → Regs × World
  handle_entry regs w none = (set_error regs (iabi_errors domain (neg einval)), w)
  handle_entry regs w (some ap) = lcall7_dispatch host domain regs ap 1 w

  -- `sco_lcall7` and its likes, each over its own table: `sysno = regs->eax & 0xff`.
  unfoldable pub persona_lcall7 : Regs → World → Regs × World
  persona_lcall7 regs w = handle_entry regs w (get_elem? table (bit_and regs.eax 0xff))
