-- ===== src/Abi/Calls/Table.antt =====
-- The system call tables of all personalities, and which of their counts the dispatcher carries out.
use linux_abiemu.Prelude.{ℕ, Bool, true, some, List, ◌≡◌, get_elem?, all_of, all_of_sound}
use linux_abiemu.Entry.{Sysent}
use linux_abiemu.Abi.Calls.{Call}
use linux_abiemu.Abi.Personas.{Persona, ibcs, isc, uw7, wyse, solaris, sco, xenix}
use linux_abiemu.Abi.Calls.Ibcs.{ibcs_syscall_table}
use linux_abiemu.Abi.Calls.Isc.{isc_syscall_table, sysisc_table}
use linux_abiemu.Abi.Calls.Sco.{sco_syscall_table}
use linux_abiemu.Abi.Calls.Solaris.{solaris_syscall_table}
use linux_abiemu.Abi.Calls.Uw7.{uw7_syscall_table}
use linux_abiemu.Abi.Calls.Wyse.{wyse_syscall_table, wyse_nfscall_table, wyse_tcpcall_table}

-- A personality's own table, with XTI compiled in or not, or one of the tables of subdispatchers.
pub data Table : Type 0 where
  calls_of : Persona → Bool → Table
  sysisc nfscall tcpcall : Table

abbrev pub syscall_table : Persona → Bool → List (Sysent Call)
syscall_table ibcs xti = ibcs_syscall_table xti
syscall_table isc xti = isc_syscall_table xti
syscall_table uw7 xti = uw7_syscall_table xti
syscall_table wyse xti = wyse_syscall_table
syscall_table solaris xti = solaris_syscall_table xti
syscall_table sco xti = sco_syscall_table
syscall_table xenix xti = sco_syscall_table

abbrev pub entries : Table → List (Sysent Call)
entries (calls_of p xti) = syscall_table p xti
entries sysisc = sysisc_table
entries nfscall = wyse_nfscall_table
entries tcpcall = wyse_tcpcall_table

-- A test that every table passes, by evaluation.
pub each_table :
    (test : Table → Sysent Call → Bool)
    → ((t : Table) → all_of (test t) (entries t) ≡ true)
    → (t : Table) (i : ℕ) (ap : Sysent Call) → get_elem? (entries t) i ≡ some ap
    → test t ap ≡ true
each_table test h t i ap e = all_of_sound (test t) (entries t) i ap (h t) e
