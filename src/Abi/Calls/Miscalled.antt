-- ===== src/Abi/Calls/Miscalled.antt =====
-- Entries of the tables that do not do what their names say.
use linux_abiemu.Prelude.{ℕ, Bool, true, false, ◌≡◌, ◌⊎◌, inl, inr, refl, pos, bit_and}
use linux_abiemu.Util.Regs.{Regs, set_error}
use linux_abiemu.Entry.{Syscalls, lcall7_dispatch, dispatch_call, get_args, return_error}
use linux_abiemu.Abi.Calls.{Call, by_svr4, svr4_getpmsg}
use linux_abiemu.Abi.Personas.{Persona, ibcs, isc, uw7, solaris, persona_lcall7, domain_of}
use linux_abiemu.Abi.Errors.{iabi_errors_lem}
use linux_abiemu.Abi.Calls.Table.{syscall_table}

module _ (host : Syscalls Call) (handler module_of : ℕ) (regs : Regs) (w : host.World) where
  -- pread (173) and pwrite (174) of Solaris fail with 89, its ENOSYS, and the functions that the
  -- table names for them are not called.
  pub solaris_pread_refused :
      (xti : Bool)
      → ((bit_and regs.eax 0xff ≡ 173) ⊎ (bit_and regs.eax 0xff ≡ 174))
      → persona_lcall7 host (domain_of solaris handler module_of) (syscall_table solaris xti) regs w
        ≡ (set_error regs (pos 89), w)
  unfolding persona_lcall7 lcall7_dispatch dispatch_call return_error
  solaris_pread_refused true (inl e) = rw (e, iabi_errors_lem solaris handler module_of 38) refl
  solaris_pread_refused false (inl e) = rw (e, iabi_errors_lem solaris handler module_of 38) refl
  solaris_pread_refused true (inr e) = rw (e, iabi_errors_lem solaris handler module_of 38) refl
  solaris_pread_refused false (inr e) = rw (e, iabi_errors_lem solaris handler module_of 38) refl

  -- The personalities with STREAMS calls.
  pub data HasPmsg : Persona → Type 0 where
    on_ibcs : HasPmsg ibcs
    on_isc : HasPmsg isc
    on_uw7 : HasPmsg uw7
    on_solaris : HasPmsg solaris

  -- In IBCS2, ISC, UnixWare 7 and Solaris with XTI compiled in, call 132 (getpmsg) runs
  -- svr4_getpmsg on the five words above the return address, the first of them its
  -- `struct pt_regs *`, and not on the registers.
  pub getpmsg_given_words :
      (p : Persona)
      → HasPmsg p
      → bit_and regs.eax 0xff ≡ 132
      → persona_lcall7 host (domain_of p handler module_of) (syscall_table p true) regs w ≡ (
          let args = get_args host (domain_of p handler module_of) 5 0 regs 1 w in
          let (error, w') = host.call_args (by_svr4 svr4_getpmsg) args w in
          (return_error (domain_of p handler module_of) regs error, w'))
  unfolding persona_lcall7 lcall7_dispatch dispatch_call
  getpmsg_given_words p on_ibcs e = rw e refl
  getpmsg_given_words p on_isc e = rw e refl
  getpmsg_given_words p on_uw7 e = rw e refl
  getpmsg_given_words p on_solaris e = rw e refl
