-- ===== src/Svr4/Signal/Refused.antt =====
-- Signal calls that are refused, and what the program sees of it.
use linux_abiemu.Prelude.{
  ℕ, true, bit_and, none, some, ◌≡◌, refl, ◌∙◌, ◌⊎◌, inl, inr, ℤ, pos, neg, is_neg,
}
use linux_abiemu.Kernel.Domain.{ExecDomain, iabi_errors, einval, eperm}
use linux_abiemu.Util.Map.{Sigsets, sig_mask}
use linux_abiemu.Util.Regs.{Regs, set_error, get_syscall_parameter}
use linux_abiemu.Abi.Personas.{Persona, domain_of}
use linux_abiemu.Abi.Errors.{iabi_errors_neg}
use linux_abiemu.Svr4.Signal.{
  abi_mapsig, abi_signo, signal_number, hidden_param, cleared, sigfunc_switch, abi_sigfunc,
  abi_signal, abi_sigset, abi_sighold, abi_sigrelse, abi_sigignore, abi_sigpause, with_signo,
  signal_body, sigset_body, mask_one, sigignore_body, sigpause_body,
}
use linux_abiemu.Svr4.Signal.Host.{SignalHost, sig_block, sig_unblock}

-- The functions that system call 48 selects: signal, sigset, sighold, sigrelse, sigignore, sigpause.
abbrev pub IsFunction : ℕ → Type 0
IsFunction f =
    (((f ≡ 0) ⊎ (f ≡ 0x100)) ⊎ ((f ≡ 0x200) ⊎ (f ≡ 0x400))) ⊎ ((f ≡ 0x800) ⊎ (f ≡ 0x1000))

module _ (sets : Sigsets) (host : SignalHost sets) (domain : ExecDomain) where
  open host use {World, sys_sigsuspend, verify_area, copy_from_user}

  -- The signal that the program names has no number for Linux.
  abbrev pub IsUnknown : Regs → World → Type 0
  IsUnknown regp w =
      abi_mapsig domain (bit_and (signal_number sets host domain regp w) 0xff) ≡ neg 1

  signo_refused :
      (regp : Regs) (w : World)
      → IsUnknown regp w
      → abi_signo sets host domain regp w ≡ (set_error regp (iabi_errors domain (pos einval)), none)
  unfolding abi_signo
  signo_refused regp w h = rw h refl

  module _ (regp : Regs) (w : World) (h : IsUnknown regp w) where
    refused :
        (f : Regs → ℤ → World → Regs × World)
        → with_signo sets host domain f w (abi_signo sets host domain regp w)
          ≡ (set_error regp (iabi_errors domain (pos einval)), w)
    refused f = rw (signo_refused regp w h) refl

    switch_refused :
        (f : ℕ)
        → IsFunction f
        → sigfunc_switch sets host domain f regp w
          ≡ (set_error regp (iabi_errors domain (pos einval)), w)
    unfolding sigfunc_switch abi_signal abi_sigset abi_sighold abi_sigrelse abi_sigignore
        abi_sigpause
    switch_refused f (inl (inl (inl e))) = rw e (refused (signal_body sets host domain))
    switch_refused f (inl (inl (inr e))) = rw e (refused (sigset_body sets host domain))
    switch_refused f (inl (inr (inl e))) = rw e (refused (mask_one sets host domain sig_block))
    switch_refused f (inl (inr (inr e))) = rw e (refused (mask_one sets host domain sig_unblock))
    switch_refused f (inr (inl e)) = rw e (refused (sigignore_body sets host domain))
    switch_refused f (inr (inr e)) = rw e (refused (sigpause_body sets host domain))

  -- When the personality has no number of Linux for the signal, each of the six functions of system
  -- call 48 returns EINVAL in the program's numbering, with the carry flag, and changes nothing
  -- else.
  pub sigfunc_refused :
      (regp : Regs) (w : World)
      → IsFunction (hidden_param sets host domain regp w)
      → IsUnknown regp w
      → abi_sigfunc sets host domain regp w
        ≡ (pos 0, set_error (cleared sets host domain regp) (iabi_errors domain (pos einval)), w)
  unfolding abi_sigfunc get_syscall_parameter
  sigfunc_refused regp w f h =
      rw
        (switch_refused (cleared sets host domain regp) w h (hidden_param sets host domain regp w)
          f)
        refl

  sigpause_failed :
      (regs : Regs) (w : World) (sig : ℤ)
      → abi_signo sets host domain regs w ≡ (regs, some sig)
      → is_neg (sys_sigsuspend (sig_mask sig) w).0 ≡ true
      → abi_sigpause sets host domain regs w
        ≡ (set_error regs (iabi_errors domain (neg 1)), (sys_sigsuspend (sig_mask sig) w).1)
  unfolding abi_sigpause
  sigpause_failed regs w sig h e = rw (h, e) refl

-- When sigpause waits for a signal that the personality has and the kernel returns an error, any
-- error, the program sees the carry flag and error 1 (EPERM), in every personality.
pub sigpause_eperm :
    (p : Persona) (handler module_of : ℕ) (sets : Sigsets) (host : SignalHost sets) (regs : Regs)
    (w : host.World) (sig : ℤ)
    → abi_signo sets host (domain_of p handler module_of) regs w ≡ (regs, some sig)
    → is_neg (host.sys_sigsuspend (sig_mask sig) w).0 ≡ true
    → abi_sigpause sets host (domain_of p handler module_of) regs w
      ≡ (set_error regs (pos eperm), (host.sys_sigsuspend (sig_mask sig) w).1)
sigpause_eperm p handler module_of sets host regs w sig h e =
    sigpause_failed sets host (domain_of p handler module_of) regs w sig h e
    ∙ rw (iabi_errors_neg p handler module_of 0) refl
