-- ===== src/Svr4/Signal/Sets.antt =====
-- Signals held and released: the blocked set of the process.
use linux_abiemu.Prelude.{
  ℕ, suc, Bool, false, not, ◌&&◌, ◌||◌, some, ◌≡◌, ◌≢◌, refl, sym, ap, ◌∙◌, ℤ, pos, ◌==◌, ==_of_ne,
  ==_iff, arith,
}
use linux_abiemu.Kernel.Domain.{ExecDomain}
use linux_abiemu.Util.Map.{Sigsets}
use linux_abiemu.Util.Regs.{Regs}
use linux_abiemu.Svr4.Signal.{
  abi_signo, second_param, abi_sig_handler, deactivate_signal, mask_one, abi_sighold, abi_sigrelse,
  abi_sigset,
}
use linux_abiemu.Svr4.Signal.Host.{SignalHost, sig_block, sig_unblock}

-- What sigprocmask(2) of the kernel is documented to do to the set of blocked signals. SIGKILL (9)
-- and SIGSTOP (19) are never blocked.
pub record MaskLaws (sets : Sigsets) (host : SignalHost sets) : Type 0 where
  pub blocked : host.World → sets.Sigset
  pub block_ok :
      (s : sets.Sigset) (w : host.World)
      → (host.sys_rt_sigprocmask (pos sig_block) (some s) w).0 ≡ pos 0
  pub unblock_ok :
      (s : sets.Sigset) (w : host.World)
      → (host.sys_rt_sigprocmask (pos sig_unblock) (some s) w).0 ≡ pos 0
  pub blocks :
      (s : sets.Sigset) (w : host.World) (k : ℕ)
      → suc k ≢ 9
      → suc k ≢ 19
      → sets.sigismember (blocked (host.sys_rt_sigprocmask (pos sig_block) (some s) w).2) (suc k)
        ≡ (sets.sigismember s (suc k) || sets.sigismember (blocked w) (suc k))
  pub unblocks :
      (s : sets.Sigset) (w : host.World) (k : ℕ)
      → sets.sigismember (blocked (host.sys_rt_sigprocmask (pos sig_unblock) (some s) w).2) (suc k)
        ≡ (not (sets.sigismember s (suc k)) && sets.sigismember (blocked w) (suc k))

module _ (sets : Sigsets) (host : SignalHost sets) (laws : MaskLaws sets host)
    (domain : ExecDomain) where
  open sets use {Sigset, sigemptyset, sigaddset, sigismember, member_empty, member_add}
  open host use {World, sys_rt_sigprocmask}

  -- Is signal k + 1 blocked?
  abbrev pub is_blocked : ℕ → World → Bool
  is_blocked k w = sigismember (laws.blocked w) (suc k)

  one_member : (a k : ℕ) → sigismember (sigaddset sigemptyset (pos (suc a))) (suc k) ≡ (a == k)
  one_member a k = ground (arith, member_add sigemptyset a k, member_empty k)

  mask_one_regs :
      (action : ℕ) (regp : Regs) (sig : ℤ) (w : World)
      → (sys_rt_sigprocmask (pos action) (some (sigaddset sigemptyset sig)) w).0 ≡ pos 0
      → (mask_one sets host domain action regp sig w).0 ≡ regp
  unfolding mask_one
  mask_one_regs action regp sig w h = rw h refl

  mask_one_world :
      (action : ℕ) (regp : Regs) (sig : ℤ) (w : World)
      → (mask_one sets host domain action regp sig w).1
        ≡ (sys_rt_sigprocmask (pos action) (some (sigaddset sigemptyset sig)) w).2
  unfolding mask_one
  mask_one_world action regp sig w = refl

  held :
      (regp : Regs) (w : World) (a k : ℕ)
      → suc k ≢ 9
      → suc k ≢ 19
      → is_blocked k (mask_one sets host domain sig_block regp (pos (suc a)) w).1
        ≡ ((a == k) || is_blocked k w)
  held regp w a k h h' =
      ap (is_blocked k) (mask_one_world sig_block regp (pos (suc a)) w)
      ∙ laws.blocks _ w k h h'
      ∙ ap (λ b. b || is_blocked k w) (one_member a k)

  released :
      (regp : Regs) (w : World) (a k : ℕ)
      → is_blocked k (mask_one sets host domain sig_unblock regp (pos (suc a)) w).1
        ≡ (not (a == k) && is_blocked k w)
  released regp w a k =
      ap (is_blocked k) (mask_one_world sig_unblock regp (pos (suc a)) w)
      ∙ laws.unblocks _ w k
      ∙ ap (λ b. not b && is_blocked k w) (one_member a k)

  module _ (regp : Regs) (w : World) (a : ℕ)
      (named : abi_signo sets host domain regp w ≡ (regp, some (pos (suc a)))) where
    sighold_mask :
        abi_sighold sets host domain regp w
        ≡ mask_one sets host domain sig_block regp (pos (suc a)) w
    unfolding abi_sighold
    sighold_mask = rw named refl

    sigrelse_mask :
        abi_sigrelse sets host domain regp w
        ≡ mask_one sets host domain sig_unblock regp (pos (suc a)) w
    unfolding abi_sigrelse
    sigrelse_mask = rw named refl

    -- With a kernel that keeps `MaskLaws`, sighold leaves the registers, and after it a signal,
    -- other than SIGKILL and SIGSTOP, is blocked exactly when it was before or is the signal that
    -- the program names, in the kernel's numbering.
    pub sighold_blocks :
        (k : ℕ)
        → suc k ≢ 9
        → suc k ≢ 19
        → ((abi_sighold sets host domain regp w).0 ≡ regp)
          × (is_blocked k (abi_sighold sets host domain regp w).1 ≡ ((a == k) || is_blocked k w))
    sighold_blocks k h h' = (
      ap (λ r. r.0) sighold_mask ∙ mask_one_regs sig_block regp _ w (laws.block_ok _ w),
      ap (λ r. is_blocked k r.1) sighold_mask ∙ held regp w a k h h',
    )

    -- With a kernel that keeps `MaskLaws` and a signal that the personality has: sigset with
    -- SIG_HOLD is sighold; with any other handler, after it the signal is not blocked and any other
    -- signal is as setting the handler left it.
    pub sigset_cases :
        (second_param sets host domain regp w ≡ 2
          → abi_sigset sets host domain regp w ≡ abi_sighold sets host domain regp w)
        × ((k : ℕ)
            → second_param sets host domain regp w ≢ 2
            → is_blocked k (abi_sigset sets host domain regp w).1 ≡ (
                not (a == k)
                && is_blocked k
                    (abi_sig_handler sets host domain regp
                      (pos (suc a))
                      (second_param sets host domain regp w)
                      false
                      (deactivate_signal sets host domain (pos (suc a)) w)).1))
    unfolding abi_sigset
    sigset_cases = (
      λ h. rw (named, (==_iff (second_param sets host domain regp w) 2).1 h) (sym sighold_mask),
      λ k h. rw (named, ==_of_ne (second_param sets host domain regp w) 2 h) (released _ _ a k),
    )

  -- With a kernel that keeps `MaskLaws`, a program that calls sighold and then sigrelse with the
  -- same signal: both calls leave the registers as they find them; after sighold a signal, other
  -- than SIGKILL and SIGSTOP, is blocked exactly when it was before or is the one named; and after
  -- sigrelse the named signal is not blocked and every other one is blocked or not as it was before
  -- the two calls.
  pub sigrelse-sighold :
      (regp regp' : Regs) (w : World) (a k : ℕ)
      → abi_signo sets host domain regp w ≡ (regp, some (pos (suc a)))
      → abi_signo sets host domain regp' (abi_sighold sets host domain regp w).1
        ≡ (regp', some (pos (suc a)))
      → suc k ≢ 9
      → suc k ≢ 19
      → ((abi_sighold sets host domain regp w).0 ≡ regp)
        × (is_blocked k (abi_sighold sets host domain regp w).1 ≡ ((a == k) || is_blocked k w))
        × ((abi_sigrelse sets host domain regp' (abi_sighold sets host domain regp w).1).0 ≡ regp')
        × (is_blocked k
              (abi_sigrelse sets host domain regp' (abi_sighold sets host domain regp w).1).1
            ≡ (not (a == k) && is_blocked k w))
  sigrelse-sighold regp regp' w a k named named' h h' =
      let (kept, held) = sighold_blocks regp w a named k h h' in
      (
        kept,
        held,
        ap (λ r. r.0) (sigrelse_mask regp' (abi_sighold sets host domain regp w).1 a named')
            ∙ mask_one_regs sig_unblock regp' _ _ (laws.unblock_ok _ _),
        ap (λ r. is_blocked k r.1)
              (sigrelse_mask regp' (abi_sighold sets host domain regp w).1 a named')
            ∙ released regp' (abi_sighold sets host domain regp w).1 a k
            ∙ ground (arith, held),
      )
