-- ===== src/Svr4/Wait/Waited.antt =====
-- What svr4_waitid of abiemu/abi/svr4/svr4.c can come to.
use linux_abiemu.Prelude.{
  ℕ, true, false, Option, none, some, ◌≡◌, refl, inl, inr, ℤ, pos, neg, is_neg, is_zero, Bool-cases,
  Option-cases, sym, subst,
}
use linux_abiemu.Kernel.Domain.{ExecDomain, einval}
use linux_abiemu.Svr4.Wait.{
  WaitHost, wait_pid, wait_options, svr4_waitid, wait_for, wait_known, unwritable_info, tell,
  report_child,
}

module _ (host : WaitHost) (domain : ExecDomain) (infop : Option ℕ) (options : ℕ)
    (w : host.World) where
  open host use {World, verify_area, sys_wait4}

  -- The ends of the call, once the process to wait for is known.
  pub data WaitedFor (pid : ℤ) (out : ℤ × World) : Type 0 where
    unwritable :
        (a : ℕ)
        → infop ≡ some a
        → is_zero (verify_area a w) ≡ false
        → out ≡ (verify_area a w, w)
        → WaitedFor pid out
    failed :
        is_neg (sys_wait4 pid (wait_options options) w).0 ≡ true
        → out
          ≡ ((sys_wait4 pid (wait_options options) w).0, (sys_wait4 pid (wait_options options) w).2)
        → WaitedFor pid out
    silent :
        infop ≡ none
        → is_neg (sys_wait4 pid (wait_options options) w).0 ≡ false
        → out ≡ (pos 0, (sys_wait4 pid (wait_options options) w).2)
        → WaitedFor pid out
    reported :
        (a : ℕ)
        → infop ≡ some a
        → is_zero (verify_area a w) ≡ true
        → is_neg (sys_wait4 pid (wait_options options) w).0 ≡ false
        → out ≡ (
          pos 0,
          report_child host domain a
              (sys_wait4 pid (wait_options options) w).0
              (sys_wait4 pid (wait_options options) w).1
              (sys_wait4 pid (wait_options options) w).2,
        )
        → WaitedFor pid out

  pub data Waited (idtype id : ℤ) (out : ℤ × World) : Type 0 where
    bad_type : wait_pid idtype id ≡ none → out ≡ (neg einval, w) → Waited idtype id out
    by_pid : (pid : ℤ) → wait_pid idtype id ≡ some pid → WaitedFor pid out → Waited idtype id out

  module _ (pid : ℤ) where
    finished :
        (info : Option ℕ)
        → info ≡ infop
        → is_zero (unwritable_info host domain info w) ≡ true
        → is_neg (sys_wait4 pid (wait_options options) w).0 ≡ false
        → WaitedFor pid (
          pos 0,
          tell host domain info
              (sys_wait4 pid (wait_options options) w).0
              (sys_wait4 pid (wait_options options) w).1
              (sys_wait4 pid (wait_options options) w).2,
        )
    finished none h u e = silent (sym h) e refl
    finished (some a) h u e = reported a (sym h) u e refl

    not_writable :
        (info : Option ℕ)
        → info ≡ infop
        → is_zero (unwritable_info host domain info w) ≡ false
        → WaitedFor pid (unwritable_info host domain info w, w)
    not_writable none h u = cc u
    not_writable (some a) h u = unwritable a (sym h) u refl

    wait_for-WaitedFor : WaitedFor pid (wait_for host domain pid infop options w)
    unfolding wait_for
    wait_for-WaitedFor = elim (Bool-cases (is_zero (unwritable_info host domain infop w))) [
      | inr u ↦ rw u (not_writable infop refl u)
      | inl u ↦ elim (Bool-cases (is_neg (sys_wait4 pid (wait_options options) w).0)) [
        | inl e ↦ rw (u, e) (failed e refl)
        | inr e ↦ rw (u, e) (finished infop refl u e)
      ]
    ]

  -- waitid(2) on every branch: EINVAL and no call of the kernel for an unknown kind of process, the
  -- error of the check where the record cannot be written, the error of wait4; else 0, with a
  -- report of the child when the program gave a record for it.
  pub svr4_waitid-Waited :
      (idtype id : ℤ) → Waited idtype id (svr4_waitid host domain idtype id infop options w)
  unfolding svr4_waitid
  svr4_waitid-Waited idtype id = elim (Option-cases (wait_pid idtype id)) [
    | inl e ↦ bad_type e (rw e refl)
    | inr (pid, e) ↦ by_pid pid e (
        subst (λ o. WaitedFor pid (wait_known host domain o infop options w)) (sym e)
          (wait_for-WaitedFor pid))
  ]
