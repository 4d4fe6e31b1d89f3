-- ===== src/Svr4/Fcntl/Locks.antt =====
-- What fcntl(2) returns, and record locks on their way to the kernel and back.
use linux_abiemu.Prelude.{
  ℕ, ◌+◌, ◌-◌, ◌%◌, ◌^◌, ◌<◌, ◌≤◌, true, false, none, some, ◌≡◌, refl, ◌⊎◌, ◌||◌, ◌==◌,
  if◌then◌else◌, ℤ, pos, neg, is_zero, arith, inl, inr, Option-cases, Bool-cases,
}
use linux_abiemu.Kernel.Domain.{efault}
use linux_abiemu.Svr4.Fcntl.{
  Svr4Flock, Flock, Files, to_flock, from_flock, svr4_fcntl_flock, svr4_fcntl, lock_user,
}

-- A lock whose members have their widths.
pub record IsLock (fl : Svr4Flock) : Type 0 where
  pub type_short : fl.l_type < 2 ^ 16
  pub pid_short : fl.l_pid < 2 ^ 16

-- A lock, its type and pid of 16 bits, that the kernel leaves alone comes back as it was, but for
-- l_sysid, which is cleared.
pub from_flock-to_flock :
    (fl : Svr4Flock) → IsLock fl → from_flock (to_flock fl) ≡ record fl { l_sysid = 0 }
unfolding from_flock to_flock
from_flock-to_flock fl h = λ i. record fl { l_type = types i; l_sysid = 0; l_pid = pids i }
  where
    types : ((fl.l_type + 2 ^ 16 - 1) % 2 ^ 16 + 1) % 2 ^ 16 ≡ fl.l_type
    types = omega (arith, h.type_short)

    pids : (to_flock fl).pid % 2 ^ 16 ≡ fl.l_pid
    pids = ground (arith, h.pid_short)

-- The kernel's lock l for the program's fl: the type is one less, place and length are the same,
-- and the pid is that of the signed 16 bits.
pub record InKernel (fl : Svr4Flock) (l : Flock) : Type 0 where
  pub type_width : l.type < 2 ^ 16
  pub type_less : (l.type + 1) % 2 ^ 16 ≡ fl.l_type % 2 ^ 16
  pub same_place : (l.whence ≡ fl.l_whence) × (l.start ≡ fl.l_start) × (l.len ≡ fl.l_len)
  pub pid_positive : fl.l_pid < 2 ^ 15 → l.pid ≡ fl.l_pid
  pub pid_negative : 2 ^ 15 ≤ fl.l_pid → l.pid ≡ fl.l_pid + 0xffff_0000

-- The program's lock fl for the kernel's l: the type is one more, place and length are the same,
-- there is no system id, and the pid is cut to 16 bits.
pub record InProgram (l : Flock) (fl : Svr4Flock) : Type 0 where
  pub type_width : fl.l_type < 2 ^ 16
  pub type_more : fl.l_type ≡ (l.type + 1) % 2 ^ 16
  pub same_place : (fl.l_whence ≡ l.whence) × (fl.l_start ≡ l.start) × (fl.l_len ≡ l.len)
  pub no_system : fl.l_sysid ≡ 0
  pub pid_short : fl.l_pid ≡ l.pid % 2 ^ 16

to_flock-InKernel : (fl : Svr4Flock) → InKernel fl (to_flock fl)
unfolding to_flock
to_flock-InKernel fl = record {
  type_width = omega arith;
  type_less = omega arith;
  same_place = (refl, refl, refl);
  pid_positive = λ h. ground arith;
  pid_negative = λ h. ground arith;
}

from_flock-InProgram : (l : Flock) → InProgram l (from_flock l)
unfolding from_flock
from_flock-InProgram l = record {
  type_width = omega arith;
  type_more = refl;
  same_place = (refl, refl, refl);
  no_system = refl;
  pid_short = refl;
}

lock_command :
    (cmd : ℕ)
    → (cmd == 14 || (cmd == 5 || (cmd == 6 || cmd == 7))) ≡ true
    → ((cmd ≡ 14) ⊎ (cmd ≡ 5)) ⊎ ((cmd ≡ 6) ⊎ (cmd ≡ 7))
lock_command cmd h = ground arith

module _ (host : Files) (fd : ℤ) (arg : ℕ) (w : host.World) where
  open host use {World, sys_fcntl_flock, verify_area, copy_from_user, copy_to_user}

  module _ (cmd : ℕ) where
    -- What the kernel answers for its lock l.
    abbrev answer : Flock → ℤ × Flock × World
    answer l = sys_fcntl_flock fd cmd l w

    -- A lock call goes to the kernel only with a lock that was read from user memory and may be
    -- written there, in the kernel's form, and writes back the kernel's lock in the program's.
    pub data Locked (out : ℤ × World) : Type 0 where
      no_access :
          (is_zero (verify_area arg w) ≡ false) ⊎ (copy_from_user arg w ≡ none)
          → out ≡ (neg efault, w)
          → Locked out
      failed :
          (fl : Svr4Flock) (l : Flock)
          → is_zero (verify_area arg w) ≡ true
          → copy_from_user arg w ≡ some fl
          → InKernel fl l
          → is_zero (sys_fcntl_flock fd cmd l w).0 ≡ false
          → out ≡ ((sys_fcntl_flock fd cmd l w).0, (sys_fcntl_flock fd cmd l w).2)
          → Locked out
      lost :
          (fl : Svr4Flock) (l : Flock) (back : Svr4Flock)
          → is_zero (verify_area arg w) ≡ true
          → copy_from_user arg w ≡ some fl
          → InKernel fl l
          → is_zero (sys_fcntl_flock fd cmd l w).0 ≡ true
          → InProgram (sys_fcntl_flock fd cmd l w).1 back
          → copy_to_user arg back (sys_fcntl_flock fd cmd l w).2 ≡ none
          → out ≡ (neg efault, (sys_fcntl_flock fd cmd l w).2)
          → Locked out
      written :
          (fl : Svr4Flock) (l : Flock) (back : Svr4Flock) (w' : World)
          → is_zero (verify_area arg w) ≡ true
          → copy_from_user arg w ≡ some fl
          → InKernel fl l
          → is_zero (sys_fcntl_flock fd cmd l w).0 ≡ true
          → InProgram (sys_fcntl_flock fd cmd l w).1 back
          → copy_to_user arg back (sys_fcntl_flock fd cmd l w).2 ≡ some w'
          → out ≡ (pos 0, w')
          → Locked out

    lock_user-Locked :
        (fl : Svr4Flock)
        → is_zero (verify_area arg w) ≡ true
        → copy_from_user arg w ≡ some fl
        → Locked (lock_user host fd cmd arg w (some fl))
    lock_user-Locked fl v e =
        let asked = to_flock-InKernel fl in
        let back : InProgram (answer (to_flock fl)).1 (from_flock (answer (to_flock fl)).1) =
          from_flock-InProgram (answer (to_flock fl)).1 in
        elim (Bool-cases (is_zero (answer (to_flock fl)).0)) [
          | inr z ↦ rw z (failed fl (to_flock fl) v e asked z refl)
          | inl z ↦
              rw z
                (elim (Option-cases (
                  copy_to_user arg (from_flock (answer (to_flock fl)).1)
                    (answer (to_flock fl)).2)) [
                      | inl c ↦ rw c (lost fl (to_flock fl) _ v e asked z back c refl)
                      | inr (w', c) ↦ rw c (written fl (to_flock fl) _ w' v e asked z back c refl)
                    ])
        ]

    pub svr4_fcntl_flock-Locked : Locked (svr4_fcntl_flock host fd cmd arg w)
    unfolding svr4_fcntl_flock
    svr4_fcntl_flock-Locked = elim (Bool-cases (is_zero (verify_area arg w))) [
      | inr v ↦ rw v (no_access (inl v) refl)
      | inl v ↦ rw v (elim (Option-cases (copy_from_user arg w)) [
        | inl c ↦ rw c (no_access (inr c) refl)
        | inr (fl, c) ↦ rw c (lock_user-Locked fl v c)
      ])
    ]

  -- F_GETLK of System V (14) is the kernel's F_GETLK (5).
  abbrev pub kernel_command : ℕ → ℕ
  kernel_command cmd = if cmd == 14 then 5 else cmd

  -- Every lock command (F_GETLK by either number, F_SETLK, F_SETLKW) ends in one of the ways of
  -- `Locked`, with the kernel's number for the command: EFAULT, and the kernel not called, where the
  -- lock cannot be read or its place not written; else the kernel gets the program's lock in its own
  -- form (type less one, the signed pid); then its error; or the kernel's lock written back in the
  -- program's form (type plus one, no system id, pid of 16 bits), or EFAULT when that fails.
  pub svr4_fcntl-Locked :
      (cmd : ℕ)
      → (cmd == 14 || (cmd == 5 || (cmd == 6 || cmd == 7))) ≡ true
      → Locked (kernel_command cmd) (svr4_fcntl host fd cmd arg w)
  unfolding svr4_fcntl
  svr4_fcntl-Locked cmd h = elim (lock_command cmd h) [
    | inl (inl e) ↦ rw e (svr4_fcntl_flock-Locked 5)
    | inl (inr e) ↦ rw e (svr4_fcntl_flock-Locked 5)
    | inr (inl e) ↦ rw e (svr4_fcntl_flock-Locked 6)
    | inr (inr e) ↦ rw e (svr4_fcntl_flock-Locked 7)
  ]
