-- ===== src/Svr4/Wait/Status.antt =====
-- What a program learns of a child from waitid(2), by how the child ended.
use linux_abiemu.Prelude.{
  ℕ, ◌+◌, ◌*◌, ◌/◌, ◌^◌, ◌≤◌, ◌<◌, bit_and, Bool, true, false, ◌||◌, ◌&&◌, ◌≡◌, refl, ap, ℤ, pos,
  ◌==◌, ==_iff, and_left, and_right, not, if◌then◌else◌, arith,
}
use linux_abiemu.Prelude.Bits.{agree, all_below, all_below_sound}
use linux_abiemu.Kernel.Domain.{ExecDomain}
use linux_abiemu.Svr4.Wait.{
  WaitHost, child_status, exit_code, inverse_signal, cld_exited, cld_killed, cld_dumped,
  cld_stopped, cld_continued, sigstop, sigtstp,
}

-- How a child changes its state (wait(2)): it exits with a code, a signal ends it, with or without
-- a core file, or a signal stops it.
pub data Change : Type 0 where
  exited : ℕ → Change
  killed : ℕ → Bool → Change
  stopped : ℕ → Change

-- The status that the kernel makes of it.
abbrev pub wait_status : Change → ℕ
wait_status (exited code) = code * 256
wait_status (killed sig core) = sig + (if core then 128 else 0)
wait_status (stopped sig) = sig * 256 + 127

-- Codes have 8 bits; signals count from 1 to 64.
abbrev pub IsChange : Change → Type 0
IsChange (exited code) = code < 256
IsChange (killed sig core) = (1 ≤ sig) × (sig < 65)
IsChange (stopped sig) = (1 ≤ sig) × (sig < 65)

abbrev exit_test : ℕ → Bool
exit_test code = bit_and (code * 256) 0xff == 0 && exit_code (code * 256) == code

exits_checked : all_below 256 exit_test ≡ true
unfolding all_below
exits_checked = refl

-- The low byte is the signal and the core flag, and the signal number's place is empty.
abbrev kill_test : Bool → ℕ → Bool
kill_test core sig =
    let status = sig + (if core then 128 else 0) in
    sig == 0
    || (not (bit_and status 0xff == 0)
        && not (bit_and status 0xff == 0x7f)
        && bit_and status 0xff00 / 2 ^ 8 == 0
        && agree (bit_and status 0x80 == 0) (not core))

kills_checked : (core : Bool) → all_below 65 (kill_test core) ≡ true
unfolding all_below
kills_checked true = refl
kills_checked false = refl

abbrev stop_test : ℕ → Bool
stop_test sig =
    bit_and (sig * 256 + 127) 0xff == 0x7f && bit_and (sig * 256 + 127) 0xff00 / 2 ^ 8 == sig

killed_bits :
    (core : Bool) (sig : ℕ)
    → 1 ≤ sig
    → sig < 65
    → ((bit_and (sig + (if core then 128 else 0)) 0xff == 0) ≡ false)
      × ((bit_and (sig + (if core then 128 else 0)) 0xff == 0x7f) ≡ false)
      × (bit_and (sig + (if core then 128 else 0)) 0xff00 / 2 ^ 8 ≡ 0)
      × ((bit_and (sig + (if core then 128 else 0)) 0x80 == 0) ≡ not core)
killed_bits core sig low high =
    let tested = all_below_sound 65 (kill_test core) sig (kills_checked core) high in ground arith

killed_code :
    (core : Bool)
    → (if not core then cld_killed else cld_dumped) ≡ (if core then cld_dumped else cld_killed)
killed_code true = refl
killed_code false = refl

stops_checked : all_below 65 stop_test ≡ true
unfolding all_below
stops_checked = refl

module _ (host : WaitHost) (domain : ExecDomain) where
  -- What the program is told.
  abbrev pub told : Change → ℕ × ℤ
  told (exited code) = (cld_exited, pos code)
  told (killed sig core) = (if core then cld_dumped else cld_killed, inverse_signal host domain 0)
  told (stopped sig) = (
    if sig == sigstop || sig == sigtstp then cld_stopped else cld_continued,
    inverse_signal host domain sig,
  )

  -- For each way a child can change its state, waitid(2) tells the program: an exit code as it is;
  -- for a child that a signal ended, whether it left a core file, but as the signal the entry 0 of
  -- the personality's table, whichever signal it was; for a stopped child the signal in the
  -- program's numbering, as a stop when it was SIGSTOP or SIGTSTP and as a continuation otherwise.
  pub child_status-told :
      (c : Change) → IsChange c → child_status host domain (wait_status c) ≡ told c
  unfolding child_status
  child_status-told (exited code) h =
      let tested = all_below_sound 256 exit_test code exits_checked h in
      let low : (bit_and (code * 256) 0xff == 0) ≡ true = and_left _ _ tested in
      let high : exit_code (code * 256) ≡ code = (==_iff _ _).0 (and_right _ _ tested) in
      rw (low, high) refl
  child_status-told (killed sig core) (low, high) =
      let (byte, other, upper, dumped) = killed_bits core sig low high in
      rw (byte, other, upper, dumped)
        (ap (λ op. (op, inverse_signal host domain 0)) (killed_code core))
  child_status-told (stopped sig) (low, high) =
      let tested = all_below_sound 65 stop_test sig stops_checked high in
      let byte : bit_and (sig * 256 + 127) 0xff ≡ 0x7f = (==_iff _ _).0 (and_left _ _ tested) in
      let upper : bit_and (sig * 256 + 127) 0xff00 / 2 ^ 8 ≡ sig =
        (==_iff _ _).0 (and_right _ _ tested) in
      rw (byte, upper) refl
