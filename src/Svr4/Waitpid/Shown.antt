-- ===== src/Svr4/Waitpid/Shown.antt =====
-- What a program learns of a child from wait(2) and waitpid(2).
use linux_abiemu.Prelude.{
  ℕ, ◌+◌, ◌*◌, ◌/◌, ◌^◌, ◌≤◌, ◌<◌, bit_and, bit_or, Bool, true, false, not, ◌||◌, ◌&&◌, Option,
  none, some, ◌≡◌, ◌≢◌, ◌⊎◌, ◌%◌, ℤ, pos, neg, is_neg, int32, word, ◌==◌, if◌then◌else◌, get_or,
}
use linux_abiemu.Kernel.Domain.{ExecDomain}
use linux_abiemu.Svr4.Waitpid.{WaitpidHost, shift_8}
use linux_abiemu.Util.Regs.{Regs}
use linux_abiemu.Svr4.Wait.{wait_options}
use linux_abiemu.Svr4.Wait.Status.{Change, exited, killed, stopped, wait_status}

-- An exit code of 8 bits, or a signal below 32.
abbrev pub IsOldChange : Change → Type 0
IsOldChange (exited code) = code < 256
IsOldChange (killed sig core) = (1 ≤ sig) × (sig < 32)
IsOldChange (stopped sig) = (1 ≤ sig) × (sig < 32)

-- The status that the program gets: none where the kernel's stays.
abbrev pub shown : ExecDomain → Change → Option ℕ
shown domain (exited code) = none
shown domain (killed sig core) = some (word (get_or domain.signal_map sig (pos 0)))
shown domain (stopped sig) = some (bit_or 0x7f (shift_8 (get_or domain.signal_map sig (pos 0))))

abbrev exit_test : ℕ → Bool
exit_test code =
    not (bit_and (code * 256) 0xff == 0x7f)
    && (code * 256 == 0 || not (code * 256 == bit_and (code * 256) 0xff))

abbrev kill_test : Bool → ℕ → Bool
kill_test core sig =
    let status = sig + (if core then 128 else 0) in
    sig == 0
    || (not (bit_and status 0xff == 0x7f)
        && (not (status == 0) && (status == bit_and status 0xff && bit_and status 0x7f == sig)))

abbrev stop_test : ℕ → Bool
stop_test sig =
    let status = sig * 256 + 127 in
    bit_and status 0xff == 0x7f
    && (bit_and status 0xffff_00ff == 0x7f && bit_and (status / 2 ^ 8) 0xff == sig)

module _ (host : WaitpidHost) (domain : ExecDomain) (regs : Regs) (w : host.World) where
  open host use {World, xenix, get_user, put_user, wait4_kernel, wait4_user}

  abbrev stack : ℕ → ℕ
  stack n = get_user ((regs.esp + 4 * n) % 2 ^ 32) w

  -- Is it waitpid (ZF, PF, SF and OF are set)?
  abbrev is_waitpid : Bool
  is_waitpid = bit_and regs.eflags 0x8c4 == 0x8c4

  -- The place for the status: the second argument of waitpid, and the only one of wait.
  abbrev pub place : ℕ
  place = if is_waitpid then stack 2 else stack 1

  -- The kernel's answer: for waitpid's child and options, or for any child and WUNTRACED.
  abbrev pub answer : ℤ × World
  answer =
      if is_waitpid
      then wait4_user (int32 (stack 1)) (stack 2) (wait_options (stack 3)) w
      else wait4_user (neg 1) (stack 1) 2 w

  abbrev pub given : Change → ℕ → ℤ → World → Option ℕ → ℤ × Regs × World
  given c loc result v none = (result, record regs { edx = wait_status c }, v)
  given c loc result v (some status) = (result, record regs { edx = status }, put_user loc status v)

  -- The ends of a call whose child, if the kernel tells of one, changed its state by c.
  pub data Waited (c : Change) (out : ℤ × Regs × World) : Type 0 where
    unchanged_status :
        xenix w ≡ true
        → out ≡ (
          (wait4_kernel (neg 1) 0 w).0,
          record regs { edx = (wait4_kernel (neg 1) 0 w).1 },
          (wait4_kernel (neg 1) 0 w).2,
        )
        → Waited c out
    not_told :
        xenix w ≡ false
        → (is_neg answer.0 ≡ true) ⊎ (place ≡ 0)
        → out ≡ (answer.0, regs, answer.1)
        → Waited c out
    shown_status :
        xenix w ≡ false
        → is_neg answer.0 ≡ false
        → place ≢ 0
        → out ≡ given c place answer.0 answer.1 (shown domain c)
        → Waited c out
