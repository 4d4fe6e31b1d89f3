-- ===== src/Svr4/Waitpid.antt =====
-- abiemu/abi/svr4/misc.c: wait(2) and waitpid(2), which share a system call.
pub mod Shown
use linux_abiemu.Prelude.{
  ℕ, ◌+◌, ◌*◌, ◌/◌, ◌%◌, ◌^◌, bit_and, bit_or, Bool, true, false, not, ◌&&◌, ◌||◌, Option, none,
  some, ℤ, pos, neg, word, int32, is_neg, ◌==◌, ltb, if◌then◌else◌, get_or,
}
use linux_abiemu.Kernel.Domain.{ExecDomain}
use linux_abiemu.Util.Regs.{Regs}
use linux_abiemu.Svr4.Wait.{wait_options}

-- The kernel's wait4, with a variable of the kernel for the status or with an address of the
-- program's, 0 for none; a word of user memory as `get_user` leaves it in its variable (0 where it
-- cannot be read); a write, which may fail. `xenix` is `is_cur_personality(PER_XENIX)`.
pub record WaitpidHost : Type 1 where
  pub World : Type 0
  pub xenix : World → Bool
  pub get_user : ℕ → World → ℕ
  pub put_user : ℕ → ℕ → World → World
  pub wait4_kernel : ℤ → ℕ → World → ℤ × ℕ × World
  pub wait4_user : ℤ → ℕ → ℕ → World → ℤ × World

-- ZF, PF, SF and OF: set for waitpid.
abbrev pub magic_waitpid_flag : ℕ
magic_waitpid_flag = 0x8c4

-- `sig << 8` of an int, in 32 bits.
abbrev pub shift_8 : ℤ → ℕ
shift_8 z = word z * 2 ^ 8 % 2 ^ 32

-- A signal through the table of the domain; those from 32 on are left.
abbrev pub wait_signal : ExecDomain → ℕ → ℤ
wait_signal domain sig = if ltb sig 32 then get_or domain.signal_map sig (pos 0) else pos sig

-- The status that the program gets for edx: none where it is left as it is.
unfoldable pub wait_translated : ExecDomain → ℕ → Option ℕ
wait_translated domain edx =
    if bit_and edx 0xff == 0x7f
    then some (
        bit_or (bit_and edx 0xffff_00ff)
          (shift_8 (wait_signal domain (bit_and (edx / 2 ^ 8) 0xff))))
    else if not (edx == 0) && edx == bit_and edx 0xff
    then some (
        if ltb (bit_and edx 0x7f) 32
        then word (get_or domain.signal_map (bit_and edx 0x7f) (pos 0))
        else edx)
    else none

module _ (host : WaitpidHost) (domain : ExecDomain) where
  open host use {World, xenix, get_user, put_user, wait4_kernel, wait4_user}

  abbrev stack_word : Regs → ℕ → World → ℕ
  stack_word regs n w = get_user ((regs.esp + 4 * n) % 2 ^ 32) w

  abbrev pub write_translated : Regs → ℕ → ℤ → World → ℕ → Option ℕ → ℤ × Regs × World
  write_translated regs loc result w edx none = (result, record regs { edx = edx }, w)
  write_translated regs loc result w edx (some status) =
      (result, record regs { edx = status }, put_user loc status w)

  -- After the wait: nothing more is done for an error, or with no place for the status.
  unfoldable pub after_wait : Regs → ℕ → ℤ × World → ℤ × Regs × World
  after_wait regs loc (result, w) =
      if is_neg result || loc == 0
      then (result, regs, w)
      else (let edx = get_user loc w in
          write_translated regs loc result w edx (wait_translated domain edx))

  -- WUNTRACED is 2.
  unfoldable pub abi_wait : Regs → World → ℤ × Regs × World
  abi_wait regs w =
      if xenix w
      then (let (result, status, w') = wait4_kernel (neg 1) 0 w in
          (result, record regs { edx = status }, w'))
      else if bit_and regs.eflags magic_waitpid_flag == magic_waitpid_flag
      then (let loc = stack_word regs 2 w in
          after_wait regs loc
            (wait4_user (int32 (stack_word regs 1 w)) loc (wait_options (stack_word regs 3 w)) w))
      else (let loc = stack_word regs 1 w in after_wait regs loc (wait4_user (neg 1) loc 2 w))
