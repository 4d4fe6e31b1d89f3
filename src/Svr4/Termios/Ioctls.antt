-- ===== src/Svr4/Termios/Ioctls.antt =====
-- abiemu/abi/svr4/termios.c: the terminal ioctls of BSD and of Version 7.
use linux_abiemu.Prelude.{
  ℕ, ◌%◌, ◌^◌, bit_and, bit_or, Bool, ◌||◌, Option, none, some, ℤ, pos, neg, is_zero, ◌==◌,
  if◌then◌else◌,
}
use linux_abiemu.Kernel.Domain.{einval, efault}
use linux_abiemu.Svr4.Termios.{Termios, clear}
use linux_abiemu.Svr4.Termios.Bsd.{BsdTermios, from_bsd, to_bsd}
use linux_abiemu.Svr4.Termios.Sgtty.{
  Sgttyb, Tchars, Ltchars, sgttyb_of, with_sgttyb, with_tchars, tchars_of, with_ltchars, ltchars_of,
}

-- The kernel's ioctls and user memory, as in TermHost; `past_speeds` is what follows the table of
-- speeds. A line discipline is read and written as a short.
pub record BsdHost : Type 1 where
  pub World : Type 0
  pub verify_read : ℕ → ℕ → World → ℤ
  pub verify_write : ℕ → ℕ → World → ℤ
  pub get_termios : ℤ → World → ℤ × Termios × World
  pub set_termios : ℤ → ℕ → Termios → World → ℤ × World
  pub get_ldisc : ℤ → World → ℤ × ℕ × World
  pub set_ldisc : ℤ → ℕ → World → ℤ × World
  pub sys_ioctl : ℤ → ℕ → ℕ → World → ℤ × World
  pub past_speeds : ℕ → ℕ
  pub get_short : ℕ → World → ℕ
  pub put_short : ℕ → ℕ → World → World
  pub read_words : ℕ → World → BsdTermios
  pub read_cc : ℕ → World → Option (ℕ → ℕ)
  pub write_words : ℕ → BsdTermios → World → World
  pub write_cc : ℕ → (ℕ → ℕ) → World → Bool × World
  pub copy_sgttyb_from : ℕ → World → Option Sgttyb
  pub copy_sgttyb_to : ℕ → Sgttyb → World → Bool × World
  pub copy_tchars_from : ℕ → World → Option Tchars
  pub copy_tchars_to : ℕ → Tchars → World → Bool × World
  pub copy_ltchars_from : ℕ → World → Option Ltchars
  pub copy_ltchars_to : ℕ → Ltchars → World → Bool × World

abbrev pub copied : {W : Type 0} → Bool × W → ℤ × W
copied (ok, w) = (if ok then pos 0 else neg efault, w)

module _ (host : BsdHost) where
  open host use {
    World, verify_read, verify_write, get_termios, set_termios, get_ldisc, set_ldisc, sys_ioctl,
    past_speeds, get_short, put_short, read_words, read_cc, write_words, write_cc, copy_sgttyb_from,
    copy_sgttyb_to, copy_tchars_from, copy_tchars_to, copy_ltchars_from, copy_ltchars_to,
  }

  -- TCGETS, and then what is done with the terminal.
  abbrev pub with_terminal : ℤ → World → (Termios → World → ℤ × World) → ℤ × World
  with_terminal fd w f =
      let (error, t, w') = get_termios fd w in if is_zero error then f t w' else (error, w')

  -- A structure that is copied to the program from the terminal, and one that is copied from the
  -- program, with the change of the terminal, by TCSETS 0x5402.
  abbrev pub shown : ℤ → ℕ → ℕ → World → (Termios → World → Bool × World) → ℤ × World
  shown fd arg size w copy =
      let error = verify_write arg size w in
      if is_zero error then with_terminal fd w (λ t w'. copied (copy t w')) else (error, w)

  abbrev pub change : {S : Type 0} → ℤ → World → (S → Termios → Termios) → Option S → ℤ × World
  change fd w f none = (neg efault, w)
  change fd w f (some s) = with_terminal fd w (λ t w'. set_termios fd 0x5402 (f s t) w')

  abbrev pub changed :
      {S : Type 0} → ℤ → ℕ → ℕ → World → Option S → (S → Termios → Termios) → ℤ × World
  changed fd arg size w copy f =
      let error = verify_read arg size w in if is_zero error then change fd w f copy else (error, w)

  abbrev set_bsd : ℤ → ℕ → Termios → BsdTermios → World → Option (ℕ → ℕ) → ℤ × World
  set_bsd fd op old it w none = (neg efault, w)
  set_bsd fd op old it w (some cc) = set_termios fd op (from_bsd old it cc) w

  -- sizeof(struct bsd_termios) is 44.
  unfoldable pub bsd_to_linux_termios : ℤ → ℕ → ℕ → World → ℤ × World
  bsd_to_linux_termios fd op it w =
      let error = verify_read it 44 w in
      if is_zero error
      then with_terminal fd w (λ old w'. set_bsd fd op old (read_words it w') w' (read_cc it w'))
      else (error, w)

  unfoldable pub linux_to_bsd_termios : ℤ → ℕ → World → ℤ × World
  linux_to_bsd_termios fd it w =
      shown fd it 44 w
        λ t w'. let out = to_bsd past_speeds t in write_cc it out.c_cc (write_words it out w')

  abbrev pub show_ldisc : ℤ → ℕ → World → ℤ × World
  show_ldisc fd arg w =
      let error = verify_write arg 2 w in
      let (error', ldisc, w') = get_ldisc fd w in
      if is_zero error
      then (error', if is_zero error' then put_short arg (ldisc % 2 ^ 16) w' else w')
      else (error, w)

  abbrev pub change_ldisc : ℤ → ℕ → World → ℤ × World
  change_ldisc fd arg w =
      let error = verify_read arg 2 w in
      if is_zero error then set_ldisc fd (get_short arg w) w else (error, w)

  -- HUPCL is 02000.
  abbrev pub hang_up : ℤ → ℕ → World → ℤ × World
  hang_up fd arg w = with_terminal fd w λ t w'.
      set_termios fd 0x5402
        (record t { c_cflag = if arg == 0 then clear 0x400 t.c_cflag else bit_or t.c_cflag 0x400 })
        w'

  unfoldable pub bsd_command : ℤ → ℕ → ℕ → World → ℤ × World
  bsd_command fd n arg w =
      if n == 0
      then show_ldisc fd arg w
      else if n == 1
      then change_ldisc fd arg w
      else if n == 2
      then hang_up fd arg w
      else if n == 8
      then shown fd arg 8 w (λ t. copy_sgttyb_to arg (sgttyb_of t))
      else if n == 9 || n == 10
      then changed fd arg 8 w (copy_sgttyb_from arg w) with_sgttyb
      else if n == 17
      then changed fd arg 6 w (copy_tchars_from arg w) with_tchars
      else if n == 18
      then shown fd arg 6 w (λ t. copy_tchars_to arg (tchars_of t))
      else if n == 116
      then shown fd arg 6 w (λ t. copy_ltchars_to arg (ltchars_of t))
      else if n == 117
      then changed fd arg 6 w (copy_ltchars_from arg w) with_ltchars
      else if n == 13
      then sys_ioctl fd 0x540c arg w
      else if n == 14
      then sys_ioctl fd 0x540d arg w
      else if n == 16
      then sys_ioctl fd 0x540b arg w
      else if n == 20
      then bsd_to_linux_termios fd 0x5402 arg w
      else if n == 21
      then bsd_to_linux_termios fd 0x5403 arg w
      else if n == 19
      then linux_to_bsd_termios fd arg w
      else if n == 22
      then bsd_to_linux_termios fd 0x5404 arg w
      else if n == 26
      then sys_ioctl fd 0x5424 arg w
      else if n == 27
      then sys_ioctl fd 0x5423 arg w
      else if n == 97
      then sys_ioctl fd 0x540e arg w
      else if n == 103
      then sys_ioctl fd 0x5414 arg w
      else if n == 104
      then sys_ioctl fd 0x5413 arg w
      else if n == 113
      then sys_ioctl fd 0x5422 arg w
      else if n == 118
      then sys_ioctl fd 0x5410 arg w
      else if n == 119
      then sys_ioctl fd 0x540f arg w
      else if n == 123
      then sys_ioctl fd 0x5409 arg w
      else if n == 124 || n == 125
      then (pos 0, w)
      else (neg einval, w)

  unfoldable pub bsd_ioctl_termios : ℤ → ℕ → ℕ → World → ℤ × World
  bsd_ioctl_termios fd func arg w = bsd_command fd (bit_and func 0xff) arg w
