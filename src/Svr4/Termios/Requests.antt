-- ===== src/Svr4/Termios/Requests.antt =====
-- abiemu/abi/svr4/termios.c: the terminal ioctls of System V, by those of Linux.
use linux_abiemu.Prelude.{
  ℕ, bit_or, Bool, not, ◌&&◌, ◌||◌, Option, none, some, ℤ, pos, neg, is_zero, ◌==◌, ltb,
  if◌then◌else◌,
}
use linux_abiemu.Kernel.Domain.{einval, efault}
use linux_abiemu.Svr4.Termios.{
  Termios, crtscts, clear, has, termio_from_svr, termio_to_svr, joined_lflag, from_svr4, to_svr4,
}

-- `struct termiox`
pub record Termiox : Type 0 where
  pub x_hflag : ℕ
  pub x_cflag : ℕ
  pub x_rflag : ℕ → ℕ
  pub x_sflag : ℕ

-- The kernel's ioctls that fill a buffer or read one, those that are passed on, and user memory.
-- A termios in user memory is read and written by words whose errors are dropped, its characters by
-- a copy; `read_cc` gives none, and a copy false, where memory cannot be used. `stack_cc` is what
-- the stack holds at `svr4_cc`.
pub record TermHost : Type 1 where
  pub World : Type 0
  pub verify_read : ℕ → ℕ → World → ℤ
  pub verify_write : ℕ → ℕ → World → ℤ
  pub get_termio : ℤ → World → ℤ × Termios × World
  pub set_termio : ℤ → ℕ → Termios → World → ℤ × World
  pub get_termios : ℤ → World → ℤ × Termios × World
  pub set_termios : ℤ → ℕ → Termios → World → ℤ × World
  pub sys_ioctl : ℤ → ℕ → ℕ → World → ℤ × World
  pub copy_termio_from : ℕ → World → Option Termios
  pub copy_termio_to : ℕ → Termios → World → Bool × World
  pub read_flags : ℕ → World → Termios
  pub read_cc : ℕ → World → Option (ℕ → ℕ)
  pub write_flags : ℕ → Termios → World → World
  pub write_cc : ℕ → (ℕ → ℕ) → World → Bool × World
  pub stack_cc : World → ℕ → ℕ
  pub copy_termiox_from : ℕ → World → Option Termiox
  pub copy_termiox_to : ℕ → Termiox → World → Bool × World

module _ (host : TermHost) where
  open host use {
    World, verify_read, verify_write, get_termio, set_termio, get_termios, set_termios, sys_ioctl,
    copy_termio_from, copy_termio_to, read_flags, read_cc, write_flags, write_cc, stack_cc,
    copy_termiox_from, copy_termiox_to,
  }

  abbrev pub set_svr : ℤ → ℕ → Termios → World → Option Termios → ℤ × World
  set_svr fd op old w none = (neg efault, w)
  set_svr fd op old w (some it) = set_termio fd op (termio_from_svr old it) w

  -- sizeof(struct svr_termio) is 18.
  unfoldable pub svr_to_linux_termio : ℤ → ℕ → ℕ → World → ℤ × World
  svr_to_linux_termio fd op it w =
      let error = verify_read it 18 w in
      let (error', old, w') = get_termio fd w in
      if not (is_zero error)
      then (error, w)
      else if is_zero error'
      then set_svr fd op old w' (copy_termio_from it w')
      else (error', w')

  abbrev pub copied : Bool × World → ℤ × World
  copied (ok, w) = (if ok then pos 0 else neg efault, w)

  unfoldable pub linux_to_svr_termio : ℤ → ℕ → World → ℤ × World
  linux_to_svr_termio fd it w =
      let error = verify_write it 18 w in
      let (error', t, w') = get_termio fd w in
      if not (is_zero error)
      then (error, w)
      else if is_zero error'
      then copied (copy_termio_to it (termio_to_svr t) w')
      else (error', w')

  -- TIOCEXCL 0x540c and TIOCNXCL 0x540d; their result is dropped.
  abbrev pub exclusive : ℤ → ℕ → World → World
  exclusive fd joined w = (sys_ioctl fd (if has 0x8000 joined then 0x540c else 0x540d) 0 w).1

  abbrev pub set_svr4 : ℤ → ℕ → Termios → Termios → World → Option (ℕ → ℕ) → ℤ × World
  set_svr4 fd op old it w none = (neg efault, w)
  set_svr4 fd op old it w (some cc) = set_termios fd op (from_svr4 old it cc) w

  -- sizeof(struct svr4_termios) is 36.
  unfoldable pub svr4_to_linux_termios : ℤ → ℕ → ℕ → World → ℤ × World
  svr4_to_linux_termios fd op it w =
      let error = verify_read it 36 w in
      let (error', old, w') = get_termios fd w in
      let flags = read_flags it w' in
      let w'' = exclusive fd (joined_lflag old.c_lflag flags.c_lflag) w' in
      if not (is_zero error)
      then (error, w)
      else if is_zero error'
      then set_svr4 fd op old flags w'' (read_cc it w'')
      else (error', w')

  abbrev pub show_svr4 : ℕ → Termios → World → ℤ × World
  show_svr4 it t w =
      let shown = to_svr4 (stack_cc w) t in copied (write_cc it shown.c_cc (write_flags it shown w))

  unfoldable pub linux_to_svr4_termios : ℤ → ℕ → World → ℤ × World
  linux_to_svr4_termios fd it w =
      let error = verify_write it 36 w in
      let (error', t, w') = get_termios fd w in
      if not (is_zero error)
      then (error, w)
      else if is_zero error'
      then show_svr4 it t w'
      else (error', w')

  -- The Linux numbers are those of the comments.
  unfoldable pub svr4_term_ioctl : ℤ → ℕ → ℕ → World → ℤ × World
  svr4_term_ioctl fd cmd arg w =
      if cmd == 1
      then linux_to_svr_termio fd arg w
      else if cmd == 2
      then svr_to_linux_termio fd 0x5406 arg w
      else if cmd == 3
      then svr_to_linux_termio fd 0x5407 arg w
      else if cmd == 4
      then svr_to_linux_termio fd 0x5408 arg w
      else if cmd == 5
      then sys_ioctl fd 0x5409 arg w
      else if cmd == 6
      then sys_ioctl fd 0x540a arg w
      else if cmd == 7
      then sys_ioctl fd 0x540b arg w
      else if cmd == 13
      then linux_to_svr4_termios fd arg w
      else if cmd == 14
      then svr4_to_linux_termios fd 0x5402 arg w
      else if cmd == 15
      then svr4_to_linux_termios fd 0x5403 arg w
      else if cmd == 16
      then svr4_to_linux_termios fd 0x5404 arg w
      else if cmd == 20 || cmd == 118
      then sys_ioctl fd 0x5410 arg w
      else if cmd == 21 || cmd == 119
      then sys_ioctl fd 0x540f arg w
      else if cmd == 34
      then (pos 4, w)
      else if cmd == 35
      then (pos 0, w)
      else if cmd == 103
      then sys_ioctl fd 0x5414 arg w
      else if cmd == 104
      then sys_ioctl fd 0x5413 arg w
      else (neg einval, w)

  -- RTSXOFF|CTSXON is 3.
  abbrev pub hardware_flow : Termios → Termiox
  hardware_flow t = record {
    x_hflag = if has crtscts t.c_cflag then 3 else 0;
    x_cflag = 0;
    x_rflag = λ i. 0;
    x_sflag = 0;
  }

  abbrev pub understood : Termiox → Bool
  understood tx =
      (tx.x_hflag == 0 || tx.x_hflag == 3)
      && (tx.x_cflag == 0)
      && ((tx.x_rflag 0 == 0)
          && (tx.x_rflag 1 == 0)
          && (tx.x_rflag 2 == 0)
          && (tx.x_rflag 3 == 0)
          && (tx.x_rflag 4 == 0))
      && (tx.x_sflag == 0)

  abbrev pub with_flow : Termiox → Termios → Termios
  with_flow tx t = record t {
    c_cflag = if tx.x_hflag == 0 then clear crtscts t.c_cflag else bit_or t.c_cflag crtscts;
  }

  -- TCSETX, TCSETXW and TCSETXF go to TCSETS, TCSETSW and TCSETSF.
  abbrev pub set_flow : ℤ → ℕ → Termios → World → Option Termiox → ℤ × World
  set_flow fd cmd t w none = (neg efault, w)
  set_flow fd cmd t w (some tx) =
      if understood tx
      then set_termios fd (if cmd == 2 then 0x5402 else if cmd == 3 then 0x5403 else 0x5404)
          (with_flow tx t) w
      else (neg einval, w)

  -- sizeof(struct termiox) is 16.
  unfoldable pub svr4_termiox_ioctl : ℤ → ℕ → ℕ → World → ℤ × World
  svr4_termiox_ioctl fd cmd arg w =
      let error = if cmd == 1 then verify_write arg 16 w else verify_read arg 16 w in
      let (error', t, w') = get_termios fd w in
      if ltb cmd 1 || ltb 4 cmd
      then (neg einval, w)
      else if not (is_zero error)
      then (error, w)
      else if not (is_zero error')
      then (error', w')
      else if cmd == 1
      then copied (copy_termiox_to arg (hardware_flow t) w')
      else set_flow fd cmd t w' (copy_termiox_from arg w')
