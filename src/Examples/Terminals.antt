-- ===== src/Examples/Terminals.antt =====
-- The terminal ioctls at a terminal that keeps what is set: the state is the terminal.
use linux_abiemu.Prelude.{ℕ, ◌<◌, true, false, none, some, ◌≡◌, ◌⊎◌, refl, arith, pos}
use linux_abiemu.Svr4.Termios.{Termios}
use linux_abiemu.Svr4.Termios.Requests.{TermHost, svr4_term_ioctl, svr4_to_linux_termios, copied}
use linux_abiemu.Svr4.Termios.Roundtrip.{Shown, Keeps, before, given, changed, set_then_get}
use linux_abiemu.Svr4.Termios.Bsd.{bsd_to_linux_speed, linux_to_bsd_speed}
use linux_abiemu.Svr4.Termios.Speeds.{Ceiling, bsd_to_linux_speed-Ceiling}
use linux_abiemu.Svr4.Termios.Ioctls.{BsdHost, bsd_command, bsd_ioctl_termios}
use linux_abiemu.Svr4.Termios.Sgtty.{Sgttyb}
use linux_abiemu.Svr4.Termios.Ioctls
use linux_abiemu.Svr4.Termios.Modes.{Moded, modes_shown}
use linux_abiemu.Svr4.Termios.Modes

abbrev terminal : Termios
terminal = record { c_iflag = 0x500; c_oflag = 5; c_cflag = 0xbf; c_lflag = 0x8a3b; c_cc = λ i. i }

-- The program's structure, at any address: raw, with TOSTOP.
abbrev term_host : TermHost
term_host = record {
  World = Termios;
  verify_read = λ a n w. pos 0;
  verify_write = λ a n w. pos 0;
  get_termio = λ fd w. (pos 0, w, w);
  set_termio = λ fd op t w. (pos 0, t);
  get_termios = λ fd w. (pos 0, w, w);
  set_termios = λ fd op t w. (pos 0, t);
  sys_ioctl = λ fd op a w. (pos 0, w);
  copy_termio_from = λ a w. none;
  copy_termio_to = λ a t w. (false, w);
  read_flags = λ a w. record {
    c_iflag = 0x2000;
    c_oflag = 1;
    c_cflag = 0x80bd;
    c_lflag = 0x201;
    c_cc = λ i. 0;
  };
  read_cc = λ a w. some (λ i. 100);
  write_flags = λ a t w. w;
  write_cc = λ a cc w. (true, w);
  stack_cc = λ w i. 0;
  copy_termiox_from = λ a w. none;
  copy_termiox_to = λ a t w. (false, w);
}

abbrev keeps : Keeps term_host
keeps = record { get-set = λ fd op t w h. (refl, refl) }

abbrev after_set : Termios
after_set = (svr4_term_ioctl term_host (pos 3) 14 4000 terminal).1

set_then_get_example :
    (cc : ℕ → ℕ) × (shown : Termios) × (term_host.read_cc 4000
        (changed term_host keeps (pos 3) 4000 terminal)
      ≡ some cc)
    × Shown
        (before term_host keeps (pos 3) terminal)
        (given term_host keeps (pos 3) 4000 terminal)
        cc
        shown
    × (svr4_term_ioctl term_host (pos 3) 13 5000 after_set
        ≡ copied term_host (
            term_host.write_cc 5000 shown.c_cc
              (term_host.write_flags 5000 shown (term_host.get_termios (pos 3) after_set).2)))
unfolding svr4_term_ioctl svr4_to_linux_termios
set_then_get_example = set_then_get term_host keeps (pos 3) 4000 5000 terminal refl refl

bsd_to_linux_speed-Ceiling_example :
    Ceiling (λ c. 0) 1000 (bsd_to_linux_speed 1000)
    × ((c : ℕ)
        → (c < 16) ⊎ (c ≡ 0x1001) ⊎ (c ≡ 0x1002)
        → bsd_to_linux_speed (linux_to_bsd_speed (λ c. 0) c) ≡ c)
bsd_to_linux_speed-Ceiling_example = bsd_to_linux_speed-Ceiling (λ c. 0) 1000 (omega arith)

-- The program's modes, at any address: O_CBREAK, O_ECHO and LITOUT.
abbrev bsd_host : BsdHost
bsd_host = record {
  World = Termios;
  verify_read = λ a n w. pos 0;
  verify_write = λ a n w. pos 0;
  get_termios = λ fd w. (pos 0, w, w);
  set_termios = λ fd op t w. (pos 0, t);
  get_ldisc = λ fd w. (pos 0, 0, w);
  set_ldisc = λ fd n w. (pos 0, w);
  sys_ioctl = λ fd op a w. (pos 0, w);
  past_speeds = λ c. 0;
  get_short = λ a w. 0;
  put_short = λ a v w. w;
  read_words = λ a w. record {
    c_iflag = 0;
    c_oflag = 0;
    c_cflag = 0;
    c_lflag = 0;
    c_cc = λ i. 0;
    c_ispeed = 0;
    c_ospeed = 0;
  };
  read_cc = λ a w. none;
  write_words = λ a t w. w;
  write_cc = λ a cc w. (false, w);
  copy_sgttyb_from = λ a w.
      some
        (record { sg_ispeed = 0; sg_ospeed = 0; sg_erase = 8; sg_kill = 64; sg_flags = 0x20_000a });
  copy_sgttyb_to = λ a sg w. (true, w);
  copy_tchars_from = λ a w. none;
  copy_tchars_to = λ a t w. (false, w);
  copy_ltchars_from = λ a w. none;
  copy_ltchars_to = λ a t w. (false, w);
}

abbrev bsd_keeps : Modes.Keeps bsd_host
bsd_keeps = record { get-set = λ fd op t w h. (refl, refl) }

abbrev after_setp : Termios
after_setp = (bsd_ioctl_termios bsd_host (pos 3) 0x7409 4000 terminal).1

modes_shown_example :
    (sg shown : Sgttyb) × (bsd_host.copy_sgttyb_from 4000 terminal ≡ some sg)
    × Moded sg 0xbf shown
    × (bsd_ioctl_termios bsd_host (pos 3) 0x7408 5000 after_setp
        ≡ Ioctls.copied
            (bsd_host.copy_sgttyb_to 5000 shown (bsd_host.get_termios (pos 3) after_setp).2))
unfolding bsd_ioctl_termios bsd_command
modes_shown_example = modes_shown bsd_host bsd_keeps (pos 3) 4000 5000 terminal refl refl
