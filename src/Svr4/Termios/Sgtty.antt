-- ===== src/Svr4/Termios/Sgtty.antt =====
-- abiemu/abi/svr4/termios.c: the structures of Version 7 and their conversions.
use linux_abiemu.Prelude.{ℕ, ◌*◌, ◌/◌, ◌^◌, bit_and, bit_or, if◌then◌else◌}
use linux_abiemu.Svr4.Termios.{Termios, clear, has, set_slot, icanon}

-- `struct v7_sgttyb`, `struct v7_tchars` and `struct v7_ltchars`
pub record Sgttyb : Type 0 where
  pub sg_ispeed : ℕ
  pub sg_ospeed : ℕ
  pub sg_erase : ℕ
  pub sg_kill : ℕ
  pub sg_flags : ℕ

pub record Tchars : Type 0 where
  pub t_intrc : ℕ
  pub t_quitc : ℕ
  pub t_startc : ℕ
  pub t_stopc : ℕ
  pub t_eofc : ℕ
  pub t_brkc : ℕ

pub record Ltchars : Type 0 where
  pub t_suspc : ℕ
  pub t_dsuspc : ℕ
  pub t_rprntc : ℕ
  pub t_flushc : ℕ
  pub t_werasc : ℕ
  pub t_lnextc : ℕ

-- PARODD 01000 and PARENB 0400; OPOST 1 is looked for in the control flags; ONLCR 4; NL1|VTDLY
-- 040400, TABDLY 014000, CRDLY 03000, BSDLY 020000; XCASE|ECHO 014; ICANON 2 and ISIG 1.
unfoldable pub flags_of_terminal : Termios → ℕ
flags_of_terminal t =
    bit_or
      (bit_or (bit_or (bit_and t.c_cflag 0x200 / 2 ^ 3) (bit_and t.c_cflag 0x100 / 2))
        (bit_or (if has 1 t.c_cflag then 0 else 0x20_0000) (bit_and t.c_oflag 4 * 2 ^ 2)))
      (bit_or
        (bit_or (bit_or (bit_and t.c_oflag 0x4100) (if has 0x1800 t.c_oflag then 0x400 else 0))
          (bit_or (bit_and t.c_oflag 0x600 * 2 ^ 3) (bit_and t.c_oflag 0x2000 * 2 ^ 2)))
        (bit_or (bit_and t.c_lflag 12)
          (if has icanon t.c_lflag then 0 else if has 1 t.c_lflag then 2 else 0x20)))

unfoldable pub sgttyb_of : Termios → Sgttyb
sgttyb_of t = record {
  sg_ispeed = 0;
  sg_ospeed = 0;
  sg_erase = t.c_cc 2;
  sg_kill = t.c_cc 3;
  sg_flags = flags_of_terminal t;
}

-- O_CBREAK 2, O_ECHO 8, O_CRMOD 0x10, O_RAW 0x20 and LITOUT 0x200000.
abbrev pub input_of : ℕ → ℕ
input_of f = if has 0x20 f then 0 else 0x500

abbrev pub output_of : ℕ → ℕ
output_of f =
    let o = if has 0x10 f then bit_or 0 5 else 0 in if has 0x20_0000 f then clear 1 o else o

abbrev pub local_of : ℕ → ℕ
local_of f =
    let l = if has 2 f then clear icanon 3 else 3 in
    let l' = if has 8 f then bit_or l 0x8a38 else l in if has 0x20 f then clear 3 l' else l'

unfoldable pub with_sgttyb : Sgttyb → Termios → Termios
with_sgttyb sg t =
    let cc = set_slot 3 sg.sg_kill (set_slot 2 sg.sg_erase t.c_cc) in
    record {
      c_iflag = input_of sg.sg_flags;
      c_oflag = output_of sg.sg_flags;
      c_cflag = t.c_cflag;
      c_lflag = local_of sg.sg_flags;
      c_cc = if has icanon (local_of sg.sg_flags) then cc else set_slot 5 0 (set_slot 6 1 cc);
    }

unfoldable pub with_tchars : Tchars → Termios → Termios
with_tchars tc t = record t {
  c_cc = set_slot 16 tc.t_brkc (
      set_slot 4 tc.t_eofc (
        set_slot 9 tc.t_stopc
          (set_slot 8 tc.t_startc (set_slot 1 tc.t_quitc (set_slot 0 tc.t_intrc t.c_cc)))));
}

unfoldable pub tchars_of : Termios → Tchars
tchars_of t = record {
  t_intrc = t.c_cc 0;
  t_quitc = t.c_cc 1;
  t_startc = t.c_cc 8;
  t_stopc = t.c_cc 9;
  t_eofc = t.c_cc 4;
  t_brkc = t.c_cc 16;
}

-- VEOL2 is written twice.
unfoldable pub with_ltchars : Ltchars → Termios → Termios
with_ltchars tc t = record t {
  c_cc = set_slot 15 tc.t_lnextc (
      set_slot 14 tc.t_werasc (
        set_slot 16 tc.t_flushc
          (set_slot 12 tc.t_rprntc (set_slot 16 tc.t_dsuspc (set_slot 10 tc.t_suspc t.c_cc)))));
}

unfoldable pub ltchars_of : Termios → Ltchars
ltchars_of t = record {
  t_suspc = t.c_cc 10;
  t_dsuspc = t.c_cc 10;
  t_rprntc = t.c_cc 12;
  t_flushc = t.c_cc 16;
  t_werasc = t.c_cc 14;
  t_lnextc = t.c_cc 15;
}
