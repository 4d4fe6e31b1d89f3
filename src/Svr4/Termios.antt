-- ===== src/Svr4/Termios.antt =====
-- abiemu/abi/svr4/termios.c: the conversions of System V's terminals. Requests has the ioctls, Bsd
-- and Ioctls those of BSD and Version 7.
pub mod Requests
pub mod Flags
pub mod Roundtrip
pub mod Bsd
pub mod Speeds
pub mod Sgtty
pub mod Ioctls
pub mod Modes
use linux_abiemu.Prelude.{
  ℕ, ◌*◌, ◌/◌, ◌-◌, ◌%◌, ◌^◌, bit_and, bit_or, Bool, true, false, not, ◌&&◌, ◌||◌, Option, none,
  some, ℤ, pos, neg, is_zero, ◌==◌, ltb, if◌then◌else◌,
}

-- The flags of `struct termio` (of 16 bits) and of `struct termios` and `struct svr4_termios`, with
-- the control characters by their slots.
pub record Termios : Type 0 where
  pub c_iflag : ℕ
  pub c_oflag : ℕ
  pub c_cflag : ℕ
  pub c_lflag : ℕ
  pub c_cc : ℕ → ℕ

-- ICANON 0000002 and CRTSCTS 020000000000.
abbrev pub icanon : ℕ
icanon = 2

abbrev pub crtscts : ℕ
crtscts = 0x8000_0000

-- `t & ~m` on 32 bits.
abbrev pub clear : ℕ → ℕ → ℕ
clear m t = bit_and t (0xffff_ffff - m)

-- `t & m`, as a test.
abbrev pub has : ℕ → ℕ → Bool
has m t = not (bit_and t m == 0)

abbrev pub set_slot : ℕ → ℕ → (ℕ → ℕ) → ℕ → ℕ
set_slot k v cc i = if i == k then v else cc i

-- The members are 16 bits wide.
unfoldable pub cflag_from_svr : ℕ → ℕ
cflag_from_svr c = clear 0xf000 (if has 0x8000 c then bit_or c crtscts % 2 ^ 16 else c)

-- The structure of the program, with the kernel's VEOF if VMIN stands in its place.
unfoldable pub termio_from_svr : Termios → Termios → Termios
termio_from_svr old it = record it {
  c_cc =
      if has icanon it.c_lflag
      then it.c_cc
      else set_slot 4 (old.c_cc 4) (set_slot 6 (it.c_cc 4) it.c_cc);
  c_cflag = cflag_from_svr it.c_cflag;
}

unfoldable pub termio_to_svr : Termios → Termios
termio_to_svr t = record t {
  c_cc = if has icanon t.c_lflag then t.c_cc else set_slot 4 (t.c_cc 6) t.c_cc;
}

-- CRTSFL 0100000 is CRTSCTS here.
unfoldable pub cflag_from_svr4 : ℕ → ℕ
cflag_from_svr4 c = clear 0xf000 (if has 0x8000 c then bit_or c crtscts else c)

unfoldable pub cflag_to_svr4 : ℕ → ℕ
cflag_to_svr4 c = bit_and (if has crtscts c then bit_or c 0x8000 else c) 0xffff

-- The local flags before TIOCEXCL or TIOCNXCL, and their moves after it.
abbrev pub joined_lflag : ℕ → ℕ → ℕ
joined_lflag old r = bit_or (clear 0x81ff old) (r % 2 ^ 16)

unfoldable pub moved_lflag : ℕ → ℕ → ℕ
moved_lflag old joined =
    let t = clear 0x8000 joined in
    let t' = clear 0x100 (bit_or t (bit_and t 0x100 * 2 ^ 7)) in
    let t'' = clear 0x200 (bit_or t' (bit_and t' 0x200 / 2)) in bit_or t'' (bit_and old 0x200)

unfoldable pub lflag_from_svr4 : ℕ → ℕ → ℕ
lflag_from_svr4 old r = moved_lflag old (joined_lflag old r)

-- The local flags that the kernel gives, moved back; bit 1 of them, ICANON, decides on the slots.
unfoldable pub lflag_to_svr4 : ℕ → ℕ
lflag_to_svr4 l =
    let t = clear 0x200 l in
    let t' = clear 0x100 (bit_or t (bit_and t 0x100 * 2)) in
    clear 0x8000 (bit_or t' (bit_and t' 0x8000 / 2 ^ 7))

-- Slots 4, 5, 6 and 11 depend on ICANON.
abbrev pub cc_from_svr4 : Bool → (ℕ → ℕ) → (ℕ → ℕ) → ℕ → ℕ
cc_from_svr4 canonical old cc i =
    if i == 4
    then (if canonical then cc 4 else old 4)
    else if i == 5
    then (if canonical then old 5 else cc 5)
    else if i == 6
    then (if canonical then old 6 else cc 4)
    else if i == 11
    then (if canonical then cc 5 else cc 6)
    else if ltb i 17
    then cc i
    else old i

abbrev pub cc_to_svr4 : Bool → (ℕ → ℕ) → (ℕ → ℕ) → ℕ → ℕ
cc_to_svr4 canonical stack cc i =
    if i == 4
    then (if canonical then cc 4 else cc 6)
    else if i == 5
    then (if canonical then cc 11 else cc 5)
    else if i == 6
    then cc 16
    else if i == 11
    then cc 10
    else if ltb i 16
    then cc i
    else stack i

unfoldable pub from_svr4 : Termios → Termios → (ℕ → ℕ) → Termios
from_svr4 old it cc =
    let lflag = lflag_from_svr4 old.c_lflag it.c_lflag in
    record {
      c_iflag = clear 0x8000 it.c_iflag;
      c_oflag = it.c_oflag;
      c_cflag = cflag_from_svr4 it.c_cflag;
      c_lflag = lflag;
      c_cc = cc_from_svr4 (has icanon lflag) old.c_cc cc;
    }

unfoldable pub to_svr4 : (ℕ → ℕ) → Termios → Termios
to_svr4 stack t =
    let lflag = lflag_to_svr4 t.c_lflag in
    record {
      c_iflag = bit_and t.c_iflag 0x1fff;
      c_oflag = bit_and t.c_oflag 0xffff;
      c_cflag = cflag_to_svr4 t.c_cflag;
      c_lflag = bit_and lflag 0x3ff;
      c_cc = cc_to_svr4 (has icanon lflag) stack t.c_cc;
    }
