-- ===== src/Svr4/Termios/Bsd.antt =====
-- abiemu/abi/svr4/termios.c: the conversions of `struct bsd_termios`, and its speeds.
use linux_abiemu.Prelude.{
  ℕ, suc, ◌*◌, ◌/◌, ◌^◌, bit_and, bit_or, List, [], ◌∷◌, ◌==◌, leb, if◌then◌else◌, get_or,
}
use linux_abiemu.Svr4.Termios.{Termios, clear, has, crtscts}

-- `struct bsd_termios` (20 characters)
pub record BsdTermios : Type 0 where
  pub c_iflag : ℕ
  pub c_oflag : ℕ
  pub c_cflag : ℕ
  pub c_lflag : ℕ
  pub c_cc : ℕ → ℕ
  pub c_ispeed : ℕ
  pub c_ospeed : ℕ

-- The speeds, with B57600 010001, B115200 010002 and B38400 15.
abbrev pub speed_map : List ℕ
speed_map =
    0 ∷ 50 ∷ 75 ∷ 110 ∷ 134 ∷ 150 ∷ 200 ∷ 300 ∷ 600 ∷ 1200 ∷ 1800 ∷ 2400 ∷ 4800 ∷ 9600 ∷ 19200
    ∷ 38400 ∷ []

abbrev pub first_reaching : ℕ → ℕ → List ℕ → ℕ
first_reaching s i [] = 15
first_reaching s i (x ∷ xs) = if leb s x then i else first_reaching s (suc i) xs

unfoldable pub bsd_to_linux_speed : ℕ → ℕ
bsd_to_linux_speed s =
    if s == 57600 then 0x1001 else if s == 115200 then 0x1002 else first_reaching s 0 speed_map

-- Past the end of the table the kernel reads what lies there.
unfoldable pub linux_to_bsd_speed : (ℕ → ℕ) → ℕ → ℕ
linux_to_bsd_speed past s =
    if s == 0x1001 then 57600 else if s == 0x1002 then 115200 else get_or speed_map s (past s)

-- Bits 10 and 11 change places.
unfoldable pub iflag_from_bsd : ℕ → ℕ
iflag_from_bsd i = bit_or (bit_or (clear 0xc00 i) (bit_and i 0x400 * 2)) (bit_and i 0x800 / 2)

unfoldable pub oflag_from_bsd : ℕ → ℕ → ℕ
oflag_from_bsd old temp =
    bit_or
      (bit_or (bit_or (bit_or (clear 0x1805 old) (bit_and temp 9)) (bit_and temp 2 * 2))
        (bit_and temp 4 * 2 ^ 10))
      (bit_and temp 4 * 2 ^ 9)

unfoldable pub cflag_from_bsd : ℕ → BsdTermios → ℕ
cflag_from_bsd old it =
    let c = bit_or (clear 0xfff old) (bit_and it.c_cflag 0xff00 / 2 ^ 4) in
    bit_or (if has 0x30000 c then bit_or c crtscts else c)
      (bit_or (bsd_to_linux_speed it.c_ospeed) (bsd_to_linux_speed it.c_ispeed * 2 ^ 16))

unfoldable pub lflag_from_bsd : ℕ → ℕ → ℕ
lflag_from_bsd old temp = bit_or (clear 0xdfb3 old) (
    bit_or
      (bit_or (bit_or (bit_and temp 1 * 2 ^ 12) (bit_and temp 0x46 * 2 ^ 3))
        (bit_or (bit_and temp 0x420 * 2 ^ 5) (bit_and temp 0x180 / 2 ^ 7)))
      (bit_or (bit_or (bit_and temp 0x40_0000 / 2 ^ 14) (bit_and temp 0x280_0000 / 2 ^ 11))
        (bit_and temp 0x8000_0000 / 2 ^ 24)))

-- Slots VEOF 4, VEOL 11, VEOL2 16, VERASE 2, VWERASE 14, VKILL 3, VREPRINT 12, VSWTC 7, VINTR 0,
-- VQUIT 1, VSUSP 10, VSTART 8, VSTOP 9, VLNEXT 15, VDISCARD 13, VMIN 6 and VTIME 5, in the order of
-- BSD, which has one more after VSUSP.
abbrev pub cc_from_bsd : (ℕ → ℕ) → (ℕ → ℕ) → ℕ → ℕ
cc_from_bsd old cc i =
    get_or
      (cc 8
        ∷ cc 9
        ∷ cc 3
        ∷ cc 5
        ∷ cc 0
        ∷ cc 17
        ∷ cc 16
        ∷ cc 7
        ∷ cc 12
        ∷ cc 13
        ∷ cc 10
        ∷ cc 1
        ∷ cc 6
        ∷ cc 15
        ∷ cc 4
        ∷ cc 14
        ∷ cc 2
        ∷ [])
      i (old i)

abbrev pub cc_to_bsd : (ℕ → ℕ) → ℕ → ℕ
cc_to_bsd cc i =
    get_or
      (cc 4
        ∷ cc 11
        ∷ cc 16
        ∷ cc 2
        ∷ cc 14
        ∷ cc 3
        ∷ cc 12
        ∷ cc 7
        ∷ cc 0
        ∷ cc 1
        ∷ cc 10
        ∷ cc 10
        ∷ cc 8
        ∷ cc 9
        ∷ cc 15
        ∷ cc 13
        ∷ cc 6
        ∷ cc 5
        ∷ [])
      i 0

unfoldable pub from_bsd : Termios → BsdTermios → (ℕ → ℕ) → Termios
from_bsd old it cc = record {
  c_iflag = iflag_from_bsd it.c_iflag;
  c_oflag = oflag_from_bsd old.c_oflag it.c_oflag;
  c_cflag = cflag_from_bsd old.c_cflag it;
  c_lflag = lflag_from_bsd old.c_lflag it.c_lflag;
  c_cc = cc_from_bsd old.c_cc cc;
}

unfoldable pub iflag_to_bsd : ℕ → ℕ
iflag_to_bsd i =
    bit_or (bit_or (bit_or (bit_and i 0x1ff) (bit_and i 0x400 / 2)) (bit_and i 0x1000 / 2 ^ 2))
      (bit_and i 0x2000 / 2 ^ 4)

unfoldable pub oflag_to_bsd : ℕ → ℕ
oflag_to_bsd o =
    bit_or (bit_or (bit_and o 1) (bit_and o 4 / 2)) (if bit_and o 0x1800 == 0x1800 then 4 else 0)

unfoldable pub cflag_to_bsd : ℕ → ℕ
cflag_to_bsd c =
    bit_or (bit_or (clear 0x8000_0fff c) (bit_and c 0xff0 * 2 ^ 4))
      (if has crtscts c then 0x30000 else 0)

unfoldable pub lflag_to_bsd : ℕ → ℕ
lflag_to_bsd l =
    bit_or
      (bit_or (bit_or (bit_and l 0x3fff_2c08) (bit_and l 3 * 2 ^ 7))
        (bit_or (bit_and l 0x270 / 2 ^ 3) (bit_and l 0x100 * 2 ^ 14)))
      (bit_or (bit_or (bit_and l 0x400 / 2 ^ 4) (bit_and l 0x800 / 2 ^ 11)) (
        bit_or (bit_or (bit_and l 0x1000 * 2 ^ 11) (bit_and l 0x4000 * 2 ^ 15))
          (bit_and l 0x8000 / 2 ^ 5)))

-- CBAUD is 010017 and CIBAUD 02003600000; no speed of input is that of output.
unfoldable pub to_bsd : (ℕ → ℕ) → Termios → BsdTermios
to_bsd past t =
    let ospeed = linux_to_bsd_speed past (bit_and t.c_cflag 0x100f) in
    record {
      c_iflag = iflag_to_bsd t.c_iflag;
      c_oflag = oflag_to_bsd t.c_oflag;
      c_cflag = cflag_to_bsd t.c_cflag;
      c_lflag = lflag_to_bsd t.c_lflag;
      c_cc = cc_to_bsd t.c_cc;
      c_ispeed =
          if has 0x100f_0000 t.c_cflag
          then linux_to_bsd_speed past (bit_and t.c_cflag 0x100f_0000 / 2 ^ 16)
          else ospeed;
      c_ospeed = ospeed;
    }
