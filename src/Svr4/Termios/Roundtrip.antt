-- ===== src/Svr4/Termios/Roundtrip.antt =====
-- What a program finds when it reads the terminal that it has set (abiemu/abi/svr4/termios.c).
use linux_abiemu.Prelude.{
  ℕ, ◌<◌, bit_and, Bool, true, false, ◌&&◌, ◌||◌, Option, none, some, ◌≡◌, ◌≢◌, refl, sym, ◌∙◌, inl,
  inr, arith, ℤ, is_zero, ◌==◌, ltb, ==_iff, Bool-cases,
}
use linux_abiemu.Prelude.Bits.{bit, bit-bit_and, all_below, all_below_sound, agree, eq_of_agree}
use linux_abiemu.Prelude.Masks.{bit-clear}
use linux_abiemu.Svr4.Termios.{
  Termios, clear, has, icanon, cc_from_svr4, cc_to_svr4, from_svr4, to_svr4, lflag_from_svr4,
  lflag_to_svr4, joined_lflag,
}
use linux_abiemu.Svr4.Termios.Requests.{
  TermHost, show_svr4, set_svr4, exclusive, copied, svr4_to_linux_termios, linux_to_svr4_termios,
  svr4_term_ioctl,
}
use linux_abiemu.Svr4.Termios.Flags.{
  has-bit, bit-lflag_from_svr4, bit-lflag_to_svr4, bit-cflag_from_svr4, bit-cflag_to_svr4,
}

-- What is shown of the flags `it` and the characters cc, where the terminal was `old`: bit 9 of the
-- local flags also comes back where ECHOCTL was set, slot 6 is what slot 16 was and slot 11 what
-- slot 10 was, and the slots from 16 on are not of the terminal.
pub record Shown (old it : Termios) (cc : ℕ → ℕ) (out : Termios) : Type 0 where
  pub iflag : (i : ℕ) → i < 16 → bit i out.c_iflag ≡ (bit i it.c_iflag && ltb i 13)
  pub oflag : out.c_oflag ≡ bit_and it.c_oflag 0xffff
  pub cflag :
      (i : ℕ)
      → i < 16
      → bit i out.c_cflag
        ≡ (bit i it.c_cflag && ltb i 12 || (bit 15 it.c_cflag || bit 31 it.c_cflag) && (i == 15))
  pub lflag :
      (i : ℕ) → i < 10 → bit i out.c_lflag ≡ (bit i it.c_lflag || bit 9 old.c_lflag && (i == 9))
  pub slots : (i : ℕ) → i < 16 → i ≢ 6 → i ≢ 11 → out.c_cc i ≡ cc i
  pub eol2 : out.c_cc 6 ≡ cc 16
  pub dsusp : out.c_cc 11 ≡ cc 10

slots_round_trip :
    (canonical : Bool) (old cc stack : ℕ → ℕ) (i : ℕ)
    → i < 16
    → i ≢ 6
    → i ≢ 11
    → cc_to_svr4 canonical stack (cc_from_svr4 canonical old cc) i ≡ cc i
slots_round_trip canonical old cc stack i h p q = elim (Bool-cases (i == 4)) [
  | inl e ↦ let same : i ≡ 4 = (==_iff i 4).0 e in rw same (fourth canonical)
  | inr e ↦ elim (Bool-cases (i == 5)) [
    | inl f ↦ let same : i ≡ 5 = (==_iff i 5).0 f in rw same (fifth canonical)
    | inr f ↦ ground arith
  ]
]
  where
    fourth : (c : Bool) → cc_to_svr4 c stack (cc_from_svr4 c old cc) 4 ≡ cc 4
    fourth true = refl
    fourth false = refl

    fifth : (c : Bool) → cc_to_svr4 c stack (cc_from_svr4 c old cc) 5 ≡ cc 5
    fifth true = refl
    fifth false = refl

same_mode :
    (old r : ℕ)
    → has icanon (lflag_to_svr4 (lflag_from_svr4 old r)) ≡ has icanon (lflag_from_svr4 old r)
same_mode old r =
    has-bit 1 _ ∙ bit-lflag_to_svr4 1 (lflag_from_svr4 old r) (omega arith) ∙ sym (has-bit 1 _)

iflag_table : all_below 16 (λ i. agree (bit i 0x1fff) (ltb i 13)) ≡ true
unfolding all_below
iflag_table = refl

bit-shown_iflag :
    (i a : ℕ) → i < 16 → bit i (bit_and (clear 0x8000 a) 0x1fff) ≡ (bit i a && ltb i 13)
bit-shown_iflag i a h =
    let kept : bit i 0x1fff ≡ ltb i 13 = eq_of_agree _ _ (all_below_sound 16 _ i iflag_table h) in
    bit-bit_and i _ 0x1fff ∙ ground (arith, kept, bit-clear i 15 a (omega arith) (omega arith))

shown_table : all_below 10 (λ i. bit i 0x3ff) ≡ true
unfolding all_below
shown_table = refl

-- The moves of the local flags, there and back.
bit-lflag_round_trip :
    (i old r : ℕ)
    → i < 10
    → bit i (lflag_to_svr4 (lflag_from_svr4 old r)) ≡ (bit i r || bit 9 old && (i == 9))
bit-lflag_round_trip i old r h = elim (Bool-cases (i == 8)) [
  | inl e ↦ let same : i ≡ 8 = (==_iff i 8).0 e in rw same (at_8 ∙ ground arith)
  | inr e ↦ elim (Bool-cases (i == 9)) [
    | inl f ↦ let same : i ≡ 9 = (==_iff i 9).0 f in rw same (at_9 ∙ ground arith)
    | inr f ↦
        bit-lflag_to_svr4 i (lflag_from_svr4 old r) (omega arith)
        ∙ ground (arith, bit-lflag_from_svr4 i old r (omega arith))
  ]
]
  where
    at_8 : bit 8 (lflag_to_svr4 (lflag_from_svr4 old r)) ≡ bit 8 r
    at_8 =
        bit-lflag_to_svr4 8 (lflag_from_svr4 old r) (omega arith)
        ∙ bit-lflag_from_svr4 15 old r (omega arith)

    at_9 : bit 9 (lflag_to_svr4 (lflag_from_svr4 old r)) ≡ (bit 9 old || bit 9 r)
    at_9 =
        bit-lflag_to_svr4 9 (lflag_from_svr4 old r) (omega arith)
        ∙ bit-lflag_from_svr4 8 old r (omega arith)

bit-shown_lflag :
    (i old r : ℕ)
    → i < 10
    → bit i (bit_and (lflag_to_svr4 (lflag_from_svr4 old r)) 0x3ff)
      ≡ (bit i r || bit 9 old && (i == 9))
bit-shown_lflag i old r h =
    bit-bit_and i _ 0x3ff
    ∙ ground (arith, bit-lflag_round_trip i old r h, all_below_sound 10 _ i shown_table h)

-- The flags and characters of a program, set and then shown.
to_svr4-Shown :
    (old it : Termios) (cc stack : ℕ → ℕ) → Shown old it cc (to_svr4 stack (from_svr4 old it cc))
unfolding from_svr4 to_svr4
to_svr4-Shown old it cc stack = record {
  iflag = λ i h. bit-shown_iflag i it.c_iflag h;
  oflag = refl;
  cflag = λ i h.
      bit-cflag_to_svr4 i _ h
      ∙ ground (
        arith,
        bit-cflag_from_svr4 i it.c_cflag (omega arith),
        bit-cflag_from_svr4 31 it.c_cflag (omega arith),
      );
  lflag = λ i h. bit-shown_lflag i old.c_lflag it.c_lflag h;
  slots = λ i h p q. rw (same_mode old.c_lflag it.c_lflag) (
      slots_round_trip (has icanon (lflag_from_svr4 old.c_lflag it.c_lflag)) old.c_cc cc stack i h p
        q);
  eol2 = refl;
  dsusp = refl;
}

-- A terminal that keeps what is set: TCGETS after a TCSETS, TCSETSW or TCSETSF that succeeded
-- succeeds and gives the structure that was set.
pub record Keeps (host : TermHost) : Type 0 where
  pub get-set :
      (fd : ℤ) (op : ℕ) (t : Termios) (w : host.World)
      → is_zero (host.set_termios fd op t w).0 ≡ true
      → (is_zero (host.get_termios fd (host.set_termios fd op t w).1).0 ≡ true)
        × ((host.get_termios fd (host.set_termios fd op t w).1).1 ≡ t)

module _ (host : TermHost) (law : Keeps host) where
  open host use {
    World, verify_write, get_termios, read_flags, read_cc, write_flags, write_cc, stack_cc,
  }

  -- What ioctl 14 reads: the terminal before it, and the program's flags.
  abbrev pub before : ℤ → World → Termios
  before fd w = (get_termios fd w).1

  abbrev pub given : ℤ → ℕ → World → Termios
  given fd it w = read_flags it (get_termios fd w).2

  -- Reading succeeds after a structure was set.
  shown_after :
      (fd : ℤ) (op out : ℕ) (t : Termios) (u : World)
      → is_zero (host.set_termios fd op t u).0 ≡ true
      → is_zero (verify_write out 36 (host.set_termios fd op t u).1) ≡ true
      → linux_to_svr4_termios host fd out (host.set_termios fd op t u).1
        ≡ show_svr4 host out t (get_termios fd (host.set_termios fd op t u).1).2
  unfolding linux_to_svr4_termios
  shown_after fd op out t u set ok =
      let (zero_error, same) = law.get-set fd op t u set in rw (ok, zero_error, same) refl

  -- Where ioctl 14 succeeds, every step of it did.
  module _ (fd : ℤ) (it : ℕ) (w : World) where
    abbrev pub changed : World
    changed =
        exclusive host fd (joined_lflag (before fd w).c_lflag (given fd it w).c_lflag)
          (get_termios fd w).2

    copied_cc :
        (o : Option (ℕ → ℕ))
        → read_cc it changed ≡ o
        → is_zero (set_svr4 host fd 0x5402 (before fd w) (given fd it w) changed o).0 ≡ true
        → (cc : ℕ → ℕ) × (read_cc it changed ≡ some cc)
          × (set_svr4 host fd 0x5402 (before fd w) (given fd it w) changed o
              ≡ host.set_termios fd 0x5402 (from_svr4 (before fd w) (given fd it w) cc) changed)
    copied_cc none h set = cc
    copied_cc (some chars) h set = (chars, h, refl)

    steps :
        is_zero (svr4_to_linux_termios host fd 0x5402 it w).0 ≡ true
        → (cc : ℕ → ℕ) × (read_cc it changed ≡ some cc)
          × (svr4_to_linux_termios host fd 0x5402 it w
              ≡ host.set_termios fd 0x5402 (from_svr4 (before fd w) (given fd it w) cc) changed)
    unfolding svr4_to_linux_termios
    steps set = elim (Bool-cases (is_zero (host.verify_read it 36 w))) [
      | inr e ↦ absurd (ground (arith, rw e at set))
      | inl e ↦ elim (Bool-cases (is_zero (get_termios fd w).0)) [
        | inl f ↦ rw (e, f) (copied_cc _ refl (rw (e, f) at set))
        | inr f ↦ absurd (ground (arith, rw (e, f) at set))
      ]
    ]

  -- A program that sets a terminal by ioctl 14 (TCSETS), with success, and asks for it by ioctl 13
  -- (TCGETS), to memory that may be written, gets back the flags and the characters that it gave:
  -- the input flags below bit 13, the output flags, the control flags below bit 12 and bit 15 for
  -- the flow control, the ten local flags and the characters. Bit 9 of the local flags also comes
  -- back set where ECHOCTL was set before, slot 6 has what slot 16 was given and slot 11 what slot
  -- 10 was. The terminal is assumed to keep what is set.
  pub set_then_get :
      (fd : ℤ) (it out : ℕ) (w : World)
      → is_zero (svr4_term_ioctl host fd 14 it w).0 ≡ true
      → is_zero (verify_write out 36 (svr4_term_ioctl host fd 14 it w).1) ≡ true
      → (cc : ℕ → ℕ) × (shown : Termios) × (read_cc it (changed fd it w) ≡ some cc)
        × Shown (before fd w) (given fd it w) cc shown
        × (svr4_term_ioctl host fd 13 out (svr4_term_ioctl host fd 14 it w).1
            ≡ copied host (
                write_cc out shown.c_cc
                  (write_flags out shown (get_termios fd (svr4_term_ioctl host fd 14 it w).1).2)))
  unfolding svr4_term_ioctl
  set_then_get fd it out w set ok = read_back (steps fd it w set)
    where
      read_back :
          (cc : ℕ → ℕ) × (read_cc it (changed fd it w) ≡ some cc)
            × (svr4_to_linux_termios host fd 0x5402 it w
                ≡ host.set_termios fd 0x5402
                    (from_svr4 (before fd w) (given fd it w) cc)
                    (changed fd it w))
          → (cc : ℕ → ℕ) × (shown : Termios) × (read_cc it (changed fd it w) ≡ some cc)
            × Shown (before fd w) (given fd it w) cc shown
            × (linux_to_svr4_termios host fd out (svr4_to_linux_termios host fd 0x5402 it w).1
                ≡ copied host (
                    write_cc out shown.c_cc (
                      write_flags out shown
                        (get_termios fd (svr4_to_linux_termios host fd 0x5402 it w).1).2)))
      read_back (chars, h, e) = (
        chars,
        to_svr4 (stack_cc (get_termios fd (svr4_to_linux_termios host fd 0x5402 it w).1).2)
            (from_svr4 (before fd w) (given fd it w) chars),
        h,
        to_svr4-Shown (before fd w) (given fd it w) chars _,
        rw e (shown_after fd 0x5402 out _ (changed fd it w) (rw e at set) (rw e at ok)),
      )
