-- ===== src/Svr4/Termios/Modes.antt =====
-- That TIOCGETP shows the modes that TIOCSETP has set (abiemu/abi/svr4/termios.c).
use linux_abiemu.Prelude.{
  ℕ, ◌*◌, ◌/◌, ◌^◌, bit_and, bit_or, Bool, true, false, not, ◌&&◌, ◌≡◌, refl, if◌then◌else◌, arith,
  and_left, and_right, Option, none, some, ℤ, is_zero, inl, inr, Bool-cases,
}
use linux_abiemu.Prelude.Bits.{bit, bit_and-shl1, agree, eq_of_agree}
use linux_abiemu.Svr4.Termios.{Termios, clear, has, icanon}
use linux_abiemu.Svr4.Termios.Ioctls.{BsdHost, copied, change, bsd_command, bsd_ioctl_termios}
use linux_abiemu.Svr4.Termios.Sgtty.{Sgttyb, with_sgttyb, sgttyb_of, flags_of_terminal, local_of}

-- What is shown of a structure that was set, on a terminal of control flags c: O_CBREAK 2 is lost
-- under O_RAW 0x20, and LITOUT 0x200000 tells of bit 0 of c.
pub record Moded (sg : Sgttyb) (c : ℕ) (out : Sgttyb) : Type 0 where
  pub raw : has 0x20 out.sg_flags ≡ has 0x20 sg.sg_flags
  pub cbreak : has 2 out.sg_flags ≡ (has 2 sg.sg_flags && not (has 0x20 sg.sg_flags))
  pub echo : has 8 out.sg_flags ≡ has 8 sg.sg_flags
  pub crmod : has 0x10 out.sg_flags ≡ has 0x10 sg.sg_flags
  pub litout : has 0x20_0000 out.sg_flags ≡ not (has 1 c)
  pub erase : out.sg_erase ≡ sg.sg_erase
  pub kill : out.sg_kill ≡ sg.sg_kill

abbrev cut : Bool → ℕ → ℕ
cut b m = if b then m else 0

-- The flags, by the modes set and bits 0, 8 and 9 of the control flags.
abbrev of_modes : Bool → Bool → Bool → Bool → Bool → Bool → Bool → Bool → ℕ
of_modes raw cbreak echo crmod litout c0 c8 c9 =
    let o = if crmod then 5 else 0 in
    let o' = if litout then clear 1 o else o in
    let l = if cbreak then clear icanon 3 else 3 in
    let l' = if echo then bit_or l 0x8a38 else l in
    let l'' = if raw then clear 3 l' else l' in
    bit_or
      (bit_or (bit_or (cut c9 0x200 / 2 ^ 3) (cut c8 0x100 / 2))
        (bit_or (if c0 then 0 else 0x20_0000) (bit_and o' 4 * 2 ^ 2)))
      (bit_or
        (bit_or (bit_or (bit_and o' 0x4100) (if has 0x1800 o' then 0x400 else 0))
          (bit_or (bit_and o' 0x600 * 2 ^ 3) (bit_and o' 0x2000 * 2 ^ 2)))
        (bit_or (bit_and l'' 12) (if has icanon l'' then 0 else if has 1 l'' then 2 else 0x20)))

flags_of_modes :
    (sg : Sgttyb) (t : Termios)
    → flags_of_terminal (with_sgttyb sg t)
      ≡ of_modes
          (has 0x20 sg.sg_flags)
          (has 2 sg.sg_flags)
          (has 8 sg.sg_flags)
          (has 0x10 sg.sg_flags)
          (has 0x20_0000 sg.sg_flags)
          (has 1 t.c_cflag)
          (bit 8 t.c_cflag)
          (bit 9 t.c_cflag)
unfolding flags_of_terminal with_sgttyb
flags_of_modes sg t = rw (bit_and-shl1 t.c_cflag 9, bit_and-shl1 t.c_cflag 8) refl

-- All cases of eight tests, and one of them.
abbrev both : (Bool → Bool) → Bool
both p = p true && p false

both_sound : (p : Bool → Bool) (b : Bool) → both p ≡ true → p b ≡ true
both_sound p true h = ground arith
both_sound p false h = ground arith

abbrev Test : Type 0
Test = Bool → Bool → Bool → Bool → Bool → Bool → Bool → Bool → Bool

abbrev all_modes : Test → Bool
all_modes p =
    both
      λ a. both λ b. both λ c. both λ d. both λ e. both λ f. both λ g. both λ h. p a b c d e f g h

all_modes_sound :
    (p : Test) → all_modes p ≡ true → (a b c d e f g h : Bool) → p a b c d e f g h ≡ true
all_modes_sound p t a b c d e f g h =
    both_sound (λ h. p a b c d e f g h) h
      (both_sound (λ g. both λ h. p a b c d e f g h) g
        (both_sound (λ f. both λ g. both λ h. p a b c d e f g h) f
          (both_sound (λ e. both λ f. both λ g. both λ h. p a b c d e f g h) e
            (both_sound (λ d. both λ e. both λ f. both λ g. both λ h. p a b c d e f g h) d
              (both_sound (λ c. both λ d. both λ e. both λ f. both λ g. both λ h. p a b c d e f g h)
                c
                (both_sound
                  (λ b.
                    both λ c. both λ d. both λ e. both λ f. both λ g. both λ h. p a b c d e f g h)
                  b
                  (both_sound
                    (λ a. both λ b.
                      both λ c. both λ d. both λ e. both λ f. both λ g. both λ h. p a b c d e f g h)
                    a t)))))))

abbrev modes_test : Test
modes_test raw cbreak echo crmod litout c0 c8 c9 =
    let f = of_modes raw cbreak echo crmod litout c0 c8 c9 in
    agree (has 0x20 f) raw
    && (agree (has 2 f) (cbreak && not raw)
        && (agree (has 8 f) echo && (agree (has 0x10 f) crmod && agree (has 0x20_0000 f) (not c0))))

modes_table : all_modes modes_test ≡ true
modes_table = refl

chosen : (b : Bool) (f g : ℕ → ℕ) (k v : ℕ) → f k ≡ v → g k ≡ v → (if b then f else g) k ≡ v
chosen true f g k v p q = p
chosen false f g k v p q = q

erase_kept : (sg : Sgttyb) (t : Termios) → (with_sgttyb sg t).c_cc 2 ≡ sg.sg_erase
unfolding with_sgttyb
erase_kept sg t = chosen (has icanon (local_of sg.sg_flags)) _ _ 2 sg.sg_erase refl refl

kill_kept : (sg : Sgttyb) (t : Termios) → (with_sgttyb sg t).c_cc 3 ≡ sg.sg_kill
unfolding with_sgttyb
kill_kept sg t = chosen (has icanon (local_of sg.sg_flags)) _ _ 3 sg.sg_kill refl refl

sgttyb_of-Moded : (sg : Sgttyb) (t : Termios) → Moded sg t.c_cflag (sgttyb_of (with_sgttyb sg t))
unfolding sgttyb_of
sgttyb_of-Moded sg t =
    let f = sg.sg_flags in
    let checked =
      all_modes_sound modes_test modes_table (has 0x20 f) (has 2 f) (has 8 f) (has 0x10 f)
        (has 0x20_0000 f) (has 1 t.c_cflag) (bit 8 t.c_cflag) (bit 9 t.c_cflag) in
    let later = and_right _ _ checked in
    let rest = and_right _ _ later in
    let last = and_right _ _ rest in
    record {
      raw = rw (flags_of_modes sg t) (eq_of_agree _ _ (and_left _ _ checked));
      cbreak = rw (flags_of_modes sg t) (eq_of_agree _ _ (and_left _ _ later));
      echo = rw (flags_of_modes sg t) (eq_of_agree _ _ (and_left _ _ rest));
      crmod = rw (flags_of_modes sg t) (eq_of_agree _ _ (and_left _ _ last));
      litout = rw (flags_of_modes sg t) (eq_of_agree _ _ (and_right _ _ last));
      erase = erase_kept sg t;
      kill = kill_kept sg t;
    }

-- A terminal that keeps what is set.
pub record Keeps (host : BsdHost) : Type 0 where
  pub get-set :
      (fd : ℤ) (op : ℕ) (t : Termios) (w : host.World)
      → is_zero (host.set_termios fd op t w).0 ≡ true
      → (is_zero (host.get_termios fd (host.set_termios fd op t w).1).0 ≡ true)
        × ((host.get_termios fd (host.set_termios fd op t w).1).1 ≡ t)

module _ (host : BsdHost) (law : Keeps host) where
  open host use {
    World, verify_read, verify_write, get_termios, set_termios, copy_sgttyb_from, copy_sgttyb_to,
  }

  -- Where TIOCSETP succeeds, the structure was read and the terminal set by it.
  module _ (fd : ℤ) (arg : ℕ) (w : World) where
    set_by :
        (o : Option Sgttyb)
        → copy_sgttyb_from arg w ≡ o
        → is_zero (change host fd w with_sgttyb o).0 ≡ true
        → (sg : Sgttyb) × (copy_sgttyb_from arg w ≡ some sg)
          × (change host fd w with_sgttyb o
              ≡ set_termios fd 0x5402 (with_sgttyb sg (get_termios fd w).1) (get_termios fd w).2)
          × (is_zero
                (set_termios fd 0x5402 (with_sgttyb sg (get_termios fd w).1) (get_termios fd w).2).0
              ≡ true)
    set_by none h set = cc
    set_by (some sg) h set = elim (Bool-cases (is_zero (get_termios fd w).0)) [
      | inl e ↦ (sg, h, rw e refl, rw e at set)
      | inr e ↦ absurd (ground (arith, rw e at set))
    ]

    steps :
        is_zero (bsd_ioctl_termios host fd 0x7409 arg w).0 ≡ true
        → (sg : Sgttyb) × (copy_sgttyb_from arg w ≡ some sg)
          × (bsd_ioctl_termios host fd 0x7409 arg w
              ≡ set_termios fd 0x5402 (with_sgttyb sg (get_termios fd w).1) (get_termios fd w).2)
          × (is_zero
                (set_termios fd 0x5402 (with_sgttyb sg (get_termios fd w).1) (get_termios fd w).2).0
              ≡ true)
    unfolding bsd_ioctl_termios bsd_command
    steps set = elim (Bool-cases (is_zero (verify_read arg 8 w))) [
      | inl e ↦ rw e (set_by _ refl (rw e at set))
      | inr e ↦ absurd (ground (arith, rw e at set))
    ]

  shown_after :
      (fd : ℤ) (out : ℕ) (t : Termios) (u : World)
      → is_zero (set_termios fd 0x5402 t u).0 ≡ true
      → is_zero (verify_write out 8 (set_termios fd 0x5402 t u).1) ≡ true
      → bsd_ioctl_termios host fd 0x7408 out (set_termios fd 0x5402 t u).1
        ≡ copied (copy_sgttyb_to out (sgttyb_of t) (get_termios fd (set_termios fd 0x5402 t u).1).2)
  unfolding bsd_ioctl_termios bsd_command
  shown_after fd out t u set ok =
      let (zero_error, same) = law.get-set fd 0x5402 t u set in rw (ok, zero_error, same) refl

  -- A program that sets its modes by TIOCSETP 0x7409, with success, and asks for them by TIOCGETP
  -- 0x7408, to memory that may be written, is shown O_RAW, O_ECHO and O_CRMOD and the characters
  -- that erase and kill as it gave them, and O_CBREAK as it gave it without O_RAW. LITOUT is shown
  -- where bit 0 of the control flags is clear, whatever it gave. The terminal is assumed to keep
  -- what is set.
  pub modes_shown :
      (fd : ℤ) (arg out : ℕ) (w : World)
      → is_zero (bsd_ioctl_termios host fd 0x7409 arg w).0 ≡ true
      → is_zero (verify_write out 8 (bsd_ioctl_termios host fd 0x7409 arg w).1) ≡ true
      → (sg shown : Sgttyb) × (copy_sgttyb_from arg w ≡ some sg)
        × Moded sg (get_termios fd w).1.c_cflag shown
        × (bsd_ioctl_termios host fd 0x7408 out (bsd_ioctl_termios host fd 0x7409 arg w).1
            ≡ copied (
                copy_sgttyb_to out shown
                  (get_termios fd (bsd_ioctl_termios host fd 0x7409 arg w).1).2))
  modes_shown fd arg out w set ok =
      let (sg, read, e, done) = steps fd arg w set in
      (
        sg,
        sgttyb_of (with_sgttyb sg (get_termios fd w).1),
        read,
        sgttyb_of-Moded sg (get_termios fd w).1,
        rw e (shown_after fd out _ (get_termios fd w).2 done (rw e at ok)),
      )
