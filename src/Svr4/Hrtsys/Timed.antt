-- ===== src/Svr4/Hrtsys/Timed.antt =====
-- What the alarms of hrtsys(2) come to.
use linux_abiemu.Prelude.{
  ℕ, ◌+◌, ◌*◌, ◌%◌, ◌^◌, Bool, false, Option, none, some, ◌≡◌, ◌⊎◌, inl, inr, refl, sym, subst, ℤ,
  pos, neg, ◌==◌, ==_iff, true, ==_ne, ◌≢◌, Bool-cases,
}
use linux_abiemu.Kernel.Domain.{einval, efault}
use linux_abiemu.Svr4.Hrtsys.{
  HrtHost, Timeval, no_time, hrt_word, in_microseconds, set_once, set_both, read_timer, hrt_command,
}

module _ (host : HrtHost) (hcmd which : ℕ) (w : host.World) where
  open host use {
    World, sys_setitimer, sys_getitimer, copy_timeval, copy_itimerval, put_user, get_user,
  }

  -- The address of a word of the command, and whether the resolution that one holds is that of
  -- microseconds.
  abbrev pub word_at : ℕ → ℕ
  word_at n = (hcmd + 4 * n) % 2 ^ 32

  abbrev pub resolution : ℕ → Bool
  resolution n = get_user (word_at n) w == 1000000

  -- The ends of an alarm command for a timer.
  pub data Timed (cmd : ℕ) (out : ℤ × World) : Type 0 where
    bad_interval :
        (cmd ≡ 0xc) ⊎ (cmd ≡ 0xf) → resolution 4 ≡ false → out ≡ (neg einval, w) → Timed cmd out
    bad_start : cmd ≡ 0xf → resolution 7 ≡ false → out ≡ (neg einval, w) → Timed cmd out
    unknown : cmd ≢ 0xc → cmd ≢ 0xd → cmd ≢ 0xf → cmd ≢ 0x10 → out ≡ (neg einval, w) → Timed cmd out
    no_interval :
        (cmd ≡ 0xc) ⊎ (cmd ≡ 0xf)
        → resolution 4 ≡ true
        → copy_timeval (word_at 2) w ≡ none
        → out ≡ (neg efault, w)
        → Timed cmd out
    no_start :
        cmd ≡ 0xf
        → resolution 4 ≡ true
        → resolution 7 ≡ true
        → copy_timeval (word_at 5) w ≡ none
        → out ≡ (neg efault, w)
        → Timed cmd out
    once :
        (value : Timeval)
        → cmd ≡ 0xc
        → resolution 4 ≡ true
        → copy_timeval (word_at 2) w ≡ some value
        → out ≡ sys_setitimer which (record { it_interval = no_time; it_value = value }) w
        → Timed cmd out
    told :
        cmd ≡ 0xd
        → out ≡ (
          pos 1,
          copy_itimerval
              (word_at 2)
              (sys_getitimer which w).1
              (put_user (word_at 4) 1000000 (sys_getitimer which w).2),
        )
        → Timed cmd out
    repeated :
        (value interval : Timeval)
        → cmd ≡ 0xf
        → resolution 4 ≡ true
        → resolution 7 ≡ true
        → copy_timeval (word_at 5) w ≡ some value
        → copy_timeval (word_at 2) w ≡ some interval
        → out ≡ sys_setitimer which (record { it_interval = interval; it_value = value }) w
        → Timed cmd out
    stopped :
        cmd ≡ 0x10
        → out ≡ sys_setitimer which (record { it_interval = no_time; it_value = no_time }) w
        → Timed cmd out

  set_once-Timed :
      (o : Option Timeval)
      → in_microseconds host hcmd 4 w ≡ true
      → copy_timeval (hrt_word hcmd 2) w ≡ o
      → Timed 0xc (set_once host which w o)
  set_once-Timed none a h = no_interval (inl refl) a h refl
  set_once-Timed (some value) a h = once value refl a h refl

  set_both-Timed :
      (o q : Option Timeval)
      → in_microseconds host hcmd 4 w ≡ true
      → in_microseconds host hcmd 7 w ≡ true
      → copy_timeval (hrt_word hcmd 5) w ≡ o
      → copy_timeval (hrt_word hcmd 2) w ≡ q
      → Timed 0xf (set_both host which w o q)
  set_both-Timed none q a b h k = no_start refl a b h refl
  set_both-Timed (some value) none a b h k = no_interval (inr refl) a k refl
  set_both-Timed (some value) (some interval) a b h k = repeated value interval refl a b h k refl

  command_c : Timed 0xc (hrt_command host 0xc hcmd which w)
  unfolding hrt_command
  command_c = elim (Bool-cases (in_microseconds host hcmd 4 w)) [
    | inl e ↦ rw e (set_once-Timed _ e refl)
    | inr e ↦ rw e (bad_interval (inl refl) e refl)
  ]

  command_f : Timed 0xf (hrt_command host 0xf hcmd which w)
  unfolding hrt_command
  command_f = elim (Bool-cases (in_microseconds host hcmd 4 w)) [
    | inr e ↦ rw e (bad_interval (inr refl) e refl)
    | inl e ↦ elim (Bool-cases (in_microseconds host hcmd 7 w)) [
      | inr f ↦ rw (e, f) (bad_start refl f refl)
      | inl f ↦ rw (e, f) (set_both-Timed _ _ e f refl refl)
    ]
  ]

  -- Each alarm command for a timer, on every branch: one alarm with no interval (0xc), one with an
  -- interval (0xf), both only where their times are in microseconds, none any more (0x10), or the
  -- timer's state with the result 1 (0xd); EFAULT where the times cannot be read; and EINVAL, with
  -- nothing done, for times of another resolution and for every other command.
  pub hrt_command-Timed : (cmd : ℕ) → Timed cmd (hrt_command host cmd hcmd which w)
  unfolding hrt_command read_timer
  hrt_command-Timed cmd = elim (Bool-cases (cmd == 0xc)) [
    | inl e ↦
        subst (λ n. Timed n (hrt_command host n hcmd which w)) (sym ((==_iff _ _).0 e)) command_c
    | inr e ↦ elim (Bool-cases (cmd == 0xd)) [
      | inl f ↦ rw (e, f) (told ((==_iff _ _).0 f) refl)
      | inr f ↦ elim (Bool-cases (cmd == 0xf)) [
        | inl g ↦
            subst (λ n. Timed n (hrt_command host n hcmd which w)) (sym ((==_iff _ _).0 g))
              command_f
        | inr g ↦ elim (Bool-cases (cmd == 0x10)) [
          | inl k ↦ rw (e, f, g, k) (stopped ((==_iff _ _).0 k) refl)
          | inr k ↦
              rw (e, f, g, k) (unknown (==_ne _ _ e) (==_ne _ _ f) (==_ne _ _ g) (==_ne _ _ k) refl)
        ]
      ]
    ]
  ]
