-- ===== src/Svr4/Hrtsys.antt =====
-- abiemu/abi/svr4/hrtsys.c: the timers of hrtsys(2), by those of setitimer(2).
pub mod Timed
use linux_abiemu.Prelude.{
  ℕ, ◌+◌, ◌*◌, ◌%◌, ◌^◌, Bool, true, false, not, ◌||◌, Option, none, some, ℤ, pos, neg, is_zero,
  ◌==◌, if◌then◌else◌,
}
use linux_abiemu.Kernel.Domain.{einval, efault}
use linux_abiemu.Util.Regs.{Regs, get_syscall_parameter}

pub record Timeval : Type 0 where
  pub tv_sec : ℕ
  pub tv_usec : ℕ

pub record Itimerval : Type 0 where
  pub it_interval : Timeval
  pub it_value : Timeval

abbrev pub no_time : Timeval
no_time = record { tv_sec = 0; tv_usec = 0 }

-- The kernel's calls and user memory. `get_user` leaves 0 where a word cannot be read; a copy of a
-- timeval from the program may fail, and one of a timer to it too. sys_getitimer gives the result
-- and what stands in its buffer then.
pub record HrtHost : Type 1 where
  pub World : Type 0
  pub get_user : ℕ → World → ℕ
  pub put_user : ℕ → ℕ → World → World
  pub verify_area : ℕ → World → ℤ
  pub sys_gettimeofday : ℕ → World → ℤ × World
  pub sys_setitimer : ℕ → Itimerval → World → ℤ × World
  pub sys_getitimer : ℕ → World → ℤ × Itimerval × World
  pub copy_timeval : ℕ → World → Option Timeval
  pub copy_itimerval : ℕ → Itimerval → World → World

-- A word of the command: cmd 0, clk 1, interval 2 to 4, tod 5 to 7, flags 8, error 9.
abbrev pub hrt_word : ℕ → ℕ → ℕ
hrt_word hcmd n = (hcmd + 4 * n) % 2 ^ 32

-- ITIMER_PROF 2, ITIMER_VIRTUAL 1 and ITIMER_REAL 0.
abbrev pub which_timer : ℕ → Option ℕ
which_timer clk =
    if clk == 4 then some 2 else if clk == 2 then some 1 else if clk == 1 then some 0 else none

module _ (host : HrtHost) where
  open host use {
    World, get_user, put_user, verify_area, sys_gettimeofday, sys_setitimer, sys_getitimer,
    copy_timeval, copy_itimerval,
  }

  abbrev pub param : Regs → World → ℕ → ℕ
  param regs w n = get_syscall_parameter (λ a. get_user a w) regs n

  unfoldable pub ibcs_hrtcntl : Regs → World → ℤ × World
  ibcs_hrtcntl regs w =
      if not (param regs w 1 == 1) || not (param regs w 2 == 1) || not (param regs w 3 == 0)
      then (neg einval, w)
      else (let error = verify_area (param regs w 4) w in
          if is_zero error then sys_gettimeofday (param regs w 4) w else (error, w))

  -- The time to come is given in microseconds.
  abbrev pub in_microseconds : ℕ → ℕ → World → Bool
  in_microseconds hcmd n w = get_user (hrt_word hcmd n) w == 1000000

  abbrev pub set_once : ℕ → World → Option Timeval → ℤ × World
  set_once which w none = (neg efault, w)
  set_once which w (some value) =
      sys_setitimer which (record { it_interval = no_time; it_value = value }) w

  abbrev pub set_both : ℕ → World → Option Timeval → Option Timeval → ℤ × World
  set_both which w (some value) (some interval) =
      sys_setitimer which (record { it_interval = interval; it_value = value }) w
  set_both which w _ _ = (neg efault, w)

  -- The result is 1 whatever the copy and the call gave.
  unfoldable pub read_timer : ℕ → ℕ → World → ℤ × World
  read_timer hcmd which w =
      let (retval, timer, w') = sys_getitimer which w in
      (pos 1, copy_itimerval (hrt_word hcmd 2) timer (put_user (hrt_word hcmd 4) 1000000 w'))

  -- The `switch` on the command.
  unfoldable pub hrt_command : ℕ → ℕ → ℕ → World → ℤ × World
  hrt_command cmd hcmd which w =
      if cmd == 0xc
      then (if in_microseconds hcmd 4 w
          then set_once which w (copy_timeval (hrt_word hcmd 2) w)
          else (neg einval, w))
      else if cmd == 0xd
      then read_timer hcmd which w
      else if cmd == 0xf
      then (if not (in_microseconds hcmd 4 w) || not (in_microseconds hcmd 7 w)
          then (neg einval, w)
          else set_both which w (copy_timeval (hrt_word hcmd 5) w)
              (copy_timeval (hrt_word hcmd 2) w))
      else if cmd == 0x10
      then sys_setitimer which (record { it_interval = no_time; it_value = no_time }) w
      else (neg einval, w)

  abbrev pub by_timer : ℕ → ℕ → World → Option ℕ → ℤ × World
  by_timer cmd hcmd w none = (neg einval, w)
  by_timer cmd hcmd w (some which) = hrt_command cmd hcmd which w

  unfoldable pub ibcs_hrtalarm : Regs → World → ℤ × World
  ibcs_hrtalarm regs w =
      if param regs w 2 == 1
      then (let hcmd = param regs w 1 in
          let error = verify_area hcmd w in
          if is_zero error
          then by_timer (get_user hcmd w) hcmd w (which_timer (get_user (hrt_word hcmd 1) w))
          else (error, w))
      else (neg einval, w)

  unfoldable pub svr4_hrtsys : Regs → World → ℤ × World
  svr4_hrtsys regs w =
      if param regs w 0 == 0
      then ibcs_hrtcntl regs w
      else if param regs w 0 == 1
      then ibcs_hrtalarm regs w
      else (neg einval, w)
