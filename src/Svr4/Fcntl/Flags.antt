-- ===== src/Svr4/Fcntl/Flags.antt =====
-- File status flags on their way through F_SETFL and F_GETFL.
use linux_abiemu.Prelude.{ℕ, ◌^◌, ◌<◌, bit_or, List, [], ◌∷◌, ◌≡◌, refl, ap, ap₂, ◌∙◌, arith}
use linux_abiemu.Prelude.Bits.{bit_or-lt}
use linux_abiemu.Util.Map.{map_flags}
use linux_abiemu.Util.Map.Flags.{map_flags-bit_or}
use linux_abiemu.Svr4.Fcntl.{fl_svr4_to_linux, fl_linux_to_svr4}

-- The flags that both systems have; `ndelay` and `nonblock` are one flag in Linux.
pub data Flag : Type 0 where
  wronly rdwr creat excl noctty trunc append ndelay nonblock sync : Flag

abbrev pub linux_flag : Flag → ℕ
linux_flag wronly = 0x1
linux_flag rdwr = 0x2
linux_flag creat = 0x40
linux_flag excl = 0x80
linux_flag noctty = 0x100
linux_flag trunc = 0x200
linux_flag append = 0x400
linux_flag ndelay = 0x800
linux_flag nonblock = 0x800
linux_flag sync = 0x1000

abbrev pub svr4_flag : Flag → ℕ
svr4_flag wronly = 0x1
svr4_flag rdwr = 0x2
svr4_flag ndelay = 0x4
svr4_flag append = 0x8
svr4_flag sync = 0x10
svr4_flag nonblock = 0x80
svr4_flag creat = 0x100
svr4_flag trunc = 0x200
svr4_flag excl = 0x400
svr4_flag noctty = 0x800

-- The union of some flags.
abbrev pub union : (Flag → ℕ) → List Flag → ℕ
union word [] = 0
union word (f ∷ fs) = bit_or (word f) (union word fs)

union-lt :
    (word : Flag → ℕ) → ((f : Flag) → word f < 2 ^ 16) → (fs : List Flag) → union word fs < 2 ^ 16
union-lt word h [] = omega arith
union-lt word h (f ∷ fs) = bit_or-lt 16 (word f) (union word fs) (h f) (union-lt word h fs)

-- A union is translated flag by flag.
map_flags-union :
    (table : List ℕ) (word : Flag → ℕ)
    → ((f : Flag) → word f < 2 ^ 16)
    → (fs : List Flag) → map_flags (union word fs) table ≡ union (λ f. map_flags (word f) table) fs
unfolding map_flags
map_flags-union table word h [] = refl
map_flags-union table word h (f ∷ fs) =
    map_flags-bit_or (word f) (union word fs) table (h f) (union-lt word h fs)
    ∙ ap (bit_or (map_flags (word f) table)) (map_flags-union table word h fs)

union-ext : (a b : Flag → ℕ) → ((f : Flag) → a f ≡ b f) → (fs : List Flag) → union a fs ≡ union b fs
union-ext a b h [] = refl
union-ext a b h (f ∷ fs) = ap₂ bit_or (h f) (union-ext a b h fs)

linux_flag-lt : (f : Flag) → linux_flag f < 2 ^ 16
linux_flag-lt wronly = omega arith
linux_flag-lt rdwr = omega arith
linux_flag-lt creat = omega arith
linux_flag-lt excl = omega arith
linux_flag-lt noctty = omega arith
linux_flag-lt trunc = omega arith
linux_flag-lt append = omega arith
linux_flag-lt ndelay = omega arith
linux_flag-lt nonblock = omega arith
linux_flag-lt sync = omega arith

svr4_flag-lt : (f : Flag) → svr4_flag f < 2 ^ 16
svr4_flag-lt wronly = omega arith
svr4_flag-lt rdwr = omega arith
svr4_flag-lt creat = omega arith
svr4_flag-lt excl = omega arith
svr4_flag-lt noctty = omega arith
svr4_flag-lt trunc = omega arith
svr4_flag-lt append = omega arith
svr4_flag-lt ndelay = omega arith
svr4_flag-lt nonblock = omega arith
svr4_flag-lt sync = omega arith

-- Linux's flags for a flag of the program: O_TRUNC brings O_CREAT with it.
abbrev pub linux_seen : Flag → ℕ
linux_seen wronly = 0x1
linux_seen trunc = bit_or (linux_flag creat) (linux_flag trunc)
linux_seen f = linux_flag f

-- The program's flags for a flag of Linux: O_NONBLOCK shows as O_NDELAY.
abbrev pub svr4_seen : Flag → ℕ
svr4_seen wronly = 0x1
svr4_seen nonblock = svr4_flag ndelay
svr4_seen f = svr4_flag f

to_linux : (f : Flag) → map_flags (svr4_flag f) fl_svr4_to_linux ≡ linux_seen f
unfolding map_flags
to_linux wronly = refl
to_linux rdwr = refl
to_linux creat = refl
to_linux excl = refl
to_linux noctty = refl
to_linux trunc = refl
to_linux append = refl
to_linux ndelay = refl
to_linux nonblock = refl
to_linux sync = refl

to_svr4 : (f : Flag) → map_flags (linux_flag f) fl_linux_to_svr4 ≡ svr4_seen f
unfolding map_flags
to_svr4 wronly = refl
to_svr4 rdwr = refl
to_svr4 creat = refl
to_svr4 excl = refl
to_svr4 noctty = refl
to_svr4 trunc = refl
to_svr4 append = refl
to_svr4 ndelay = refl
to_svr4 nonblock = refl
to_svr4 sync = refl

svr4_seen-lt : (f : Flag) → svr4_seen f < 2 ^ 16
svr4_seen-lt wronly = omega arith
svr4_seen-lt rdwr = omega arith
svr4_seen-lt creat = omega arith
svr4_seen-lt excl = omega arith
svr4_seen-lt noctty = omega arith
svr4_seen-lt trunc = omega arith
svr4_seen-lt append = omega arith
svr4_seen-lt ndelay = omega arith
svr4_seen-lt nonblock = omega arith
svr4_seen-lt sync = omega arith

linux_seen-lt : (f : Flag) → linux_seen f < 2 ^ 16
linux_seen-lt wronly = omega arith
linux_seen-lt rdwr = omega arith
linux_seen-lt creat = omega arith
linux_seen-lt excl = omega arith
linux_seen-lt noctty = omega arith
linux_seen-lt trunc = omega arith
linux_seen-lt append = omega arith
linux_seen-lt ndelay = omega arith
linux_seen-lt nonblock = omega arith
linux_seen-lt sync = omega arith

-- What the program finds of a flag that it set.
abbrev pub svr4_back : Flag → ℕ
svr4_back wronly = 0x1
svr4_back trunc = bit_or (svr4_flag creat) (svr4_flag trunc)
svr4_back nonblock = svr4_flag ndelay
svr4_back f = svr4_flag f

back_to_svr4 : (f : Flag) → map_flags (linux_seen f) fl_linux_to_svr4 ≡ svr4_back f
unfolding map_flags
back_to_svr4 wronly = refl
back_to_svr4 rdwr = refl
back_to_svr4 creat = refl
back_to_svr4 excl = refl
back_to_svr4 noctty = refl
back_to_svr4 trunc = refl
back_to_svr4 append = refl
back_to_svr4 ndelay = refl
back_to_svr4 nonblock = refl
back_to_svr4 sync = refl

back_to_linux : (f : Flag) → map_flags (svr4_seen f) fl_svr4_to_linux ≡ linux_seen f
unfolding map_flags
back_to_linux wronly = refl
back_to_linux rdwr = refl
back_to_linux creat = refl
back_to_linux excl = refl
back_to_linux noctty = refl
back_to_linux trunc = refl
back_to_linux append = refl
back_to_linux ndelay = refl
back_to_linux nonblock = refl
back_to_linux sync = refl

module _ (fs : List Flag) where
  svr4_word_seen : map_flags (union svr4_flag fs) fl_svr4_to_linux ≡ union linux_seen fs
  svr4_word_seen =
      map_flags-union fl_svr4_to_linux svr4_flag svr4_flag-lt fs ∙ union-ext _ _ to_linux fs

  linux_word_seen : map_flags (union linux_flag fs) fl_linux_to_svr4 ≡ union svr4_seen fs
  linux_word_seen =
      map_flags-union fl_linux_to_svr4 linux_flag linux_flag-lt fs ∙ union-ext _ _ to_svr4 fs

  -- Any set of flags that a program gives to F_SETFL comes back from F_GETFL as it was, but for
  -- O_NONBLOCK, which comes back as O_NDELAY, and for O_TRUNC, which brings O_CREAT.
  pub svr4_flags_round_trip :
      map_flags (map_flags (union svr4_flag fs) fl_svr4_to_linux) fl_linux_to_svr4
      ≡ union svr4_back fs
  svr4_flags_round_trip =
      ap (λ w. map_flags w fl_linux_to_svr4) svr4_word_seen
      ∙ map_flags-union fl_linux_to_svr4 linux_seen linux_seen-lt fs
      ∙ union-ext _ _ back_to_svr4 fs

  -- Any set of flags that Linux reports through F_GETFL is set again by F_SETFL, and O_TRUNC
  -- brings O_CREAT.
  pub linux_flags_round_trip :
      map_flags (map_flags (union linux_flag fs) fl_linux_to_svr4) fl_svr4_to_linux
      ≡ union linux_seen fs
  linux_flags_round_trip =
      ap (λ w. map_flags w fl_svr4_to_linux) linux_word_seen
      ∙ map_flags-union fl_svr4_to_linux svr4_seen svr4_seen-lt fs
      ∙ union-ext _ _ back_to_linux fs
