-- ===== src/Abi/Isc.antt =====
-- abiemu/abi/isc/sysent.c: the tables of the ISC personality.
use linux_abiemu.Prelude.{ℕ, ℤ, pos, neg, some, List, [], ◌∷◌}
use linux_abiemu.Util.Map.{MapSegment, null, vector, value}
use linux_abiemu.Kernel.Domain.{ExecDomain}
use linux_abiemu.Abi.Segments.{segment, last_segment, err_segments}

abbrev pub isc_err_table : List ℕ
isc_err_table =
    0 ∷ 1 ∷ 2 ∷ 3 ∷ 4 ∷ 5 ∷ 6 ∷ 7 ∷ 8 ∷ 9 ∷ 10 ∷ 11 ∷ 12 ∷ 13 ∷ 14 ∷ 15 ∷ 16 ∷ 17 ∷ 18 ∷ 19 ∷ 20
    ∷ 21 ∷ 22 ∷ 23 ∷ 24 ∷ 25 ∷ 26 ∷ 27 ∷ 28 ∷ 29 ∷ 30 ∷ 31 ∷ 32 ∷ 33 ∷ 34 ∷ 45 ∷ 78 ∷ 46 ∷ 89 ∷ 93
    ∷ 90 ∷ 90 ∷ 35 ∷ 36 ∷ 37 ∷ 38 ∷ 39 ∷ 40 ∷ 41 ∷ 42 ∷ 43 ∷ 44 ∷ 50 ∷ 51 ∷ 52 ∷ 53 ∷ 54 ∷ 55 ∷ 56
    ∷ 57 ∷ 60 ∷ 61 ∷ 62 ∷ 63 ∷ 64 ∷ 65 ∷ 66 ∷ 67 ∷ 68 ∷ 69 ∷ 70 ∷ 71 ∷ 74 ∷ 76 ∷ 77 ∷ 79 ∷ 80 ∷ 81
    ∷ 82 ∷ 83 ∷ 84 ∷ 85 ∷ 86 ∷ 87 ∷ 88 ∷ 91 ∷ 92 ∷ 94 ∷ 95 ∷ 96 ∷ 97 ∷ 98 ∷ 99 ∷ 120 ∷ 121 ∷ 122
    ∷ 123 ∷ 124 ∷ 125 ∷ 126 ∷ 127 ∷ 128 ∷ 129 ∷ 130 ∷ 131 ∷ 132 ∷ 133 ∷ 134 ∷ 143 ∷ 144 ∷ 145 ∷ 146
    ∷ 147 ∷ 148 ∷ 149 ∷ 150 ∷ 22 ∷ 135 ∷ 137 ∷ 138 ∷ 139 ∷ 140 ∷ 28 ∷ []

abbrev pub isc_err_map : List MapSegment
isc_err_map = err_segments isc_err_table

abbrev pub linux_to_isc_signals : List ℤ
linux_to_isc_signals =
    (pos 0)
    ∷ (pos 1)
    ∷ (pos 2)
    ∷ (pos 3)
    ∷ (pos 4)
    ∷ (pos 5)
    ∷ (pos 6)
    ∷ (neg 1)
    ∷ (pos 8)
    ∷ (pos 9)
    ∷ (pos 16)
    ∷ (pos 11)
    ∷ (pos 17)
    ∷ (pos 13)
    ∷ (pos 14)
    ∷ (pos 15)
    ∷ (pos 11)
    ∷ (pos 18)
    ∷ (pos 23)
    ∷ (pos 24)
    ∷ (pos 25)
    ∷ (pos 26)
    ∷ (pos 27)
    ∷ (pos 16)
    ∷ (pos 30)
    ∷ (pos 31)
    ∷ (pos 28)
    ∷ (pos 29)
    ∷ (pos 20)
    ∷ (pos 22)
    ∷ (pos 19)
    ∷ (neg 1)
    ∷ (neg 1)
    ∷ []

abbrev pub isc_to_linux_signals : List ℤ
isc_to_linux_signals =
    (pos 0)
    ∷ (pos 1)
    ∷ (pos 2)
    ∷ (pos 3)
    ∷ (pos 4)
    ∷ (pos 5)
    ∷ (pos 6)
    ∷ (pos 31)
    ∷ (pos 8)
    ∷ (pos 9)
    ∷ (pos 31)
    ∷ (pos 11)
    ∷ (pos 31)
    ∷ (pos 13)
    ∷ (pos 14)
    ∷ (pos 15)
    ∷ (pos 10)
    ∷ (pos 12)
    ∷ (pos 17)
    ∷ (pos 30)
    ∷ (pos 28)
    ∷ (neg 1)
    ∷ (pos 29)
    ∷ (pos 18)
    ∷ (pos 19)
    ∷ (pos 20)
    ∷ (pos 21)
    ∷ (pos 22)
    ∷ (pos 26)
    ∷ (pos 27)
    ∷ (pos 24)
    ∷ (pos 25)
    ∷ (neg 1)
    ∷ []

abbrev pub isc_socktype_map : List MapSegment
isc_socktype_map = segment (pos 1) (pos 6) (vector (1 ∷ 2 ∷ 0 ∷ 3 ∷ 4 ∷ 5 ∷ [])) ∷ last_segment ∷ []

abbrev pub isc_sockopt_map : List MapSegment
isc_sockopt_map =
    segment (pos 1) (pos 1) (value (pos 1))
    ∷ segment (pos 2) (pos 2) (value (pos 65536))
    ∷ segment (pos 4) (pos 4) (value (pos 2))
    ∷ segment (pos 8) (pos 8) (value (pos 9))
    ∷ segment (pos 16) (pos 16) (value (pos 5))
    ∷ segment (pos 32) (pos 32) (value (pos 6))
    ∷ segment (pos 64) (pos 64) (value (pos 65282))
    ∷ segment (pos 128) (pos 128) (value (pos 13))
    ∷ segment (pos 256) (pos 256) (value (pos 10))
    ∷ segment (pos 512) (pos 512) (value (pos 65283))
    ∷ segment (pos 1024) (pos 1024) (value (pos 65284))
    ∷ segment (pos 4097) (pos 4097) (value (pos 7))
    ∷ segment (pos 4098) (pos 4098) (value (pos 8))
    ∷ segment (pos 4099) (pos 4099) (value (pos 19))
    ∷ segment (pos 4100) (pos 4100) (value (pos 18))
    ∷ segment (pos 4101) (pos 4101) (value (pos 21))
    ∷ segment (pos 4102) (pos 4102) (value (pos 20))
    ∷ segment (pos 4103) (pos 4103) (value (pos 4))
    ∷ segment (pos 4104) (pos 4104) (value (pos 3))
    ∷ segment (pos 4105) (pos 4105) (value (pos 65289))
    ∷ last_segment
    ∷ []

abbrev pub isc_af_map : List MapSegment
isc_af_map = segment (pos 0) (pos 2) null ∷ last_segment ∷ []

-- The addresses of the handler and of the module are the arguments.
abbrev pub isc_exec_domain : ℕ → ℕ → ExecDomain
isc_exec_domain handler module_of = record {
  name = "ISC";
  handler = handler;
  pers_low = 5;
  pers_high = 5;
  signal_map = isc_to_linux_signals;
  signal_invmap = linux_to_isc_signals;
  err_map = some isc_err_map;
  socktype_map = some isc_socktype_map;
  sockopt_map = some isc_sockopt_map;
  af_map = some isc_af_map;
  module_of = module_of;
  next = 0;
}
