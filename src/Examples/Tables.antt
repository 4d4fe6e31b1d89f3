-- ===== src/Examples/Tables.antt =====
-- Flags, signal sets and error numbers through the tables of the personalities.
use linux_abiemu.Prelude.{ℕ, false, Bool, true, ◌||◌, ◌≡◌, refl, pos, ◌==◌, arith, ◌≤◌}
use linux_abiemu.Prelude.Bits.{bit}
use linux_abiemu.Util.Map.{map_flags, map_sigvec_from_kernel, map_sigvec_to_kernel}
use linux_abiemu.Kernel.Domain.{iabi_errors}
use linux_abiemu.Abi.Personas.{isc, sco, domain_of}
use linux_abiemu.Abi.Errors.{iabi_errors_range}
use linux_abiemu.Abi.Signals.{signal_map_of, signal_invmap_of, persona_round_trip}
use linux_abiemu.Svr4.Fcntl.{fl_svr4_to_linux}
use linux_abiemu.Svr4.Mmap.{mmap_flags}
use linux_abiemu.Svr4.Mmap.MapFlags.{bit-mmap_flags}
use linux_abiemu.Examples.Hosts.{test_sets}

-- Tests: O_NDELAY, and the second signal of SCO.
ndelay_test : map_flags 0x4 fl_svr4_to_linux ≡ 0x800
unfolding map_flags
ndelay_test = refl

-- The kernel's set of SIGHUP and SIGCHLD (1 and 17).
abbrev two_signals : ℕ → Bool
two_signals k = k == 1 || k == 17

kept_signal :
    map_sigvec_to_kernel test_sets
      (map_sigvec_from_kernel test_sets two_signals (signal_invmap_of sco))
      (signal_map_of sco)
      1
    ≡ true
unfolding map_sigvec_to_kernel map_sigvec_from_kernel
kept_signal = refl

persona_round_trip_example :
    map_sigvec_to_kernel test_sets
      (map_sigvec_from_kernel test_sets two_signals (signal_invmap_of isc))
      (signal_map_of isc)
      17
    ≡ true
persona_round_trip_example = persona_round_trip isc test_sets two_signals 16 (omega arith) refl refl

iabi_errors_range_example :
    ((n : ℕ) × (iabi_errors (domain_of sco 0 0) (pos 35) ≡ pos n) × (1 ≤ n) × (n ≤ 255))
    × (512 ≤ 35 → 35 ≤ 514 → iabi_errors (domain_of sco 0 0) (pos 35) ≡ pos 4)
iabi_errors_range_example = iabi_errors_range sco 0 0 35 (omega arith)

-- MAP_PRIVATE and flag 8: the kernel gets no MAP_ANONYMOUS.
bit-mmap_flags_example : bit 5 (mmap_flags 0x102) ≡ false
bit-mmap_flags_example = bit-mmap_flags 0x102 5 (omega arith)
