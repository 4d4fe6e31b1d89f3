-- ===== src/Examples/Signals.antt =====
-- Signal calls of an iBCS2 program.
use linux_abiemu.Prelude.{true, ℕ, Bool, false, some, ◌≡◌, refl, pos}
use linux_abiemu.Kernel.Domain.{ExecDomain}
use linux_abiemu.Util.Regs.{Regs, set_error, get_syscall_parameter}
use linux_abiemu.Abi.Personas.{ibcs, domain_of}
use linux_abiemu.Svr4.Signal.{abi_mapsig, abi_signo, abi_sighold, abi_sigrelse, abi_sigpause}
use linux_abiemu.Svr4.Signal.Acted.{Acted}
use linux_abiemu.Svr4.Signal.Sets.{is_blocked, sigrelse-sighold}
use linux_abiemu.Svr4.Signal.Refused.{sigpause_eperm}
use linux_abiemu.Examples.Hosts.{test_sets, mask_host, mask_laws}

abbrev domain : ExecDomain
domain = domain_of ibcs 0 0

-- Parameters from 104 on: signal 5. From 304 on: signal 32, which there is not.
abbrev regs : Regs
regs = record { eax = 48; edx = 0; esp = 100; eflags = 0x202 }

abbrev bad_regs : Regs
bad_regs = record regs { esp = 300 }

abbrev none_blocked : ℕ → Bool
none_blocked k = false

named : abi_signo test_sets mask_host domain regs none_blocked ≡ (regs, some (pos 5))
unfolding abi_signo abi_mapsig get_syscall_parameter
named = refl

named_later :
    abi_signo test_sets mask_host domain regs
      (abi_sighold test_sets mask_host domain regs none_blocked).1
    ≡ (regs, some (pos 5))
unfolding abi_signo abi_mapsig get_syscall_parameter
named_later = refl

sigrelse-sighold_example :
    ((abi_sighold test_sets mask_host domain regs none_blocked).0 ≡ regs)
    × (is_blocked test_sets mask_host mask_laws domain 4
          (abi_sighold test_sets mask_host domain regs none_blocked).1
        ≡ true)
    × ((abi_sigrelse test_sets mask_host domain regs
          (abi_sighold test_sets mask_host domain regs none_blocked).1).0
        ≡ regs)
    × (is_blocked test_sets mask_host mask_laws domain 4
          (abi_sigrelse test_sets mask_host domain regs
            (abi_sighold test_sets mask_host domain regs none_blocked).1).1
        ≡ false)
sigrelse-sighold_example =
    sigrelse-sighold test_sets mask_host mask_laws domain regs regs none_blocked 4 4 named
      named_later (λ e. cc e) (λ e. cc e)

-- The wait returns EINTR, and the program sees EPERM.
sigpause_eperm_example :
    abi_sigpause test_sets mask_host domain regs none_blocked
    ≡ (set_error regs (pos 1), none_blocked)
sigpause_eperm_example =
    sigpause_eperm ibcs 0 0 test_sets mask_host regs none_blocked (pos 5) named refl
