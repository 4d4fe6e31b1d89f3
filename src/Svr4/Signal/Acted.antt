-- ===== src/Svr4/Signal/Acted.antt =====
-- What abi_sigaction of abiemu/abi/svr4/signal.c can come to.
use linux_abiemu.Prelude.{ℕ, ◌||◌, true, false, Option, none, some, ◌≡◌, ℤ, pos, neg, is_zero}
use linux_abiemu.Kernel.Domain.{ExecDomain, einval, efault}
use linux_abiemu.Prelude.Bits.{bit}
use linux_abiemu.Util.Map.{Sigsets, map_sigvec_to_kernel, map_sigvec_from_kernel}
use linux_abiemu.Svr4.Signal.{abi_mapsig}
use linux_abiemu.Svr4.Signal.Host.{SignalHost, Sigaction, AbiSigaction}

-- The flags of sigaction(2) in the program's word f and the kernel's word n, by bit: ONSTACK,
-- RESTART, NODEFER, RESETHAND, NOCLDSTOP and NOCLDWAIT.
pub data SameFlag : ℕ → ℕ → Type 0 where
  onstack : SameFlag 0 27
  restart : SameFlag 2 28
  nodefer : SameFlag 4 30
  resethand : SameFlag 1 31
  nocldstop : SameFlag 17 0
  nocldwait : SameFlag 16 1

module _ (sets : Sigsets) (host : SignalHost sets) (domain : ExecDomain) where
  open host use {World, sys_rt_sigaction, verify_area, copy_from_user, copy_to_user}

  -- The kernel's action nsa for the program's: its handler, its mask in the kernel's signals, and its
  -- flags by bit, which are added to the word that stood on the stack.
  pub record InKernel (w : World) (act : AbiSigaction) (nsa : Sigaction sets) : Type 0 where
    pub same_handler : nsa.sa_handler ≡ act.sa_handler
    pub kernel_mask : nsa.sa_mask ≡ map_sigvec_to_kernel sets act.sa_mask domain.signal_map
    pub kernel_flags :
        (f n : ℕ)
        → SameFlag f n
        → bit n nsa.sa_flags ≡ (bit n (host.stack_flags w) || bit f act.sa_flags)

  -- The program's action for the kernel's osa.
  pub record InProgram (osa : Sigaction sets) (act : AbiSigaction) : Type 0 where
    pub program_handler : act.sa_handler ≡ osa.sa_handler
    pub program_mask : act.sa_mask ≡ map_sigvec_from_kernel sets osa.sa_mask domain.signal_invmap
    pub program_flags : (f n : ℕ) → SameFlag f n → bit f act.sa_flags ≡ bit n osa.sa_flags

  module _ (signum : ℕ) (action oldaction : Option ℕ) (w : World) where
    abbrev signo : ℤ
    signo = abi_mapsig domain signum

    -- The kernel's action that the call asks for: none for a NULL pointer.
    pub data Asked (nsa : Option (Sigaction sets)) : Type 0 where
      query : action ≡ none → nsa ≡ none → Asked nsa
      change :
          (a : ℕ) (act : AbiSigaction) (sa : Sigaction sets)
          → action ≡ some a
          → copy_from_user a w ≡ some act
          → InKernel w act sa
          → nsa ≡ some sa
          → Asked nsa

    -- The ends of the call.
    pub data Acted (out : ℤ × World) : Type 0 where
      unknown : abi_mapsig domain signum ≡ neg 1 → out ≡ (neg einval, w) → Acted out
      no_old :
          (o : ℕ)
          → oldaction ≡ some o
          → is_zero (verify_area o w) ≡ false
          → out ≡ (neg efault, w)
          → Acted out
      no_new :
          (a : ℕ) → action ≡ some a → copy_from_user a w ≡ none → out ≡ (neg efault, w) → Acted out
      not_wanted :
          (nsa : Option (Sigaction sets))
          → Asked nsa
          → oldaction ≡ none
          → out ≡ (
            (sys_rt_sigaction (abi_mapsig domain signum) nsa false w).0,
            (sys_rt_sigaction (abi_mapsig domain signum) nsa false w).2,
          )
          → Acted out
      failed :
          (nsa : Option (Sigaction sets)) (o : ℕ)
          → Asked nsa
          → oldaction ≡ some o
          → is_zero (sys_rt_sigaction (abi_mapsig domain signum) nsa true w).0 ≡ false
          → out ≡ (
            (sys_rt_sigaction (abi_mapsig domain signum) nsa true w).0,
            (sys_rt_sigaction (abi_mapsig domain signum) nsa true w).2,
          )
          → Acted out
      lost :
          (nsa : Option (Sigaction sets)) (o : ℕ) (act : AbiSigaction)
          → Asked nsa
          → oldaction ≡ some o
          → is_zero (sys_rt_sigaction (abi_mapsig domain signum) nsa true w).0 ≡ true
          → InProgram (sys_rt_sigaction (abi_mapsig domain signum) nsa true w).1 act
          → copy_to_user o act (sys_rt_sigaction (abi_mapsig domain signum) nsa true w).2 ≡ none
          → out ≡ (neg efault, (sys_rt_sigaction (abi_mapsig domain signum) nsa true w).2)
          → Acted out
      stored :
          (nsa : Option (Sigaction sets)) (o : ℕ) (act : AbiSigaction) (w' : World)
          → Asked nsa
          → oldaction ≡ some o
          → is_zero (sys_rt_sigaction (abi_mapsig domain signum) nsa true w).0 ≡ true
          → InProgram (sys_rt_sigaction (abi_mapsig domain signum) nsa true w).1 act
          → copy_to_user o act (sys_rt_sigaction (abi_mapsig domain signum) nsa true w).2 ≡ some w'
          → out ≡ (pos 0, w')
          → Acted out
