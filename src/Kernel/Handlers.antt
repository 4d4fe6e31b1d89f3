-- ===== src/Kernel/Handlers.antt =====
-- abiemu/kernel/exec_domain.c: the lcall handlers of Linux's own domain, for programs whose
-- personality was not found out when they were loaded.
pub mod Settled
use linux_abiemu.Prelude.{ℕ, Option, none, some, ℤ, ◌==◌, if◌then◌else◌}
use linux_abiemu.Kernel.Registry.{Registry}
use linux_abiemu.Kernel.Personality.{Modules, Config, Task, set_personality}

-- What the handlers call and read: `send_sig(SIGSEGV, current, 1)`, the handler at an address with
-- a segment, the address of `lcall_autodetect_handler`, and `abi_defhandler_lcall7`.
pub record LcallHost (host : Modules) : Type 0 where
  pub send_sigsegv : host.World → host.World
  pub call_handler : ℕ → ℕ → host.World → host.World
  pub autodetect_address : ℕ
  pub abi_defhandler_lcall7 : ℕ

-- The segments 0x07 and 0x27 of i386; PER_SOLARIS, and PER_LINUX for any other segment.
abbrev pub wanted_personality : ℕ → ℕ → ℕ
wanted_personality defhandler segment =
    if segment == 0x07 then defhandler else if segment == 0x27 then 0x0400_000d else 0

module _ (host : Modules) (lcall : LcallHost host) where
  open host use {World}
  open lcall use {send_sigsegv, call_handler, autodetect_address, abi_defhandler_lcall7}

  unfoldable pub lcall_default_handler : ℕ → World → World
  lcall_default_handler segment w = send_sigsegv w

  -- After the change of personality.
  abbrev pub hand_over : ℕ → Option (ℤ × Task × Registry × World) → Option (Task × Registry × World)
  hand_over segment none = none
  hand_over segment (some (code, task, reg, w)) = some (
    task,
    reg,
    if (reg.node task.exec_domain).handler == autodetect_address
        then send_sigsegv w
        else call_handler (reg.node task.exec_domain).handler segment w,
  )

  unfoldable pub lcall_autodetect_handler :
      ℕ → Config → ℕ → Task → Registry → World → Option (Task × Registry × World)
  lcall_autodetect_handler fuel config segment task reg w = hand_over segment (
      set_personality host fuel config (wanted_personality abi_defhandler_lcall7 segment) task reg
        w)
