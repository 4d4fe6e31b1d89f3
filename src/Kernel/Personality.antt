-- ===== src/Kernel/Personality.antt =====
-- abiemu/kernel/exec_domain.c: `lookup_exec_domain`, `__set_personality` and `sys_personality`.
pub mod References
pub mod Lookup
pub mod Switch
pub mod Answer
use linux_abiemu.Prelude.{
  ℕ, zero, suc, ◌+◌, ◌-◌, Bool, true, false, not, ◌&&◌, Option, none, some, ◌≡◌, ℤ, pos, neg, word,
  int32, ◌==◌, leb, if◌then◌else◌,
}
use linux_abiemu.Kernel.Domain.{ExecDomain, get_personality_id, enoexec, enomem, einval}
use linux_abiemu.Kernel.Registry.{Registry}

-- What the code calls in the rest of the kernel: module reference counts, module loading, and the
-- fs_struct of the process. `refs` reads the count of a module; the laws are the documented effect
-- of each call on it. Module loading may change the registry and the counts in any way.
pub record Modules : Type 1 where
  pub World : Type 0
  pub refs : World → ℕ → ℕ
  pub try_module_get : ℕ → World → Bool × World
  pub module_put : ℕ → World → World
  pub request_module : ℕ → Registry × World → Registry × World
  -- `atomic_read(&current->fs->count) != 1`
  pub fs_shared : World → Bool
  -- `copy_fs_struct(current->fs)`, none for NULL; then `current->fs = fsp; put_fs_struct(ofsp)`.
  pub copy_fs_struct : World → Option (ℕ × World)
  pub replace_fs : ℕ → World → World
  pub set_fs_altroot : World → World
  pub get_refs :
      (m : ℕ) (w : World) (k : ℕ)
      → refs (try_module_get m w).1 k
        ≡ (if (try_module_get m w).0 && (k == m) then refs w k + 1 else refs w k)
  pub put_refs :
      (m : ℕ) (w : World) (k : ℕ)
      → refs (module_put m w) k ≡ (if k == m then refs w k - 1 else refs w k)
  pub copy_refs :
      (w : World) (fsp : ℕ) (w' : World) (k : ℕ)
      → copy_fs_struct w ≡ some (fsp, w')
      → refs w' k ≡ refs w k
  pub replace_refs : (fsp : ℕ) (w : World) (k : ℕ) → refs (replace_fs fsp w) k ≡ refs w k
  pub altroot_refs : (w : World) (k : ℕ) → refs (set_fs_altroot w) k ≡ refs w k

-- CONFIG_KMOD, CONFIG_ABI_LATE_PROBING, and the address of `default_exec_domain`.
pub record Config : Type 0 where
  pub kmod : Bool
  pub late_probing : Bool
  pub default_exec_domain : ℕ

-- The members of the current process that the code reads or writes.
pub record Task : Type 0 where
  pub personality : ℕ
  pub exec_domain : ℕ

abbrev pub in_range : ExecDomain → ℕ → Bool
in_range ep per_id = leb ep.pers_low per_id && leb per_id ep.pers_high

module _ (host : Modules) where
  open host use {
    World, try_module_get, module_put, request_module, fs_shared, copy_fs_struct, replace_fs,
    set_fs_altroot,
  }

  -- The loop over the list; address 0 when it ends without a domain.
  unfoldable pub browse : ℕ → (ℕ → ExecDomain) → ℕ → ℕ → World → Option (ℕ × World)
  browse zero node ep per_id w = none
  browse (suc fuel) node ep per_id w = elim (ep == 0) [
    | true ↦ some (0, w)
    | false ↦ elim (in_range (node ep) per_id) [
      | true ↦
          let got = try_module_get (node ep).module_of w in
          elim (got.0) [
            | true ↦ some (ep, got.1)
            | false ↦ browse fuel node (node ep).next per_id got.1
          ]
      | false ↦ browse fuel node (node ep).next per_id w
    ]
  ]

  abbrev fall_back : Config → Registry → World → ℕ × Registry × World
  fall_back config reg w = (if config.late_probing then config.default_exec_domain else 0, reg, w)

  abbrev second_try : Config → Registry → Option (ℕ × World) → Option (ℕ × Registry × World)
  second_try config reg none = none
  second_try config reg (some (ep, w)) =
      if ep == 0 then some (fall_back config reg w) else some (ep, reg, w)

  abbrev first_try : ℕ → Config → ℕ → Registry → Option (ℕ × World) → Option (ℕ × Registry × World)
  first_try fuel config per_id reg none = none
  first_try fuel config per_id reg (some (ep, w)) =
      let (loaded, w') = request_module per_id (reg, w) in
      if not (ep == 0)
      then some (ep, reg, w)
      else if config.kmod
      then second_try config loaded (browse fuel loaded.node loaded.exec_domains per_id w')
      else some (fall_back config reg w)

  -- The domain for a personality, with a reference to its module; 0 for NULL.
  unfoldable pub lookup_exec_domain :
      ℕ → Config → ℕ → Registry → World → Option (ℕ × Registry × World)
  lookup_exec_domain fuel config personality reg w =
      let per_id = get_personality_id personality in
      first_try fuel config per_id reg (browse fuel reg.node reg.exec_domains per_id w)

  -- Past the last failure: the process changes its domain and drops the old one's module.
  abbrev pub switch_domain : Task → Registry → ℕ → ℕ → World → ℤ × Task × Registry × World
  switch_domain task reg personality ep w = (
    pos 0,
    record { personality = personality; exec_domain = ep },
    reg,
    module_put (reg.node task.exec_domain).module_of (set_fs_altroot w),
  )

  abbrev pub with_fs :
      Task → Registry → ℕ → ℕ → World → Option (ℕ × World) → ℤ × Task × Registry × World
  with_fs task reg personality ep w none =
      (neg enomem, task, reg, module_put (reg.node ep).module_of w)
  with_fs task reg personality ep w (some (fsp, w')) =
      switch_domain task reg personality ep (replace_fs fsp w')

  abbrev pub enter_domain :
      Task → ℕ → Option (ℕ × Registry × World) → Option (ℤ × Task × Registry × World)
  enter_domain task personality none = none
  enter_domain task personality (some (ep, reg, w)) = some (
      if ep == 0
      then (neg enoexec, task, reg, w)
      else if ep == task.exec_domain
      then (pos 0, record task { personality = personality }, reg, w)
      else if fs_shared w
      then with_fs task reg personality ep w (copy_fs_struct w)
      else switch_domain task reg personality ep w)

  -- `__set_personality`
  unfoldable pub set_personality_always :
      ℕ → Config → ℕ → Task → Registry → World → Option (ℤ × Task × Registry × World)
  set_personality_always fuel config personality task reg w =
      enter_domain task personality (lookup_exec_domain fuel config personality reg w)

  -- The macro `set_personality`: nothing to do where the value is the current one.
  unfoldable pub set_personality :
      ℕ → Config → ℕ → Task → Registry → World → Option (ℤ × Task × Registry × World)
  unfolding set_personality_always
  set_personality fuel config personality task reg w =
      if task.personality == personality
      then some (pos 0, task, reg, w)
      else set_personality_always fuel config personality task reg w

  abbrev report_old :
      ℕ → ℕ → Option (ℤ × Task × Registry × World) → Option (ℤ × Task × Registry × World)
  report_old old personality none = none
  report_old old personality (some (code, task, reg, w)) =
      some ((if not (task.personality == personality) then neg einval else int32 old), task, reg, w)

  -- PER_QUERY asks for the current value; the result of `set_personality` is not looked at.
  unfoldable pub sys_personality :
      ℕ → Config → ℕ → Task → Registry → World → Option (ℤ × Task × Registry × World)
  unfolding set_personality
  sys_personality fuel config personality task reg w =
      if personality == 0xffff_ffff
      then some (int32 task.personality, task, reg, w)
      else report_old task.personality personality
          (set_personality fuel config personality task reg w)
