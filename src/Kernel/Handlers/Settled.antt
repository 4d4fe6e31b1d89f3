-- ===== src/Kernel/Handlers/Settled.antt =====
-- The autodetecting handler ends, and does not call itself.
use linux_abiemu.Prelude.{
  ℕ, Option, subst, sym, ◌<◌, true, some, List, ◌≡◌, refl, ◌≢◌, ◌⊎◌, inl, inr, ℤ, ◌==◌, ==_iff,
  length, Bool-cases, is_some, is_some_found,
}
use linux_abiemu.Kernel.Domain.{get_personality_id}
use linux_abiemu.Kernel.Registry.{Registry}
use linux_abiemu.Kernel.Registry.Register.{Holds}
use linux_abiemu.Kernel.Personality.{
  Modules, Config, Task, browse, lookup_exec_domain, set_personality_always, set_personality,
}
use linux_abiemu.Kernel.Personality.References.{browse-Browsed}
use linux_abiemu.Kernel.Personality.Lookup.{LoadsList}
use linux_abiemu.Kernel.Handlers.{
  LcallHost, wanted_personality, hand_over, lcall_autodetect_handler,
}

module _ (host : Modules) (fuel : ℕ) (config : Config) (personality : ℕ) (reg : Registry)
    (w : host.World) (xs : List ℕ) (h : Holds reg xs) (f : length xs < fuel)
    (loads : LoadsList host fuel config personality reg w) where
  open host use {World, request_module}

  abbrev loaded : World → Registry × World
  loaded w1 = request_module (get_personality_id personality) (reg, w1)

  returns_again :
      (ep : ℕ) (w1 : World)
      → browse host fuel reg.node reg.exec_domains (get_personality_id personality) w
        ≡ some (ep, w1)
      → (ep == 0) ≡ true
      → config.kmod ≡ true
      → is_some (lookup_exec_domain host fuel config personality reg w) ≡ true
  unfolding lookup_exec_domain
  returns_again ep w1 e z k =
      let (ys, held, g) = loads w1 in
      let (ep2, w2, e2, b) =
        browse-Browsed host fuel (loaded w1).0.node (loaded w1).0.exec_domains
          (get_personality_id personality) ys (loaded w1).1 held.chain g in
      elim (Bool-cases (ep2 == 0)) [
        | inl z2 ↦ rw (e, z, k, e2, z2) refl
        | inr z2 ↦ rw (e, z, k, e2, z2) refl
      ]

  -- With or without late probing.
  lookup_returns : is_some (lookup_exec_domain host fuel config personality reg w) ≡ true
  unfolding lookup_exec_domain
  lookup_returns =
      let (ep, w1, e, b) =
        browse-Browsed host fuel reg.node reg.exec_domains (get_personality_id personality) xs w
          h.chain f in
      elim (Bool-cases (ep == 0)) [
        | inr z ↦ rw (e, z) refl
        | inl z ↦ elim (Bool-cases config.kmod) [
          | inl k ↦ returns_again ep w1 e z k
          | inr k ↦ rw (e, z, k) refl
        ]
      ]

  set_returns :
      (task : Task) → is_some (set_personality host fuel config personality task reg w) ≡ true
  unfolding set_personality set_personality_always
  set_returns task = elim (Bool-cases (task.personality == personality)) [
    | inl t ↦ rw t refl
    | inr t ↦ let (r, e) = is_some_found _ lookup_returns in rw (t, e) refl
  ]

module _ (host : Modules) (lcall : LcallHost host) (segment : ℕ) where
  open host use {World}

  -- What the handler did after the change of personality: it raised SIGSEGV where it would have called
  -- itself, and else called the handler of the process's domain.
  abbrev pub Settled : Task → Registry → World → Option (Task × Registry × World) → Type 0
  Settled task reg w out =
      ((reg.node task.exec_domain).handler ≡ lcall.autodetect_address)
        × (out ≡ some (task, reg, lcall.send_sigsegv w))
      ⊎ ((reg.node task.exec_domain).handler ≢ lcall.autodetect_address)
        × (out ≡ some (task, reg, lcall.call_handler (reg.node task.exec_domain).handler segment w))

  hand_over-Settled :
      (code : ℤ) (task : Task) (reg : Registry) (w : World)
      → Settled task reg w (hand_over host lcall segment (some (code, task, reg, w)))
  hand_over-Settled code task reg w =
      elim (Bool-cases ((reg.node task.exec_domain).handler == lcall.autodetect_address)) [
        | inl e ↦ inl ((==_iff _ _).0 e, rw e refl)
        | inr e ↦ inr ((λ q. cc (e, (==_iff _ lcall.autodetect_address).1 q)), rw e refl)
      ]

  -- The autodetecting handler, with enough fuel for the list, before and after module loading,
  -- changes to the personality that the segment tells and returns; then it raises SIGSEGV where the
  -- process's domain still has this handler, and else calls the domain's handler once, which is
  -- another.
  pub lcall_autodetect_handler-Settled :
      (fuel : ℕ) (config : Config) (task : Task) (reg : Registry) (w : World) (xs : List ℕ)
      → Holds reg xs
      → length xs < fuel
      → LoadsList host fuel config (wanted_personality lcall.abi_defhandler_lcall7 segment) reg w
      → (s : ℤ × Task × Registry × World) × (set_personality host fuel config
            (wanted_personality lcall.abi_defhandler_lcall7 segment)
            task
            reg
            w
          ≡ some s)
        × Settled s.1 s.2 s.3 (lcall_autodetect_handler host lcall fuel config segment task reg w)
  unfolding lcall_autodetect_handler
  lcall_autodetect_handler-Settled fuel config task reg w xs h f loads =
      let ((code, task', reg', w'), e) = is_some_found _ (
        set_returns host fuel config (wanted_personality lcall.abi_defhandler_lcall7 segment) reg w
          xs h f loads task) in
      (
        (code, task', reg', w'),
        e,
        subst (λ o. Settled task' reg' w' (hand_over host lcall segment o)) (sym e)
            (hand_over-Settled code task' reg' w'),
      )
