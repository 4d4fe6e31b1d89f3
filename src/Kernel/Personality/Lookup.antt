-- ===== src/Kernel/Personality/Lookup.antt =====
-- Which domain `lookup_exec_domain` finds, and the one reference that it takes.
use linux_abiemu.Prelude.{
  ℕ, ◌<◌, true, false, some, List, ◌≡◌, refl, ap, ◌∙◌, ◌≢◌, ◌⊎◌, inl, inr, ◌==◌, ==_iff, ==_of_ne,
  length, Bool-cases,
}
use linux_abiemu.Kernel.Domain.{get_personality_id}
use linux_abiemu.Kernel.Registry.{Registry}
use linux_abiemu.Kernel.Registry.Register.{Holds}
use linux_abiemu.Kernel.Personality.{Modules, Config, browse, lookup_exec_domain}
use linux_abiemu.Kernel.Personality.References.{Browsed, nothing, held, browse-Browsed}

module _ (host : Modules) where
  open host use {World, request_module}

  module _ (fuel : ℕ) (config : Config) (personality : ℕ) (reg : Registry) (w : World) where
    -- Module loading leaves a list that the fuel covers.
    abbrev pub LoadsList : Type 0
    LoadsList =
        (v : World)
        → (ys : List ℕ) × Holds (request_module (get_personality_id personality) (reg, v)).0 ys
          × (length ys < fuel)

    abbrev loaded : World → Registry × World
    loaded w1 = request_module (get_personality_id personality) (reg, w1)

    -- The registry, world and list of the walk that a lookup ends with, whose result is the domain at
    -- ep: the registered list, where it has a domain to take or modules are not loaded; else what
    -- module loading left.
    pub data Walked (xs : List ℕ) (ep : ℕ) : Registry → World → List ℕ → Type 0 where
      at_once : (ep ≢ 0) ⊎ (config.kmod ≡ false) → Walked xs ep reg w xs
      after_loading :
          {w1 : World} {ys : List ℕ}
          → config.kmod ≡ true
          → Browsed host reg.node (get_personality_id personality) xs w 0 w1
          → Holds (request_module (get_personality_id personality) (reg, w1)).0 ys
          → Walked xs ep
              (request_module (get_personality_id personality) (reg, w1)).0
              (request_module (get_personality_id personality) (reg, w1)).1
              ys

    -- A lookup with its last walk.
    abbrev pub Looked : List ℕ → ℕ × Registry × World → Type 0
    Looked xs (ep, reg', w') =
        (v : World) × (ys : List ℕ) × Walked xs ep reg' v ys
        × Browsed host reg'.node (get_personality_id personality) ys v ep w'

    abbrev pub LookedUp : List ℕ → Type 0
    LookedUp xs =
        (r : ℕ × Registry × World) × (lookup_exec_domain host fuel config personality reg w
          ≡ some r)
        × Looked xs r

    lookup_found :
        (ep : ℕ) (w1 : World)
        → browse host fuel reg.node reg.exec_domains (get_personality_id personality) w
          ≡ some (ep, w1)
        → ep ≢ 0
        → lookup_exec_domain host fuel config personality reg w ≡ some (ep, reg, w1)
    unfolding lookup_exec_domain
    lookup_found ep w1 e ne = rw (e, ==_of_ne ep 0 ne)

    lookup_missed :
        (w1 : World)
        → browse host fuel reg.node reg.exec_domains (get_personality_id personality) w
          ≡ some (0, w1)
        → config.late_probing ≡ false
        → config.kmod ≡ false
        → lookup_exec_domain host fuel config personality reg w ≡ some (0, reg, w1)
    unfolding lookup_exec_domain
    lookup_missed w1 e late k = rw (e, k, late)

    lookup_again :
        (w1 : World) (ep : ℕ) (w2 : World)
        → browse host fuel reg.node reg.exec_domains (get_personality_id personality) w
          ≡ some (0, w1)
        → config.late_probing ≡ false
        → config.kmod ≡ true
        → browse host fuel
            (loaded w1).0.node
            (loaded w1).0.exec_domains
            (get_personality_id personality)
            (loaded w1).1
          ≡ some (ep, w2)
        → lookup_exec_domain host fuel config personality reg w ≡ some (ep, (loaded w1).0, w2)
    unfolding lookup_exec_domain
    lookup_again w1 ep w2 e late k e2 = elim (Bool-cases (ep == 0)) [
      | inl z ↦ rw (e, k, e2, late, z, (==_iff ep 0).0 z)
      | inr z ↦ rw (e, k, e2, z)
    ]

    lookup_rest :
        (xs : List ℕ) (w1 : World)
        → browse host fuel reg.node reg.exec_domains (get_personality_id personality) w
          ≡ some (0, w1)
        → Browsed host reg.node (get_personality_id personality) xs w 0 w1
        → config.late_probing ≡ false
        → LoadsList
        → LookedUp xs
    lookup_rest xs w1 e b late loads = elim (Bool-cases config.kmod) [
      | inl k ↦
          let (ys, h, f) = loads w1 in
          let (ep, w2, e2, b2) =
            browse-Browsed host fuel (loaded w1).0.node (loaded w1).0.exec_domains
              (get_personality_id personality) ys (loaded w1).1 h.chain f in
          (
            (ep, (loaded w1).0, w2),
            lookup_again w1 ep w2 e late k e2,
            ((loaded w1).1, ys, after_loading k b h, b2),
          )
      | inr k ↦ ((0, reg, w1), lookup_missed w1 e late k, (w, xs, at_once (inr k), b))
    ]

    -- Without late probing, and with enough fuel for the list before and after module loading, a
    -- lookup returns. It ends with a walk of the registered list, or, where modules are loaded and
    -- the kernel refused every domain of that list that covers the personality, of the list after
    -- loading. The walk gives a domain of its list that covers the personality, with one reference
    -- more to its module and no other since the walk's start; or NULL, with no reference changed
    -- since then, where the kernel refused the module of every domain of the list in range.
    pub lookup-Looked :
        (xs : List ℕ)
        → config.late_probing ≡ false
        → Holds reg xs
        → length xs < fuel
        → LoadsList
        → LookedUp xs
    lookup-Looked xs late h f loads =
        let (ep, w1, e, b) =
          browse-Browsed host fuel reg.node reg.exec_domains (get_personality_id personality) xs w
            h.chain f in
        first ep w1 e b
      where
        first :
            (ep : ℕ) (w1 : World)
            → browse host fuel reg.node reg.exec_domains (get_personality_id personality) w
              ≡ some (ep, w1)
            → Browsed host reg.node (get_personality_id personality) xs w ep w1
            → LookedUp xs
        first ep w1 e (nothing z same busy) =
            lookup_rest xs w1 (e ∙ ap (λ n. some (n, w1)) z) (nothing refl same busy) late loads
        first ep w1 e (held ne on range s) =
            ((ep, reg, w1), lookup_found ep w1 e ne, (w, xs, at_once (inl ne), held ne on range s))
