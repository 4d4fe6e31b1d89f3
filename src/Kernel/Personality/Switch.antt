-- ===== src/Kernel/Personality/Switch.antt =====
-- What a change of personality does on every path.
use linux_abiemu.Prelude.{
  ℕ, ◌-◌, ◌<◌, Bool, true, false, none, some, List, ◌≡◌, refl, ap, ◌∙◌, ◌≢◌, inl, inr, ℤ, pos, neg,
  ◌==◌, ==_iff, ==_of_ne, if◌then◌else◌, length, arith, Bool-cases, Option-cases,
}
use linux_abiemu.Kernel.Domain.{get_personality_id, enoexec, enomem}
use linux_abiemu.Kernel.Registry.{Registry}
use linux_abiemu.Kernel.Registry.Chain.{contains}
use linux_abiemu.Kernel.Registry.Register.{Holds}
use linux_abiemu.Kernel.Personality.{
  Modules, Config, Task, in_range, set_personality_always, enter_domain, switch_domain,
}
use linux_abiemu.Kernel.Personality.References.{SameRefs, Browsed, nothing, held, plus_if}
use linux_abiemu.Kernel.Personality.Lookup.{LoadsList, Walked, Looked, lookup-Looked}

abbrev pub minus_if : Bool → ℕ → ℕ
minus_if b n = if b then n - 1 else n

minus-plus : (b : Bool) (n : ℕ) → minus_if b (plus_if b n) ≡ n
minus-plus b n = ground arith

pub ne_of_test : (a b : ℕ) → (a == b) ≡ false → a ≢ b
ne_of_test a b h e = cc (h, (==_iff a b).1 e)

module _ (host : Modules) (fuel : ℕ) (config : Config) (personality : ℕ) (reg : Registry)
    (w : host.World) (xs : List ℕ) (task : Task) where
  open host use {
    World, refs, fs_shared, module_put, put_refs, copy_fs_struct, replace_fs, set_fs_altroot,
    copy_refs, replace_refs, altroot_refs,
  }

  -- The ways in which a call can end, with the references to every module k since v, the start of
  -- the lookup's last walk.
  pub data Outcome : ℤ × Task × Registry × World → Type 0 where
    -- No domain: none is registered, before and after module loading, that covers the personality
    -- and whose module the kernel let go.
    unknown :
        {reg' : Registry} {v w' : World} {ys : List ℕ}
        → Walked host fuel config personality reg w xs 0 reg' v ys
        → Browsed host reg'.node (get_personality_id personality) ys v 0 w'
        → Outcome (neg enoexec, task, reg', w')
    -- No memory for the fs_struct that a domain found needs.
    no_memory :
        {reg' : Registry} {v w1 w' : World} {ys : List ℕ} {ep : ℕ}
        → Walked host fuel config personality reg w xs ep reg' v ys
        → Browsed host reg'.node (get_personality_id personality) ys v ep w1
        → ep ≢ 0
        → ep ≢ task.exec_domain
        → fs_shared w1 ≡ true
        → copy_fs_struct w1 ≡ none
        → SameRefs host v w'
        → Outcome (neg enomem, task, reg', w')
    -- The process was in the right domain: its module has one reference more.
    stayed :
        {reg' : Registry} {v w' : World} {ys : List ℕ}
        → Walked host fuel config personality reg w xs task.exec_domain reg' v ys
        → contains ys task.exec_domain ≡ true
        → in_range (reg'.node task.exec_domain) (get_personality_id personality) ≡ true
        → ((k : ℕ) → refs w' k ≡ plus_if (k == (reg'.node task.exec_domain).module_of) (refs v k))
        → Outcome (pos 0, record task { personality = personality }, reg', w')
    -- The process has entered a domain for the personality: its module has one reference more and
    -- the old domain's one less.
    moved :
        {reg' : Registry} {v w' : World} {ys : List ℕ} {ep : ℕ}
        → Walked host fuel config personality reg w xs ep reg' v ys
        → ep ≢ task.exec_domain
        → contains ys ep ≡ true
        → in_range (reg'.node ep) (get_personality_id personality) ≡ true
        → ((k : ℕ)
            → refs w' k
              ≡ minus_if
                  (k == (reg'.node task.exec_domain).module_of)
                  (plus_if (k == (reg'.node ep).module_of) (refs v k)))
        → Outcome (pos 0, record { personality = personality; exec_domain = ep }, reg', w')

  dropped :
      (m : ℕ) (v v' : World) (k : ℕ)
      → refs v k ≡ refs v' k
      → refs (module_put m v) k ≡ minus_if (k == m) (refs v' k)
  dropped m v v' k e = put_refs m v k ∙ ap (minus_if (k == m)) e

  entered :
      (reg' : Registry) (ep : ℕ) (v w1 w2 : World)
      → ((k : ℕ) → refs w1 k ≡ plus_if (k == (reg'.node ep).module_of) (refs v k))
      → ((k : ℕ) → refs w2 k ≡ refs w1 k)
      → (k : ℕ)
      → refs (module_put (reg'.node task.exec_domain).module_of (set_fs_altroot w2)) k
        ≡ minus_if
            (k == (reg'.node task.exec_domain).module_of)
            (plus_if (k == (reg'.node ep).module_of) (refs v k))
  entered reg' ep v w1 w2 s e k =
      dropped (reg'.node task.exec_domain).module_of (set_fs_altroot w2) w1 k
        (altroot_refs w2 k ∙ e k)
      ∙ ap (minus_if _) (s k)

  enter-Outcome :
      (r : ℕ × Registry × World)
      → Looked host fuel config personality reg w xs r
      → (s : ℤ × Task × Registry × World) × (enter_domain host task personality (some r) ≡ some s)
        × Outcome s
  enter-Outcome (ep, reg', w1) (v, ys, walked, nothing z same busy) =
      ((neg enoexec, task, reg', w1), rw z, unknown (rw z at walked) (nothing refl same busy))
  enter-Outcome (ep, reg', w1) (v, ys, walked, held ne on range s) =
      elim (Bool-cases (ep == task.exec_domain)) [
        | inl here ↦
            let same : ep ≡ task.exec_domain = (==_iff ep task.exec_domain).0 here in
            (
              (pos 0, record task { personality = personality }, reg', w1),
              rw (==_of_ne ep 0 ne, here),
              stayed (rw same at walked) (rw same at on) (rw same at range) (rw same at s),
            )
        | inr away ↦ elim (Bool-cases (fs_shared w1)) [
          | inr own ↦ (
            switch_domain host task reg' personality ep w1,
            rw (==_of_ne ep 0 ne, away, own),
            moved walked (ne_of_test ep task.exec_domain away) on range
                (entered reg' ep v w1 w1 s (λ k. refl)),
          )
          | inl shared ↦ elim (Option-cases (copy_fs_struct w1)) [
            | inl full ↦ (
              (neg enomem, task, reg', module_put (reg'.node ep).module_of w1),
              rw (==_of_ne ep 0 ne, away, shared, full),
              no_memory walked (held ne on range s) ne (ne_of_test ep task.exec_domain away) shared
                  full
                  (λ k.
                    dropped (reg'.node ep).module_of w1 w1 k refl
                    ∙ ap (minus_if _) (s k)
                    ∙ minus-plus _ (refs v k)),
            )
            | inr ((fsp, w2), copied) ↦ (
              switch_domain host task reg' personality ep (replace_fs fsp w2),
              rw (==_of_ne ep 0 ne, away, shared, copied),
              moved walked (ne_of_test ep task.exec_domain away) on range (
                  entered reg' ep v w1 (replace_fs fsp w2) s
                    (λ k. replace_refs fsp w2 k ∙ copy_refs w1 fsp w2 k copied)),
            )
          ]
        ]
      ]

  -- `__set_personality`, without late probing and with enough fuel for the list, before and after
  -- module loading, returns on every path: ENOEXEC where the lookup found no domain, before and
  -- after the loading of modules; ENOMEM where it found one but a new fs_struct was needed and could
  -- not be had; in the domain it was in, which is registered and covers the personality, with one
  -- reference more to that domain's module; or moved to a registered domain that covers the
  -- personality, with one reference more to its module and one less to the old domain's. References
  -- are told from the start of the lookup's last walk; an error changes none of them, nor the process.
  pub set_personality-Outcome :
      config.late_probing ≡ false
      → Holds reg xs
      → length xs < fuel
      → LoadsList host fuel config personality reg w
      → (s : ℤ × Task × Registry × World) × (set_personality_always host fuel config personality
            task reg w
          ≡ some s)
        × Outcome s
  unfolding set_personality_always
  set_personality-Outcome late h f loads =
      let (r, found, looked) = lookup-Looked host fuel config personality reg w xs late h f loads in
      let (s, e, o) = enter-Outcome r looked in
      (s, ap (enter_domain host task personality) found ∙ e, o)
