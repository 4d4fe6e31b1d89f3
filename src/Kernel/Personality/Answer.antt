-- ===== src/Kernel/Personality/Answer.antt =====
-- What personality(2) answers.
use linux_abiemu.Prelude.{
  ℕ, ◌<◌, false, Option, some, List, ◌≡◌, refl, ◌∙◌, ◌≢◌, ◌⊎◌, inl, inr, ℤ, pos, neg, int32, ◌==◌,
  ==_iff, ==_of_ne, ==_refl, length, Bool-cases,
}
use linux_abiemu.Kernel.Domain.{einval, enoexec, enomem}
use linux_abiemu.Kernel.Registry.{Registry}
use linux_abiemu.Kernel.Registry.Register.{Holds}
use linux_abiemu.Kernel.Personality.{
  Modules, Config, Task, set_personality_always, set_personality, sys_personality, report_old,
}
use linux_abiemu.Kernel.Personality.Lookup.{LoadsList}
use linux_abiemu.Kernel.Personality.Switch.{
  Outcome, unknown, no_memory, stayed, moved, ne_of_test, set_personality-Outcome,
}

module _ (host : Modules) (fuel : ℕ) (config : Config) (personality : ℕ) (reg : Registry)
    (w : host.World) (xs : List ℕ) (task : Task) where
  open host use {World}

  -- The answers: the old value, with nothing changed, for a query and for the personality that the
  -- process has; after a change the old value where `Outcome` tells success, and -EINVAL where it
  -- tells an error, for which the process is as it was.
  pub data Answer : ℤ × Task × Registry × World → Type 0 where
    queried : personality ≡ 0xffff_ffff → Answer (int32 task.personality, task, reg, w)
    unneeded : task.personality ≡ personality → Answer (int32 task.personality, task, reg, w)
    changed :
        {reg' : Registry} {w' : World} {task' : Task}
        → personality ≢ 0xffff_ffff
        → task.personality ≢ personality
        → task'.personality ≡ personality
        → Outcome host fuel config personality reg w xs task (pos 0, task', reg', w')
        → Answer (int32 task.personality, task', reg', w')
    rejected :
        {reg' : Registry} {w' : World}
        → personality ≢ 0xffff_ffff
        → task.personality ≢ personality
        → (code : ℤ) → (code ≡ neg enoexec) ⊎ (code ≡ neg enomem)
        → Outcome host fuel config personality reg w xs task (code, task, reg', w')
        → Answer (neg einval, task, reg', w')

  answer_query :
      personality ≡ 0xffff_ffff
      → sys_personality host fuel config personality task reg w
        ≡ some (int32 task.personality, task, reg, w)
  unfolding sys_personality
  answer_query e = rw ((==_iff personality 0xffff_ffff).1 e) refl

  answer_same :
      (personality == 0xffff_ffff) ≡ false
      → task.personality ≡ personality
      → sys_personality host fuel config personality task reg w
        ≡ some (int32 task.personality, task, reg, w)
  unfolding sys_personality set_personality
  answer_same q e =
      rw (q, (==_iff task.personality personality).1 e)
        (rw ((==_iff task.personality personality).1 e) refl)

  answer_set :
      (s : ℤ × Task × Registry × World)
      → (personality == 0xffff_ffff) ≡ false
      → task.personality ≢ personality
      → set_personality_always host fuel config personality task reg w ≡ some s
      → sys_personality host fuel config personality task reg w
        ≡ report_old host task.personality personality (some s)
  unfolding sys_personality set_personality
  answer_set s q ne e = rw (q, ==_of_ne task.personality personality ne, e) refl

  abbrev Answers : Option (ℤ × Task × Registry × World) → Type 0
  Answers o = (s : ℤ × Task × Registry × World) × (o ≡ some s) × Answer s

  reported :
      (s : ℤ × Task × Registry × World)
      → personality ≢ 0xffff_ffff
      → task.personality ≢ personality
      → Outcome host fuel config personality reg w xs task s
      → Answers (report_old host task.personality personality (some s))
  reported _ q ne (unknown walked b) = (
    _,
    refl,
    rw (==_of_ne task.personality personality ne)
        (rejected q ne (neg enoexec) (inl refl) (unknown walked b)),
  )
  reported _ q ne (no_memory walked b found away shared full same) = (
    _,
    refl,
    rw (==_of_ne task.personality personality ne)
        (rejected q ne (neg enomem) (inr refl) (no_memory walked b found away shared full same)),
  )
  reported _ q ne (stayed walked on range k) =
      (_, refl, rw (==_refl personality) (changed q ne refl (stayed walked on range k)))
  reported _ q ne (moved walked other on range k) =
      (_, refl, rw (==_refl personality) (changed q ne refl (moved walked other on range k)))

  -- personality(2), without late probing and with enough fuel for the list, before and after module
  -- loading, returns: the old personality, with nothing changed, for a query and for the personality
  -- that the process has; else the old personality where the change succeeds as `Outcome` tells, and
  -- the process has the new one; else -EINVAL, for either error of the change, and the process is as
  -- it was.
  pub sys_personality-Answer :
      config.late_probing ≡ false
      → Holds reg xs
      → length xs < fuel
      → LoadsList host fuel config personality reg w
      → Answers (sys_personality host fuel config personality task reg w)
  sys_personality-Answer late h f loads = elim (Bool-cases (personality == 0xffff_ffff)) [
    | inl q ↦
        let e : personality ≡ 0xffff_ffff = (==_iff personality 0xffff_ffff).0 q in
        ((int32 task.personality, task, reg, w), answer_query e, queried e)
    | inr q ↦ elim (Bool-cases (task.personality == personality)) [
      | inl t ↦
          let same : task.personality ≡ personality = (==_iff task.personality personality).0 t in
          ((int32 task.personality, task, reg, w), answer_same q same, unneeded same)
      | inr t ↦
          let ne : task.personality ≢ personality = ne_of_test task.personality personality t in
          let (s, e, o) =
            set_personality-Outcome host fuel config personality reg w xs task late h f loads in
          let (s', e', a) = reported s (ne_of_test personality 0xffff_ffff q) ne o in
          (s', answer_set s q ne e ∙ e', a)
    ]
  ]
