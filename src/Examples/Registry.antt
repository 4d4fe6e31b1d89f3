-- ===== src/Examples/Registry.antt =====
-- The registry with three domains, and a process that changes its personality.
use linux_abiemu.Prelude.{
  ◌==◌, if◌then◌else◌, ℕ, true, false, some, [], ◌∷◌, ◌≡◌, refl, ℤ, pos, neg, ◌==◌, if◌then◌else◌,
  arith,
}
use linux_abiemu.Kernel.Domain.{ExecDomain}
use linux_abiemu.Kernel.Registry.{Registry, register_exec_domain, unregister_exec_domain}
use linux_abiemu.Kernel.Registry.Chain.{contains}
use linux_abiemu.Kernel.Registry.Register.{Holds, registers, unregisters, promise}
use linux_abiemu.Kernel.Registry.Runs.{run, promises, run-promises, unregister-register}
use linux_abiemu.Kernel.Personality.{
  Config, Task, set_personality_always, sys_personality, set_personality,
}
use linux_abiemu.Kernel.Personality.Lookup.{LookedUp, lookup-Looked}
use linux_abiemu.Kernel.Handlers.{LcallHost, lcall_autodetect_handler}
use linux_abiemu.Kernel.Handlers.Settled.{Settled, lcall_autodetect_handler-Settled}
use linux_abiemu.Kernel.Personality.Answer.{Answer, sys_personality-Answer}
use linux_abiemu.Kernel.Personality.Switch.{Outcome, set_personality-Outcome}
use linux_abiemu.Abi.Ibcs.{ibcs_exec_domain}
use linux_abiemu.Abi.Sco.{sco_exec_domain}
use linux_abiemu.Examples.Hosts.{count_host}

-- Two domains, at 1 and 2, of which the second is registered behind the first; all else is unlinked.
abbrev memory : ℕ → ExecDomain
memory a = if a == 1 then record (sco_exec_domain 100 10) { next = 2 } else ibcs_exec_domain 200 20

abbrev two : Registry
two = record { exec_domains = 1; node = memory }

others : (a : ℕ) → contains (1 ∷ 2 ∷ []) a ≡ false → (memory a).next ≡ 0
others a h = ground arith

two-Holds : Holds two (1 ∷ 2 ∷ [])
two-Holds = record {
  chain = (refl, (λ e. cc e), refl, (refl, (λ e. cc e), refl, refl));
  unlinked = others;
}

run-promises_example :
    (last : Registry) × (run 9 two (registers 3 ∷ registers 2 ∷ unregisters 1 ∷ unregisters 1 ∷ [])
      ≡ some ((pos 0 ∷ neg 16 ∷ pos 0 ∷ neg 22 ∷ []), last))
    × Holds last (3 ∷ 2 ∷ [])
unfolding promises promise
run-promises_example =
    run-promises 9 two (1 ∷ 2 ∷ []) (registers 3 ∷ registers 2 ∷ unregisters 1 ∷ unregisters 1 ∷ [])
      two-Holds (omega arith)

unregister-register_example :
    (added : Registry) × (register_exec_domain 3 two 3 ≡ some (pos 0, added))
    × (back : Registry) × (unregister_exec_domain 3 added 3 ≡ some (pos 0, back))
    × (back.exec_domains ≡ 1)
    × ((a : ℕ) → back.node a ≡ memory a)
unregister-register_example =
    unregister-register 3 two (1 ∷ 2 ∷ []) 3 two-Holds (omega arith) (λ e. cc e) refl

-- The process runs under the domain at 1 and asks for personality 1 (PER_SVR4 & 0xff).
abbrev config : Config
config = record { kmod = true; late_probing = false; default_exec_domain = 0 }

abbrev task : Task
task = record { personality = 7; exec_domain = 1 }

abbrev one_each : ℕ → ℕ
one_each k = 1

lookup-Looked_example : LookedUp count_host 3 config 1 two one_each (1 ∷ 2 ∷ [])
lookup-Looked_example =
    lookup-Looked count_host 3 config 1 two one_each (1 ∷ 2 ∷ []) refl two-Holds (omega arith)
      (λ v. ((1 ∷ 2 ∷ []), two-Holds, omega arith))

set_personality-Outcome_example :
    (s : ℤ × Task × Registry × (ℕ → ℕ)) × (set_personality_always count_host 3 config 1 task two
        one_each
      ≡ some s)
    × Outcome count_host 3 config 1 two one_each (1 ∷ 2 ∷ []) task s
set_personality-Outcome_example =
    set_personality-Outcome count_host 3 config 1 two one_each (1 ∷ 2 ∷ []) task refl two-Holds
      (omega arith) (λ v. ((1 ∷ 2 ∷ []), two-Holds, omega arith))

sys_personality-Answer_example :
    (s : ℤ × Task × Registry × (ℕ → ℕ)) × (sys_personality count_host 3 config 1 task two one_each
      ≡ some s)
    × Answer count_host 3 config 1 two one_each (1 ∷ 2 ∷ []) task s
sys_personality-Answer_example =
    sys_personality-Answer count_host 3 config 1 two one_each (1 ∷ 2 ∷ []) task refl two-Holds
      (omega arith) (λ v. ((1 ∷ 2 ∷ []), two-Holds, omega arith))

-- A kernel whose handlers count as references to module 0. A program without a personality enters
-- by lcall7 and gets the domain at 2, whose handler is at 200.
abbrev handlers : LcallHost count_host
handlers = record {
  send_sigsegv = λ w. w;
  call_handler = λ a segment w k. if k == 0 then a else w k;
  autodetect_address = 999;
  abi_defhandler_lcall7 = 1;
}

lcall_autodetect_handler-Settled_example :
    (s : ℤ × Task × Registry × (ℕ → ℕ)) × (set_personality count_host 3 config 1 task two one_each
      ≡ some s)
    × Settled count_host handlers 7 s.1 s.2 s.3
        (lcall_autodetect_handler count_host handlers 3 config 7 task two one_each)
lcall_autodetect_handler-Settled_example =
    lcall_autodetect_handler-Settled count_host handlers 7 3 config task two one_each (1 ∷ 2 ∷ [])
      two-Holds (omega arith) (λ v. ((1 ∷ 2 ∷ []), two-Holds, omega arith))
