-- ===== src/Kernel/Registry.antt =====
-- abiemu/kernel/exec_domain.c: the linked list of registered execution domains. The list's lock
-- makes each operation one step. A walk takes fuel, one unit for a domain and one for the end;
-- `none` means that the fuel ran out, as on a list that is a cycle.
pub mod Chain
pub mod Register
pub mod Runs
use linux_abiemu.Prelude.{
  ℕ, zero, suc, Bool, true, false, not, Option, none, some, ℤ, pos, neg, ◌==◌, if◌then◌else◌,
}
use linux_abiemu.Kernel.Domain.{ExecDomain, einval, ebusy}

-- The global `exec_domains` and the structures in memory.
pub record Registry : Type 0 where
  pub exec_domains : ℕ
  pub node : ℕ → ExecDomain

-- `p->next = q`
unfoldable pub set_next : (ℕ → ExecDomain) → ℕ → ℕ → ℕ → ExecDomain
set_next node p q a = if a == p then record (node p) { next = q } else node a

-- The scan of `register_exec_domain`: is ep on the list from tmp on?
unfoldable pub scan : ℕ → (ℕ → ExecDomain) → ℕ → ℕ → Option Bool
scan zero node tmp ep = none
scan (suc fuel) node tmp ep =
    let rest = scan fuel node (node tmp).next ep in
    if tmp == 0 then some false else if tmp == ep then some true else rest

abbrev register_if : Registry → ℕ → Option Bool → Option (ℤ × Registry)
register_if reg ep none = none
register_if reg ep (some true) = some (neg ebusy, reg)
register_if reg ep (some false) =
    some (pos 0, record { exec_domains = ep; node = set_next reg.node ep reg.exec_domains })

unfoldable pub register_exec_domain : ℕ → Registry → ℕ → Option (ℤ × Registry)
register_exec_domain fuel reg ep =
    if ep == 0
    then some (neg einval, reg)
    else if not ((reg.node ep).next == 0)
    then some (neg ebusy, reg)
    else register_if reg ep (scan fuel reg.node reg.exec_domains ep)

-- `*epp`, where epp is &exec_domains (0) or the address of a domain's `next`.
abbrev pub slot : Registry → ℕ → ℕ
slot reg epp = if epp == 0 then reg.exec_domains else (reg.node epp).next

abbrev pub set_slot : Registry → ℕ → ℕ → Registry
set_slot reg epp q =
    if epp == 0
    then record reg { exec_domains = q }
    else record reg { node = set_next reg.node epp q }

-- The walk of `unregister_exec_domain`: the slot that holds ep, if one does.
unfoldable pub find_slot : ℕ → Registry → ℕ → ℕ → Option (Option ℕ)
find_slot zero reg epp ep = none
find_slot (suc fuel) reg epp ep =
    let rest = find_slot fuel reg (slot reg epp) ep in
    if slot reg epp == 0 then some none else if slot reg epp == ep then some (some epp) else rest

-- `*epp = ep->next; ep->next = NULL;`
unfoldable pub unlink : Registry → ℕ → ℕ → Registry
unlink reg epp ep =
    let shorter = set_slot reg epp (reg.node ep).next in
    record shorter { node = set_next shorter.node ep 0 }

abbrev unregister_at : Registry → ℕ → Option (Option ℕ) → Option (ℤ × Registry)
unregister_at reg ep none = none
unregister_at reg ep (some none) = some (neg einval, reg)
unregister_at reg ep (some (some epp)) = some (pos 0, unlink reg epp ep)

unfoldable pub unregister_exec_domain : ℕ → Registry → ℕ → Option (ℤ × Registry)
unregister_exec_domain fuel reg ep = unregister_at reg ep (find_slot fuel reg 0 ep)
