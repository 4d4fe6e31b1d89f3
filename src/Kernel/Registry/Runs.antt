-- ===== src/Kernel/Registry/Runs.antt =====
-- Sequences of calls on the registry, and a call with its inverse.
use linux_abiemu.Prelude.{
  ℕ, zero, suc, ◌+◌, ◌≤◌, ◌<◌, false, Option, none, some, List, [], ◌∷◌, ◌≡◌, refl, sym, ap, ◌≢◌,
  inl, inr, ℤ, pos, ◌==◌, ==_of_ne, ==_iff, ==_refl, length, arith, Bool-cases,
}
use linux_abiemu.Kernel.Registry.{
  Registry, set_next, find_slot, unlink, register_exec_domain, unregister_exec_domain,
}
use linux_abiemu.Kernel.Registry.Chain.{contains, erase, scan-contains}
use linux_abiemu.Kernel.Registry.Register.{
  Holds, Call, registers, unregisters, call, promise, call-promise,
}

abbrev prepend : ℤ → Option (List ℤ × Registry) → Option (List ℤ × Registry)
prepend code none = none
prepend code (some (codes, reg)) = some (code ∷ codes, reg)

-- The codes of a sequence of calls, and the registry at its end.
unfoldable pub run : ℕ → Registry → List Call → Option (List ℤ × Registry)
run fuel reg [] = some ([], reg)
run fuel reg (c ∷ cs) = elim (call fuel reg c) [
  | none ↦ none
  | some (code, next) ↦ prepend code (run fuel next cs)
]

unfoldable pub promises : List ℕ → List Call → List ℤ × List ℕ
promises xs [] = ([], xs)
promises xs (c ∷ cs) =
    let rest = promises (promise xs c).1 cs in ((promise xs c).0 ∷ rest.0, rest.1)

length-erase : (a : ℕ) (xs : List ℕ) → length (erase a xs) ≤ length xs
length-erase a [] = omega arith
length-erase a (x ∷ xs) = ground (arith, length-erase a xs)

length-promise : (xs : List ℕ) (c : Call) → length (promise xs c).1 ≤ length xs + 1
unfolding promise
length-promise xs (registers ep) = ground arith
length-promise xs (unregisters ep) = ground (arith, length-erase ep xs)

-- From a registry that holds a list of domains, any sequence of registrations and removals returns,
-- with fuel above the number of domains and calls, the codes that the calls have on the set of
-- addresses, and leaves a registry that holds that set's final members in order.
pub run-promises :
    (fuel : ℕ) (reg : Registry) (xs : List ℕ) (cs : List Call)
    → Holds reg xs
    → length xs + length cs < fuel
    → (last : Registry) × (run fuel reg cs ≡ some ((promises xs cs).0, last))
      × Holds last (promises xs cs).1
unfolding run promises
run-promises fuel reg xs [] h f = (reg, refl, h)
run-promises fuel reg xs (c ∷ cs) h f =
    let (next, e, held) = call-promise fuel reg xs c h (omega arith) in
    let (last, es, kept) =
      run-promises fuel next (promise xs c).1 cs held (omega (arith, length-promise xs c)) in
    (last, rw (e, run) (rw es), kept)

front_next :
    (reg : Registry) (ep : ℕ) → (set_next reg.node ep reg.exec_domains ep).next ≡ reg.exec_domains
unfolding set_next
front_next reg ep = rw (==_refl ep)

restored :
    (reg : Registry) (ep a : ℕ)
    → (reg.node ep).next ≡ 0
    → set_next (set_next reg.node ep reg.exec_domains) ep 0 a ≡ reg.node a
unfolding set_next
restored reg ep a z = elim (Bool-cases (a == ep)) [
  | inl e ↦ rw ((==_iff a ep).0 e) (rw (==_refl ep) (λ i. record (reg.node ep) { next = sym z i }))
  | inr e ↦ rw e
]

unlink_front :
    (reg : Registry) (ep : ℕ)
    → unlink (record { exec_domains = ep; node = set_next reg.node ep reg.exec_domains }) 0 ep
      ≡ record {
        exec_domains = reg.exec_domains;
        node = set_next (set_next reg.node ep reg.exec_domains) ep 0;
      }
unfolding unlink
unlink_front reg ep = λ i. record {
  exec_domains = front_next reg ep i;
  node = set_next (set_next reg.node ep reg.exec_domains) ep 0;
}

-- In a registry that holds a list of domains, with fuel above their number: registering a domain
-- that is not NULL and not on the list succeeds, removing it then succeeds, and the list head and
-- every domain are as they were.
pub unregister-register :
    (fuel : ℕ) (reg : Registry) (xs : List ℕ) (ep : ℕ)
    → Holds reg xs
    → length xs < fuel
    → ep ≢ 0
    → contains xs ep ≡ false
    → (added : Registry) × (register_exec_domain fuel reg ep ≡ some (pos 0, added))
      × (back : Registry) × (unregister_exec_domain fuel added ep ≡ some (pos 0, back))
      × (back.exec_domains ≡ reg.exec_domains)
      × ((a : ℕ) → back.node a ≡ reg.node a)
unfolding register_exec_domain unregister_exec_domain find_slot unlink set_next
unregister-register zero reg xs ep h f ne new = absurd (omega arith)
unregister-register (suc fuel) reg xs ep h f ne new = (
  record { exec_domains = ep; node = set_next reg.node ep reg.exec_domains },
  rw (
    ==_of_ne ep 0 ne,
    h.unlinked ep new,
    scan-contains (suc fuel) reg.node reg.exec_domains ep xs h.chain f,
    new,
  ),
  record {
    exec_domains = reg.exec_domains;
    node = set_next (set_next reg.node ep reg.exec_domains) ep 0;
  },
  rw (==_of_ne ep 0 ne, ==_refl ep) (ap (λ (r : Registry). some (pos 0, r)) (unlink_front reg ep)),
  refl,
  λ a. restored reg ep a (h.unlinked ep new),
)
