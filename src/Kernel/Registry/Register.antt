-- ===== src/Kernel/Registry/Register.antt =====
-- `register_exec_domain` and `unregister_exec_domain` against a set of addresses in order.
use linux_abiemu.Prelude.{
  ℕ, ◌<◌, true, false, Option, some, List, [], ◌∷◌, ◌≡◌, refl, sym, ap, ◌∙◌, ◌≢◌, ◌⊎◌, inl, inr, ℤ,
  pos, neg, ◌==◌, ==_of_ne, ==_iff, ==_refl, if◌then◌else◌, length, arith, Bool-cases,
}
use linux_abiemu.Kernel.Domain.{ExecDomain, einval, ebusy}
use linux_abiemu.Kernel.Registry.{
  Registry, set_next, scan, unlink, register_exec_domain, unregister_exec_domain,
}
use linux_abiemu.Kernel.Registry.Chain.{
  contains, erase, IsChain, frame, scan-contains, find_slot-absent, find_slot-Found, Found,
}

-- The registry holds the domains of the list, in order, and every other domain is unlinked.
pub record Holds (reg : Registry) (xs : List ℕ) : Type 0 where
  pub chain : IsChain reg.node reg.exec_domains xs
  pub unlinked : (a : ℕ) → contains xs a ≡ false → (reg.node a).next ≡ 0

pub data Call : Type 0 where
  registers unregisters : ℕ → Call

unfoldable pub call : ℕ → Registry → Call → Option (ℤ × Registry)
call fuel reg (registers ep) = register_exec_domain fuel reg ep
call fuel reg (unregisters ep) = unregister_exec_domain fuel reg ep

-- What the two calls promise, with no pointers.
unfoldable pub promise : List ℕ → Call → ℤ × List ℕ
promise xs (registers ep) =
    if ep == 0
    then (neg einval, xs)
    else if contains xs ep
    then (neg ebusy, xs)
    else (pos 0, ep ∷ xs)
promise xs (unregisters ep) = if contains xs ep then (pos 0, erase ep xs) else (neg einval, xs)

null-not-mem :
    (node : ℕ → ExecDomain) (p : ℕ) (xs : List ℕ) → IsChain node p xs → contains xs 0 ≡ false
null-not-mem node p [] c = refl
null-not-mem node p (q ∷ qs) (e, ne, once, rest) =
    rw (==_of_ne q 0 ne) (null-not-mem node (node q).next qs rest)

mem-erase_ne :
    (a ep : ℕ) (xs : List ℕ) → a ≢ ep → contains xs a ≡ true → contains (erase ep xs) a ≡ true
mem-erase_ne a ep [] ne h = h
mem-erase_ne a ep (x ∷ xs) ne h = ground (arith, mem-erase_ne a ep xs)

-- A list head put in front.
push_front :
    (reg : Registry) (ep : ℕ) (xs : List ℕ)
    → Holds reg xs
    → ep ≢ 0
    → contains xs ep ≡ false
    → Holds (record { exec_domains = ep; node = set_next reg.node ep reg.exec_domains }) (ep ∷ xs)
unfolding set_next
push_front reg ep xs h ne fresh = record {
  chain = (
    refl,
    ne,
    fresh,
    rw (==_refl ep) (frame reg.node ep reg.exec_domains reg.exec_domains xs fresh h.chain),
  );
  unlinked = λ a out. ground (arith, h.unlinked a);
}

not-mem_of_erase :
    (a ep : ℕ) (xs : List ℕ) → a ≢ ep → contains (erase ep xs) a ≡ false → contains xs a ≡ false
not-mem_of_erase a ep xs ne out = elim (Bool-cases (contains xs a)) [
  | inl mem ↦ cc (mem-erase_ne a ep xs ne mem)
  | inr gone ↦ gone
]

unlink_other :
    (reg : Registry) (e ep a : ℕ)
    → a ≢ ep
    → (e ≡ 0) ⊎ (a ≢ e)
    → ((unlink reg e ep).node a).next ≡ (reg.node a).next
unfolding unlink set_next
unlink_other reg e ep a ne (inl z) = ground arith
unlink_other reg e ep a ne (inr k) = ground arith

beside :
    (e a : ℕ) (xs : List ℕ)
    → (e ≡ 0) ⊎ (contains xs e ≡ true)
    → contains xs a ≡ false
    → (e ≡ 0) ⊎ (a ≢ e)
beside e a xs (inl z) out = inl z
beside e a xs (inr on) out = inr (λ q. cc (ap (contains xs) q))

module _ (fuel : ℕ) (reg : Registry) (xs : List ℕ) (ep : ℕ) (h : Holds reg xs)
    (f : length xs < fuel) where
  scanned : scan fuel reg.node reg.exec_domains ep ≡ some (contains xs ep)
  scanned = scan-contains fuel reg.node reg.exec_domains ep xs h.chain f

  register_listed :
      (ep == 0) ≡ false
      → contains xs ep ≡ true
      → register_exec_domain fuel reg ep ≡ some (neg ebusy, reg)
  unfolding register_exec_domain
  register_listed z old = elim (Bool-cases ((reg.node ep).next == 0)) [
    | inl e ↦ rw (z, e, scanned, old)
    | inr e ↦ rw (z, e)
  ]

  abbrev KeepsPromise : Call → Type 0
  KeepsPromise c =
      (next : Registry) × (call fuel reg c ≡ some ((promise xs c).0, next))
      × Holds next (promise xs c).1

  registers_lem : KeepsPromise (registers ep)
  unfolding call promise register_exec_domain
  registers_lem = elim (Bool-cases (ep == 0)) [
    | inl z ↦ (reg, rw z, rw z h)
    | inr z ↦ elim (Bool-cases (contains xs ep)) [
      | inl old ↦
          let refused : promise xs (registers ep) ≡ (neg ebusy, xs) = rw (z, old) in
          (
            reg,
            register_listed z old ∙ sym (ap (λ (p : ℤ × List ℕ). some (p.0, reg)) refused),
            rw (z, old) h,
          )
      | inr new ↦ (
        record { exec_domains = ep; node = set_next reg.node ep reg.exec_domains },
        rw (z, new, h.unlinked ep new, scanned, new),
        rw (z, new) (push_front reg ep xs h (λ e. cc (z, (==_iff ep 0).1 e)) new),
      )
    ]
  ]

  erased :
      (e : ℕ) → contains xs ep ≡ true → Found reg ep 0 xs e → Holds (unlink reg e ep) (erase ep xs)
  unfolding unlink set_next
  erased e mem (side, c) = record {
    chain = c;
    unlinked = λ a out. elim (Bool-cases (a == ep)) [
      | inl same ↦ rw same
      | inr other ↦
          let ne : a ≢ ep = (λ q. cc (other, (==_iff a ep).1 q)) in
          let gone : contains xs a ≡ false = not-mem_of_erase a ep xs ne out in
          unlink_other reg e ep a ne (beside e a xs side gone) ∙ h.unlinked a gone
    ];
  }

  unregisters_lem : KeepsPromise (unregisters ep)
  unfolding call promise unregister_exec_domain
  unregisters_lem = elim (Bool-cases (contains xs ep)) [
    | inl mem ↦
        let (e, found, ok) =
          find_slot-Found reg ep fuel 0 xs
            (λ z. cc (ap (contains xs) z, mem, null-not-mem reg.node reg.exec_domains xs h.chain))
            h.chain mem (null-not-mem reg.node reg.exec_domains xs h.chain) f in
        (unlink reg e ep, rw (mem, found), rw mem (erased e mem ok))
    | inr out ↦ (reg, rw (out, find_slot-absent reg ep fuel 0 xs h.chain out f), rw out h)
  ]

-- From a registry that holds a list of domains, with fuel above their number, one registration or
-- removal returns the code that the set of addresses gives, and leaves a registry that holds the
-- set's new members in order, with every other domain unlinked.
pub call-promise :
    (fuel : ℕ) (reg : Registry) (xs : List ℕ) (c : Call)
    → Holds reg xs
    → length xs < fuel
    → (next : Registry) × (call fuel reg c ≡ some ((promise xs c).0, next))
      × Holds next (promise xs c).1
call-promise fuel reg xs (registers ep) h f = registers_lem fuel reg xs ep h f
call-promise fuel reg xs (unregisters ep) h f = unregisters_lem fuel reg xs ep h f
