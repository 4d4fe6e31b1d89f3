-- ===== src/Kernel/Registry/Chain.antt =====
-- The registered domains as a sequence of addresses, and what walks over it find.
use mathlib.Core.Bool.{or-true}
use linux_abiemu.Prelude.{
  ℕ, zero, suc, ◌<◌, Bool, true, false, ◌||◌, none, some, List, [], ◌∷◌, ◌≡◌, refl, ap, ◌∙◌, ◌≢◌,
  ◌⊎◌, inl, inr, ◌==◌, ==_of_ne, ==_iff, if◌then◌else◌, length, arith, Bool-cases,
}
use linux_abiemu.Kernel.Domain.{ExecDomain}
use linux_abiemu.Kernel.Registry.{Registry, set_next, scan, slot, find_slot, unlink}

abbrev pub contains : List ℕ → ℕ → Bool
contains [] a = false
contains (x ∷ xs) a = x == a || contains xs a

abbrev pub erase : ℕ → List ℕ → List ℕ
erase a [] = []
erase a (x ∷ xs) = if x == a then xs else x ∷ erase a xs

-- From p the list runs through exactly the given addresses, each once, and ends in NULL.
abbrev pub IsChain : (ℕ → ExecDomain) → ℕ → List ℕ → Type 0
IsChain node p [] = p ≡ 0
IsChain node p (q ∷ qs) =
    (p ≡ q) × (q ≢ 0) × (contains qs q ≡ false) × IsChain node (node q).next qs

-- A write to the `next` of a domain that is not on the chain.
pub frame :
    (node : ℕ → ExecDomain) (a v p : ℕ) (xs : List ℕ)
    → contains xs a ≡ false
    → IsChain node p xs
    → IsChain (set_next node a v) p xs
unfolding set_next
frame node a v p [] out c = c
frame node a v p (q ∷ qs) out (e, ne, once, rest) =
    let apart : (q == a) ≡ false = ground arith in
    (e, ne, once, rw apart (frame node a v (node q).next qs (ground arith) rest))

pub scan-contains :
    (fuel : ℕ) (node : ℕ → ExecDomain) (p ep : ℕ) (xs : List ℕ)
    → IsChain node p xs
    → length xs < fuel
    → scan fuel node p ep ≡ some (contains xs ep)
unfolding scan
scan-contains zero node p ep xs c h = absurd (omega arith)
scan-contains (suc fuel) node p ep [] c h = ground arith
scan-contains (suc fuel) node p ep (q ∷ qs) (e, ne, once, rest) h =
    ground (arith, scan-contains fuel node (node q).next ep qs rest)

-- Erasing keeps an absent address absent.
pub not-mem-erase :
    (a ep : ℕ) (xs : List ℕ) → contains xs a ≡ false → contains (erase ep xs) a ≡ false
not-mem-erase a ep [] h = refl
not-mem-erase a ep (x ∷ xs) h = ground (arith, not-mem-erase a ep xs)

or_false_left : (a b : Bool) → (a || b) ≡ false → a ≡ false
or_false_left a b h = ground arith

or_false_right : (a b : Bool) → (a || b) ≡ false → b ≡ false
or_false_right a b h = ground arith

apart_of : (a b : ℕ) (xs : List ℕ) → contains xs a ≡ true → contains xs b ≡ false → a ≢ b
apart_of a b xs p q e = cc (ap (contains xs) e)

on_chain : (q x : ℕ) (qs : List ℕ) → (x ≡ q) ⊎ (contains qs x ≡ true) → contains (q ∷ qs) x ≡ true
on_chain q x qs side = ground arith

other_slot :
    (reg : Registry) (e ep epp : ℕ) → e ≢ epp → ep ≢ epp → slot (unlink reg e ep) epp ≡ slot reg epp
unfolding unlink set_next
other_slot reg e ep epp h k = ground arith

module _ (reg : Registry) (ep : ℕ) where
  -- The slot that is found leads to the chain without ep.
  abbrev pub Found : ℕ → List ℕ → ℕ → Type 0
  Found epp xs e =
      ((e ≡ epp) ⊎ (contains xs e ≡ true))
      × IsChain (unlink reg e ep).node (slot (unlink reg e ep) epp) (erase ep xs)

  found_here :
      (epp : ℕ) (qs : List ℕ)
      → ep ≢ 0
      → contains qs ep ≡ false
      → contains (ep ∷ qs) epp ≡ false
      → IsChain reg.node (reg.node ep).next qs
      → IsChain (unlink reg epp ep).node (slot (unlink reg epp ep) epp) qs
  unfolding unlink set_next
  found_here epp qs ne once out rest = elim (Bool-cases (epp == 0)) [
    | inl z ↦ rw z (frame reg.node ep 0 (reg.node ep).next qs once rest)
    | inr z ↦
        rw (z, slot_at z)
          (frame (set_next reg.node epp (reg.node ep).next) ep 0 (reg.node ep).next qs once
            (frame reg.node epp (reg.node ep).next (reg.node ep).next qs (ground arith) rest))
  ]
    where
      slot_at :
          (epp == 0) ≡ false
          → (set_next (set_next reg.node epp (reg.node ep).next) ep 0 epp).next ≡ (reg.node ep).next
      slot_at z = ground arith

  pub find_slot-absent :
      (fuel epp : ℕ) (xs : List ℕ)
      → IsChain reg.node (slot reg epp) xs
      → contains xs ep ≡ false
      → length xs < fuel
      → find_slot fuel reg epp ep ≡ some none
  unfolding find_slot
  find_slot-absent zero epp xs c out h = absurd (omega arith)
  find_slot-absent (suc fuel) epp [] c out h = rw (c, find_slot)
  find_slot-absent (suc fuel) epp (q ∷ qs) (e, ne, once, rest) out h =
      rw (e, ==_of_ne q 0 ne, or_false_left (q == ep) (contains qs ep) out)
        (find_slot-absent fuel q qs (rw (==_of_ne q 0 ne) rest)
          (or_false_right (q == ep) (contains qs ep) out) (omega arith))

  -- The slot found beyond q serves for the chain that begins with q.
  found_beyond :
      (epp q e : ℕ) (qs : List ℕ)
      → slot reg epp ≡ q
      → q ≢ 0
      → contains qs q ≡ false
      → (q == ep) ≡ false
      → contains (q ∷ qs) epp ≡ false
      → contains qs ep ≡ true
      → contains (q ∷ qs) e ≡ true
      → IsChain (unlink reg e ep).node (slot (unlink reg e ep) q) (erase ep qs)
      → IsChain (unlink reg e ep).node (slot (unlink reg e ep) epp) (erase ep (q ∷ qs))
  unfolding unlink set_next
  found_beyond epp q e qs eq ne once other out mem at c =
      rw other (kept, ne, not-mem-erase q ep qs once, (rw (==_of_ne q 0 ne) at c))
    where
      kept : slot (unlink reg e ep) epp ≡ q
      kept =
          other_slot reg e ep epp (apart_of e epp (q ∷ qs) at out)
            (apart_of ep epp (q ∷ qs) (rw mem (or-true (q == ep))) out)
          ∙ eq

  -- `unregister_exec_domain` finds the slot that holds ep, and relinks the rest.
  pub find_slot-Found :
      (fuel epp : ℕ) (xs : List ℕ)
      → ep ≢ 0
      → IsChain reg.node (slot reg epp) xs
      → contains xs ep ≡ true
      → contains xs epp ≡ false
      → length xs < fuel
      → (e : ℕ) × (find_slot fuel reg epp ep ≡ some (some e)) × Found epp xs e
  unfolding find_slot
  find_slot-Found zero epp xs nz c mem out h = absurd (omega arith)
  find_slot-Found (suc fuel) epp [] nz c mem out h = cc
  find_slot-Found (suc fuel) epp (q ∷ qs) nz (e, ne, once, rest) mem out h =
      elim (Bool-cases (q == ep)) [
        | inl hit ↦
            let same : q ≡ ep = (==_iff q ep).0 hit in
            (
              epp,
              rw (e, ==_of_ne q 0 ne, hit),
              (
                inl refl,
                rw hit (found_here epp qs nz (rw same at once) (rw same at out) (rw same at rest)),
              ),
            )
        | inr miss ↦
            let deeper : contains qs ep ≡ true = rw miss at mem in
            let (x, found, (side, c)) =
              find_slot-Found fuel q qs nz (rw (==_of_ne q 0 ne) rest) deeper once (omega arith) in
            let on : contains (q ∷ qs) x ≡ true = on_chain q x qs side in
            (
              x,
              rw (e, ==_of_ne q 0 ne, miss) found,
              (inr on, found_beyond epp q x qs e ne once miss out deeper on c),
            )
      ]
