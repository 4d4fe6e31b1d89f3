-- ===== src/Kernel/Personality/References.antt =====
-- The module references that a change of personality takes and gives back.
use mathlib.Core.Bool.{or-true}
use linux_abiemu.Prelude.{
  ℕ, zero, suc, ◌+◌, ◌<◌, Bool, true, false, ◌&&◌, some, List, [], ◌∷◌, ◌≡◌, refl, ap, ◌∙◌, ◌≢◌,
  inl, inr, ◌==◌, ==_iff, subst, ==_of_ne, ==_refl, if◌then◌else◌, length, arith, Bool-cases,
}
use linux_abiemu.Kernel.Domain.{ExecDomain}
use linux_abiemu.Kernel.Registry.Chain.{contains, IsChain}
use linux_abiemu.Kernel.Personality.{Modules, in_range, browse}

abbrev pub plus_if : Bool → ℕ → ℕ
plus_if b n = if b then n + 1 else n

module _ (host : Modules) where
  open host use {World, refs, try_module_get, get_refs}

  abbrev pub SameRefs : World → World → Type 0
  SameRefs w w' = (k : ℕ) → refs w' k ≡ refs w k

  -- The kernel, with these references, refused a reference to module m.
  abbrev pub Untaken : ℕ → World → Type 0
  Untaken m w = (v : World) × SameRefs w v × ((try_module_get m v).0 ≡ false)

  -- A walk ends with a domain of the list that is in range and whose module gained one reference,
  -- or with none and no reference changed, where the kernel refused the module of every domain of
  -- the list that is in range.
  pub data Browsed (node : ℕ → ExecDomain) (per_id : ℕ) (xs : List ℕ) (w : World) (ep : ℕ)
      (w' : World) : Type 0 where
    nothing :
        ep ≡ 0
        → SameRefs w w'
        → ((q : ℕ)
            → contains xs q ≡ true
            → in_range (node q) per_id ≡ true
            → Untaken (node q).module_of w)
        → Browsed node per_id xs w ep w'
    held :
        ep ≢ 0
        → contains xs ep ≡ true
        → in_range (node ep) per_id ≡ true
        → ((k : ℕ) → refs w' k ≡ plus_if (k == (node ep).module_of) (refs w k))
        → Browsed node per_id xs w ep w'

  gained :
      (m : ℕ) (w : World) (k : ℕ)
      → (try_module_get m w).0 ≡ true
      → refs (try_module_get m w).1 k ≡ plus_if (k == m) (refs w k)
  gained m w k e = get_refs m w k ∙ ap (λ b. plus_if (b && (k == m)) (refs w k)) e

  unchanged :
      (m : ℕ) (w : World) (k : ℕ)
      → (try_module_get m w).0 ≡ false
      → refs (try_module_get m w).1 k ≡ refs w k
  unchanged m w k e = get_refs m w k ∙ ap (λ b. plus_if (b && (k == m)) (refs w k)) e

  widen :
      {node : ℕ → ExecDomain} {per_id : ℕ} {w w1 w' : World} {ep : ℕ} (q : ℕ) (qs : List ℕ)
      → SameRefs w w1
      → (in_range (node q) per_id ≡ true → Untaken (node q).module_of w)
      → Browsed node per_id qs w1 ep w'
      → Browsed node per_id (q ∷ qs) w ep w'
  widen {node} {per_id} {w} {w1} q qs same head (nothing z s busy) =
      nothing z (λ k. s k ∙ same k) each
    where
      each :
          (p : ℕ)
          → contains (q ∷ qs) p ≡ true
          → in_range (node p) per_id ≡ true
          → Untaken (node p).module_of w
      each p on range = elim (Bool-cases (q == p)) [
        | inl e ↦
            subst (λ n. in_range (node n) per_id ≡ true → Untaken (node n).module_of w)
              ((==_iff q p).0 e) head range
        | inr e ↦ let (v, s', lost) = busy p (rw e at on) range in (v, (λ k. s' k ∙ same k), lost)
      ]
  widen q qs same head (held ne on range s) =
      held ne (rw on (or-true _)) range (λ k. s k ∙ ap (plus_if _) (same k))

  module _ (fuel : ℕ) (node : ℕ → ExecDomain) (p per_id : ℕ) (w : World) (ne : p ≢ 0) where
    browse_out :
        in_range (node p) per_id ≡ false
        → browse host (suc fuel) node p per_id w ≡ browse host fuel node (node p).next per_id w
    unfolding browse
    browse_out out = rw (==_of_ne p 0 ne, out, browse)

    browse_got :
        in_range (node p) per_id ≡ true
        → (try_module_get (node p).module_of w).0 ≡ true
        → browse host (suc fuel) node p per_id w ≡ some (p, (try_module_get (node p).module_of w).1)
    unfolding browse
    browse_got range got = rw (==_of_ne p 0 ne, range, got, browse)

    browse_lost :
        in_range (node p) per_id ≡ true
        → (try_module_get (node p).module_of w).0 ≡ false
        → browse host (suc fuel) node p per_id w
          ≡ browse host fuel node (node p).next per_id (try_module_get (node p).module_of w).1
    unfolding browse
    browse_lost range lost = rw (==_of_ne p 0 ne, range, lost, browse)

  pub browse-Browsed :
      (fuel : ℕ) (node : ℕ → ExecDomain) (p per_id : ℕ) (xs : List ℕ) (w : World)
      → IsChain node p xs
      → length xs < fuel
      → (ep : ℕ) × (w' : World) × (browse host fuel node p per_id w ≡ some (ep, w'))
        × Browsed node per_id xs w ep w'
  unfolding browse
  browse-Browsed zero node p per_id xs w c f = absurd (omega arith)
  browse-Browsed (suc fuel) node p per_id [] w c f =
      (0, w, rw c, nothing refl (λ k. refl) (λ q on. cc on))
  browse-Browsed (suc fuel) node p per_id (q ∷ qs) w (e, ne, once, rest) f =
      rw e (elim (Bool-cases (in_range (node q) per_id)) [
        | inl range ↦ elim (Bool-cases (try_module_get (node q).module_of w).0) [
          | inl got ↦ (
            q,
            (try_module_get (node q).module_of w).1,
            browse_got fuel node q per_id w ne range got,
            held ne (rw (==_refl q)) range (λ k. gained (node q).module_of w k got),
          )
          | inr lost ↦
              let (ep, w', found, b) =
                browse-Browsed fuel node (node q).next per_id qs
                  (try_module_get (node q).module_of w).1 rest (omega arith) in
              (
                ep,
                w',
                browse_lost fuel node q per_id w ne range lost ∙ found,
                widen q qs (λ k. unchanged (node q).module_of w k lost)
                    (λ r. (w, (λ k. refl), lost)) b,
              )
        ]
        | inr out ↦
            let (ep, w', found, b) =
              browse-Browsed fuel node (node q).next per_id qs w rest (omega arith) in
            (
              ep,
              w',
              browse_out fuel node q per_id w ne out ∙ found,
              widen q qs (λ k. refl) (λ r. cc (r, out)) b,
            )
      ])
