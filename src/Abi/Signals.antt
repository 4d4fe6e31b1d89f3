-- ===== src/Abi/Signals.antt =====
-- The signal tables of the personalities, and which signals come through them unharmed.
use linux_abiemu.Prelude.{
  ℕ, zero, suc, ◌<◌, Bool, true, false, ◌&&◌, ◌||◌, List, [], ◌∷◌, ◌≡◌, refl, ℤ, pos, negsuc, eqb_ℤ,
  ◌==◌, ltb, arith,
}
use linux_abiemu.Prelude.Bits.{all_below, all_below_sound}
use linux_abiemu.Util.Map.{Sigsets, map_sigvec_from_kernel, map_sigvec_to_kernel, sig_entry}
use linux_abiemu.Util.Map.Sigvec.{IsSignalTable, good_entry, round_trip_keeps}
use linux_abiemu.Abi.Personas.{Persona, ibcs, isc, uw7, wyse, solaris, sco, xenix, domain_of}

abbrev pub signal_map_of : Persona → List ℤ
signal_map_of p = (domain_of p 0 0).signal_map

abbrev pub signal_invmap_of : Persona → List ℤ
signal_invmap_of p = (domain_of p 0 0).signal_invmap

-- The kernel's signals that a personality has no number for, or shares a number with another.
abbrev pub lost_signals : Persona → List ℕ
lost_signals ibcs = 7 ∷ 16 ∷ 31 ∷ []
lost_signals isc = 7 ∷ 16 ∷ 23 ∷ 31 ∷ []
lost_signals uw7 = 7 ∷ 16 ∷ 31 ∷ []
lost_signals wyse = 7 ∷ 16 ∷ 31 ∷ []
lost_signals solaris = 7 ∷ 16 ∷ 31 ∷ []
lost_signals sco = 16 ∷ []
lost_signals xenix = 7 ∷ 16 ∷ 18 ∷ 19 ∷ 20 ∷ 21 ∷ 22 ∷ 23 ∷ 24 ∷ 25 ∷ 26 ∷ 27 ∷ 28 ∷ 31 ∷ []

abbrev among : List ℕ → ℕ → Bool
among [] a = false
among (x ∷ xs) a = x == a || among xs a

-- Signal k + 1 of the kernel has a number i + 1 in the program, and that number leads back.
abbrev leads_back : List ℤ → ℕ → ℤ → Bool
leads_back map k (pos zero) = false
leads_back map k (pos (suc i)) = ltb i 32 && eqb_ℤ (sig_entry map (suc i)) (pos (suc k))
leads_back map k (negsuc n) = false

abbrev kept : Persona → ℕ → Bool
kept p k =
    among (lost_signals p) (suc k)
    || leads_back (signal_map_of p) k (sig_entry (signal_invmap_of p) (suc k))

kept_table : (p : Persona) → all_below 31 (kept p) ≡ true
unfolding all_below
kept_table ibcs = refl
kept_table isc = refl
kept_table uw7 = refl
kept_table wyse = refl
kept_table solaris = refl
kept_table sco = refl
kept_table xenix = refl

good_table :
    (p : Persona) → all_below 32 (λ k. good_entry (sig_entry (signal_map_of p) (suc k))) ≡ true
unfolding all_below
good_table ibcs = refl
good_table isc = refl
good_table uw7 = refl
good_table wyse = refl
good_table solaris = refl
good_table sco = refl
good_table xenix = refl

-- Every entry of every personality's table is -1 or a signal.
pub signal_map_of-IsSignalTable : (p : Persona) → IsSignalTable (signal_map_of p)
signal_map_of-IsSignalTable p k h = all_below_sound 32 _ k (good_table p) h

or_false : (a b : Bool) → (a || b) ≡ true → a ≡ false → b ≡ true
or_false a b h e = ground arith

leads_back-image :
    (map : List ℤ) (k : ℕ) (e : ℤ)
    → leads_back map k e ≡ true
    → (i : ℕ) × (i < 32) × (e ≡ pos (suc i)) × (sig_entry map (suc i) ≡ pos (suc k))
leads_back-image map k (pos zero) h = cc
leads_back-image map k (pos (suc i)) h = (i, ground arith, refl, ground arith)
leads_back-image map k (negsuc n) h = cc

-- In each personality a program that reads a signal mask of the kernel and puts it back keeps every
-- signal from 1 to 31 of it, but for the personality's `lost_signals`.
pub persona_round_trip :
    (p : Persona) (sets : Sigsets) (vec : sets.Sigset) (k : ℕ)
    → k < 31
    → among (lost_signals p) (suc k) ≡ false
    → sets.sigismember vec (suc k) ≡ true
    → sets.sigismember
        (map_sigvec_to_kernel sets
          (map_sigvec_from_kernel sets vec (signal_invmap_of p))
          (signal_map_of p))
        (suc k)
      ≡ true
persona_round_trip p sets vec k h out mem =
    let back = or_false _ _ (all_below_sound 31 (kept p) k (kept_table p) h) out in
    let (i, small, there, image) = leads_back-image (signal_map_of p) k _ back in
    round_trip_keeps sets vec (signal_map_of p) (signal_invmap_of p) (signal_map_of-IsSignalTable p)
      k i (omega arith) small there image mem
