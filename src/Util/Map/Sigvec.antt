-- ===== src/Util/Map/Sigvec.antt =====
-- Signal sets on their way to the kernel and back.
use mathlib.Core.Bool.{or_assoc}
use linux_abiemu.Prelude.{
  ℕ, zero, suc, ◌+◌, ◌*◌, ◌%◌, ◌^◌, ◌≤◌, ◌<◌, bit_and, bit_or, Bool, not, ◌&&◌, ◌||◌, ◌≡◌, refl,
  sym, ap, ◌∙◌, true, false, List, ℤ, pos, negsuc, neg, eqb_ℤ, ◌==◌, ==_refl, if◌then◌else◌, arith,
}
use linux_abiemu.Prelude.Bits.{
  bit, shl1, bit-bit_or, bit-shl1, bit-zero, mask_test, any_from, any_from_hit, any_from_found,
}
use linux_abiemu.Util.Map.{
  Sigsets, map_sigvec_from_kernel, map_sigvec_to_kernel, from_kernel_loop, to_kernel_loop, usable,
  sig_mask, sig_entry,
}
use linux_abiemu.Util.Map.Flags.{next_mask}

-- An entry of a signal table is -1 or a signal.
abbrev pub good_entry : ℤ → Bool
good_entry (pos zero) = false
good_entry (pos (suc k)) = true
good_entry (negsuc zero) = true
good_entry (negsuc (suc k)) = false

-- The entries for the signals 1 to 32 of a table are good.
abbrev pub IsSignalTable : List ℤ → Type 0
IsSignalTable map = (k : ℕ) → k < 32 → good_entry (sig_entry map (suc k)) ≡ true

and_eqb :
    (b : Bool) (e : ℤ) (m : ℕ)
    → (b && eqb_ℤ e (pos (suc m))) ≡ true
    → (b ≡ true) × (e ≡ pos (suc m))
and_eqb b e m h = ground arith

and_last : (a b c : Bool) → (a && (b && c)) ≡ true → (a ≡ true) × (c ≡ true)
and_last a b c h = ground arith

module _ (sets : Sigsets) where
  open sets use {Sigset, sigemptyset, sigaddset, sigismember, member_empty, member_add}

  module _ (vec : Sigset) (map : List ℤ) (j : ℕ) where
    -- Signal k + 1 is in the kernel's set and translates to signal j + 1.
    abbrev pub reads : ℕ → Bool
    reads k =
        sigismember vec (suc k)
        && (usable (sig_entry map (suc k)) && bit j (sig_mask (sig_entry map (suc k))))

    from_kernel_round :
        (k acc : ℕ)
        → bit j (
            if sigismember vec (suc k) && usable (sig_entry map (suc k))
            then bit_or acc (sig_mask (sig_entry map (suc k)))
            else acc)
          ≡ (bit j acc || reads k)
    from_kernel_round k acc = ground (arith, bit-bit_or j acc (sig_mask (sig_entry map (suc k))))

    from_kernel_bits :
        (n k acc : ℕ)
        → bit j (from_kernel_loop sets n (suc k) vec map acc) ≡ (bit j acc || any_from n k reads)
    unfolding from_kernel_loop any_from
    from_kernel_bits zero k acc = ground arith
    from_kernel_bits (suc n) k acc =
        from_kernel_bits n (suc k) _
        ∙ ap (λ b. b || any_from n (suc k) reads) (from_kernel_round k acc)
        ∙ or_assoc (bit j acc) (reads k) _

    -- Bit j of the mask that is handed to the program is set exactly when some signal of the
    -- kernel's set has an entry, neither 0 nor -1, whose mask has bit j.
    pub bit-from_kernel : bit j (map_sigvec_from_kernel sets vec map) ≡ any_from 32 0 reads
    unfolding map_sigvec_from_kernel
    bit-from_kernel = from_kernel_bits 32 0 0 ∙ ap (λ b. b || any_from 32 0 reads) (bit-zero j)

  module _ (vec : ℕ) (map : List ℤ) (m : ℕ) where
    -- Signal k + 1 of the program's mask is set and translates to the kernel's signal m + 1.
    abbrev pub writes : ℕ → Bool
    writes k = bit k vec && eqb_ℤ (sig_entry map (suc k)) (pos (suc m))

    add_signal :
        (mask k : ℕ) (acc : Sigset) (e : ℤ)
        → mask ≡ shl1 k
        → good_entry e ≡ true
        → sigismember
            (if not (bit_and vec mask == 0) && not (eqb_ℤ e (neg 1)) then sigaddset acc e else acc)
            (suc m)
          ≡ (sigismember acc (suc m) || (bit k vec && eqb_ℤ e (pos (suc m))))
    add_signal mask k acc (pos zero) h g = cc
    add_signal mask k acc (pos (suc a)) h g =
        rw h (ground (arith, mask_test vec k, member_add acc a m))
    add_signal mask k acc (negsuc zero) h g = rw h (ground (arith, mask_test vec k))
    add_signal mask k acc (negsuc (suc n)) h g = cc

    to_kernel_bits :
        (n k mask : ℕ) (acc : Sigset)
        → IsSignalTable map
        → k + n ≤ 32
        → (k < 32 → mask ≡ shl1 k)
        → sigismember (to_kernel_loop sets n (suc k) vec map mask acc) (suc m)
          ≡ (sigismember acc (suc m) || any_from n k writes)
    unfolding to_kernel_loop any_from
    to_kernel_bits zero k mask acc g h e = ground arith
    to_kernel_bits (suc n) k mask acc g h e =
        let em : mask ≡ shl1 k = e (omega arith) in
        to_kernel_bits n (suc k) (mask * 2 % 2 ^ 32) _ g (omega arith) (next_mask 32 k mask em)
        ∙ ap (λ b. b || any_from n (suc k) writes)
            (add_signal mask k acc (sig_entry map (suc k)) em (g k (omega arith)))
        ∙ or_assoc (sigismember acc (suc m)) (writes k) _

    -- With a table whose entries are -1 or a signal, signal m + 1 is in the set that is handed to
    -- the kernel exactly when some signal of the program's mask has m + 1 for its entry.
    pub member-to_kernel :
        IsSignalTable map
        → sigismember (map_sigvec_to_kernel sets vec map) (suc m) ≡ any_from 32 0 writes
    unfolding map_sigvec_to_kernel
    member-to_kernel g =
        to_kernel_bits 32 0 1 sigemptyset g (omega arith) (λ h. refl)
        ∙ ap (λ b. b || any_from 32 0 writes) (member_empty m)

  module _ (vec : Sigset) (map inv : List ℤ) (good : IsSignalTable map) where
    abbrev pub round_trip : Sigset
    round_trip = map_sigvec_to_kernel sets (map_sigvec_from_kernel sets vec inv) map

    -- With a table whose entries are -1 or a signal: a signal up to 32 of the kernel's set on which
    -- the two tables agree is still in the set after the program has read the set and given it
    -- back.
    pub round_trip_keeps :
        (k i : ℕ)
        → k < 32
        → i < 32
        → sig_entry inv (suc k) ≡ pos (suc i)
        → sig_entry map (suc i) ≡ pos (suc k)
        → sigismember vec (suc k) ≡ true
        → sigismember round_trip (suc k) ≡ true
    round_trip_keeps k i hk hi einv emap mem =
        member-to_kernel (map_sigvec_from_kernel sets vec inv) map k good
        ∙ any_from_hit 32 0 i _ (omega arith) (omega arith) (rw (seen, emap) (==_refl (suc k)))
      where
        hit : (usable (pos (suc i)) && bit i (sig_mask (pos (suc i)))) ≡ true
        hit = ground (arith, bit-shl1 i (i % 32))

        seen : bit i (map_sigvec_from_kernel sets vec inv) ≡ true
        seen =
            bit-from_kernel vec inv i
            ∙ any_from_hit 32 0 k _ (omega arith) (omega arith) (rw (mem, einv) hit)

    -- With a table whose entries are -1 or a signal: every signal of the set that the program gives
    -- back is the image, under the two tables, of a signal of the kernel's set.
    pub round_trip_adds_none :
        (m : ℕ)
        → sigismember round_trip (suc m) ≡ true
        → (k : ℕ) × (i : ℕ) × (sigismember vec (suc k) ≡ true)
          × (bit i (sig_mask (sig_entry inv (suc k))) ≡ true)
          × (sig_entry map (suc i) ≡ pos (suc m))
    round_trip_adds_none m h =
        let (i, _, _, w) = any_from_found 32 0 (writes given map m) (sym given_lem ∙ h) in
        let (seen, image) = and_eqb (bit i given) (sig_entry map (suc i)) m w in
        let (k, _, _, r) =
          any_from_found 32 0 (reads vec inv i) (sym (bit-from_kernel vec inv i) ∙ seen) in
        let (mem, hit) = and_last (sigismember vec (suc k)) (usable (sig_entry inv (suc k))) _ r in
        (k, i, mem, hit, image)
      where
        given : ℕ
        given = map_sigvec_from_kernel sets vec inv

        given_lem : sigismember round_trip (suc m) ≡ any_from 32 0 (writes given map m)
        given_lem = member-to_kernel given map m good
