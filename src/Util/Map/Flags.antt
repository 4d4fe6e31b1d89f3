-- ===== src/Util/Map/Flags.antt =====
-- What `map_flags` and `map_bitvec` compute, bit by bit.
use mathlib.Core.Bool.{or_assoc}
use native.Mathlib.Nat.{mod-eq_of_lt}
use linux_abiemu.Prelude.{
  ℕ, zero, suc, ◌+◌, ◌*◌, ◌%◌, ◌^◌, ◌≤◌, ◌<◌, bit_and, bit_or, Bool, not, ◌&&◌, ◌||◌, ◌≡◌, refl,
  sym, ap, ap₂, ◌∙◌, List, ℤ, ◌==◌, if◌then◌else◌, get_or, arith,
}
use linux_abiemu.Prelude.Bits.{
  bit, shl1, bit-bit_or, bit_or-lt, bit-ext, bit-zero, mask_test, shl1_next, any_from,
}
use linux_abiemu.Util.Map.{
  map_flags, map_flags_loop, map_bitvec, map_bitvec_loop, usable, sig_mask, sig_entry,
}

-- One round of a loop that collects the entries of the set bits, by the walking mask m.
pub bit-collect :
    (j f m i acc x : ℕ)
    → m ≡ shl1 i
    → bit j (if bit_and f m == 0 then acc else bit_or acc x) ≡ (bit j acc || (bit i f && bit j x))
bit-collect j f m i acc x e = rw e (ground (arith, mask_test f i, bit-bit_or j acc x))

pub next_mask : (w i m : ℕ) → m ≡ shl1 i → suc i < w → m * 2 % shl1 w ≡ shl1 (suc i)
next_mask w i m e h = rw e (shl1_next w i h)

map_flags_loop_bits :
    (n i f : ℕ) (map : List ℕ) (m r j : ℕ)
    → i + n ≤ 16
    → (i < 16 → m ≡ shl1 i)
    → bit j (map_flags_loop n i f map m r)
      ≡ (bit j r || any_from n i (λ k. bit k f && bit j (get_or map k 0)))
unfolding map_flags_loop any_from
map_flags_loop_bits zero i f map m r j h e = ground arith
map_flags_loop_bits (suc n) i f map m r j h e =
    let em : m ≡ shl1 i = e (omega arith) in
    map_flags_loop_bits n (suc i) f map (m * 2 % 2 ^ 16) _ j (omega arith) (next_mask 16 i m em)
    ∙ ap (λ b. b || any_from n (suc i) (λ k. bit k f && bit j (get_or map k 0)))
        (bit-collect j f m i r (get_or map i 0) em)
    ∙ or_assoc (bit j r) (bit i f && bit j (get_or map i 0)) _

-- Bit j of the translated word is set exactly when some set bit i of the 16 has an entry with bit j.
pub bit-map_flags :
    (f : ℕ) (map : List ℕ) (j : ℕ)
    → bit j (map_flags f map) ≡ any_from 16 0 (λ i. bit i (f % 2 ^ 16) && bit j (get_or map i 0))
unfolding map_flags
bit-map_flags f map j =
    map_flags_loop_bits 16 0 (f % 2 ^ 16) map 1 0 j (omega arith) (λ h. refl)
    ∙ ap (λ b. b || any_from 16 0 (λ i. bit i (f % 2 ^ 16) && bit j (get_or map i 0))) (bit-zero j)

any_from-or :
    (n i : ℕ) (p q r : ℕ → Bool)
    → ((k : ℕ) → r k ≡ (p k || q k))
    → any_from n i r ≡ (any_from n i p || any_from n i q)
unfolding any_from
any_from-or zero i p q r h = refl
any_from-or (suc n) i p q r h = ground (arith, h i, any_from-or n (suc i) p q r h)

bit-or_entry :
    (i j f g x : ℕ) → (bit i (bit_or f g) && bit j x) ≡ (bit i f && bit j x || bit i g && bit j x)
bit-or_entry i j f g x = ground (arith, bit-bit_or i f g)

pub bit-map_flags_word :
    (f : ℕ) (map : List ℕ) (j : ℕ)
    → f < 2 ^ 16
    → bit j (map_flags f map) ≡ any_from 16 0 (λ i. bit i f && bit j (get_or map i 0))
bit-map_flags_word f map j h =
    bit-map_flags f map j
    ∙ ap (λ w. any_from 16 0 (λ i. bit i w && bit j (get_or map i 0))) (mod-eq_of_lt h)

-- Translation works flag by flag: the flags of a union of two u_short words are the union of the
-- translated flags.
pub map_flags-bit_or :
    (f g : ℕ) (map : List ℕ)
    → f < 2 ^ 16
    → g < 2 ^ 16
    → map_flags (bit_or f g) map ≡ bit_or (map_flags f map) (map_flags g map)
map_flags-bit_or f g map hf hg = bit-ext _ _ λ j.
    bit-map_flags_word (bit_or f g) map j (bit_or-lt 16 f g hf hg)
    ∙ any_from-or 16 0 (λ i. bit i f && bit j (get_or map i 0))
        (λ i. bit i g && bit j (get_or map i 0)) _ (λ i. bit-or_entry i j f g (get_or map i 0))
    ∙ sym (ap₂ ◌||◌ (bit-map_flags_word f map j hf) (bit-map_flags_word g map j hg))
    ∙ sym (bit-bit_or j (map_flags f map) (map_flags g map))

module _ (vec j : ℕ) (map : List ℤ) where
  -- Signal k + 1 of the vector is set and translates to signal j + 1.
  abbrev pub carries : ℕ → Bool
  carries k =
      bit k vec && (usable (sig_entry map (suc k)) && bit j (sig_mask (sig_entry map (suc k))))

  collect_signal :
      (m k acc : ℕ)
      → m ≡ shl1 k
      → bit j (
          if not (bit_and vec m == 0) && usable (sig_entry map (suc k))
          then bit_or acc (sig_mask (sig_entry map (suc k)))
          else acc)
        ≡ (bit j acc || carries k)
  collect_signal m k acc e =
      rw e (ground (arith, mask_test vec k, bit-bit_or j acc (sig_mask (sig_entry map (suc k)))))

  map_bitvec_loop_bits :
      (n k m acc : ℕ)
      → k + n ≤ 32
      → (k < 32 → m ≡ shl1 k)
      → bit j (map_bitvec_loop n (suc k) vec map m acc) ≡ (bit j acc || any_from n k carries)
  unfolding map_bitvec_loop any_from
  map_bitvec_loop_bits zero k m acc h e = ground arith
  map_bitvec_loop_bits (suc n) k m acc h e =
      let em : m ≡ shl1 k = e (omega arith) in
      map_bitvec_loop_bits n (suc k) (m * 2 % 2 ^ 32) _ (omega arith) (next_mask 32 k m em)
      ∙ ap (λ b. b || any_from n (suc k) carries) (collect_signal m k acc em)
      ∙ or_assoc (bit j acc) (carries k) _

  -- Signal j + 1 of the translated mask is set exactly when some signal of the given mask has it
  -- for its entry.
  pub bit-map_bitvec : bit j (map_bitvec vec map) ≡ any_from 32 0 carries
  unfolding map_bitvec
  bit-map_bitvec =
      map_bitvec_loop_bits 32 0 1 0 (omega arith) (λ h. refl)
      ∙ ap (λ b. b || any_from 32 0 carries) (bit-zero j)
