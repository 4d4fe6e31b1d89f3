-- ===== src/Svr4/Termios/Speeds.antt =====
-- The speed that the kernel sets for one that a program gives in bits per second
-- (abiemu/abi/svr4/termios.c).
use linux_abiemu.Prelude.{
  ℕ, zero, suc, ◌+◌, ◌≤◌, ◌<◌, true, false, ◌⊎◌, List, [], ◌∷◌, ◌≡◌, refl, ◌∙◌, inl, inr, arith,
  ◌==◌, ==_iff, leb, Bool-cases, length, get_or,
}
use linux_abiemu.Prelude.Bits.{all_below, all_below_sound}
use linux_abiemu.Svr4.Termios.Bsd.{
  speed_map, first_reaching, bsd_to_linux_speed, linux_to_bsd_speed,
}

-- Where the search ends: at place k, whose entry reaches the speed, and none before it does.
record Found (s i n : ℕ) (xs : List ℕ) : Type 0 where
  k : ℕ
  below : k ≤ n
  place : first_reaching s i xs ≡ i + k
  reaches : (e : ℕ) → s ≤ get_or xs k e
  earlier : (j e : ℕ) → j < k → get_or xs j e < s

here : (s i n x : ℕ) (xs : List ℕ) → leb s x ≡ true → Found s i n (x ∷ xs)
here s i n x xs h = record {
  k = 0;
  below = omega arith;
  place = ground arith;
  reaches = λ e. ground arith;
  earlier = λ j e p. absurd (omega arith);
}

later :
    (s i n x : ℕ) (xs : List ℕ)
    → leb s x ≡ false
    → Found s (suc i) n xs
    → Found s i (suc n) (x ∷ xs)
later s i n x xs h f = record {
  k = suc f.k;
  below = omega (arith, f.below);
  place = rw (h, f.place) (omega arith);
  reaches = f.reaches;
  earlier = earlier;
}
  where
    earlier : (j e : ℕ) → j < suc f.k → get_or (x ∷ xs) j e < s
    earlier zero e p = ground arith
    earlier (suc j) e p = f.earlier j e (omega arith)

reached : (s i n d : ℕ) (xs : List ℕ) → n < length xs → s ≤ get_or xs n d → Found s i n xs
reached s i n d [] h r = absurd (omega arith)
reached s i zero d (x ∷ xs) h r = here s i zero x xs (ground arith)
reached s i (suc n) d (x ∷ xs) h r = elim (Bool-cases (leb s x)) [
  | inl e ↦ here s i (suc n) x xs e
  | inr e ↦ later s i n x xs e (reached s (suc i) n d xs (omega arith) r)
]

-- Code c stands for the least speed that reaches s.
pub record Ceiling (past : ℕ → ℕ) (s c : ℕ) : Type 0 where
  pub known : c < 16
  pub reaches : s ≤ linux_to_bsd_speed past c
  pub least : (j : ℕ) → j < c → linux_to_bsd_speed past j < s

code_table :
    (past : ℕ → ℕ) → all_below 16 (λ j. bsd_to_linux_speed (linux_to_bsd_speed past j) == j) ≡ true
unfolding all_below bsd_to_linux_speed linux_to_bsd_speed
code_table past = refl

-- The speeds of codes below 16 are those of the table.
tabled : (past : ℕ → ℕ) (c : ℕ) → c < 16 → linux_to_bsd_speed past c ≡ get_or speed_map c (past c)
unfolding linux_to_bsd_speed
tabled past c h = ground arith

searched : (s : ℕ) → s ≤ 38400 → bsd_to_linux_speed s ≡ first_reaching s 0 speed_map
unfolding bsd_to_linux_speed
searched s h = ground arith

found-Ceiling :
    (past : ℕ → ℕ) (s : ℕ)
    → Found s 0 15 speed_map
    → s ≤ 38400
    → Ceiling past s (bsd_to_linux_speed s)
found-Ceiling past s f h =
    let code : bsd_to_linux_speed s ≡ f.k = searched s h ∙ f.place ∙ omega arith in
    rw code (record {
      known = omega (arith, f.below);
      reaches = rw (tabled past f.k (omega (arith, f.below))) (f.reaches _);
      least = λ j p. rw (tabled past j (omega (arith, f.below))) (f.earlier j _ p);
    })

codes_come_back :
    (past : ℕ → ℕ) (c : ℕ)
    → (c < 16) ⊎ (c ≡ 0x1001) ⊎ (c ≡ 0x1002)
    → bsd_to_linux_speed (linux_to_bsd_speed past c) ≡ c
unfolding bsd_to_linux_speed linux_to_bsd_speed
codes_come_back past c (inl p) = (==_iff _ c).0 (all_below_sound 16 _ c (code_table past) p)
codes_come_back past c (inr (inl p)) = rw p refl
codes_come_back past c (inr (inr p)) = rw p refl

-- For a speed of at most 38400 bits per second the kernel is given the code of the least speed of
-- the table that reaches it, and every code of the table and those of 57600 and 115200 come back
-- from the speeds that are shown for them.
pub bsd_to_linux_speed-Ceiling :
    (past : ℕ → ℕ) (s : ℕ)
    → s ≤ 38400
    → Ceiling past s (bsd_to_linux_speed s)
      × ((c : ℕ)
          → (c < 16) ⊎ (c ≡ 0x1001) ⊎ (c ≡ 0x1002)
          → bsd_to_linux_speed (linux_to_bsd_speed past c) ≡ c)
bsd_to_linux_speed-Ceiling past s h =
    (found-Ceiling past s (reached s 0 15 0 speed_map (omega arith) h) h, codes_come_back past)
