-- ===== src/Fs/Coff/Comments/Ended.antt =====
-- That the search through the comments ends, and gives its page back (abiemu/fs/binfmt_coff.c).
use linux_abiemu.Prelude.{
  ℕ, zero, suc, ◌+◌, ◌-◌, ◌%◌, ◌^◌, ◌≤◌, ◌<◌, false, Option, some, List, [], ◌∷◌, ◌≡◌, ◌∙◌, inl,
  inr, arith, ℤ, pos, negsuc, ◌||◌, pos_part, is_neg, is_zero, ◌==◌, ltb, if◌then◌else◌, Bool-cases,
}
use linux_abiemu.Fs.Coff.Host.{CoffHost, Section, Ledger, Ledgers, Reads}
use linux_abiemu.Fs.Coff.Comments.{
  try_clues, coff_clues, cut_last, skip, Scan, stopped, ended, scan, after_scan, Parsed,
  parse_chunks, coff_parse_comments, chunk, looked_at,
}

skip_forward : (p : List ℕ) (count err : ℕ) → count ≤ (skip p count err).1
unfolding skip
skip_forward [] count err = omega arith
skip_forward (c ∷ cs) count err = ground (arith, skip_forward cs (suc count) err)

-- A chunk's search ends, and starts the next chunk within this one.
data Ends (err : ℕ) : Option Scan → Type 0 where
  at_clue : {personality : ℕ} → Ends err (some (stopped personality))
  at_end :
      {start hits personality : ℕ} → start ≤ err → Ends err (some (ended start hits personality))

scan-Ends :
    (fuel : ℕ) (p : List ℕ) (count err start hits personality : ℕ)
    → err ≤ count + fuel
    → start ≤ err
    → Ends err (scan fuel p count err start hits personality)
unfolding scan
scan-Ends zero p count err start hits personality enough h =
    let over : ltb count err ≡ false = ground arith in rw over (at_end h)
scan-Ends (suc fuel) p count err start hits personality enough h =
    elim (Bool-cases (ltb count err)) [
      | inr e ↦ rw e (at_end h)
      | inl e ↦ elim (Bool-cases (try_clues coff_clues (cut_last p) hits personality).0) [
        | inl f ↦ rw (e, f) at_clue
        | inr f ↦ elim (Bool-cases (ltb (skip p count err).1 err)) [
          | inl g ↦
              rw (e, f, g)
                (scan-Ends fuel _ _ err _ _ _ (omega (arith, skip_forward p count err))
                  (ground arith))
          | inr g ↦ rw (e, f, g) (at_end h)
        ]
      ]
    ]

positive_part : (z : ℤ) → (is_neg z || is_zero z) ≡ false → 0 < pos_part z
positive_part (pos n) h = ground arith
positive_part (negsuc n) h = cc h

module _ (host : CoffHost) (law : Ledgers host) (reads : Reads host) where
  open host use {World, kernel_read}
  open law use {ledger}

  -- A result that is not an error, with nothing held but what l says.
  pub data Finished (l : Ledger) : Parsed host → Type 0 where
    finished :
        {n personality : ℕ} {w : World} → ledger w ≡ l → Finished l (some (pos n, personality, w))

  module _ (l : Ledger) where
    scanned-Finished :
        (err : ℕ) (w : World) (next : ℕ → ℕ → ℕ → Parsed host) (o : Option Scan)
        → 0 < err
        → ledger w ≡ record l { pages = suc l.pages }
        → Ends err o
        → ((start hits personality : ℕ)
            → 0 < start
            → start ≤ err
            → Finished l (next start hits personality))
        → Finished l (after_scan host err w next o)
    scanned-Finished err w next _ h k at_clue go = finished (law.ledger-free_page l w k)
    scanned-Finished err w next _ h k (at_end {start} {hits} {personality} below) go =
        go (if start == 0 then err else start) hits personality (ground arith) (ground arith)

    chunks-Finished :
        (fuel nbytes offset hits personality : ℕ) (w : World)
        → nbytes < fuel
        → nbytes < 2 ^ 32
        → ledger w ≡ record l { pages = suc l.pages }
        → Finished l (parse_chunks host fuel nbytes offset hits personality w)
    unfolding parse_chunks
    chunks-Finished zero nbytes offset hits personality w enough fits k = absurd (omega arith)
    chunks-Finished (suc fuel) nbytes offset hits personality w enough fits k =
        let err = (kernel_read offset (chunk nbytes) w).0 in
        let bound : pos_part err ≤ chunk nbytes = reads.at_most offset (chunk nbytes) w in
        let below : pos_part err ≤ nbytes = ground (arith, bound) in
        let k' = law.ledger-kernel_read offset (chunk nbytes) w ∙ k in
        elim (Bool-cases (nbytes == 0)) [
          | inl e ↦ rw e (finished (law.ledger-free_page l w k))
          | inr e ↦ elim (Bool-cases (is_neg err || is_zero err)) [
            | inl f ↦ rw (e, f) (finished (law.ledger-free_page l _ k'))
            | inr f ↦
                rw (e, f)
                  (scanned-Finished (pos_part err) _ _ _ (positive_part err f) k'
                    (scan-Ends (pos_part err) _ 0 (pos_part err) 0 hits personality (omega arith)
                      (omega arith))
                    (λ start hits' masked p q.
                      chunks-Finished fuel ((nbytes + 2 ^ 32 - start) % 2 ^ 32)
                        ((offset + start) % 2 ^ 32) hits' masked _ (omega (arith, below))
                        (omega (arith, below)) k'))
          ]
        ]

  -- The search through the comments of a section ends, whatever they are, in at most one round for
  -- each byte looked at, and it has no page left then. A read is taken to give at most what it was
  -- asked for, and the kernel to keep the books of `Ledgers`.
  pub coff_parse_comments-Finished :
      (sect : Section) (personality : ℕ) (w : World)
      → Finished (ledger w) (coff_parse_comments host sect personality w)
  unfolding coff_parse_comments
  coff_parse_comments-Finished sect personality w = elim (Bool-cases (host.get_free_page w).0) [
    | inr e ↦ rw e (finished (law.ledger-get_free_page_failed w e))
    | inl e ↦ rw e (
        chunks-Finished (ledger w) (suc (looked_at sect)) (looked_at sect) sect.s_scnptr 0
          personality _ (omega arith) (ground arith) (law.ledger-get_free_page w e))
  ]
