-- ===== src/Fs/Coff/Comments.antt =====
-- abiemu/fs/binfmt_coff.c: coff_parse_comments, which looks for the system that a program was
-- built on in its comments.
pub mod Ended
use Prim.Native.Char.{code}
use Prim.Native.String.{String}
use linux_abiemu.Prelude.{
  take, ℕ, zero, suc, ◌+◌, ◌-◌, ◌%◌, ◌^◌, bit_and, bit_or, Bool, true, false, ◌&&◌, ◌||◌, Option,
  none, some, List, [], ◌∷◌, ℤ, pos, negsuc, pos_part, is_neg, is_zero, ◌==◌, ltb, leb,
  if◌then◌else◌,
}
use linux_abiemu.Fs.Coff.Host.{CoffHost, Section}

abbrev pub codes : String → List ℕ
codes String.[] = []
codes (String.◌∷◌ c s) = code c ∷ codes s

-- A negative `len` looks for the text anywhere in the string.
pub record Clue : Type 0 where
  pub terminal : Bool
  pub len : ℤ
  pub text : List ℕ
  pub mask_and : ℕ
  pub mask_or : ℕ

-- PER_SCOSVR3, PER_WYSEV386 and PER_ISCR4 (abiemu/include/linux/personality.h)
abbrev pub per_scosvr3 : ℕ
per_scosvr3 = 0x700_0003

abbrev sets : ℕ → String → ℕ → Clue
sets n s persona = record {
  terminal = true;
  len = pos n;
  text = codes s;
  mask_and = 0;
  mask_or = persona;
}

abbrev pub coff_clues : List Clue
coff_clues =
    sets 36 "@(#) UNIX System V/386 Release 3.2.1" 0x500_0004
    ∷ sets 23 "@(#) crt1.s 1.8 89/05/30" per_scosvr3
    ∷ sets 16 "@(#)SCO UNIX 3.2" per_scosvr3
    ∷ sets 18 "\"@(#) SCO UNIX 3.2" per_scosvr3
    ∷ sets 17 "@(#) SCO UNIX 3.2" per_scosvr3
    ∷ sets 11 "@(#)SCO 3.2" per_scosvr3
    ∷ record (sets 32 "@(#) crt1.s.source 20.1 94/12/04" per_scosvr3) { terminal = false }
    ∷ record (sets 13 "ods_30_compat" 0x100_0000) { mask_and = 0xffff_ffff }
    ∷ record (sets 0 "INTERACTIVE" 0x400_0005) { len = negsuc 0 }
    ∷ []

-- A page is the list of its bytes, and a pointer into it the list from there on. While clues are
-- compared its last byte is 0.
abbrev pub cut_last : List ℕ → List ℕ
cut_last [] = []
cut_last (c ∷ []) = 0 ∷ []
cut_last (c ∷ d ∷ cs) = c ∷ cut_last (d ∷ cs)

abbrev pub begins : List ℕ → List ℕ → Bool
begins [] cs = true
begins (t ∷ ts) [] = false
begins (t ∷ ts) (c ∷ cs) = t == c && begins ts cs

-- `strstr`
abbrev pub contains : List ℕ → List ℕ → Bool
contains text [] = begins text []
contains text (c ∷ cs) = begins text (c ∷ cs) || (if c == 0 then false else contains text cs)

abbrev pub is_hit : Clue → List ℕ → Bool
is_hit clue p =
    if is_neg clue.len then contains clue.text p else begins (take (pos_part clue.len) clue.text) p

-- The clues at one place, with the hits and the personality so far; true where one is terminal.
unfoldable pub try_clues : List Clue → List ℕ → ℕ → ℕ → Bool × ℕ × ℕ
try_clues [] p hits personality = (false, hits, personality)
try_clues (clue ∷ clues) p hits personality =
    let hit = is_hit clue p in
    let masked = bit_or (bit_and personality clue.mask_and) clue.mask_or in
    let rest =
      try_clues clues p (if hit then suc hits else hits) (if hit then masked else personality) in
    if hit && clue.terminal then (true, hits, masked) else rest

-- `while (*p && count < err)`
unfoldable pub skip : List ℕ → ℕ → ℕ → List ℕ × ℕ
skip [] count err = ([], count)
skip (c ∷ cs) count err =
    let rest = skip cs (suc count) err in
    if c == 0 then (c ∷ cs, count) else if leb err count then (c ∷ cs, count) else rest

-- A page is read at a time.
abbrev pub chunk : ℕ → ℕ
chunk nbytes = if ltb 4096 nbytes then 4096 else nbytes

-- How the search of one chunk ends: at a terminal clue, or at the end with `start`.
pub data Scan : Type 0 where
  stopped : ℕ → Scan
  ended : ℕ → ℕ → ℕ → Scan

abbrev pub tail : List ℕ → List ℕ
tail [] = []
tail (c ∷ cs) = cs

-- The loop over `count`, one unit of fuel for each round.
unfoldable pub scan : ℕ → List ℕ → ℕ → ℕ → ℕ → ℕ → ℕ → Option Scan
scan zero p count err start hits personality =
    if ltb count err then none else some (ended start hits personality)
scan (suc fuel) p count err start hits personality =
    let (terminal, hits', personality') = try_clues coff_clues (cut_last p) hits personality in
    let (p', count') = skip p count err in
    let rest = scan fuel (tail p') (suc (suc count')) err (suc count') hits' personality' in
    if ltb count err
    then (if terminal
        then some (stopped personality')
        else if ltb count' err
        then rest
        else some (ended start hits' personality'))
    else some (ended start hits personality)

-- At most 8192 bytes are looked at.
abbrev pub looked_at : Section → ℕ
looked_at sect = if ltb 8192 sect.s_size then 8192 else sect.s_size

module _ (host : CoffHost) where
  open host use {World, kernel_read, get_free_page, free_page}

  -- The result of the function, the personality and the state.
  abbrev pub Parsed : Type 0
  Parsed = Option (ℤ × ℕ × World)

  abbrev pub after_scan : ℕ → World → (ℕ → ℕ → ℕ → Parsed) → Option Scan → Parsed
  after_scan err w next none = none
  after_scan err w next (some (stopped masked)) = some (pos 1, masked, free_page w)
  after_scan err w next (some (ended start hits masked)) =
      next (if start == 0 then err else start) hits masked

  -- The loop over `nbytes`, one unit of fuel for each chunk.
  unfoldable pub parse_chunks : ℕ → ℕ → ℕ → ℕ → ℕ → World → Parsed
  parse_chunks zero nbytes offset hits personality w =
      if nbytes == 0 then some (pos hits, personality, free_page w) else none
  parse_chunks (suc fuel) nbytes offset hits personality w =
      let (err, buffer, w') = kernel_read offset (chunk nbytes) w in
      if nbytes == 0
      then some (pos hits, personality, free_page w)
      else if is_neg err || is_zero err
      then some (pos 0, personality, free_page w')
      else after_scan (pos_part err) w'
          (λ start hits' masked.
            parse_chunks fuel ((nbytes + 2 ^ 32 - start) % 2 ^ 32) ((offset + start) % 2 ^ 32) hits'
              masked w')
          (scan (pos_part err) buffer 0 (pos_part err) 0 hits personality)

  -- A chunk has one byte at least.
  unfoldable pub coff_parse_comments : Section → ℕ → World → Parsed
  coff_parse_comments sect personality w =
      let (ok, w') = get_free_page w in
      if ok
      then parse_chunks (suc (looked_at sect)) (looked_at sect) sect.s_scnptr 0 personality w'
      else some (pos 0, personality, w')
