-- ===== src/Fs/Coff/Libraries/Within.antt =====
-- That the list of shared libraries is read within its section (abiemu/fs/binfmt_coff.c).
use linux_abiemu.Prelude.{
  drop, ℕ, zero, suc, ◌+◌, ◌*◌, ◌%◌, ◌^◌, ◌≤◌, ◌<◌, true, false, ◌||◌, Option, some, List, [], ◌∷◌,
  ◌≡◌, inl, inr, arith, ℤ, pos, is_neg, is_zero, eqb_ℤ, eqb_ℤ_eq, ◌==◌, ltb, leb, length,
  Bool-cases,
}
use linux_abiemu.Fs.Coff.Host.{CoffHost, Section, Reads, sys_uselib}
use linux_abiemu.Fs.Coff.Libraries.{
  header_size, has_more, bad_entry, load_each, load_list, go_on, freed, coff_preload_shlib,
  coff_preload_shlibs,
}

module _ (host : CoffHost) where
  open host use {World, numbers, call, get_fs, set_fs, kernel_ds, slib_at}

  -- The length of the entry at a place of a buffer, and where its path begins in it, in bytes of 32
  -- bits.
  abbrev pub entry_bytes : List ℕ → ℕ → ℕ
  entry_bytes buffer at = (slib_at (drop at buffer)).sl_entsz * 4 % 2 ^ 32

  abbrev pub path_at : List ℕ → ℕ → ℕ
  path_at buffer at = (slib_at (drop at buffer)).sl_pathndx * 4 % 2 ^ 32

  -- The places of the entries: each ends where the next one begins.
  pub data EntryAt (buffer : List ℕ) : ℕ → Type 0 where
    first_entry : EntryAt buffer 0
    next_entry : {at : ℕ} → EntryAt buffer at → EntryAt buffer (at + entry_bytes buffer at)

  -- The entry at this place of a section of n bytes may be loaded: the section has its header, and
  -- its path begins within it and within the section; its length is positive as an int.
  pub record IsSound (n : ℕ) (buffer : List ℕ) (at : ℕ) : Type 0 where
    pub is_entry : EntryAt buffer at
    pub has_header : at + numbers.slibsz < n
    pub path_in_section : at + path_at buffer at < n
    pub path_in_entry : path_at buffer at < entry_bytes buffer at
    pub length_positive : (0 < entry_bytes buffer at) × (entry_bytes buffer at < 2 ^ 31)

-- What holds of a state as long as sys_uselib is given only paths of sound entries of what was read,
-- under the address limit of the kernel: Kept outside of a buffer's life, Held before and Filled
-- after the read of n bytes into it, and Raised while the limit fs is put aside.
pub record Names (host : CoffHost) : Type 1 where
  pub Kept : host.World → Type 0
  pub Held : host.World → Type 0
  pub Filled : ℕ → List ℕ → host.World → Type 0
  pub Raised : ℕ → ℕ → List ℕ → host.World → Type 0
  pub held-kmalloc :
      (n : ℕ) (w : host.World) → (host.kmalloc n w).0 ≡ true → Kept w → Held (host.kmalloc n w).1
  pub kept-kmalloc :
      (n : ℕ) (w : host.World) → (host.kmalloc n w).0 ≡ false → Kept w → Kept (host.kmalloc n w).1
  pub kept-kfree :
      (n : ℕ) (buffer : List ℕ) (w : host.World) → Filled n buffer w → Kept (host.kfree w)
  pub filled-kernel_read :
      (at n : ℕ) (w : host.World)
      → Held w
      → Filled n (host.kernel_read at n w).1 (host.kernel_read at n w).2
  pub raised-set_fs :
      (n : ℕ) (buffer : List ℕ) (w : host.World)
      → Filled n buffer w
      → Raised (host.get_fs w) n buffer (host.set_fs host.kernel_ds w)
  pub raised-uselib :
      (fs n : ℕ) (buffer : List ℕ) (at : ℕ) (w : host.World)
      → n ≤ length buffer
      → IsSound host n buffer at
      → Raised fs n buffer w
      → Raised fs n buffer (host.call (sys_uselib (drop (at + path_at host buffer at) buffer)) w).1
  pub filled-set_fs :
      (fs n : ℕ) (buffer : List ℕ) (w : host.World)
      → Raised fs n buffer w
      → Filled n buffer (host.set_fs fs w)

module _ (host : CoffHost) where
  open host use {World, numbers, call, get_fs, set_fs, kernel_ds}

  -- An end with a result, in a state that K holds of.
  pub data Done (K : World → Type 0) : Option (ℤ × World) → Type 0 where
    done : {err : ℤ} {w : World} → K w → Done K (some (err, w))

  module _ (names : Names host) (n : ℕ) (small : n < 2 ^ 31) (buffer : List ℕ)
      (whole : n ≤ length buffer) where
    open names use {Filled, Raised}

    -- An entry that passes the checks, with the bytes that are left.
    sound :
        (nbytes at : ℕ)
        → EntryAt host buffer at
        → (nbytes < 2 ^ 31 → at + nbytes ≡ n)
        → has_more host nbytes ≡ true
        → bad_entry host nbytes (drop at buffer) ≡ false
        → IsSound host n buffer at
    sound nbytes at here left more good =
        let ends : at + nbytes ≡ n = left (ground (arith, more)) in
        record {
          is_entry = here;
          has_header = ground (arith, more, ends);
          path_in_section = ground (arith, good, ends);
          path_in_entry = ground (arith, good);
          length_positive = (ground (arith, good), ground (arith, good));
        }

    -- What was left is sys_uselib's state under the limit that was put aside.
    used :
        (at : ℕ) (w : World)
        → IsSound host n buffer at
        → Filled n buffer w
        → Filled n buffer (
            set_fs
              (get_fs w)
              (call
                (sys_uselib (drop ((at + header_size host (drop at buffer)) % 2 ^ 32) buffer))
                (set_fs kernel_ds w)).1)
    used at w entry k =
        let place : (at + path_at host buffer at) % 2 ^ 32 ≡ at + path_at host buffer at =
          omega (arith, entry.path_in_section, small) in
        names.filled-set_fs (get_fs w) n buffer _ (
          rw place (
            names.raised-uselib (get_fs w) n buffer at _ whole entry
              (names.raised-set_fs n buffer w k)))

    load_each-Done :
        (fuel nbytes at : ℕ) (err : ℤ) (w : World)
        → (nbytes < 2 ^ 31 → nbytes ≤ fuel)
        → EntryAt host buffer at
        → (nbytes < 2 ^ 31 → at + nbytes ≡ n)
        → Filled n buffer w
        → Done (Filled n buffer) (load_each host fuel nbytes at buffer err w)
    unfolding load_each
    load_each-Done zero nbytes at err w enough here left k =
        elim (Bool-cases (has_more host nbytes)) [
          | inl e ↦ absurd (
              let none_left : nbytes ≤ 0 = enough (ground (arith, e)) in
              ground (arith, e, none_left))
          | inr e ↦ rw e (done k)
        ]
    load_each-Done (suc fuel) nbytes at err w enough here left k =
        elim (Bool-cases (has_more host nbytes)) [
          | inr e ↦ rw e (done k)
          | inl e ↦ elim (Bool-cases (bad_entry host nbytes (drop at buffer))) [
            | inl f ↦ rw (e, f) (done k)
            | inr f ↦
                let entry = sound nbytes at here left e f in
                let k' = used at w entry k in
                elim (Bool-cases (
                  is_neg
                    (call
                      (sys_uselib (drop ((at + header_size host (drop at buffer)) % 2 ^ 32) buffer))
                      (set_fs kernel_ds w)).0)) [
                        | inl g ↦ rw (e, f, g) (done k')
                        | inr g ↦
                            let size = entry_bytes host buffer at in
                            let ends : at + nbytes ≡ n = left (ground (arith, e)) in
                            let positive : 0 < size = entry.length_positive.0 in
                            let narrow : size < 2 ^ 31 = entry.length_positive.1 in
                            let fuelled : nbytes ≤ suc fuel = enough (ground (arith, e)) in
                            let place : (at + size) % 2 ^ 32 ≡ at + size =
                              omega (arith, ends, narrow, small) in
                            let there : EntryAt host buffer ((at + size) % 2 ^ 32) =
                              rw place (next_entry here) in
                            rw (e, f, g)
                              (load_each-Done fuel _ _ _ _
                                (λ m. omega (arith, m, positive, narrow, fuelled, ends, small))
                                there (λ m. omega (arith, m, positive, narrow, place, ends, small))
                                k')
                      ]
          ]
        ]

module _ (host : CoffHost) (names : Names host) (reads : Reads host) where
  open host use {World, numbers, kmalloc, kernel_read}
  open names use {Kept, Held, Filled}

  list-Done :
      (nbytes : ℕ) (got : ℤ × List ℕ × World)
      → nbytes < 2 ^ 31
      → (got.0 ≡ pos nbytes → nbytes ≤ length got.1)
      → Filled nbytes got.1 got.2
      → Done host (Filled nbytes got.1) (load_list host nbytes got)
  list-Done nbytes got small fits h = elim (Bool-cases (is_neg got.0)) [
    | inl e ↦ rw e (done h)
    | inr e ↦ elim (Bool-cases (eqb_ℤ got.0 (pos nbytes))) [
      | inr f ↦ rw (e, f) (done h)
      | inl f ↦
          rw (e, f)
            (load_each-Done host names nbytes small got.1 (fits (eqb_ℤ_eq got.0 (pos nbytes) f))
              nbytes nbytes 0 got.0 got.2 (λ m. omega arith) first_entry (λ m. omega arith) h)
    ]
  ]

  freed-Done :
      (n : ℕ) (buffer : List ℕ) (o : Option (ℤ × World))
      → Done host (Filled n buffer) o
      → Done host Kept (freed host o)
  freed-Done n buffer _ (done {err} {w} h) = done (names.kept-kfree n buffer w h)

  shlib-Done :
      (sect : Section) (w : World) → Kept w → Done host Kept (coff_preload_shlib host sect w)
  unfolding coff_preload_shlib
  shlib-Done sect w k =
      let n = sect.s_size in
      elim (Bool-cases (ltb n numbers.slibsz || leb (2 ^ 31) n)) [
        | inl e ↦ rw e (done k)
        | inr e ↦ elim (Bool-cases (kmalloc n w).0) [
          | inr f ↦ rw (e, f) (done (names.kept-kmalloc n w f k))
          | inl f ↦
              rw (e, f)
                (freed-Done n _ _ (
                  list-Done n _ (ground (arith, e)) (reads.whole sect.s_scnptr n _)
                    (names.filled-kernel_read sect.s_scnptr n _ (names.held-kmalloc n w f k))))
        ]
      ]

  go_on-Done :
      (next : World → Option (ℤ × World)) (o : Option (ℤ × World))
      → ((w : World) → Kept w → Done host Kept (next w))
      → Done host Kept o
      → Done host Kept (go_on host next o)
  go_on-Done next _ go (done {err} {w} k) = elim (Bool-cases (is_zero err)) [
    | inl e ↦ rw e (go w k)
    | inr e ↦ rw e (done k)
  ]

  pub coff_preload_shlibs-Done :
      (sections : List Section) (w : World)
      → Kept w
      → Done host Kept (coff_preload_shlibs host sections w)
  unfolding coff_preload_shlibs
  coff_preload_shlibs-Done [] w k = done k
  coff_preload_shlibs-Done (sect ∷ sections) w k =
      elim (Bool-cases (sect.s_flags == numbers.styp_lib)) [
        | inl e ↦ rw e (
            go_on-Done (coff_preload_shlibs host sections) _ (coff_preload_shlibs-Done sections)
              (shlib-Done sect w k))
        | inr e ↦ rw e (coff_preload_shlibs-Done sections w k)
      ]
