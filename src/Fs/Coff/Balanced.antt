-- ===== src/Fs/Coff/Balanced.antt =====
-- That a load gives back what it holds in the kernel, and the address limit where it succeeds
-- (abiemu/fs/binfmt_coff.c).
use linux_abiemu.Prelude.{
  ℕ, Bool, true, false, Option, none, some, List, [], ◌∷◌, ◌≡◌, refl, subst, ap, ◌∙◌, inl, inr, ℤ,
  pos, is_neg, is_zero, ◌==◌, Bool-cases,
}
use linux_abiemu.Fs.Coff.Host.{
  Section, Binprm, CoffHost, Ledger, Ledgers, Reads, flush_old_exec, setup_arg_pages, reset_mm,
  set_personality,
}
use linux_abiemu.Fs.Coff.Comments.{coff_parse_comments}
use linux_abiemu.Fs.Coff.Comments.Ended.{Finished, finished, coff_parse_comments-Finished}
use linux_abiemu.Fs.Coff.Image.{Found, nothing, find_sections, bad_header, lacks_sections}
use linux_abiemu.Fs.Coff
use linux_abiemu.Fs.Coff.Books.{
  one_buffer, one_file, limited, tables_ledger, Balanced, restored, limit_left, load_image-Balanced,
}

module _ (host : CoffHost) (law : Ledgers host) where
  open host use {World, call, act, kernel_ds}
  open law use {ledger, ledger-call, ledger-act}

  module _ (reads : Reads host) where
    -- The search for a personality ends with the books as they were.
    data Chosen (l : Ledger) : Option (ℕ × World) → Type 0 where
      chosen : {personality : ℕ} {w : World} → ledger w ≡ l → Chosen l (some (personality, w))

    next-Chosen :
        (l : Ledger) (next : ℕ → World → Option (ℕ × World)) (o : Option (ℤ × ℕ × World))
        → ((personality : ℕ) (w : World) → ledger w ≡ l → Chosen l (next personality w))
        → Finished host law reads l o
        → Chosen l (Coff.or_next host next o)
    next-Chosen l next _ go (finished {n} {personality} {w} k) = elim (Bool-cases (n == 0)) [
      | inl e ↦ rw e (go personality w k)
      | inr e ↦ rw e (chosen k)
    ]

    personality-Chosen :
        (l : Ledger) (sections : List Section) (personality : ℕ) (w : World)
        → ledger w ≡ l
        → Chosen l (Coff.find_personality host sections personality w)
    unfolding Coff.find_personality
    personality-Chosen l [] personality w k = chosen k
    personality-Chosen l (sect ∷ sections) personality w k =
        let go = personality-Chosen l sections in
        elim (Bool-cases (sect.s_flags == host.numbers.styp_info)) [
          | inl e ↦ rw e (
              next-Chosen l (Coff.find_personality host sections) _ go (
                subst (λ m. Finished host law reads m (coff_parse_comments host sect personality w))
                  k (coff_parse_comments-Finished host law reads sect personality w)))
          | inr e ↦ rw e (go personality w k)
        ]

    module _ (bprm : Binprm) (start_addr : ℕ) (sections : List Section) (f : Found)
        (l : Ledger) where
      start_ledger :
          (w : World) → ledger w ≡ l → ledger (Coff.start_process host bprm start_addr f w) ≡ l
      start_ledger w k =
          ledger-act _ _
          ∙ ledger-act _ _
          ∙ ledger-act _ _
          ∙ ledger-act _ _
          ∙ ledger-act _ _
          ∙ tables_ledger host law bprm w
          ∙ k

      image-Balanced :
          (binary : Bool) (w : World)
          → ledger w ≡ l
          → Balanced host law l (Coff.load_image host binary sections f w)
      image-Balanced binary w k =
          subst (λ m. Balanced host law m (Coff.load_image host binary sections f w)) k
            (load_image-Balanced host law reads binary sections f w)

      as_personality-Balanced :
          (o : Option (ℕ × World))
          → Chosen l o
          → Balanced host law l (Coff.as_personality host bprm start_addr sections f o)
      as_personality-Balanced _ (chosen {personality} {w} k) =
          let w' = act reset_mm (act (set_personality personality) w) in
          let k' : ledger (call setup_arg_pages w').1 ≡ l =
            ledger-call setup_arg_pages w' ∙ ledger-act _ _ ∙ ledger-act _ w ∙ k in
          elim (Bool-cases (is_neg (call setup_arg_pages w').0)) [
            | inl e ↦ rw e (restored (ledger-act _ _ ∙ k'))
            | inr e ↦ rw e (image-Balanced true _ (start_ledger _ k'))
          ]

      commit-Balanced :
          (binary : Bool) (w : World)
          → ledger w ≡ l
          → Balanced host law l (Coff.commit host binary bprm start_addr sections f w)
      unfolding Coff.commit
      commit-Balanced false w k = image-Balanced false w k
      commit-Balanced true w k =
          let k' = ledger-call flush_old_exec w ∙ k in
          elim (Bool-cases (is_zero (call flush_old_exec w).0)) [
            | inl e ↦
                rw e (as_personality-Balanced _ (personality-Chosen l sections Coff.per_svr3 _ k'))
            | inr e ↦ rw e (restored k')
          ]

    module _ (binary : Bool) (bprm : Binprm) (sections : List Section) (l : Ledger) where
      started-Balanced :
          (f : Found) (w : World) (o : Option ℕ)
          → ledger w ≡ l
          → Balanced host law l (Coff.if_started host binary bprm sections f w o)
      started-Balanced f w none k = restored k
      started-Balanced f w (some a) k = commit-Balanced bprm a sections f l binary w k

      sections-Balanced :
          (w : World)
          → ledger w ≡ l
          → Balanced host law l (Coff.load_sections host binary bprm sections w)
      unfolding Coff.load_sections
      sections-Balanced w k =
          let f = find_sections host.numbers sections nothing in
          elim (Bool-cases (lacks_sections binary f)) [
            | inl e ↦ rw e (restored k)
            | inr e ↦ rw e (started-Balanced f w _ k)
          ]

    closed-Balanced :
        (fd : ℤ) (l : Ledger) (o : Coff.Outcome host)
        → Balanced host law (one_file fd l) o
        → Balanced host law l (Coff.closed host fd o)
    closed-Balanced fd l _ (restored {status} {w} k) = restored (law.ledger-close fd l w k)
    closed-Balanced fd l _ (limit_left {status} {w} e k) =
        limit_left e (law.ledger-close fd (limited kernel_ds l) w k)

    freed-Balanced :
        (l : Ledger) (o : Coff.Outcome host)
        → Balanced host law (one_buffer l) o
        → Balanced host law l (Coff.freed host o)
    freed-Balanced l _ (restored {status} {w} k) = restored (law.ledger-kfree l w k)
    freed-Balanced l _ (limit_left {status} {w} e k) =
        limit_left e (law.ledger-kfree (limited kernel_ds l) w k)

    module _ (binary : Bool) (bprm : Binprm) (l : Ledger) where
      file-Balanced :
          (sections : List Section) (w : World)
          → ledger w ≡ l
          → Balanced host law l (Coff.with_file host binary bprm sections (host.get_unused_fd w))
      file-Balanced sections w k =
          let (fd, u) = host.get_unused_fd w in
          elim (Bool-cases (is_neg (host.get_unused_fd w).0)) [
            | inl e ↦ rw e (restored (law.ledger-no_fd w e ∙ k))
            | inr e ↦ rw e (
                closed-Balanced fd l _ (
                  sections-Balanced binary bprm sections (one_file fd l) _
                    (law.ledger-fd_install fd u ∙ law.ledger-unused_fd w e ∙ ap (one_file fd) k)))
          ]

      read-Balanced :
          (got : ℤ × List Section × World)
          → ledger got.2 ≡ l
          → Balanced host law l (Coff.with_sections host binary bprm got)
      read-Balanced got k = elim (Bool-cases (is_neg got.0)) [
        | inl e ↦ rw e (restored k)
        | inr e ↦ rw e (file-Balanced got.1 got.2 k)
      ]

    coff_load_object-Balanced :
        (binary : Bool) (bprm : Binprm) (w : World)
        → Balanced host law (ledger w) (Coff.coff_load_object host binary bprm w)
    unfolding Coff.coff_load_object
    coff_load_object-Balanced binary bprm w =
        let n = Coff.sections_size host bprm.header in
        elim (Bool-cases (bad_header host.numbers bprm.header)) [
          | inl e ↦ rw e (restored refl)
          | inr e ↦ elim (Bool-cases (host.kmalloc n w).0) [
            | inr f ↦ rw (e, f) (restored (law.ledger-kmalloc_failed n w f))
            | inl f ↦
                rw (e, f)
                  (freed-Balanced (ledger w) _ (
                    read-Balanced binary bprm (one_buffer (ledger w)) _
                      (law.ledger-read_sections _ n _ ∙ law.ledger-kmalloc n w f)))
          ]
        ]

    header-Balanced :
        (l : Ledger) (got : ℤ × List ℕ × World)
        → ledger got.2 ≡ l
        → Balanced host law l (Coff.with_header host got)
    header-Balanced l got k = elim (Bool-cases (is_neg got.0)) [
      | inl e ↦ rw e (restored k)
      | inr e ↦ rw e (
          subst (λ m. Balanced host law m (Coff.with_header host (pos 0, got.1, got.2))) k
            (coff_load_object-Balanced false _ got.2))
    ]

    coff_load_shlib-Balanced :
        (binprm_size buf_size : ℕ) (w : World)
        → Balanced host law (ledger w) (Coff.coff_load_shlib host binprm_size buf_size w)
    unfolding Coff.coff_load_shlib
    coff_load_shlib-Balanced binprm_size buf_size w =
        elim (Bool-cases (host.kmalloc binprm_size w).0) [
          | inr e ↦ rw e (restored (law.ledger-kmalloc_failed binprm_size w e))
          | inl e ↦ rw e (
              freed-Balanced (ledger w) _ (
                header-Balanced (one_buffer (ledger w)) _
                  (law.ledger-kernel_read 0 buf_size _ ∙ law.ledger-kmalloc binprm_size w e)))
        ]

    -- A load of a program, and one of a library from its file, ends, whatever the file holds, and gives
    -- back what it took: the descriptor that it was given is closed, and as many buffers and pages are
    -- held as before. The address limit of the process is as before too, also after the libraries that
    -- a program lists, but for an error after which it is the kernel's. The kernel is
    -- taken to keep the books of `Ledgers` and to read as `Reads` says.
    pub loads-Balanced :
        (bprm : Binprm) (binprm_size buf_size : ℕ) (w : World)
        → Balanced host law (ledger w) (Coff.coff_load_binary host bprm w)
          × Balanced host law (ledger w) (Coff.coff_load_shlib host binprm_size buf_size w)
    unfolding Coff.coff_load_binary
    loads-Balanced bprm binprm_size buf_size w =
        (coff_load_object-Balanced true bprm w, coff_load_shlib-Balanced binprm_size buf_size w)
