-- ===== src/Fs/Coff/Books.antt =====
-- That the steps of a load up to its image, and the image, leave the kernel's books as they were
-- (abiemu/fs/binfmt_coff.c).
use linux_abiemu.Prelude.{
  ℕ, Bool, true, false, not, ◌&&◌, Option, some, List, ◌∷◌, ◌≡◌, refl, ap, ◌∙◌, inl, inr, ℤ, is_neg,
  ◌==◌, if◌then◌else◌, Bool-cases, suc, zero, ◌%◌, ◌-◌, ◌||◌,
}
use linux_abiemu.Fs.Coff.Host.{
  Section, Binprm, CoffHost, Ledger, Ledgers, Reads, set_binfmt, verify_write,
}
use linux_abiemu.Fs.Coff.Libraries.{coff_preload_shlibs}
use linux_abiemu.Fs.Coff.Libraries.Within.{Names, Done, done, coff_preload_shlibs-Done}
use linux_abiemu.Fs.Coff.Image.{
  Found, segment, map_image, coff_clear_memory, map_bss, map_coff, map_pages, put_zeros, read_pages,
  then_bss,
}
use linux_abiemu.Fs.Coff
use linux_abiemu.Fs.Coff.Stack.{put_strings, coff_mktables}

abbrev pub one_buffer : Ledger → Ledger
one_buffer l = record l { buffers = suc l.buffers }

abbrev pub one_file : ℤ → Ledger → Ledger
one_file fd l = record l { files = fd ∷ l.files }

abbrev pub limited : ℕ → Ledger → Ledger
limited fs l = record l { limit = fs }

module _ (host : CoffHost) (law : Ledgers host) where
  open host use {World, call, act, kernel_ds}
  open law use {ledger, ledger-call, ledger-act}

  strings_ledger : (n table p : ℕ) (w : World) → ledger (put_strings host n table p w).1 ≡ ledger w
  unfolding put_strings
  strings_ledger zero table p w = ledger-act _ w
  strings_ledger (suc n) table p w = strings_ledger n _ _ _ ∙ ledger-act _ w

  pub tables_ledger : (bprm : Binprm) (w : World) → ledger (coff_mktables host bprm w).1 ≡ ledger w
  unfolding coff_mktables
  tables_ledger bprm w =
      ledger-act _ _
      ∙ strings_ledger bprm.envc _ _ _
      ∙ strings_ledger bprm.argc _ _ _
      ∙ ledger-act _ w

  zeros_ledger : (n addr : ℕ) (w : World) → ledger (put_zeros host n addr w) ≡ ledger w
  unfolding put_zeros
  zeros_ledger zero addr w = refl
  zeros_ledger (suc n) addr w = zeros_ledger n _ _ ∙ ledger-act _ w

  clear_ledger : (addr : ℕ) (w : World) → ledger (coff_clear_memory host addr w).1 ≡ ledger w
  unfolding coff_clear_memory
  clear_ledger addr w =
      let size = (4096 - addr % 4096) % 4096 in
      elim (Bool-cases (size == 0)) [
        | inl e ↦ rw e refl
        | inr e ↦ elim (Bool-cases (is_neg (call (verify_write addr size) w).0)) [
          | inl f ↦ rw (e, f) (ledger-call _ w)
          | inr f ↦ rw (e, f) (zeros_ledger size addr _ ∙ ledger-call _ w)
        ]
      ]

  bss_ledger : (bss : Section) (w : World) → ledger (map_bss host bss w).1 ≡ ledger w
  bss_ledger bss w = elim (Bool-cases (bss.s_size == 0)) [
    | inl e ↦ rw e refl
    | inr e ↦ rw e (clear_ledger bss.s_vaddr _ ∙ ledger-call _ w)
  ]

  map_coff_ledger :
      (sect : Section) (prot : ℕ) (w : World) → ledger (map_coff host sect prot w).1 ≡ ledger w
  unfolding map_coff
  map_coff_ledger sect prot w = ledger-call _ w

  pages_ledger :
      (text data_ : Section) (w : World) → ledger (map_pages host text data_ w).1 ≡ ledger w
  pages_ledger text data_ w =
      elim (Bool-cases (is_neg (map_coff host text 5 w).0 || (data_.s_size == 0))) [
        | inl e ↦ rw e (map_coff_ledger text 5 w)
        | inr e ↦ rw e (map_coff_ledger data_ 7 _ ∙ map_coff_ledger text 5 w)
      ]

  reads_ledger :
      (text data_ : Section) (w : World) → ledger (read_pages host text data_ w).1 ≡ ledger w
  reads_ledger text data_ w = ledger-act _ _ ∙ ledger-call _ _ ∙ ledger-act _ _ ∙ ledger-call _ w

  then_ledger : (bss : Section) (got : ℤ × World) → ledger (then_bss host bss got).1 ≡ ledger got.1
  then_ledger bss got = elim (Bool-cases (is_neg got.0)) [
    | inl e ↦ rw e refl
    | inr e ↦ rw e (bss_ledger bss got.1)
  ]

  pub image_ledger :
      (pageable : Bool) (text data_ bss : Section) (w : World)
      → ledger (map_image host pageable text data_ bss w).1 ≡ ledger w
  unfolding map_image
  image_ledger true text data_ bss w =
      then_ledger bss (map_pages host text data_ w) ∙ pages_ledger text data_ w
  image_ledger false text data_ bss w =
      then_ledger bss (read_pages host text data_ w) ∙ reads_ledger text data_ w

  -- The books at the end: as they were, but for an error that leaves the limit of the kernel.
  pub data Balanced (l : Ledger) : Option (ℤ × World) → Type 0 where
    restored : {status : ℤ} {w : World} → ledger w ≡ l → Balanced l (some (status, w))
    limit_left :
        {status : ℤ} {w : World}
        → is_neg status ≡ true
        → ledger w ≡ limited kernel_ds l
        → Balanced l (some (status, w))

  -- The libraries have a buffer of their own.
  abbrev names_of : Ledger → Names host
  names_of l = record {
    Kept = λ w. ledger w ≡ l;
    Held = λ w. ledger w ≡ one_buffer l;
    Filled = λ n buffer w. ledger w ≡ one_buffer l;
    Raised = λ fs n buffer w. (fs ≡ l.limit) × (ledger w ≡ limited kernel_ds (one_buffer l));
    held-kmalloc = λ n w e k. law.ledger-kmalloc n w e ∙ ap one_buffer k;
    kept-kmalloc = λ n w e k. law.ledger-kmalloc_failed n w e ∙ k;
    kept-kfree = λ n buffer w h. law.ledger-kfree l w h;
    filled-kernel_read = λ at n w h. law.ledger-kernel_read at n w ∙ h;
    raised-set_fs = λ n buffer w h. (
      law.ledger-get_fs w ∙ ap (λ b. b.limit) h,
      law.ledger-set_fs kernel_ds w ∙ ap (limited kernel_ds) h,
    );
    raised-uselib = λ fs n buffer at w whole sound h. (h.0, ledger-call _ w ∙ h.1);
    filled-set_fs = λ fs n buffer w h.
        law.ledger-set_fs fs w ∙ ap (limited fs) h.1 ∙ ap (λ f. limited f (one_buffer l)) h.0;
  }

  trap-Balanced :
      (l : Ledger) (o : Coff.Outcome host)
      → Done host (λ w. ledger w ≡ l) o
      → Balanced l (Coff.trap host o)
  trap-Balanced l _ (done {err} {w} k) = elim (Bool-cases (is_neg err)) [
    | inl e ↦ rw e (restored (ledger-act _ _ ∙ ledger-act _ w ∙ k))
    | inr e ↦ elim (Bool-cases (host.ptraced (act set_binfmt w))) [
      | inl f ↦ rw (e, f) (restored (ledger-act _ _ ∙ ledger-act _ w ∙ k))
      | inr f ↦ rw (e, f) (restored (ledger-act _ w ∙ k))
    ]
  ]

  module _ (reads : Reads host) where
    libraries-Done :
        (l : Ledger) (count : ℕ) (status : ℤ) (sections : List Section) (w : World)
        → ledger w ≡ l
        → Done host
            (λ u. ledger u ≡ l)
            (if count == 0 then some (status, w) else coff_preload_shlibs host sections w)
    libraries-Done l count status sections w k = elim (Bool-cases (count == 0)) [
      | inl e ↦ rw e (done k)
      | inr e ↦ rw e (coff_preload_shlibs-Done host (names_of l) reads sections w k)
    ]

    pub load_image-Balanced :
        (binary : Bool) (sections : List Section) (f : Found) (w : World)
        → Balanced (ledger w) (Coff.load_image host binary sections f w)
    unfolding Coff.load_image
    load_image-Balanced binary sections f w =
        let pageable = host.has_mmap w && not f.misaligned in
        let got =
          map_image host pageable (segment f.text_sect) (segment f.data_sect) (segment f.bss_sect)
            (host.set_fs kernel_ds w) in
        let raised : ledger got.1 ≡ limited kernel_ds (ledger w) =
          image_ledger pageable _ _ _ (host.set_fs kernel_ds w) ∙ law.ledger-set_fs kernel_ds w in
        let back : ledger (host.set_fs (host.get_fs w) got.1) ≡ ledger w =
          law.ledger-set_fs (host.get_fs w) got.1
          ∙ ap (limited (host.get_fs w)) raised
          ∙ ap (λ fs. limited fs (ledger w)) (law.ledger-get_fs w) in
        elim (Bool-cases (is_neg got.0)) [
          | inl e ↦ rw e (limit_left e raised)
          | inr e ↦ elim (Bool-cases binary) [
            | inl b ↦
                rw (e, b)
                  (trap-Balanced (ledger w) _
                    (libraries-Done (ledger w) f.lib_count got.0 sections _ back))
            | inr b ↦ rw (e, b) (restored back)
          ]
        ]
