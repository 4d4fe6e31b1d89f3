-- ===== src/Fs/Coff/Refused.antt =====
-- That an object which is not a proper program is refused before anything is done to the process
-- (abiemu/fs/binfmt_coff.c).
use linux_abiemu.Prelude.{
  ℕ, ◌+◌, Bool, true, false, Option, none, some, List, [], ◌∷◌, ◌≡◌, ◌≢◌, refl, ap, ◌∙◌, inl, inr,
  arith, ℤ, is_neg, ◌==◌, if◌then◌else◌, Bool-cases, is_some,
}
use linux_abiemu.Fs.Coff.Host.{Numbers, Header, Section, Binprm, CoffHost}
use linux_abiemu.Fs.Coff.Image.{
  Found, nothing, find_sections, add_section, bad_header, lacks_sections, start_address, segment,
}
use linux_abiemu.Fs.Coff

-- How many sections of a kind there are, and the last of them.
abbrev count_of : ℕ → List Section → ℕ
count_of kind [] = 0
count_of kind (sect ∷ sections) = (if sect.s_flags == kind then 1 else 0) + count_of kind sections

-- A proper object: the header is good, there is one section of text, in a program also one of data
-- and one of bss, and there is an address to start at.
pub record Proper (n : Numbers) (binary : Bool) (h : Header) (sections : List Section)
    : Type 0 where
  pub header : bad_header n h ≡ false
  pub text : count_of n.styp_text sections ≡ 1
  pub data_ : binary ≡ true → count_of n.styp_data sections ≡ 1
  pub bss : binary ≡ true → count_of n.styp_bss sections ≡ 1
  pub start : (text : Section) → is_some (start_address n binary h text) ≡ true

-- The labels of the switch are different numbers.
pub record Labels (n : Numbers) : Type 0 where
  pub text_data : n.styp_text ≢ n.styp_data
  pub text_bss : n.styp_text ≢ n.styp_bss
  pub data_bss : n.styp_data ≢ n.styp_bss

-- What holds of the process, whatever is taken in the kernel for a load and given back.
pub record Quiet (host : CoffHost) : Type 1 where
  pub Kept : host.World → Type 0
  pub kept-kmalloc : (n : ℕ) (w : host.World) → Kept w → Kept (host.kmalloc n w).1
  pub kept-kfree : (w : host.World) → Kept w → Kept (host.kfree w)
  pub kept-read_sections : (at n : ℕ) (w : host.World) → Kept w → Kept (host.read_sections at n w).2
  pub kept-unused_fd : (w : host.World) → Kept w → Kept (host.get_unused_fd w).1
  pub kept-fd_install : (fd : ℤ) (w : host.World) → Kept w → Kept (host.fd_install fd w)
  pub kept-close : (fd : ℤ) (w : host.World) → Kept w → Kept (host.sys_close fd w)

module _ (n : Numbers) (labels : Labels n) where
  counted_text :
      (sections : List Section) (f : Found)
      → (find_sections n sections f).text_count ≡ f.text_count + count_of n.styp_text sections
  unfolding find_sections
  counted_text [] f = omega arith
  counted_text (sect ∷ sections) f = counted_text sections (add_section n sect f) ∙ ground arith

  counted_data :
      (sections : List Section) (f : Found)
      → (find_sections n sections f).data_count ≡ f.data_count + count_of n.styp_data sections
  unfolding find_sections
  counted_data [] f = omega arith
  counted_data (sect ∷ sections) f =
      counted_data sections (add_section n sect f) ∙ ground (arith, labels.text_data)

  counted_bss :
      (sections : List Section) (f : Found)
      → (find_sections n sections f).bss_count ≡ f.bss_count + count_of n.styp_bss sections
  unfolding find_sections
  counted_bss [] f = omega arith
  counted_bss (sect ∷ sections) f =
      counted_bss sections (add_section n sect f) ∙ ground (arith, labels.text_bss, labels.data_bss)

  -- Whether there is an address does not depend on the text.
  starts_alike :
      (binary : Bool) (h : Header) (a b : Section)
      → is_some (start_address n binary h a) ≡ is_some (start_address n binary h b)
  unfolding start_address
  starts_alike binary h a b = elim (Bool-cases (h.f_opthdr == 0)) [
    | inl e ↦ rw e (either binary)
    | inr e ↦ rw e refl
  ]
    where
      either :
          (c : Bool)
          → is_some (if c then some a.s_vaddr else none)
            ≡ is_some (if c then some b.s_vaddr else none)
      either true = refl
      either false = refl

  counts_fit :
      (binary : Bool) (sections : List Section)
      → lacks_sections binary (find_sections n sections nothing) ≡ false
      → (count_of n.styp_text sections ≡ 1)
        × (binary ≡ true → count_of n.styp_data sections ≡ 1)
        × (binary ≡ true → count_of n.styp_bss sections ≡ 1)
  counts_fit binary sections h =
      let text = counted_text sections nothing in
      let data_ = counted_data sections nothing in
      let bss = counted_bss sections nothing in
      (ground (arith, text), λ b. ground (arith, data_), λ b. ground (arith, bss))

module _ (host : CoffHost) (labels : Labels host.numbers) (quiet : Quiet host) where
  open host use {World, numbers}
  open quiet use {Kept}

  -- Either the object is refused by an error and the process is as it was, or it is proper.
  pub data Judged (binary : Bool) (h : Header) (sections : List Section)
      : Option (ℤ × World) → Type 0 where
    refused :
        {status : ℤ} {w : World}
        → is_neg status ≡ true
        → Kept w
        → Judged binary h sections (some (status, w))
    proper :
        {o : Option (ℤ × World)} → Proper numbers binary h sections → Judged binary h sections o

  module _ (binary : Bool) (bprm : Binprm) (sections : List Section)
      (good : bad_header numbers bprm.header ≡ false) where
    abbrev ToJudge : Option (ℤ × World) → Type 0
    ToJudge o = Judged binary bprm.header sections o

    started-Judged :
        (w : World) (o : Option ℕ)
        → start_address numbers binary bprm.header
            (segment (find_sections numbers sections nothing).text_sect)
          ≡ o
        → lacks_sections binary (find_sections numbers sections nothing) ≡ false
        → Kept w
        → ToJudge
            (Coff.if_started host binary bprm sections (find_sections numbers sections nothing) w o)
    started-Judged w none e h k = refused refl k
    started-Judged w (some a) e h k =
        let (text, data_, bss) = counts_fit numbers labels binary sections h in
        proper (record {
          header = good;
          text = text;
          data_ = data_;
          bss = bss;
          start = λ t. starts_alike numbers labels binary bprm.header t _ ∙ ap is_some e;
        })

    sections-Judged :
        (w : World) → Kept w → ToJudge (Coff.load_sections host binary bprm sections w)
    unfolding Coff.load_sections
    sections-Judged w k =
        elim (Bool-cases (lacks_sections binary (find_sections numbers sections nothing))) [
          | inl e ↦ rw e (refused refl k)
          | inr e ↦ rw e (started-Judged w _ refl e k)
        ]

    closed-Judged : (fd : ℤ) (o : Option (ℤ × World)) → ToJudge o → ToJudge (Coff.closed host fd o)
    closed-Judged fd _ (refused {status} {w} e k) = refused e (quiet.kept-close fd w k)
    closed-Judged fd o (proper p) = proper p

    freed-Judged : (o : Option (ℤ × World)) → ToJudge o → ToJudge (Coff.freed host o)
    freed-Judged _ (refused {status} {w} e k) = refused e (quiet.kept-kfree w k)
    freed-Judged o (proper p) = proper p

    file-Judged :
        (w : World)
        → Kept w
        → ToJudge (Coff.with_file host binary bprm sections (host.get_unused_fd w))
    file-Judged w k = elim (Bool-cases (is_neg (host.get_unused_fd w).0)) [
      | inl e ↦ rw e (refused e (quiet.kept-unused_fd w k))
      | inr e ↦ rw e (
          closed-Judged _ _
            (sections-Judged _ (quiet.kept-fd_install _ _ (quiet.kept-unused_fd w k))))
    ]

  read-Judged :
      (binary : Bool) (bprm : Binprm) (got : ℤ × List Section × World)
      → bad_header numbers bprm.header ≡ false
      → Kept got.2
      → Judged binary bprm.header got.1 (Coff.with_sections host binary bprm got)
  read-Judged binary bprm got good k = elim (Bool-cases (is_neg got.0)) [
    | inl e ↦ rw e (refused e k)
    | inr e ↦ rw e (file-Judged binary bprm got.1 good got.2 k)
  ]

  -- A load either is refused by an error that leaves the process as it was, or is of a proper object:
  -- its header is good, among the sections that were read there is one of text, for a program also
  -- one of data and one of bss, and there is an address to start at. The labels of the switch on the
  -- kind of a section are taken to be different, and what is said of the process not to depend on
  -- what is taken for the load and given back (`Quiet`).
  pub coff_load_object-Judged :
      (binary : Bool) (bprm : Binprm) (w : World)
      → Kept w
      → Judged binary bprm.header
          (host.read_sections
            (Coff.sections_at host bprm.header)
            (Coff.sections_size host bprm.header)
            (host.kmalloc (Coff.sections_size host bprm.header) w).1).1
          (Coff.coff_load_object host binary bprm w)
  unfolding Coff.coff_load_object
  coff_load_object-Judged binary bprm w k =
      let n = Coff.sections_size host bprm.header in
      let k' = quiet.kept-kmalloc n w k in
      elim (Bool-cases (bad_header numbers bprm.header)) [
        | inl e ↦ rw e (refused refl k)
        | inr e ↦ elim (Bool-cases (host.kmalloc n w).0) [
          | inr f ↦ rw (e, f) (refused refl k')
          | inl f ↦
              rw (e, f)
                (freed-Judged binary bprm _ e _
                  (read-Judged binary bprm _ e (quiet.kept-read_sections _ n _ k')))
        ]
      ]
