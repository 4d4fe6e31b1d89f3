-- ===== src/Fs/Coff/Image.antt =====
-- abiemu/fs/binfmt_coff.c: how the sections of an object are told apart and brought into memory.
use linux_abiemu.Prelude.{
  ℕ, zero, suc, ◌+◌, ◌-◌, ◌%◌, ◌^◌, bit_and, bit_or, Bool, true, false, not, ◌&&◌, ◌||◌, Option,
  none, some, List, [], ◌∷◌, ℤ, pos, neg, is_neg, word, ◌==◌, ltb, leb, if◌then◌else◌,
}
use linux_abiemu.Kernel.Domain.{enoexec}
use linux_abiemu.Fs.Coff.Host.{
  Numbers, Header, Section, CoffHost, page_of, page_align, do_brk, do_mmap, verify_write, put_zero,
  read_file, read_on,
}

-- What the loop over the sections finds: the last one of a kind, and how many there are.
pub record Found : Type 0 where
  pub text_sect : Option Section
  pub data_sect : Option Section
  pub bss_sect : Option Section
  pub text_count : ℕ
  pub data_count : ℕ
  pub bss_count : ℕ
  pub lib_count : ℕ
  pub misaligned : Bool

abbrev pub nothing : Found
nothing = record {
  text_sect = none;
  data_sect = none;
  bss_sect = none;
  text_count = 0;
  data_count = 0;
  bss_count = 0;
  lib_count = 0;
  misaligned = false;
}

-- coff_isaligned gives an error.
abbrev pub is_misaligned : Section → Bool
is_misaligned sect = not ((sect.s_vaddr + 2 ^ 32 - sect.s_scnptr) % 2 ^ 32 % 4096 == 0)

abbrev pub add_section : Numbers → Section → Found → Found
add_section n sect f =
    if sect.s_flags == n.styp_text
    then record f {
      misaligned = f.misaligned || is_misaligned sect;
      text_sect = some sect;
      text_count = suc f.text_count;
    }
    else if sect.s_flags == n.styp_data
    then record f {
      misaligned = f.misaligned || is_misaligned sect;
      data_sect = some sect;
      data_count = suc f.data_count;
    }
    else if sect.s_flags == n.styp_bss
    then record f { bss_sect = some sect; bss_count = suc f.bss_count }
    else if sect.s_flags == n.styp_lib
    then record f { lib_count = suc f.lib_count }
    else f

unfoldable pub find_sections : Numbers → List Section → Found → Found
find_sections n [] f = f
find_sections n (sect ∷ sections) f = find_sections n sections (add_section n sect f)

-- The checks of the file header.
unfoldable pub bad_header : Numbers → Header → Bool
bad_header n h =
    h.bad_magic
    || not (bit_and h.f_flags (bit_or n.f_ar32wr n.f_ar16wr) == n.f_ar32wr)
    || (bit_and h.f_flags n.f_exec == 0)
    || (h.f_nscns == 0)

abbrev pub lacks_sections : Bool → Found → Bool
lacks_sections binary f =
    not (f.text_count == 1) || binary && (not (f.data_count == 1) || not (f.bss_count == 1))

-- Where a program starts, or none for -ENOEXEC; the start of a library, 0 here, is not used.
-- `aout_size` is a short.
unfoldable pub start_address : Numbers → Bool → Header → Section → Option ℕ
start_address n binary h text =
    if h.f_opthdr == 0
    then (if binary then some text.s_vaddr else none)
    else if ltb h.f_opthdr n.aoutsz || leb (2 ^ 15) h.f_opthdr
    then none
    else if (h.aout_magic == n.omagic) || (h.aout_magic == n.zmagic) || (h.aout_magic == n.stmagic)
    then (if binary then some h.entry else none)
    else if (h.aout_magic == n.shmagic) && not binary
    then some 0
    else none

-- `coff_section`, 0 in every member where there is no such section.
abbrev pub segment : Option Section → Section
segment none = record { s_vaddr = 0; s_size = 0; s_scnptr = 0; s_flags = 0 }
segment (some sect) = sect

module _ (host : CoffHost) where
  open host use {World, call, act}

  unfoldable pub put_zeros : ℕ → ℕ → World → World
  put_zeros zero addr w = w
  put_zeros (suc n) addr w = put_zeros n ((addr + 1) % 2 ^ 32) (act (put_zero addr) w)

  -- From an address to the end of its page; the size that the caller gives is not used.
  unfoldable pub coff_clear_memory : ℕ → World → ℤ × World
  coff_clear_memory addr w =
      let size = (4096 - addr % 4096) % 4096 in
      let (err, w') = call (verify_write addr size) w in
      if size == 0
      then (pos 0, w)
      else if is_neg err
      then (err, w')
      else (err, put_zeros size addr w')

  -- A section of the file, and -ENOEXEC where it does not come to its page. MAP_FIXED, MAP_PRIVATE,
  -- MAP_DENYWRITE and MAP_EXECUTABLE are 0x1812.
  unfoldable pub map_coff : Section → ℕ → World → ℤ × World
  map_coff sect prot w =
      let (status, w') =
        call
          (do_mmap true (page_of sect.s_vaddr) ((sect.s_size + sect.s_vaddr % 4096) % 2 ^ 32) prot
            0x1812 (page_of sect.s_scnptr))
          w in
      (if word status == page_of sect.s_vaddr then pos 0 else neg enoexec, w')

  -- PROT_READ 1, PROT_WRITE 2 and PROT_EXEC 4.
  abbrev pub map_pages : Section → Section → World → ℤ × World
  map_pages text data_ w =
      let (status, w') = map_coff text 5 w in
      if is_neg status || (data_.s_size == 0) then (status, w') else map_coff data_ 7 w'

  -- The lengths of the reads are places in the file.
  abbrev pub read_pages : Section → Section → World → ℤ × World
  read_pages text data_ w =
      let w' = (call (do_brk text.s_vaddr text.s_size) w).1 in
      let w'' = act (read_file data_.s_vaddr data_.s_scnptr data_.s_scnptr) w' in
      let w''' = (call (do_brk data_.s_vaddr data_.s_size) w'').1 in
      (pos 0, act (read_on text.s_vaddr text.s_scnptr) w''')

  -- What do_mmap gives for the bss is dropped.
  abbrev pub map_bss : Section → World → ℤ × World
  map_bss bss w =
      let start = page_align bss.s_vaddr in
      let length = (bss.s_size + bss.s_vaddr + (2 ^ 32 - start)) % 2 ^ 32 in
      let w' = (call (do_mmap false start length 7 0x12 0) w).1 in
      if bss.s_size == 0 then (pos 0, w) else coff_clear_memory bss.s_vaddr w'

  abbrev pub then_bss : Section → ℤ × World → ℤ × World
  then_bss bss (status, w) = if is_neg status then (status, w) else map_bss bss w

  unfoldable pub map_image : Bool → Section → Section → Section → World → ℤ × World
  map_image pageable text data_ bss w =
      then_bss bss (if pageable then map_pages text data_ w else read_pages text data_ w)
