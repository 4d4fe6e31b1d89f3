-- ===== src/Fs/Coff.antt =====
-- abiemu/fs/binfmt_coff.c: the loader of COFF programs and of their shared libraries.
pub mod Host
pub mod Comments
pub mod Libraries
pub mod Stack
pub mod Image
pub mod Books
pub mod Balanced
pub mod Refused
use linux_abiemu.Prelude.{
  ℕ, ◌+◌, ◌*◌, ◌-◌, ◌%◌, ◌^◌, Bool, true, false, not, ◌&&◌, ◌||◌, Option, none, some, List, [], ◌∷◌,
  ℤ, pos, neg, is_neg, is_zero, ◌==◌, leb, if◌then◌else◌,
}
use linux_abiemu.Kernel.Domain.{enoexec, enomem}
use linux_abiemu.Fs.Coff.Host.{
  Header, Section, Binprm, CoffHost, flush_old_exec, setup_arg_pages, set_personality, reset_mm,
  set_code, set_data, set_brk, compute_creds, start_thread, set_binfmt, send_sig,
}
use linux_abiemu.Fs.Coff.Comments.{coff_parse_comments}
use linux_abiemu.Fs.Coff.Libraries.{coff_preload_shlibs}
use linux_abiemu.Fs.Coff.Stack.{coff_mktables}
use linux_abiemu.Fs.Coff.Image.{
  Found, nothing, find_sections, bad_header, lacks_sections, start_address, segment, map_image,
}

-- PER_SVR3
abbrev pub per_svr3 : ℕ
per_svr3 = 0x500_0002

module _ (host : CoffHost) where
  open host use {
    World, numbers, call, act, get_fs, set_fs, kernel_ds, kmalloc, kfree, read_sections,
    kernel_read, header_at, get_unused_fd, fd_install, sys_close, has_mmap, ptraced,
    defhandler_coff,
  }

  -- The result of a load and the state; none means that fuel ran out.
  abbrev pub Outcome : Type 0
  Outcome = Option (ℤ × World)

  abbrev pub or_next :
      (ℕ → World → Option (ℕ × World)) → Option (ℤ × ℕ × World) → Option (ℕ × World)
  or_next next none = none
  or_next next (some (hits, personality, w)) =
      if is_neg hits || is_zero hits then next personality w else some (personality, w)

  -- The comments of each section until some have a clue.
  unfoldable pub find_personality : List Section → ℕ → World → Option (ℕ × World)
  find_personality [] personality w = some (defhandler_coff, w)
  find_personality (sect ∷ sections) personality w =
      let next = find_personality sections in
      if sect.s_flags == numbers.styp_info
      then or_next next (coff_parse_comments host sect personality w)
      else next personality w

  -- SIGSEGV 11 and SIGTRAP 5.
  abbrev pub trap : Outcome → Outcome
  trap none = none
  trap (some (status, w)) =
      let w' = act set_binfmt w in
      if is_neg status
      then some (pos 0, act (send_sig 11) w')
      else some (pos 0, if ptraced w' then act (send_sig 5) w' else w')

  -- From `set_fs(get_ds())` on; an error of the mappings is returned at once.
  unfoldable pub load_image : Bool → List Section → Found → World → Outcome
  load_image binary sections f w =
      let old_fs = get_fs w in
      let pageable = has_mmap w && not f.misaligned in
      let (status, w') =
        map_image host pageable (segment f.text_sect) (segment f.data_sect) (segment f.bss_sect)
          (set_fs kernel_ds w) in
      let w'' = set_fs old_fs w' in
      if is_neg status
      then some (status, w')
      else if binary
      then trap
          (if f.lib_count == 0 then some (status, w'') else coff_preload_shlibs host sections w'')
      else some (status, w'')

  -- The new process gets its stack, its limits and its registers.
  abbrev pub start_process : Binprm → ℕ → Found → World → World
  start_process bprm start_addr f w =
      let text = segment f.text_sect in
      let data_ = segment f.data_sect in
      let bss = segment f.bss_sect in
      let (p, w') = coff_mktables host bprm w in
      act (start_thread start_addr p) (
        act compute_creds (
          act (set_brk bss.s_vaddr ((bss.s_size + bss.s_vaddr) % 2 ^ 32)) (
            act (set_data data_.s_vaddr ((data_.s_size + data_.s_vaddr) % 2 ^ 32))
              (act (set_code text.s_vaddr ((text.s_size + text.s_vaddr) % 2 ^ 32)) w'))))

  abbrev pub as_personality : Binprm → ℕ → List Section → Found → Option (ℕ × World) → Outcome
  as_personality bprm start_addr sections f none = none
  as_personality bprm start_addr sections f (some (personality, w)) =
      let (status, w') =
        call setup_arg_pages (act reset_mm (act (set_personality personality) w)) in
      if is_neg status
      then some (pos 0, act (send_sig 11) w')
      else load_image true sections f (start_process bprm start_addr f w')

  -- A program replaces the process; a library is added to it.
  unfoldable pub commit : Bool → Binprm → ℕ → List Section → Found → World → Outcome
  commit binary bprm start_addr sections f w =
      let (status, w') = call flush_old_exec w in
      if binary
      then (if is_zero status
          then as_personality bprm start_addr sections f (find_personality sections per_svr3 w')
          else some (status, w'))
      else load_image false sections f w

  abbrev pub if_started : Bool → Binprm → List Section → Found → World → Option ℕ → Outcome
  if_started binary bprm sections f w none = some (neg enoexec, w)
  if_started binary bprm sections f w (some start_addr) = commit binary bprm start_addr sections f w

  unfoldable pub load_sections : Bool → Binprm → List Section → World → Outcome
  load_sections binary bprm sections w =
      let f = find_sections numbers sections nothing in
      if lacks_sections binary f
      then some (neg enoexec, w)
      else if_started binary bprm sections f w
          (start_address numbers binary bprm.header (segment f.text_sect))

  -- The descriptor is closed and the buffer freed at the end, on every path.
  abbrev pub closed : ℤ → Outcome → Outcome
  closed fd none = none
  closed fd (some (status, w)) = some (status, sys_close fd w)

  abbrev pub freed : Outcome → Outcome
  freed none = none
  freed (some (status, w)) = some (status, kfree w)

  abbrev pub with_file : Bool → Binprm → List Section → ℤ × World → Outcome
  with_file binary bprm sections (fd, w) =
      if is_neg fd
      then some (fd, w)
      else closed fd (load_sections binary bprm sections (fd_install fd w))

  abbrev pub with_sections : Bool → Binprm → ℤ × List Section × World → Outcome
  with_sections binary bprm (status, sections, w) =
      if is_neg status then some (status, w) else with_file binary bprm sections (get_unused_fd w)

  -- `sections * COFF_SCNHSZ`; f_nscns is a short.
  abbrev pub sections_size : Header → ℕ
  sections_size h =
      (if leb (2 ^ 15) h.f_nscns then h.f_nscns + 2 ^ 32 - 2 ^ 16 else h.f_nscns)
      * numbers.scnhsz
      % 2 ^ 32

  -- The offset of the sections; f_opthdr is a short.
  abbrev pub sections_at : Header → ℕ
  sections_at h =
      ((if leb (2 ^ 15) h.f_opthdr then h.f_opthdr + 2 ^ 32 - 2 ^ 16 else h.f_opthdr)
        + numbers.filhsz)
      % 2 ^ 32

  unfoldable pub coff_load_object : Bool → Binprm → World → Outcome
  coff_load_object binary bprm w =
      let h = bprm.header in
      let (ok, w') = kmalloc (sections_size h) w in
      if bad_header numbers h
      then some (neg enoexec, w)
      else if ok
      then freed (with_sections binary bprm (read_sections (sections_at h) (sections_size h) w'))
      else some (neg enomem, w')

  unfoldable pub coff_load_binary : Binprm → World → Outcome
  coff_load_binary bprm w = coff_load_object true bprm w

  -- `sizeof(struct linux_binprm)` and `sizeof(bpp->buf)` are given.
  abbrev pub with_header : ℤ × List ℕ × World → Outcome
  with_header (err, buf, w) =
      if is_neg err
      then some (err, w)
      else coff_load_object false (record { header = header_at buf; p = 0; argc = 0; envc = 0 }) w

  unfoldable pub coff_load_shlib : ℕ → ℕ → World → Outcome
  coff_load_shlib binprm_size buf_size w =
      let (ok, w') = kmalloc binprm_size w in
      if ok then freed (with_header (kernel_read 0 buf_size w')) else some (neg enomem, w')
