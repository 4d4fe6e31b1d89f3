-- ===== src/Fs/Coff/Libraries.antt =====
-- abiemu/fs/binfmt_coff.c: coff_preload_shlib and coff_preload_shlibs, which load the shared
-- libraries that a section lists.
pub mod Within
use linux_abiemu.Prelude.{
  drop, ℕ, zero, suc, ◌+◌, ◌-◌, ◌*◌, ◌%◌, ◌^◌, Bool, true, false, ◌&&◌, ◌||◌, Option, none, some,
  List, [], ◌∷◌, ℤ, pos, neg, is_neg, is_zero, eqb_ℤ, ◌==◌, ltb, leb, if◌then◌else◌,
}
use linux_abiemu.Kernel.Domain.{enoexec, enomem}
use linux_abiemu.Fs.Coff.Host.{CoffHost, Section, Slib, sys_uselib}

-- sl_entsz and sl_pathndx in bytes, as an int and as an unsigned int: `* sizeof(long)` wraps.
abbrev pub bytes_of : ℕ → ℕ
bytes_of words = words * 4 % 2 ^ 32

module _ (host : CoffHost) where
  open host use {
    World, numbers, call, get_fs, set_fs, kernel_ds, kmalloc, kfree, kernel_read, slib_at,
  }

  abbrev pub entry_size : List ℕ → ℕ
  entry_size phdr = bytes_of (slib_at phdr).sl_entsz

  abbrev pub header_size : List ℕ → ℕ
  header_size phdr = bytes_of (slib_at phdr).sl_pathndx

  -- A size of 2 ^ 31 or more is negative as an int.
  abbrev pub bad_entry : ℕ → List ℕ → Bool
  bad_entry nbytes phdr =
      leb nbytes (header_size phdr)
      || leb (entry_size phdr) (header_size phdr)
      || (entry_size phdr == 0)
      || leb (2 ^ 31) (entry_size phdr)

  -- `nbytes > (long)COFF_SLIBSZ`, of the 32 bits of a signed long.
  abbrev pub has_more : ℕ → Bool
  has_more nbytes = ltb numbers.slibsz nbytes && ltb nbytes (2 ^ 31)

  -- `phdr` is its distance `at` from the buffer, of 32 bits, and what it points to the bytes from
  -- there on, `drop` of them. The loop has one unit of fuel for each library. The address limit is
  -- that of the kernel around sys_uselib.
  unfoldable pub load_each : ℕ → ℕ → ℕ → List ℕ → ℤ → World → Option (ℤ × World)
  load_each zero nbytes at buffer err w = if has_more nbytes then none else some (err, w)
  load_each (suc fuel) nbytes at buffer err w =
      let phdr = drop at buffer in
      let old_fs = get_fs w in
      let (err', w') =
        call (sys_uselib (drop ((at + header_size phdr) % 2 ^ 32) buffer)) (set_fs kernel_ds w) in
      let w'' = set_fs old_fs w' in
      let rest =
        load_each fuel ((nbytes + 2 ^ 32 - entry_size phdr) % 2 ^ 32)
          ((at + entry_size phdr) % 2 ^ 32) buffer err' w'' in
      if has_more nbytes
      then (if bad_entry nbytes phdr
          then some (neg enoexec, w)
          else if is_neg err'
          then some (err', w'')
          else rest)
      else some (err, w)

  abbrev pub freed : Option (ℤ × World) → Option (ℤ × World)
  freed none = none
  freed (some (err, w)) = some (err, kfree w)

  abbrev pub load_list : ℕ → ℤ × List ℕ × World → Option (ℤ × World)
  load_list nbytes (err, buffer, w) =
      if is_neg err
      then some (err, w)
      else if eqb_ℤ err (pos nbytes)
      then load_each nbytes nbytes 0 buffer err w
      else some (neg enoexec, w)

  -- s_size is a long.
  unfoldable pub coff_preload_shlib : Section → World → Option (ℤ × World)
  coff_preload_shlib sect w =
      let nbytes = sect.s_size in
      let (ok, w') = kmalloc nbytes w in
      if ltb nbytes numbers.slibsz || leb (2 ^ 31) nbytes
      then some (neg enoexec, w)
      else if ok
      then freed (load_list nbytes (kernel_read sect.s_scnptr nbytes w'))
      else some (neg enomem, w')

  abbrev pub go_on : (World → Option (ℤ × World)) → Option (ℤ × World) → Option (ℤ × World)
  go_on next none = none
  go_on next (some (err, w)) = if is_zero err then next w else some (err, w)

  -- The first library section whose result is not 0 ends the search.
  unfoldable pub coff_preload_shlibs : List Section → World → Option (ℤ × World)
  coff_preload_shlibs [] w = some (pos 0, w)
  coff_preload_shlibs (sect ∷ sections) w =
      if sect.s_flags == numbers.styp_lib
      then go_on (coff_preload_shlibs sections) (coff_preload_shlib sect w)
      else coff_preload_shlibs sections w
