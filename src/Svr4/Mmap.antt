-- ===== src/Svr4/Mmap.antt =====
-- abiemu/abi/svr4/mmap.c: mmap(2).
pub mod MapFlags
use linux_abiemu.Prelude.{
  ℕ, bit_and, bit_or, Bool, Option, none, some, ℤ, neg, word, ◌==◌, if◌then◌else◌,
}

-- EBADFD of Linux.
abbrev ebadfd : ℕ
ebadfd = 77

-- Open files, and `do_mmap`, under the lock of the address space, with a file or NULL.
pub record Mappings : Type 1 where
  pub World : Type 0
  pub fget : ℤ → World → Option (ℕ × World)
  pub fput : ℕ → World → World
  pub do_mmap : Option ℕ → ℕ → ℕ → ℕ → ℕ → ℕ → World → ℕ × World

-- `flags &= ~SVR4_MAP_UNIMPL`, where one of those flags (0x20, 0x80000000) is set.
abbrev pub implemented : ℕ → ℕ
implemented flags = if bit_and flags 0x8000_0020 == 0 then flags else bit_and flags 0x7fff_ffdf

-- Does the program map a file? The test is `!(flags & SVR4_MAP_ANONYMOUS)`.
abbrev pub with_file : ℕ → Bool
with_file flags = bit_and flags 0x100 == 0

-- The flags for `do_mmap`; MAP_ANONYMOUS of Linux is 0x20.
unfoldable pub mmap_flags : ℕ → ℕ
mmap_flags flags =
    let known = implemented flags in
    if with_file known then bit_or (bit_and known 0xffff_feff) 0x20 else known

module _ (host : Mappings) (addr len prot flags off : ℕ) where
  open host use {World, fget, fput, do_mmap}

  abbrev pub map_file : World → Option (ℕ × World) → ℕ × World
  map_file w none = (word (neg ebadfd), w)
  map_file w (some (file, w')) =
      let (mapaddr, w'') = do_mmap (some file) addr len prot (mmap_flags flags) off w' in
      (mapaddr, fput file w'')

  unfoldable pub svr4_mmap : ℤ → World → ℕ × World
  svr4_mmap fd w =
      if with_file (implemented flags)
      then map_file w (fget fd w)
      else do_mmap none addr len prot (mmap_flags flags) off w
