-- ===== src/Svr4/Readdir.antt =====
-- abiemu/abi/svr4/misc.c: read(2), which on a directory gives entries of 16 bytes.
pub mod Entries
pub mod Loop
use linux_abiemu.Prelude.{
  take, drop, ℕ, zero, suc, ◌+◌, ◌-◌, ◌*◌, ◌/◌, ◌%◌, ◌^◌, bit_and, Bool, true, false, Option, none,
  some, List, [], ◌∷◌, ℤ, pos, neg, pos_part, eqb_ℤ, leb_ℤ, ltb, ◌==◌, if◌then◌else◌, length,
}
use linux_abiemu.Kernel.Domain.{efault, enomem}

abbrev pub ebadf : ℕ
ebadf = 9

abbrev pub eisdir : ℕ
eisdir = 21

-- What `old_readdir` fills in: the inode and the characters of the name.
pub record Dirent : Type 0 where
  pub d_ino : ℕ
  pub d_name : List ℕ

-- Open files, the kernel's calls on them and user memory. `put` is `put_user` of one character,
-- `put_short` of two, and `copy` is copy_to_user; the Boolean says
-- whether the memory could be written.
-- old_readdir gives 1 and an entry, 0 at the end, or an error.
pub record DirHost : Type 1 where
  pub World : Type 0
  pub fget : ℤ → World → Bool × World
  pub fput : World → World
  pub get_free_page : World → Bool × World
  pub free_page : World → World
  pub f_pos : World → ℕ
  pub old_readdir : ℤ → World → ℤ × Dirent × World
  pub sys_lseek : ℤ → ℕ → World → World
  pub sys_read : ℤ → ℕ → ℤ → World → ℤ × World
  pub put : ℕ → ℕ → World → Bool × World
  pub put_short : ℕ → ℕ → World → World
  pub copy : ℕ → List ℕ → World → Bool × World

-- `16 * ((de->d_namlen + 13) / 14)`
abbrev pub record_length : ℕ → ℕ
record_length namlen = 16 * ((namlen + 13) / 14)

-- The inode number that `put_user` to a `char *` stores of: its low byte.
abbrev pub short_inode : ℕ → ℕ
short_inode ino = if bit_and ino 0xffff == 0 then 0xfffe else bit_and ino 0xffff

-- How far the position moves: 16 for each chunk.
unfoldable pub chunks_length : ℕ → ℕ → ℕ
chunks_length zero namlen = 16
chunks_length (suc fuel) namlen =
    let rest = chunks_length fuel (namlen - 14) in if ltb 14 namlen then 16 + rest else 16

module _ (host : DirHost) (buf : ℕ) where
  open host use {World, put, put_short, copy}

  abbrev pub and_then : Bool × World → (World → Bool × World) → Bool × World
  and_then (true, w) f = f w
  and_then (false, w) f = (false, w)

  -- `for (; de->d_namlen < 14; de->d_namlen++) put_user('\0', …)`
  unfoldable pub pad : ℕ → ℕ → World → Bool × World
  pad zero at w = (true, w)
  pad (suc n) at w = and_then (put at 0 w) (pad n (suc at))

  -- The last chunk of a name.
  unfoldable pub last_chunk : ℕ → ℕ → List ℕ → World → Bool × World
  last_chunk posn ino name w = and_then (put (buf + posn) (short_inode ino % 2 ^ 8) w) λ w1.
      and_then (copy (buf + posn + 2) name w1)
        λ w2. pad (14 - length name) (buf + posn + 2 + length name) w2

  -- A chunk that more chunks follow. The inode's place is written whether it can be or not.
  abbrev pub full_chunk : ℕ → List ℕ → World → Bool × World
  full_chunk posn name w = copy (buf + posn + 2) (take 14 name) (put_short (buf + posn) 0xffff w)

  -- All chunks of a name; the fuel is the length of the name.
  unfoldable pub put_chunks : ℕ → ℕ → ℕ → List ℕ → World → Bool × World
  put_chunks zero posn ino name w = last_chunk posn ino name w
  put_chunks (suc fuel) posn ino name w =
      if ltb 14 (length name)
      then and_then (full_chunk posn name w) (put_chunks fuel (posn + 16) ino (drop 14 name))
      else last_chunk posn ino name w

-- How the loop over the entries ends: with a position and the last value of `error`, with memory
-- that cannot be written, or, in the model only, without fuel.
pub data Read (World : Type 0) : Type 0 where
  ended : ℕ → ℤ → World → Read World
  faulted : World → Read World
  exhausted : Read World

module _ (host : DirHost) (fd : ℤ) (buf count : ℕ) where
  open host use {
    World, fget, fput, get_free_page, free_page, f_pos, old_readdir, sys_lseek, sys_read,
  }

  abbrev pub Continue : Type 0
  Continue = ℕ → ℕ → ℤ → World → Read World

  abbrev pub after_chunks : Continue → ℕ → ℕ → ℤ → Bool × World → Read World
  after_chunks next posn reclen error (true, w) = next posn reclen error w
  after_chunks next posn reclen error (false, w) = faulted w

  -- An entry that does not fit is given back, unless it is the first.
  abbrev pub put_entry : Continue → ℕ → ℕ → ℤ → Dirent → World → Read World
  put_entry next posn here error de w =
      let namlen = length de.d_name in
      let reclen = record_length namlen in
      if ltb count (posn + reclen)
      then next posn reclen error (if posn == 0 then w else sys_lseek fd here w)
      else after_chunks next (posn + chunks_length namlen namlen) reclen error
          (put_chunks host buf namlen posn de.d_ino de.d_name w)

  abbrev pub read_entry : Continue → ℕ → ℕ → ℤ × Dirent × World → Read World
  read_entry next posn here (error, de, w) =
      if leb_ℤ error (pos 0) then ended posn error w else put_entry next posn here error de w

  -- `while (posn + reclen < count)`; `here` is the file's position before the entry.
  unfoldable pub read_loop : ℕ → ℕ → ℕ → ℤ → World → Read World
  read_loop zero posn reclen error w = exhausted
  read_loop (suc fuel) posn reclen error w =
      if ltb (posn + reclen) count
      then read_entry (read_loop fuel) posn (f_pos w) (old_readdir fd w)
      else ended posn error w

  -- `return (posn ? posn : error)`, and what the other ends return; none without fuel.
  abbrev pub read_result : Read World → Option (ℤ × World)
  read_result (ended posn error w) =
      some (if posn == 0 then error else pos posn, fput (free_page w))
  read_result (faulted w) = some (neg efault, fput (free_page w))
  read_result exhausted = none

  abbrev pub with_page : Bool × World → Option (ℤ × World)
  with_page (false, w) = some (neg enomem, fput w)
  with_page (true, w) = read_result (read_loop (suc count) 0 0 (pos 0) w)

  abbrev pub with_file : Bool × World → Option (ℤ × World)
  with_file (false, w) = some (neg ebadf, w)
  with_file (true, w) = with_page (get_free_page w)

  -- A round of the loop moves the position by 16 or is the last: `count` rounds are enough.
  unfoldable pub abi_read_dir : World → Option (ℤ × World)
  abi_read_dir w = with_file (fget fd w)

  abbrev pub if_directory : ℤ × World → Option (ℤ × World)
  if_directory (error, w) = if eqb_ℤ error (neg eisdir) then abi_read_dir w else some (error, w)

  unfoldable pub abi_read : World → Option (ℤ × World)
  abi_read w = if_directory (sys_read fd buf (pos count) w)
