-- ===== src/Svr4/Getdents.antt =====
-- abiemu/abi/svr4/open.c: getdents(2), which the kernel's vfs_readdir calls back for each entry.
pub mod Within
use linux_abiemu.Prelude.{
  ℕ, ◌+◌, ◌*◌, ◌/◌, ◌-◌, ◌%◌, ◌^◌, Bool, true, false, Option, none, some, List, [], ◌∷◌, ℤ, pos,
  neg, pos_part, is_neg, is_zero, ◌==◌, leb, if◌then◌else◌, length,
}
use linux_abiemu.Kernel.Domain.{einval, efault}
use linux_abiemu.Svr4.Readdir.{ebadf}

-- What vfs_readdir gives to the callback.
pub record Entry : Type 0 where
  pub name : List ℕ
  pub offset : ℕ
  pub ino : ℕ

-- `struct svr4_getdents_callback`; the member current_dir has this name and previous is none for
-- NULL. No record is of length 0, so that a negative count leaves as much room as 0.
pub record Callback : Type 0 where
  pub current_dir : ℕ
  pub previous : Option ℕ
  pub count : ℕ
  pub error : ℤ

-- The kernel's calls and user memory: `put n a v` stores v in the n bytes from a on, `put_name`
-- copies a name and gives false where it cannot. `entries` are those that vfs_readdir offers to the
-- callback, in order, until one is refused, and `readdir_error` is its result.
pub record DentsHost : Type 1 where
  pub World : Type 0
  pub short_inode : Bool
  pub fget : ℤ → World → Option ℕ × World
  pub fput : ℕ → World → World
  pub entries : ℕ → World → List Entry
  pub readdir_error : ℕ → World → ℤ
  pub f_pos : ℕ → World → ℕ
  pub get_long : ℕ → World → ℕ
  pub put : ℕ → ℕ → ℕ → World → World
  pub put_name : ℕ → List ℕ → World → Bool × World

-- ROUND_UP(NAME_OFFSET(dirent) + namlen + 1): a long has 4 bytes, and d_name stands at 10 after
-- d_ino, d_off at 4 and d_reclen at 8.
abbrev pub record_length : List ℕ → ℕ
record_length name = (10 + length name + 1 + 3) / 4 * 4

module _ (host : DentsHost) where
  open host use {
    World, short_inode, fget, fput, entries, readdir_error, f_pos, get_long, put, put_name,
  }

  abbrev pub set_offset : Option ℕ → ℕ → World → World
  set_offset none offset w = w
  set_offset (some dirent) offset w = put 4 (dirent + 4) (offset % 2 ^ 32) w

  -- The test is of what stands in the program's memory.
  abbrev pub fold_inode : ℕ → World → World
  fold_inode dirent w =
      if short_inode
      then (if get_long dirent w % 2 ^ 16 == 0 then put 4 dirent 0xffff_fffe w else w)
      else w

  abbrev pub put_header : Callback → Entry → World → World
  put_header buf e w =
      let w' = fold_inode buf.current_dir (set_offset buf.previous e.offset w) in
      put 2 (buf.current_dir + 8) (record_length e.name % 2 ^ 16)
        (put 4 buf.current_dir (e.ino % 2 ^ 32) w')

  abbrev pub named : Callback → Entry → Bool × World → ℤ × Callback × World
  named buf e (false, w) =
      (neg efault, record buf { previous = some buf.current_dir; error = neg einval }, w)
  named buf e (true, w) = (
    pos 0,
    record {
      current_dir = buf.current_dir + record_length e.name;
      previous = some buf.current_dir;
      count = buf.count - record_length e.name;
      error = neg einval;
    },
    put 1 (buf.current_dir + 10 + length e.name) 0 w,
  )

  unfoldable pub svr4_filldir : Callback → Entry → World → ℤ × Callback × World
  svr4_filldir buf e w =
      if leb (record_length e.name) buf.count
      then named buf e (put_name (buf.current_dir + 10) e.name (put_header buf e w))
      else (neg einval, record buf { error = neg einval }, w)

  -- vfs_readdir calls back until an entry is refused.
  unfoldable pub fill : List Entry → Callback → World → Callback × World
  fill [] buf w = (buf, w)
  fill (e ∷ es) buf w =
      let (error, buf', w') = svr4_filldir buf e w in
      let rest = fill es buf' w' in if is_zero error then rest else (buf', w')

  abbrev pub finished : ℕ → ℕ → Callback × World → ℤ × World
  finished file count (buf, w) = last buf.previous
    where
      last : Option ℕ → ℤ × World
      last none = (buf.error, w)
      last (some dirent) = (pos (count - buf.count), put 4 (dirent + 4) (f_pos file w % 2 ^ 32) w)

  abbrev pub no_entry : ℕ → ℕ → Callback
  no_entry dirent count = record {
    current_dir = dirent;
    previous = none;
    count = count;
    error = pos 0;
  }

  abbrev pub read_file : ℕ → ℕ → Option ℕ × World → ℤ × World
  read_file dirent count (none, w) = (neg ebadf, w)
  read_file dirent count (some file, w) =
      let filled = fill (entries file w) (no_entry dirent count) w in
      let (result, w') =
        if is_neg (readdir_error file w)
        then (readdir_error file w, filled.1)
        else finished file count filled in
      (result, fput file w')

  unfoldable pub svr4_getdents : ℤ → ℕ → ℤ → World → ℤ × World
  svr4_getdents fd dirent count w = read_file dirent (pos_part count) (fget fd w)
