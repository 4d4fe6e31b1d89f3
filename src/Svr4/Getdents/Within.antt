-- ===== src/Svr4/Getdents/Within.antt =====
-- That getdents(2) stays within the program's buffer (abiemu/abi/svr4/open.c).
use linux_abiemu.Prelude.{
  ℕ, ◌+◌, ◌%◌, ◌^◌, ◌≤◌, Bool, true, false, Option, none, some, List, [], ◌∷◌, ◌≡◌, refl, inl, inr,
  arith, ℤ, pos, negsuc, pos_part, is_neg, is_zero, leb, ◌==◌, length, Bool-cases,
}
use linux_abiemu.Svr4.Getdents.{
  Entry, Callback, DentsHost, record_length, set_offset, fold_inode, put_header, named,
  svr4_filldir, fill, finished, no_entry, read_file, svr4_getdents,
}

-- What holds of a state as long as only the bytes from lo up to hi are written: every predicate
-- that stores and copies in that range keep, and that taking and giving back a file keeps.
pub record Confined (host : DentsHost) (lo hi : ℕ) : Type 1 where
  pub Kept : host.World → Type 0
  pub kept-put :
      (n a v : ℕ) (w : host.World) → lo ≤ a → a + n ≤ hi → Kept w → Kept (host.put n a v w)
  pub kept-put_name :
      (a : ℕ) (name : List ℕ) (w : host.World)
      → lo ≤ a
      → a + length name ≤ hi
      → Kept w
      → Kept (host.put_name a name w).1
  pub kept-fget : (fd : ℤ) (w : host.World) → Kept w → Kept (host.fget fd w).1
  pub kept-fput : (file : ℕ) (w : host.World) → Kept w → Kept (host.fput file w)

-- The room left in a callback: the next record and the last one lie in the buffer.
record Room (lo hi : ℕ) (buf : Callback) : Type 0 where
  above : lo ≤ buf.current_dir
  ends : buf.current_dir + buf.count ≡ hi
  last : (p : ℕ) → buf.previous ≡ some p → (lo ≤ p) × (p + 8 ≤ hi)
  failed : pos_part buf.error ≡ 0

module _ (host : DentsHost) (lo hi : ℕ) (law : Confined host lo hi) where
  open host use {World, short_inode, get_long, put, put_name, entries, readdir_error, fget, f_pos}
  open law use {Kept, kept-put}

  offset_kept :
      (o : Option ℕ) (offset : ℕ) (w : World)
      → ((p : ℕ) → o ≡ some p → (lo ≤ p) × (p + 8 ≤ hi))
      → Kept w
      → Kept (set_offset host o offset w)
  offset_kept none offset w inside k = k
  offset_kept (some p) offset w inside k =
      let (above, below) = inside p refl in
      kept-put 4 (p + 4) (offset % 2 ^ 32) w (omega arith) (omega arith) k

  inode_kept :
      (dirent : ℕ) (w : World)
      → lo ≤ dirent
      → dirent + 4 ≤ hi
      → Kept w
      → Kept (fold_inode host dirent w)
  inode_kept dirent w a b k = elim (Bool-cases short_inode) [
    | inr e ↦ rw e k
    | inl e ↦ elim (Bool-cases (get_long dirent w % 2 ^ 16 == 0)) [
      | inl f ↦ rw (e, f) (kept-put 4 dirent 0xffff_fffe w a b k)
      | inr f ↦ rw (e, f) k
    ]
  ]

  -- The state after an entry, and the room left then.
  record After (out : ℤ × Callback × World) : Type 0 where
    room : Room lo hi out.1
    kept : Kept out.2

  module _ (buf : Callback) (e : Entry) (r : Room lo hi buf)
      (fits : record_length e.name ≤ buf.count) where
    header_kept : (w : World) → Kept w → Kept (put_header host buf e w)
    header_kept w k =
        kept-put 2 (buf.current_dir + 8) (record_length e.name % 2 ^ 16) _ (omega (arith, r.above))
          (omega (arith, fits, r.ends))
          (kept-put 4 buf.current_dir (e.ino % 2 ^ 32) _ r.above (omega (arith, fits, r.ends)) (
            inode_kept buf.current_dir _ r.above (omega (arith, fits, r.ends))
              (offset_kept buf.previous e.offset w r.last k)))

    current_last : (p : ℕ) → some buf.current_dir ≡ some p → (lo ≤ p) × (p + 8 ≤ hi)
    current_last p h =
        let same : buf.current_dir ≡ p = cc h in
        (omega (arith, same, r.above), omega (arith, same, fits, r.ends))

    named-After : (ok : Bool) (w : World) → Kept w → After (named host buf e (ok, w))
    named-After false w k = record {
      room = record { above = r.above; ends = r.ends; last = current_last; failed = refl };
      kept = k;
    }
    named-After true w k = record {
      room = record {
        above = omega (arith, r.above);
        ends = omega (arith, fits, r.ends);
        last = current_last;
        failed = refl;
      };
      kept =
          kept-put 1 (buf.current_dir + 10 + length e.name) 0 w (omega (arith, r.above))
            (omega (arith, fits, r.ends)) k;
    }

  filldir-After :
      (buf : Callback) (e : Entry) (w : World)
      → Room lo hi buf
      → Kept w
      → After (svr4_filldir host buf e w)
  unfolding svr4_filldir
  filldir-After buf e w r k = elim (Bool-cases (leb (record_length e.name) buf.count)) [
    | inr h ↦ rw h (record {
      room = record { above = r.above; ends = r.ends; last = r.last; failed = refl };
      kept = k;
    })
    | inl h ↦
        let fits : record_length e.name ≤ buf.count = ground arith in
        rw h (
          named-After buf e r fits _ _ (
            law.kept-put_name (buf.current_dir + 10) e.name (put_header host buf e w)
              (omega (arith, r.above)) (omega (arith, fits, r.ends))
              (header_kept buf e r fits w k)))
  ]

  fill_after :
      (es : List Entry) (buf : Callback) (w : World)
      → Room lo hi buf
      → Kept w
      → Room lo hi (fill host es buf w).0 × Kept (fill host es buf w).1
  unfolding fill
  fill_after [] buf w r k = (r, k)
  fill_after (e ∷ es) buf w r k =
      let after = filldir-After buf e w r k in
      elim (Bool-cases (is_zero (svr4_filldir host buf e w).0)) [
        | inl h ↦ rw h (fill_after es _ _ after.room after.kept)
        | inr h ↦ rw h (after.room, after.kept)
      ]

  -- The result is at most what was written, and the last record gets its offset.
  finished_kept :
      (file count : ℕ) (buf : Callback) (w : World)
      → Room lo hi buf
      → Kept w
      → (pos_part (finished host file count (buf, w)).0 ≤ count)
        × Kept (finished host file count (buf, w)).1
  finished_kept file count buf w r k = by_last buf.previous refl
    where
      by_last :
          (o : Option ℕ)
          → buf.previous ≡ o
          → (pos_part (finished host file count (buf, w)).0 ≤ count)
            × Kept (finished host file count (buf, w)).1
      by_last none h = rw h (omega (arith, r.failed), k)
      by_last (some p) h =
          let (above, below) = r.last p h in
          rw h (
            omega arith,
            kept-put 4 (p + 4) (f_pos file w % 2 ^ 32) w (omega arith) (omega arith) k,
          )

negative_part : (z : ℤ) → is_neg z ≡ true → pos_part z ≡ 0
negative_part (pos n) h = cc h
negative_part (negsuc n) h = refl

module _ (host : DentsHost) (dirent : ℕ) (count : ℤ)
    (law : Confined host dirent (dirent + pos_part count)) where
  open host use {World, fget, entries, readdir_error}
  open law use {Kept}

  file_kept :
      (o : Option ℕ) (w : World)
      → Kept w
      → (pos_part (read_file host dirent (pos_part count) (o, w)).0 ≤ pos_part count)
        × Kept (read_file host dirent (pos_part count) (o, w)).1
  file_kept none w k = (omega arith, k)
  file_kept (some file) w k =
      let start : Room dirent (dirent + pos_part count) (no_entry host dirent (pos_part count)) =
        record { above = omega arith; ends = refl; last = λ p h. absurd (cc h); failed = refl } in
      let (room, kept) =
        fill_after host dirent (dirent + pos_part count) law (entries file w) _ w start k in
      elim (Bool-cases (is_neg (readdir_error file w))) [
        | inl h ↦ rw h (omega (arith, negative_part _ h), law.kept-fput file _ kept)
        | inr h ↦
            let (bound, after) =
              finished_kept host dirent (dirent + pos_part count) law file (pos_part count) _ _ room
                kept in
            rw h (bound, law.kept-fput file _ after)
      ]

  -- getdents(2) writes nothing but the `count` bytes of the program's buffer, whatever the entries
  -- are: every predicate that writes in this range keep holds after it. A result that is not an
  -- error is at most `count`.
  pub svr4_getdents-IsConfined :
      (fd : ℤ) (w : World)
      → Kept w
      → (pos_part (svr4_getdents host fd dirent count w).0 ≤ pos_part count)
        × Kept (svr4_getdents host fd dirent count w).1
  unfolding svr4_getdents
  svr4_getdents-IsConfined fd w k = file_kept (fget fd w).0 (fget fd w).1 (law.kept-fget fd w k)
