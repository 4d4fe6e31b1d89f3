-- ===== src/Svr4/Readdir/Loop.antt =====
-- That reading a directory comes to an end, within the program's buffer.
use linux_abiemu.Prelude.{
  ℕ, zero, suc, ◌+◌, ◌-◌, ◌≤◌, ◌<◌, Bool, true, false, Option, some, ◌≡◌, ◌⊎◌, inl, inr, refl, ℤ,
  pos, neg, leb_ℤ, ltb, ◌==◌, length, arith, Bool-cases, List, if◌then◌else◌, take, drop,
  length-drop, length-take,
}
use linux_abiemu.Kernel.Domain.{efault, enomem}
use linux_abiemu.Svr4.Readdir.{
  Dirent, DirHost, Read, ended, faulted, read_loop, read_entry, put_entry, after_chunks, Continue,
  chunks_length, record_length, pad, last_chunk, put_chunks, and_then, abi_read_dir, read_result,
  with_page, with_file, ebadf,
}

-- A name of n characters takes the records that its length is computed for; none has no name.
chunks_length_lem : (fuel n : ℕ) → 1 ≤ n → n ≤ fuel → chunks_length fuel n ≡ record_length n
unfolding chunks_length
chunks_length_lem zero n h l = absurd (omega arith)
chunks_length_lem (suc fuel) n h l = elim (Bool-cases (ltb 14 n)) [
  | inl e ↦ rw e (omega (arith, chunks_length_lem fuel (n - 14) (ground arith) (omega arith)))
  | inr e ↦ rw e (ground arith)
]

-- What old_readdir returns: 1 with a name that is not empty, 0 or an error.
pub record Readdir (host : DirHost) : Type 0 where
  pub at_most_1 : (fd : ℤ) (w : host.World) → leb_ℤ (host.old_readdir fd w).0 (pos 1) ≡ true
  pub named :
      (fd : ℤ) (w : host.World)
      → leb_ℤ (host.old_readdir fd w).0 (pos 0) ≡ false
      → 1 ≤ length (host.old_readdir fd w).1.d_name

-- What holds of a state as long as only the bytes from lo up to hi are written: every predicate
-- that stores and copies in that range keep, and that the kernel's other calls keep.
pub record Confined (host : DirHost) (lo hi : ℕ) : Type 1 where
  pub Kept : host.World → Type 0
  pub kept-put : (a v : ℕ) (w : host.World) → lo ≤ a → a + 1 ≤ hi → Kept w → Kept (host.put a v w).1
  pub kept-put_short :
      (a v : ℕ) (w : host.World) → lo ≤ a → a + 2 ≤ hi → Kept w → Kept (host.put_short a v w)
  pub kept-copy :
      (a : ℕ) (bytes : List ℕ) (w : host.World)
      → lo ≤ a
      → a + length bytes ≤ hi
      → Kept w
      → Kept (host.copy a bytes w).1
  pub kept-fget : (fd : ℤ) (w : host.World) → Kept w → Kept (host.fget fd w).1
  pub kept-fput : (w : host.World) → Kept w → Kept (host.fput w)
  pub kept-get_free_page : (w : host.World) → Kept w → Kept (host.get_free_page w).1
  pub kept-free_page : (w : host.World) → Kept w → Kept (host.free_page w)
  pub kept-old_readdir : (fd : ℤ) (w : host.World) → Kept w → Kept (host.old_readdir fd w).2
  pub kept-sys_lseek : (fd : ℤ) (at : ℕ) (w : host.World) → Kept w → Kept (host.sys_lseek fd at w)

-- An entry is written within the records that its length is computed for.
module _ (host : DirHost) (buf hi : ℕ) (law : Confined host buf hi) where
  open host use {World, put, put_short, copy}
  open law use {Kept, kept-put, kept-put_short, kept-copy}

  then_kept :
      (out : Bool × World) (next : World → Bool × World)
      → Kept out.1
      → ((w : World) → Kept w → Kept (next w).1)
      → Kept (and_then host buf out next).1
  then_kept (true, w) next k go = go w k
  then_kept (false, w) next k go = k

  pad_kept : (n at : ℕ) (w : World) → buf ≤ at → at + n ≤ hi → Kept w → Kept (pad host buf n at w).1
  unfolding pad
  pad_kept zero at w low high k = k
  pad_kept (suc n) at w low high k =
      then_kept (put at 0 w) _ (kept-put at 0 w low (omega arith) k)
        λ v kept. pad_kept n (suc at) v (omega arith) (omega arith) kept

  last_kept :
      (posn ino : ℕ) (name : List ℕ) (w : World)
      → length name ≤ 14
      → buf + posn + 16 ≤ hi
      → Kept w
      → Kept (last_chunk host buf posn ino name w).1
  unfolding last_chunk
  last_kept posn ino name w short fits k =
      then_kept (put (buf + posn) _ w) _ (kept-put _ _ w (omega arith) (omega arith) k) λ v kept.
        then_kept (copy (buf + posn + 2) name v) _
          (kept-copy _ name v (omega arith) (omega arith) kept)
          λ v' kept'. pad_kept _ _ v' (omega arith) (omega arith) kept'

  chunks_kept :
      (fuel posn ino : ℕ) (name : List ℕ) (w : World)
      → length name ≤ fuel
      → 1 ≤ length name
      → buf + posn + record_length (length name) ≤ hi
      → Kept w
      → Kept (put_chunks host buf fuel posn ino name w).1
  unfolding put_chunks
  chunks_kept zero posn ino name w enough some_name fits k = absurd (omega arith)
  chunks_kept (suc fuel) posn ino name w enough some_name fits k =
      elim (Bool-cases (ltb 14 (length name))) [
        | inr e ↦ rw e (last_kept posn ino name w (ground arith) (ground arith) k)
        | inl e ↦
            let long : 14 < length name = ground arith in
            let rest : length (drop 14 name) ≡ length name - 14 = length-drop 14 name in
            let first : length (take 14 name) ≡ 14 = length-take 14 name (omega (arith, long)) in
            rw e (
              then_kept (copy (buf + posn + 2) (take 14 name) (put_short (buf + posn) 0xffff w)) _
                (kept-copy _ _ _ (omega arith) (omega (arith, first, fits, long))
                  (kept-put_short _ _ w (omega arith) (omega (arith, fits, long)) k))
                λ v kept.
                  chunks_kept fuel (posn + 16) ino (drop 14 name) v
                    (omega (arith, rest, enough, long)) (omega (arith, rest, long))
                    (omega (arith, rest, fits, long)) kept)
      ]

leb_ℤ_more : (e : ℤ) (n : ℕ) → leb_ℤ e (pos 1) ≡ true → 1 ≤ n → leb_ℤ e (pos n) ≡ true
leb_ℤ_more e n h l = ground arith

-- A fitting name takes at least one record.
fitting : (n : ℕ) → 1 ≤ n → 16 ≤ record_length n
fitting n h = omega arith

module _ (host : DirHost) (law : Readdir host) (fd : ℤ) (buf count : ℕ)
    (bound : Confined host buf (buf + count)) where
  open host use {World, old_readdir, f_pos}
  open bound use {Kept}

  -- The loop has ended, at a position in the buffer and with a value that is no larger than it.
  pub data Within : Read World → Type 0 where
    at_end :
        (posn : ℕ) (error : ℤ) (w : World)
        → posn ≤ count
        → leb_ℤ error (pos count) ≡ true
        → Kept w
        → Within (ended posn error w)
    at_fault : (w : World) → Kept w → Within (faulted w)

  -- One round, given what the next ones do.
  module _ (next : Continue host fd buf count) (posn : ℕ) (room : posn < count) (w : World)
      (again : (posn' reclen : ℕ) (error : ℤ) (w' : World)
        → posn < posn' ⊎ count < posn' + reclen
        → posn' ≤ count
        → leb_ℤ error (pos count) ≡ true
        → Kept w'
        → Within (next posn' reclen error w')) where
    after-Within :
        (posn' reclen : ℕ) (error : ℤ) (out : Bool × World)
        → posn < posn'
        → posn' ≤ count
        → leb_ℤ error (pos count) ≡ true
        → Kept out.1
        → Within (after_chunks host fd buf count next posn' reclen error out)
    after-Within posn' reclen error (true, w') h l e k = again posn' reclen error w' (inl h) l e k
    after-Within posn' reclen error (false, w') h l e k = at_fault w' k

    sought :
        (here : ℕ) (w' : World)
        → Kept w'
        → Kept (if posn == 0 then w' else host.sys_lseek fd here w')
    sought here w' k = elim (Bool-cases (posn == 0)) [
      | inl e ↦ rw e k
      | inr e ↦ rw e (bound.kept-sys_lseek fd here w' k)
    ]

    put_entry-Within :
        (here : ℕ) (error : ℤ) (de : Dirent) (w' : World)
        → 1 ≤ length de.d_name
        → leb_ℤ error (pos count) ≡ true
        → Kept w'
        → Within (put_entry host fd buf count next posn here error de w')
    put_entry-Within here error de w' h e k =
        elim (Bool-cases (ltb count (posn + record_length (length de.d_name)))) [
          | inl f ↦
              rw f (again posn _ error _ (inr (ground arith)) (omega arith) e (sought here w' k))
          | inr f ↦
              let moved = chunks_length_lem (length de.d_name) (length de.d_name) h (omega arith) in
              let far = fitting (length de.d_name) h in
              rw f (
                after-Within _ _ error _ (omega (arith, moved, far)) (ground (arith, moved)) e (
                  chunks_kept host buf (buf + count) bound _ posn _ de.d_name w' (omega arith) h
                    (ground arith) k))
        ]

    read_entry-Within :
        Kept w → Within (read_entry host fd buf count next posn (f_pos w) (old_readdir fd w))
    read_entry-Within k = elim (Bool-cases (leb_ℤ (old_readdir fd w).0 (pos 0))) [
      | inl e ↦ rw e (
          at_end posn _ _ (omega arith)
            (leb_ℤ_more (old_readdir fd w).0 count (law.at_most_1 fd w) (omega arith))
            (bound.kept-old_readdir fd w k))
      | inr e ↦ rw e (
          put_entry-Within (f_pos w) _ _ _ (law.named fd w e)
            (leb_ℤ_more (old_readdir fd w).0 count (law.at_most_1 fd w) (omega arith))
            (bound.kept-old_readdir fd w k))
    ]

  read_loop-Within :
      (fuel posn reclen : ℕ) (error : ℤ) (w : World)
      → (count < posn + reclen) × (1 ≤ fuel) ⊎ (count < fuel + posn)
      → posn ≤ count
      → leb_ℤ error (pos count) ≡ true
      → Kept w
      → Within (read_loop host fd buf count fuel posn reclen error w)
  unfolding read_loop
  read_loop-Within zero posn reclen error w h l e k = absurd (ground arith)
  read_loop-Within (suc fuel) posn reclen error w h l e k =
      elim (Bool-cases (ltb (posn + reclen) count)) [
        | inr f ↦ rw f (at_end posn error w l e k)
        | inl f ↦ rw f (
            read_entry-Within (read_loop host fd buf count fuel) posn (ground arith) w
              (λ posn' reclen' error' w' g l' e' k'.
                read_loop-Within fuel posn' reclen' error' w' (ground arith) l' e' k')
              k)
      ]

  -- What read(2) on a directory returns: a value, and the state it leaves.
  pub data Returned (out : Option (ℤ × World)) : Type 0 where
    returned :
        (r : ℤ) (w' : World)
        → out ≡ some (r, w')
        → leb_ℤ r (pos count) ≡ true
        → Kept w'
        → Returned out

  freed_kept : (w : World) → Kept w → Kept (host.fput (host.free_page w))
  freed_kept w k = bound.kept-fput _ (bound.kept-free_page w k)

  result-Returned : (r : Read World) → Within r → Returned (read_result host fd buf count r)
  result-Returned r (at_end posn error w l e k) = elim (Bool-cases (posn == 0)) [
    | inl f ↦ rw f (returned error (host.fput (host.free_page w)) refl e (freed_kept w k))
    | inr f ↦
        rw f
          (returned (pos posn) (host.fput (host.free_page w)) refl (ground arith) (freed_kept w k))
  ]
  result-Returned r (at_fault w k) = returned (neg efault) _ refl (ground arith) (freed_kept w k)

  page-Returned : (page : Bool × World) → Kept page.1 → Returned (with_page host fd buf count page)
  page-Returned (false, w) k = returned (neg enomem) _ refl (ground arith) (bound.kept-fput w k)
  page-Returned (true, w) k = result-Returned _ (
      read_loop-Within (suc count) 0 0 (pos 0) w (inr (omega arith)) (omega arith) (ground arith) k)

  file-Returned : (file : Bool × World) → Kept file.1 → Returned (with_file host fd buf count file)
  file-Returned (false, w) k = returned (neg ebadf) _ refl (ground arith) k
  file-Returned (true, w) k = page-Returned _ (bound.kept-get_free_page w k)

  -- read(2) on a directory returns, with no more than the count that the program asked for: the
  -- loop over the entries ends, whatever the directory holds. It writes nothing but the count bytes
  -- of the program's buffer: what only such writes can change (`Confined`) holds afterwards.
  pub abi_read_dir-Returned : (w : World) → Kept w → Returned (abi_read_dir host fd buf count w)
  unfolding abi_read_dir
  abi_read_dir-Returned w k = file-Returned (host.fget fd w) (bound.kept-fget fd w k)
