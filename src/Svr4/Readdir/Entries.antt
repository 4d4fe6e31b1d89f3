-- ===== src/Svr4/Readdir/Entries.antt =====
-- What an entry of a directory looks like in the program's memory.
use linux_abiemu.Prelude.{
  ℕ, zero, suc, ◌+◌, ◌-◌, ◌/◌, ◌%◌, ◌^◌, ◌<◌, true, List, [], ◌∷◌, ◌≡◌, refl, ◌∙◌, pos, ◌==◌,
  ==_of_ne, ==_refl, if◌then◌else◌, length, arith,
}
use linux_abiemu.Prelude.Masks.{bit_and_short}
use linux_abiemu.Svr4.Types.{linux_to_svr4_o_ino_t}
use linux_abiemu.Svr4.Readdir.{DirHost, short_inode, last_chunk, pad}

-- Reading a directory folds inode numbers as stat does.
pub short_inode-o_ino_t : (ino : ℕ) → short_inode ino ≡ linux_to_svr4_o_ino_t ino
short_inode-o_ino_t ino = rw (bit_and_short ino) refl

-- Memory that can be written everywhere.
abbrev pub Memory : Type 0
Memory = ℕ → ℕ

abbrev pub store : ℕ → ℕ → Memory → Memory
store a v mem b = if b == a then v else mem b

abbrev pub store_all : ℕ → List ℕ → Memory → Memory
store_all a [] mem = mem
store_all a (v ∷ vs) mem = store_all (suc a) vs (store a v mem)

-- A kernel with such a memory, and with one file that holds no entry.
abbrev pub memory_host : DirHost
memory_host = record {
  World = Memory;
  fget = λ fd mem. (true, mem);
  fput = λ mem. mem;
  get_free_page = λ mem. (true, mem);
  free_page = λ mem. mem;
  f_pos = λ mem. 0;
  old_readdir = λ fd mem. (pos 0, record { d_ino = 0; d_name = [] }, mem);
  sys_lseek = λ fd at mem. mem;
  sys_read = λ fd buf count mem. (pos 0, mem);
  put = λ a v mem. (true, store a v mem);
  put_short = λ a v mem. store (suc a) (v / 2 ^ 8 % 2 ^ 8) (store a (v % 2 ^ 8) mem);
  copy = λ a vs mem. (true, store_all a vs mem);
}

store_all_below : (vs : List ℕ) (a b : ℕ) (mem : Memory) → b < a → store_all a vs mem b ≡ mem b
store_all_below [] a b mem h = refl
store_all_below (v ∷ vs) a b mem h =
    store_all_below vs (suc a) b (store a v mem) (omega arith)
    ∙ rw (==_of_ne b a (omega arith)) refl

module _ (buf : ℕ) where
  pad_below : (n a b : ℕ) (mem : Memory) → b < a → (pad memory_host buf n a mem).1 b ≡ mem b
  unfolding pad
  pad_below zero a b mem h = refl
  pad_below (suc n) a b mem h =
      pad_below n (suc a) b (store a 0 mem) (omega arith) ∙ rw (==_of_ne b a (omega arith)) refl

  -- Of the inode number of an entry only the low byte is stored, that of the number that stat
  -- shows; the byte above it keeps what the program's buffer held before.
  pub last_chunk_inode :
      (posn ino : ℕ) (name : List ℕ) (mem : Memory)
      → ((last_chunk memory_host buf posn ino name mem).1 (buf + posn)
          ≡ linux_to_svr4_o_ino_t ino % 2 ^ 8)
        × ((last_chunk memory_host buf posn ino name mem).1 (buf + posn + 1) ≡ mem (buf + posn + 1))
  unfolding last_chunk
  last_chunk_inode posn ino name mem = (
    untouched (buf + posn) (omega arith) ∙ rw (==_refl (buf + posn), short_inode-o_ino_t ino) refl,
    untouched (buf + posn + 1) (omega arith)
        ∙ rw (==_of_ne (buf + posn + 1) (buf + posn) (omega arith)) refl,
  )
    where
      stored : Memory
      stored = store (buf + posn) (short_inode ino % 2 ^ 8) mem

      untouched :
          (b : ℕ)
          → b < buf + posn + 2
          → (pad memory_host buf
                (14 - length name)
                (buf + posn + 2 + length name)
                (store_all (buf + posn + 2) name stored)).1
              b
            ≡ stored b
      untouched b h =
          pad_below (14 - length name) (buf + posn + 2 + length name) b
            (store_all (buf + posn + 2) name stored) (omega arith)
          ∙ store_all_below name (buf + posn + 2) b stored h
