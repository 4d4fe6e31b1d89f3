-- ===== src/Examples/Directories.antt =====
-- Reading directories at small kernels.
use linux_abiemu.Prelude.{
  ℕ, ◌+◌, ◌%◌, ◌^◌, true, some, [], ◌∷◌, ◌≡◌, refl, arith, pos, neg, pos_part, ◌≤◌, Bool, ◌&&◌, leb,
  ltb, if◌then◌else◌, length,
}
use linux_abiemu.Svr4.Types.{linux_to_svr4_o_ino_t}
use linux_abiemu.Svr4.Readdir.{DirHost, abi_read_dir, last_chunk}
use linux_abiemu.Svr4.Readdir.Entries.{memory_host, last_chunk_inode}
use linux_abiemu.Svr4.Readdir.Loop
use linux_abiemu.Svr4.Readdir.Loop.{Readdir, Returned, abi_read_dir-Returned}
use linux_abiemu.Svr4.Getdents.{DentsHost, svr4_getdents}
use linux_abiemu.Svr4.Getdents.Within.{Confined, svr4_getdents-IsConfined}

-- Memory by its bytes; a store fills its bytes with one value.
abbrev within : ℕ → ℕ → ℕ → Bool
within a n b = leb a b && ltb b (a + n)

outside :
    (n a v : ℕ) (m : ℕ → ℕ)
    → a + n ≤ 2000
    → m 2000 ≡ 7
    → (if within a n 2000 then v else m 2000) ≡ 7
outside n a v m h k = ground arith

-- A directory that never ends, of files named "a".
abbrev endless : DirHost
endless = record {
  World = ℕ → ℕ;
  fget = λ fd m. (true, m);
  fput = λ m. m;
  get_free_page = λ m. (true, m);
  free_page = λ m. m;
  f_pos = λ m. 12;
  old_readdir = λ fd m. (pos 1, record { d_ino = 7; d_name = 0x61 ∷ [] }, m);
  sys_lseek = λ fd at m. m;
  sys_read = λ fd buf n m. (neg 21, m);
  put = λ a v m. (true, λ b. if within a 1 b then v else m b);
  put_short = λ a v m b. if within a 2 b then v else m b;
  copy = λ a vs m. (true, λ b. if within a (length vs) b then 0x61 else m b);
}

abbrev endless_law : Readdir endless
endless_law = record { at_most_1 = λ fd w. refl; named = λ fd w h. omega arith }

-- The byte at 2000 lies behind the buffer.
abbrev endless_bound : Loop.Confined endless 1000 (1000 + 40)
endless_bound = record {
  Kept = λ m. m 2000 ≡ 7;
  kept-put = λ a v m l h k. outside 1 a v m (omega (arith, h)) k;
  kept-put_short = λ a v m l h k. outside 2 a v m (omega (arith, h)) k;
  kept-copy = λ a bytes m l h k. outside (length bytes) a 0x61 m (omega (arith, h)) k;
  kept-fget = λ fd m k. k;
  kept-fput = λ m k. k;
  kept-get_free_page = λ m k. k;
  kept-free_page = λ m k. k;
  kept-old_readdir = λ fd m k. k;
  kept-sys_lseek = λ fd at m k. k;
}

abi_read_dir-Returned_example :
    Returned endless endless_law
      (pos 3)
      1000
      40
      endless_bound
      (abi_read_dir endless (pos 3) 1000 40 (λ b. 7))
abi_read_dir-Returned_example =
    abi_read_dir-Returned endless endless_law (pos 3) 1000 40 endless_bound (λ b. 7) refl

-- Memory of ones: the upper byte of the inode number 7 stays 1.
last_chunk_inode_example :
    ((last_chunk memory_host 1000 0 7 (0x61 ∷ []) (λ b. 1)).1 1000
      ≡ linux_to_svr4_o_ino_t 7 % 2 ^ 8)
    × ((last_chunk memory_host 1000 0 7 (0x61 ∷ []) (λ b. 1)).1 1001 ≡ 1)
last_chunk_inode_example = last_chunk_inode 1000 0 7 (0x61 ∷ []) (λ b. 1)

-- A directory of two files, whose names have one and two characters.
abbrev dents_host : DentsHost
dents_host = record {
  World = ℕ → ℕ;
  short_inode = true;
  fget = λ fd m. (some 1, m);
  fput = λ f m. m;
  entries = λ f m.
      record { name = 0x61 ∷ []; offset = 12; ino = 7 }
      ∷ record { name = 0x62 ∷ 0x63 ∷ []; offset = 24; ino = 9 }
      ∷ [];
  readdir_error = λ f m. pos 0;
  f_pos = λ f m. 24;
  get_long = λ a m. m a;
  put = λ n a v m b. if within a n b then v else m b;
  put_name = λ a name m. (true, λ b. if within a (length name) b then 0x61 else m b);
}

abbrev confined : Confined dents_host 1000 (1000 + 24)
confined = record {
  Kept = λ m. m 2000 ≡ 7;
  kept-put = λ n a v m h l k. outside n a v m (omega (arith, l)) k;
  kept-put_name = λ a name m h l k. outside (length name) a 0x61 m (omega (arith, l)) k;
  kept-fget = λ fd m k. k;
  kept-fput = λ f m k. k;
}

svr4_getdents-IsConfined_example :
    (pos_part (svr4_getdents dents_host (pos 3) 1000 (pos 24) (λ b. 7)).0 ≤ 24)
    × ((svr4_getdents dents_host (pos 3) 1000 (pos 24) (λ b. 7)).1 2000 ≡ 7)
svr4_getdents-IsConfined_example =
    svr4_getdents-IsConfined dents_host 1000 (pos 24) confined (pos 3) (λ b. 7) refl
