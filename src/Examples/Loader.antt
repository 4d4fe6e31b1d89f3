-- ===== src/Examples/Loader.antt =====
-- The COFF loader at a small kernel, whose state is its books, and at files that it reads wrongly.
use linux_abiemu.Prelude.{
  ℕ, zero, suc, ◌≤◌, true, false, some, List, [], ◌∷◌, ◌++◌, ◌≡◌, ◌≢◌, refl, sym, ap, ==_ne, arith,
  ℤ, pos, neg, int32, eqb_ℤ, eqb_ℤ_refl, ◌==◌, ltb, if◌then◌else◌, length,
}
use linux_abiemu.Kernel.Domain.{enoexec}
use linux_abiemu.Fs.Coff.Host.{
  Numbers, Header, Section, Binprm, Call, do_mmap, CoffHost, Ledger, Ledgers, Reads,
}
use linux_abiemu.Fs.Coff.Comments.{codes, coff_parse_comments, parse_chunks, scan, try_clues, skip}
use linux_abiemu.Fs.Coff.Comments.Ended.{Finished, coff_parse_comments-Finished}
use linux_abiemu.Fs.Coff.Libraries.Within.{Names}
use linux_abiemu.Fs.Coff.{
  coff_load_object, coff_load_binary, coff_load_shlib, load_sections, commit, find_personality,
  load_image,
}
use linux_abiemu.Fs.Coff.Stack.{coff_mktables, put_strings}
use linux_abiemu.Fs.Coff.Image.{start_address, bad_header, find_sections, map_image, map_coff}
use linux_abiemu.Fs.Coff.Books.{Balanced}
use linux_abiemu.Fs.Coff.Balanced.{loads-Balanced}
use linux_abiemu.Fs.Coff.Refused.{Labels, Quiet, Judged, coff_load_object-Judged}

abbrev coff : Numbers
coff = record {
  f_exec = 2;
  f_ar32wr = 0x100;
  f_ar16wr = 0x80;
  styp_text = 0x20;
  styp_data = 0x40;
  styp_bss = 0x80;
  styp_lib = 0x800;
  styp_info = 0x200;
  omagic = 0x104;
  zmagic = 0x10b;
  stmagic = 0x101;
  shmagic = 0x123;
  filhsz = 20;
  aoutsz = 28;
  scnhsz = 40;
  slibsz = 12;
}

abbrev sect : ℕ → ℕ → ℕ → ℕ → Section
sect kind vaddr size scnptr = record {
  s_vaddr = vaddr;
  s_size = size;
  s_scnptr = scnptr;
  s_flags = kind;
}

-- Text, data, bss, comments and a list of one library.
abbrev program : List Section
program =
    sect 0x20 0xd0 0x500 0xd0
    ∷ sect 0x40 0x4005d0 0x100 0x5d0
    ∷ sect 0x80 0x4006d0 0x2000 0
    ∷ sect 0x200 0 16 0x6d0
    ∷ sect 0x800 0 16 0x6e0
    ∷ []

abbrev header : Header
header = record {
  bad_magic = false;
  f_flags = 0x103;
  f_nscns = 5;
  f_opthdr = 28;
  aout_magic = 0x10b;
  entry = 0x100;
}

abbrev bprm : Binprm
bprm = record { header = header; p = 0xbfffff00; argc = 1; envc = 1 }

abbrev pred : ℕ → ℕ
pred zero = 0
pred (suc n) = n

-- A descriptor that is closed; one that is not open is not.
abbrev without : ℤ → List ℤ → List ℤ
without fd [] = []
without fd (f ∷ fs) = if eqb_ℤ fd f then fs else f ∷ without fd fs

abbrev blank : ℕ → List ℕ
blank zero = []
blank (suc n) = 0 ∷ blank n

abbrev mapped : Call → ℤ
mapped (do_mmap file at n prot flags offset) = int32 at
mapped _ = pos 0

-- Every file holds 16 zero bytes, of which a read gives as many as it is asked for.
abbrev kernel : CoffHost
kernel = record {
  World = Ledger;
  numbers = coff;
  call = λ c l. (mapped c, l);
  act = λ a l. l;
  get_fs = λ l. l.limit;
  set_fs = λ fs l. record l { limit = fs };
  kernel_ds = 0;
  kmalloc = λ n l. (true, record l { buffers = suc l.buffers });
  kfree = λ l. record l { buffers = pred l.buffers };
  get_free_page = λ l. (true, record l { pages = suc l.pages });
  free_page = λ l. record l { pages = pred l.pages };
  read_sections = λ at n l. (pos n, program, l);
  kernel_read = λ at n l. (pos (if ltb n 16 then n else 16), blank 16, l);
  slib_at = λ phdr. record { sl_entsz = 4; sl_pathndx = 3 };
  header_at = λ buf. header;
  get_unused_fd = λ l. (pos 3, record l { files = pos 3 ∷ l.files });
  fd_install = λ fd l. l;
  sys_close = λ fd l. record l { files = without fd l.files };
  has_mmap = λ l. true;
  ptraced = λ l. false;
  strlen_user = λ a l. 4;
  defhandler_coff = 0x700_0003;
}

abbrev books : Ledger
books = record { files = []; buffers = 0; pages = 0; limit = 7 }

impossible : {A : Type 0} → true ≡ false → A
impossible h = cc h

one_free :
    (l w : Ledger)
    → w ≡ record l { buffers = suc l.buffers }
    → record w { buffers = pred w.buffers } ≡ l
one_free l w h = rw h refl

one_page :
    (l w : Ledger) → w ≡ record l { pages = suc l.pages } → record w { pages = pred w.pages } ≡ l
one_page l w h = rw h refl

one_close :
    (fd : ℤ) (l w : Ledger)
    → w ≡ record l { files = fd ∷ l.files }
    → record w { files = without fd w.files } ≡ l
one_close fd l w h = rw (h, eqb_ℤ_refl fd) refl

abbrev law : Ledgers kernel
law = record {
  ledger = λ l. l;
  ledger-call = λ c l. refl;
  ledger-act = λ a l. refl;
  ledger-get_fs = λ l. refl;
  ledger-set_fs = λ fs l. refl;
  ledger-kmalloc = λ n l h. refl;
  ledger-kmalloc_failed = λ n l h. impossible h;
  ledger-kfree = λ l w h. one_free l w h;
  ledger-get_free_page = λ l h. refl;
  ledger-get_free_page_failed = λ l h. impossible h;
  ledger-free_page = λ l w h. one_page l w h;
  ledger-read_sections = λ at n l. refl;
  ledger-kernel_read = λ at n l. refl;
  ledger-unused_fd = λ l h. refl;
  ledger-no_fd = λ l h. impossible (sym h);
  ledger-fd_install = λ fd l. refl;
  ledger-close = λ fd l w h. one_close fd l w h;
}

given : (n : ℕ) → (if ltb n 16 then n else 16) ≤ n
given n = ground arith

all_given : (n : ℕ) → pos (if ltb n 16 then n else 16) ≡ pos n → n ≤ 16
all_given n h = let same : (if ltb n 16 then n else 16) ≡ n = cc h in ground arith

abbrev reads : Reads kernel
reads = record { at_most = λ at n l. given n; whole = λ at n l h. all_given n h }

coff_parse_comments-Finished_example :
    Finished kernel law reads books
      (coff_parse_comments kernel (sect 0x200 0 10000 0x6d0) 0x500_0002 books)
coff_parse_comments-Finished_example =
    coff_parse_comments-Finished kernel law reads (sect 0x200 0 10000 0x6d0) 0x500_0002 books

loads-Balanced_example :
    Balanced kernel law books (coff_load_binary kernel bprm books)
    × Balanced kernel law books (coff_load_shlib kernel 300 128 books)
loads-Balanced_example = loads-Balanced kernel law reads bprm 300 128 books

-- No buffer is held outside of a library's section, and the limit is 7 but for sys_uselib.
abbrev names : Names kernel
names = record {
  Kept = λ l. (l.buffers ≡ 0) × (l.limit ≡ 7);
  Held = λ l. (l.buffers ≡ 1) × (l.limit ≡ 7);
  Filled = λ n buffer l. (l.buffers ≡ 1) × (l.limit ≡ 7);
  Raised = λ fs n buffer l. (l.buffers ≡ 1) × (l.limit ≡ 0) × (fs ≡ 7);
  held-kmalloc = λ n l e k. (ap suc k.0, k.1);
  kept-kmalloc = λ n l e k. impossible e;
  kept-kfree = λ n buffer l k. (ap pred k.0, k.1);
  filled-kernel_read = λ at n l k. k;
  raised-set_fs = λ n buffer l k. (k.0, refl, k.1);
  raised-uselib = λ fs n buffer at l whole sound k. k;
  filled-set_fs = λ fs n buffer l k. (k.0, k.2);
}

different : (a b : ℕ) → (a == b) ≡ false → a ≢ b
different a b h = ==_ne a b h

abbrev labels : Labels coff
labels = record {
  text_data = different 0x20 0x40 refl;
  text_bss = different 0x20 0x80 refl;
  data_bss = different 0x40 0x80 refl;
}

abbrev quiet : Quiet kernel
quiet = record {
  Kept = λ l. l.limit ≡ 7;
  kept-kmalloc = λ n l k. k;
  kept-kfree = λ l k. k;
  kept-read_sections = λ at n l k. k;
  kept-unused_fd = λ l k. k;
  kept-fd_install = λ fd l k. k;
  kept-close = λ fd l k. k;
}

-- A library without an optional header.
abbrev headless : Binprm
headless = record bprm { header = record header { f_opthdr = 0 } }

coff_load_object-Judged_example :
    Judged kernel labels quiet false headless.header program
      (coff_load_object kernel false headless books)
coff_load_object-Judged_example =
    coff_load_object-Judged kernel labels quiet false headless books refl

-- Where the text cannot be mapped, the process keeps the limit of the kernel.
abbrev full : CoffHost
full = record kernel { call = λ c l. (pos 0, l) }

limit_kept : coff_load_object full true bprm books ≡ some (neg enoexec, record books { limit = 0 })
unfolding coff_load_object load_sections start_address bad_header find_sections commit
    find_personality coff_parse_comments parse_chunks scan try_clues skip load_image map_image
    map_coff coff_mktables put_strings
limit_kept = refl

-- A chunk of strings of one character before the name of a system: each of them counts for one
-- byte more than it has.
abbrev strings : ℕ → List ℕ
strings zero = codes "INTERACTIVE" ++ (0 ∷ [])
strings (suc n) = 0x78 ∷ 0 ∷ strings n

abbrev commented : ℕ → CoffHost
commented n = record kernel {
  kernel_read = λ at size l. (if at == 0 then pos (length (strings n)) else pos 0, strings n, l);
}

-- After five it is found, after fifteen it is not.
clue_found :
    coff_parse_comments (commented 5) (sect 0x200 0 22 0) 0x500_0002 books
    ≡ some (pos 1, 0x400_0005, books)
unfolding coff_parse_comments parse_chunks scan try_clues skip
clue_found = refl

clue_missed :
    coff_parse_comments (commented 15) (sect 0x200 0 42 0) 0x500_0002 books
    ≡ some (pos 0, 0x500_0002, books)
unfolding coff_parse_comments parse_chunks scan try_clues skip
clue_missed = refl
