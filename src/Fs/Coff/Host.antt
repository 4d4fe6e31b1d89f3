-- ===== src/Fs/Coff/Host.antt =====
-- What the COFF loader (abiemu/fs/binfmt_coff.c) calls of the kernel, and what it reads of
-- linux/coff.h.
use linux_abiemu.Prelude.{
  ℕ, suc, ◌+◌, ◌*◌, ◌/◌, ◌%◌, ◌^◌, ◌≤◌, Bool, true, false, List, ◌∷◌, ◌≡◌, ℤ, pos, pos_part, is_neg,
  length,
}

-- The numbers of linux/coff.h: flags of the file, kinds of sections, magic numbers of the optional
-- header and sizes of the structures.
pub record Numbers : Type 0 where
  pub f_exec : ℕ
  pub f_ar32wr : ℕ
  pub f_ar16wr : ℕ
  pub styp_text : ℕ
  pub styp_data : ℕ
  pub styp_bss : ℕ
  pub styp_lib : ℕ
  pub styp_info : ℕ
  pub omagic : ℕ
  pub zmagic : ℕ
  pub stmagic : ℕ
  pub shmagic : ℕ
  pub filhsz : ℕ
  pub aoutsz : ℕ
  pub scnhsz : ℕ
  pub slibsz : ℕ

-- COFF_FILHDR with the optional header that may follow it, and COFF_SCNHDR, as COFF_SHORT and
-- COFF_LONG read them. `bad_magic` is COFF_I386BADMAG.
pub record Header : Type 0 where
  pub bad_magic : Bool
  pub f_flags : ℕ
  pub f_nscns : ℕ
  pub f_opthdr : ℕ
  pub aout_magic : ℕ
  pub entry : ℕ

pub record Section : Type 0 where
  pub s_vaddr : ℕ
  pub s_size : ℕ
  pub s_scnptr : ℕ
  pub s_flags : ℕ

-- COFF_SLIBHD: the length of an entry and the place of its path, in words.
pub record Slib : Type 0 where
  pub sl_entsz : ℕ
  pub sl_pathndx : ℕ

-- The members of `struct linux_binprm` that the loader reads.
pub record Binprm : Type 0 where
  pub header : Header
  pub p : ℕ
  pub argc : ℕ
  pub envc : ℕ

-- Calls with a result: do_mmap takes whether the file is mapped, the address, the the
-- protection, the flags and the offset; sys_uselib the bytes from the name on.
pub data Call : Type 0 where
  flush_old_exec setup_arg_pages : Call
  do_brk : ℕ → ℕ → Call
  do_mmap : Bool → ℕ → ℕ → ℕ → ℕ → ℕ → Call
  verify_write : ℕ → ℕ → Call
  sys_uselib : List ℕ → Call

-- What is done without one: the members of `current->mm` in groups, stores to the program's memory
-- (put_user of a word or of the byte 0), and reads of the file: to an address, of a length, from a
-- position or from where the last one ended.
pub data Action : Type 0 where
  set_personality : ℕ → Action
  reset_mm set_binfmt compute_creds : Action
  set_args : ℕ → ℕ → ℕ → Action
  set_code set_data set_brk : ℕ → ℕ → Action
  start_thread : ℕ → ℕ → Action
  put_word : ℕ → ℕ → Action
  put_zero : ℕ → Action
  read_file : ℕ → ℕ → ℕ → Action
  read_on : ℕ → ℕ → Action
  send_sig : ℕ → Action

-- `kernel_read` gives its result and what the buffer holds then: the headers of the sections that
-- the loops go through (none for a negative number of them), or bytes.
-- `slib_at` and `header_at` read the structures at the start of bytes.
pub record CoffHost : Type 1 where
  pub World : Type 0
  pub numbers : Numbers
  pub call : Call → World → ℤ × World
  pub act : Action → World → World
  pub get_fs : World → ℕ
  pub set_fs : ℕ → World → World
  pub kernel_ds : ℕ
  pub kmalloc : ℕ → World → Bool × World
  pub kfree : World → World
  pub get_free_page : World → Bool × World
  pub free_page : World → World
  pub read_sections : ℕ → ℕ → World → ℤ × List Section × World
  pub kernel_read : ℕ → ℕ → World → ℤ × List ℕ × World
  pub slib_at : List ℕ → Slib
  pub header_at : List ℕ → Header
  pub get_unused_fd : World → ℤ × World
  pub fd_install : ℤ → World → World
  pub sys_close : ℤ → World → World
  pub has_mmap : World → Bool
  pub ptraced : World → Bool
  pub strlen_user : ℕ → World → ℕ
  pub defhandler_coff : ℕ

-- What is held in the kernel for a load: the descriptors that get_unused_fd gave and that have not
-- been closed, the latest first; buffers and pages, as the kernel counts them; and the address limit
-- of the process.
pub record Ledger : Type 0 where
  pub files : List ℤ
  pub buffers : ℕ
  pub pages : ℕ
  pub limit : ℕ

-- What the kernel promises of them. A descriptor that get_unused_fd gives is not closed by an exec,
-- and closing it gives that one back. A call that takes something, as sys_uselib does, gives it back.
-- A program is loaded for a process with the address limit of the user, which start_thread sets.
pub record Ledgers (host : CoffHost) : Type 0 where
  pub ledger : host.World → Ledger
  pub ledger-call : (c : Call) (w : host.World) → ledger (host.call c w).1 ≡ ledger w
  pub ledger-act : (a : Action) (w : host.World) → ledger (host.act a w) ≡ ledger w
  pub ledger-get_fs : (w : host.World) → host.get_fs w ≡ (ledger w).limit
  pub ledger-set_fs :
      (fs : ℕ) (w : host.World) → ledger (host.set_fs fs w) ≡ record (ledger w) { limit = fs }
  pub ledger-kmalloc :
      (n : ℕ) (w : host.World)
      → (host.kmalloc n w).0 ≡ true
      → ledger (host.kmalloc n w).1 ≡ record (ledger w) { buffers = suc (ledger w).buffers }
  pub ledger-kmalloc_failed :
      (n : ℕ) (w : host.World)
      → (host.kmalloc n w).0 ≡ false
      → ledger (host.kmalloc n w).1 ≡ ledger w
  pub ledger-kfree :
      (l : Ledger) (w : host.World)
      → ledger w ≡ record l { buffers = suc l.buffers }
      → ledger (host.kfree w) ≡ l
  pub ledger-get_free_page :
      (w : host.World)
      → (host.get_free_page w).0 ≡ true
      → ledger (host.get_free_page w).1 ≡ record (ledger w) { pages = suc (ledger w).pages }
  pub ledger-get_free_page_failed :
      (w : host.World)
      → (host.get_free_page w).0 ≡ false
      → ledger (host.get_free_page w).1 ≡ ledger w
  pub ledger-free_page :
      (l : Ledger) (w : host.World)
      → ledger w ≡ record l { pages = suc l.pages }
      → ledger (host.free_page w) ≡ l
  pub ledger-read_sections :
      (at n : ℕ) (w : host.World) → ledger (host.read_sections at n w).2 ≡ ledger w
  pub ledger-kernel_read :
      (at n : ℕ) (w : host.World) → ledger (host.kernel_read at n w).2 ≡ ledger w
  pub ledger-unused_fd :
      (w : host.World)
      → is_neg (host.get_unused_fd w).0 ≡ false
      → ledger (host.get_unused_fd w).1
        ≡ record (ledger w) { files = (host.get_unused_fd w).0 ∷ (ledger w).files }
  pub ledger-no_fd :
      (w : host.World)
      → is_neg (host.get_unused_fd w).0 ≡ true
      → ledger (host.get_unused_fd w).1 ≡ ledger w
  pub ledger-fd_install : (fd : ℤ) (w : host.World) → ledger (host.fd_install fd w) ≡ ledger w
  pub ledger-close :
      (fd : ℤ) (l : Ledger) (w : host.World)
      → ledger w ≡ record l { files = fd ∷ l.files }
      → ledger (host.sys_close fd w) ≡ l

-- A read gives at most what was asked for, and where it gives all of it the buffer holds as much.
pub record Reads (host : CoffHost) : Type 0 where
  pub at_most : (at n : ℕ) (w : host.World) → pos_part (host.kernel_read at n w).0 ≤ n
  pub whole :
      (at n : ℕ) (w : host.World)
      → (host.kernel_read at n w).0 ≡ pos n
      → n ≤ length (host.kernel_read at n w).1

-- `a & PAGE_MASK` and `PAGE_ALIGN(a)`
abbrev pub page_of : ℕ → ℕ
page_of a = a / 4096 * 4096

abbrev pub page_align : ℕ → ℕ
page_align a = (a + 4095) % 2 ^ 32 / 4096 * 4096
