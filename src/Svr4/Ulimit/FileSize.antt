-- ===== src/Svr4/Ulimit/FileSize.antt =====
-- The file size limit, and what setrlimit(2) does.
use linux_abiemu.Prelude.{
  ℕ, ◌*◌, ◌≤◌, ◌<◌, Bool, true, false, ◌≡◌, ◌⊎◌, ℤ, pos, negsuc, is_neg, pos_part, arith,
}
use linux_abiemu.Svr4.Ulimit.{Limits, ulim_max_blocksize, svr4_ulimit}

abbrev pub IsOrdered : Limits → Type 0
IsOrdered lim = lim.fsize_cur ≤ lim.fsize_max

-- If the file size limit is within its hard limit, it still is after any ulimit(2) command, and a
-- process without privilege does not change the hard limit.
pub svr4_ulimit-IsOrdered :
    (capable : Bool) (cmd : ℕ) (val : ℤ) (lim : Limits)
    → IsOrdered lim
    → IsOrdered (svr4_ulimit capable cmd val lim).1
      × (capable ≡ false → (svr4_ulimit capable cmd val lim).1.fsize_max ≡ lim.fsize_max)
unfolding svr4_ulimit
svr4_ulimit-IsOrdered capable cmd val lim h = ground arith

-- A file size that U_SETFSIZE accepted is what U_GETFSIZE returns, in blocks.
pub getfsize-setfsize :
    (capable : Bool) (val any : ℤ) (lim lim' : Limits)
    → svr4_ulimit capable 2 val lim ≡ (pos 0, lim')
    → svr4_ulimit capable 1 any lim' ≡ (val, lim')
unfolding svr4_ulimit
getfsize-setfsize capable (pos n) any lim lim' h = ground arith
getfsize-setfsize capable (negsuc n) any lim lim' h = ground arith

-- U_SETFSIZE fails, and leaves the limits, for a size that is negative or above
-- `ulim_max_blocksize`, and for one above the hard limit of a process without privilege.
pub setfsize_refused :
    (capable : Bool) (val : ℤ) (lim : Limits)
    → (is_neg val ≡ true)
      ⊎ (ulim_max_blocksize < pos_part val)
      ⊎ (capable ≡ false) × (lim.fsize_max < pos_part val * 512)
    → ((svr4_ulimit capable 2 val lim).1 ≡ lim) × (is_neg (svr4_ulimit capable 2 val lim).0 ≡ true)
unfolding svr4_ulimit
setfsize_refused capable val lim h = ground arith
