-- ===== src/Util/Map.antt =====
-- abiemu/include/abi/util/map.h: translation of flag words, signal vectors and numbers by tables.
-- Tables are lists. An entry that is read past the end of a table counts as 0; the personalities'
-- signal tables have NSIGNALS + 1 entries, so their entry 32 exists.
pub mod Flags
pub mod Sigvec
use linux_abiemu.Prelude.{
  ℕ, zero, suc, ◌+◌, ◌-◌, ◌*◌, ◌%◌, ◌^◌, bit_and, bit_or, Bool, not, ◌&&◌, ◌≡◌, true, false, Option,
  none, some, List, [], ◌∷◌, ℤ, pos, negsuc, neg, pos_part, is_zero, leb_ℤ, eqb_ℤ, ◌==◌, ltb,
  if◌then◌else◌, get_or, ◌||◌,
}
use linux_abiemu.Prelude.Bits.{shl1}

-- `for (i = 0, m = 1; i < 16; i++) { if (f & m) r |= map[i]; m <<= 1; }` with u_short m.
map_flags_loop : ℕ → ℕ → ℕ → List ℕ → ℕ → ℕ → ℕ
map_flags_loop zero i f map m r = r
map_flags_loop (suc rounds) i f map m r =
    map_flags_loop rounds (suc i) f map (m * 2 % 2 ^ 16)
      (if bit_and f m == 0 then r else bit_or r (get_or map i 0))

-- The arguments are u_short: the call converts.
unfoldable pub map_flags : ℕ → List ℕ → ℕ
unfolding map_flags_loop
map_flags f map = map_flags_loop 16 0 (f % 2 ^ 16) map 1 0

-- `map[i] != -1 && map[i] != 0`
abbrev pub usable : ℤ → Bool
usable e = not (eqb_ℤ e (neg 1)) && not (is_zero e)

-- `1 << (map[i] - 1)`: the i386 shift takes its count modulo 32.
abbrev pub sig_mask : ℤ → ℕ
sig_mask (pos zero) = shl1 31
sig_mask (pos (suc k)) = shl1 (k % 32)
sig_mask (negsuc n) = shl1 (31 - (n + 1) % 32)

abbrev pub sig_entry : List ℤ → ℕ → ℤ
sig_entry map i = get_or map i (pos 0)

map_bitvec_loop : ℕ → ℕ → ℕ → List ℤ → ℕ → ℕ → ℕ
map_bitvec_loop zero i vec map m newvec = newvec
map_bitvec_loop (suc rounds) i vec map m newvec =
    map_bitvec_loop rounds (suc i) vec map (m * 2 % 2 ^ 32) (
      if not (bit_and vec m == 0) && usable (sig_entry map i)
      then bit_or newvec (sig_mask (sig_entry map i))
      else newvec)

unfoldable pub map_bitvec : ℕ → List ℤ → ℕ
unfolding map_bitvec_loop
map_bitvec vec map = map_bitvec_loop 32 1 vec map 1 0

-- The kernel's sigset_t with sigemptyset, sigaddset and sigismember (linux/signal.h), and what
-- they are documented to do for signals, which count from 1.
pub record Sigsets : Type 1 where
  pub Sigset : Type 0
  pub sigemptyset : Sigset
  pub sigaddset : Sigset → ℤ → Sigset
  pub sigismember : Sigset → ℕ → Bool
  pub member_empty : (k : ℕ) → sigismember sigemptyset (suc k) ≡ false
  pub member_add :
      (s : Sigset) (a k : ℕ)
      → sigismember (sigaddset s (pos (suc a))) (suc k) ≡ ((a == k) || sigismember s (suc k))

module _ (sets : Sigsets) where
  open sets use {Sigset, sigemptyset, sigaddset, sigismember}

  from_kernel_loop : ℕ → ℕ → Sigset → List ℤ → ℕ → ℕ
  from_kernel_loop zero i vec map newvec = newvec
  from_kernel_loop (suc rounds) i vec map newvec = from_kernel_loop rounds (suc i) vec map (
      if sigismember vec i && usable (sig_entry map i)
      then bit_or newvec (sig_mask (sig_entry map i))
      else newvec)

  unfoldable pub map_sigvec_from_kernel : Sigset → List ℤ → ℕ
  unfolding from_kernel_loop
  map_sigvec_from_kernel vec map = from_kernel_loop 32 1 vec map 0

  to_kernel_loop : ℕ → ℕ → ℕ → List ℤ → ℕ → Sigset → Sigset
  to_kernel_loop zero i vec map m newvec = newvec
  to_kernel_loop (suc rounds) i vec map m newvec =
      to_kernel_loop rounds (suc i) vec map (m * 2 % 2 ^ 32) (
        if not (bit_and vec m == 0) && not (eqb_ℤ (sig_entry map i) (neg 1))
        then sigaddset newvec (sig_entry map i)
        else newvec)

  unfoldable pub map_sigvec_to_kernel : ℕ → List ℤ → Sigset
  unfolding to_kernel_loop
  map_sigvec_to_kernel vec map = to_kernel_loop 32 1 vec map 1 sigemptyset

-- The `map` member of a segment is a pointer: NULL, a vector of u_char, or a number cast to one.
pub data SegMap : Type 0 where
  null : SegMap
  vector : List ℕ → SegMap
  value : ℤ → SegMap

pub record MapSegment : Type 0 where
  pub start : ℤ
  pub stop : ℤ
  pub map : SegMap

-- `(int)seg->map`. No table has a vector in a segment of one entry: its address is not modelled.
abbrev pub seg_value : SegMap → ℤ
seg_value null = pos 0
seg_value (vector v) = pos 0
seg_value (value n) = n

-- `seg->map ? seg->map[val - seg->start] : val`. No table has a number in a longer segment.
abbrev pub seg_at : SegMap → ℤ → ℤ → ℤ
seg_at null val start = val
seg_at (vector v) val start = pos (get_or v (pos_part val - pos_part start) 0)
seg_at (value n) val start = pos 0

abbrev pub in_segment : MapSegment → ℤ → Bool
in_segment seg val = leb_ℤ seg.start val && leb_ℤ val seg.stop

-- The loop ends at the segment with start -1, or at the end of the list.
pub map_value_loop : List MapSegment → ℤ → ℤ → ℤ
map_value_loop [] val def = def
map_value_loop (seg ∷ rest) val def =
    let later = map_value_loop rest val def in
    if eqb_ℤ seg.start (neg 1)
    then def
    else if in_segment seg val
    then (if eqb_ℤ seg.start seg.stop then seg_value seg.map else seg_at seg.map val seg.start)
    else later

-- A personality with no map leaves every number as it is.
unfoldable pub map_value : Option (List MapSegment) → ℤ → ℤ → ℤ
unfolding map_value_loop
map_value none val def = val
map_value (some m) val def = map_value_loop m val def
