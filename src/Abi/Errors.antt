-- ===== src/Abi/Errors.antt =====
-- The error numbers that the programs of the personalities see.
use linux_abiemu.Prelude.{
  ℕ, zero, suc, ◌-◌, ◌≤◌, ◌<◌, Bool, true, ◌&&◌, some, List, ◌≡◌, refl, ap, ◌∙◌, pos, negsuc, ltb,
  leb, if◌then◌else◌, get_or, length, get_elem?-none, bit_and, arith, inl, inr, Bool-cases,
}
use linux_abiemu.Prelude.Bits.{all_below, all_below_sound}
use linux_abiemu.Util.Map.{map_value}
use linux_abiemu.Kernel.Domain.{iabi_errors, eperm}
use linux_abiemu.Util.Regs.{Regs, set_error}
use linux_abiemu.Entry.{Sysent, Syscalls}
use linux_abiemu.Abi.Segments.{err_segments, lnx_err_table}
use linux_abiemu.Abi.Personas.{
  Persona, ibcs, isc, uw7, wyse, solaris, sco, xenix, domain_of, err_table_of, persona_lcall7,
}

restart_codes : (k : ℕ) → k ≤ 2 → get_or lnx_err_table k 0 ≡ 4
restart_codes zero h = refl
restart_codes (suc zero) h = refl
restart_codes (suc (suc zero)) h = refl
restart_codes (suc (suc (suc k))) h = absurd (omega arith)

err_segments_lem :
    (table : List ℕ) (e : ℕ)
    → length table ≡ 123
    → map_value (some (err_segments table)) (pos e) (pos 1) ≡ (
        if ltb e 123
        then pos (get_or table e 0)
        else if leb 512 e && leb e 514
        then pos 4
        else pos 1)
unfolding map_value
err_segments_lem table e h = rw h (ground (arith, restart_codes (e - 512)))

err_segments_neg :
    (table : List ℕ) (n : ℕ) → map_value (some (err_segments table)) (negsuc n) (pos 1) ≡ pos 1
unfolding map_value
err_segments_neg table n = ground arith

length-err_table : (p : Persona) → length (err_table_of p) ≡ 123
length-err_table ibcs = refl
length-err_table isc = refl
length-err_table uw7 = refl
length-err_table wyse = refl
length-err_table solaris = refl
length-err_table sco = refl
length-err_table xenix = refl

-- Entry k + 1 of a table is a nonzero u_char.
abbrev is_errno : List ℕ → ℕ → Bool
is_errno table k = leb 1 (get_or table (suc k) 0) && leb (get_or table (suc k) 0) 255

err_table_checked : (p : Persona) → all_below 122 (is_errno (err_table_of p)) ≡ true
unfolding all_below
err_table_checked ibcs = refl
err_table_checked isc = refl
err_table_checked uw7 = refl
err_table_checked wyse = refl
err_table_checked solaris = refl
err_table_checked sco = refl
err_table_checked xenix = refl

errno_range :
    (table : List ℕ) (k : ℕ)
    → is_errno table k ≡ true
    → (1 ≤ get_or table (suc k) 0) × (get_or table (suc k) 0 ≤ 255)
errno_range table k h = ground arith

module _ (p : Persona) (handler module_of : ℕ) where
  err_map_of : (domain_of p handler module_of).err_map ≡ some (err_segments (err_table_of p))
  err_map_of =
      elim p
        as (λ q. (domain_of q handler module_of).err_map ≡ some (err_segments (err_table_of q))) [
          | ibcs ↦ refl
          | isc ↦ refl
          | uw7 ↦ refl
          | wyse ↦ refl
          | solaris ↦ refl
          | sco ↦ refl
          | xenix ↦ refl
        ]

  -- In each personality the program sees, for the kernel's error e: the e-th number of the
  -- personality's table for e below 123, EINTR for 512 to 514, and EPERM for any other.
  pub iabi_errors_lem :
      (e : ℕ)
      → iabi_errors (domain_of p handler module_of) (pos e) ≡ (
          if ltb e 123
          then pos (get_or (err_table_of p) e 0)
          else if leb 512 e && leb e 514
          then pos 4
          else pos 1)
  unfolding iabi_errors
  iabi_errors_lem e =
      ap (λ m. map_value m (pos e) (pos 1)) err_map_of
      ∙ err_segments_lem (err_table_of p) e (length-err_table p)

  -- A number that is already negative translates to 1, EPERM.
  pub iabi_errors_neg : (n : ℕ) → iabi_errors (domain_of p handler module_of) (negsuc n) ≡ pos 1
  unfolding iabi_errors
  iabi_errors_neg n =
      ap (λ m. map_value m (negsuc n) (pos 1)) err_map_of ∙ err_segments_neg (err_table_of p) n

  in_byte :
      (k : ℕ)
      → (n : ℕ) × (iabi_errors (domain_of p handler module_of) (pos (suc k)) ≡ pos n)
        × (1 ≤ n)
        × (n ≤ 255)
  in_byte k = elim (Bool-cases (ltb (suc k) 123)) [
    | inl t ↦
        let (low, high) =
          errno_range (err_table_of p) k
            (all_below_sound 122 _ k (err_table_checked p) (ground arith)) in
        (get_or (err_table_of p) (suc k) 0, iabi_errors_lem (suc k) ∙ rw t, low, high)
    | inr t ↦ elim (Bool-cases (leb 512 (suc k) && leb (suc k) 514)) [
      | inl u ↦ (4, iabi_errors_lem (suc k) ∙ rw (t, u), omega arith, omega arith)
      | inr u ↦ (1, iabi_errors_lem (suc k) ∙ rw (t, u), omega arith, omega arith)
    ]
  ]

  -- In every personality the translation of an error above 0 is between 1 and 255, and the restart
  -- codes 512 to 514 become EINTR.
  pub iabi_errors_range :
      (e : ℕ)
      → 0 < e
      → ((n : ℕ) × (iabi_errors (domain_of p handler module_of) (pos e) ≡ pos n)
          × (1 ≤ n)
          × (n ≤ 255))
        × (512 ≤ e → e ≤ 514 → iabi_errors (domain_of p handler module_of) (pos e) ≡ pos 4)
  iabi_errors_range zero h = elim h [ ]
  iabi_errors_range (suc k) h = (in_byte k, λ lo hi. iabi_errors_lem (suc k) ∙ ground arith)

  module _ {Fn : Type 0} (host : Syscalls Fn) (table : List (Sysent Fn)) (regs : Regs)
      (w : host.World) where
    -- A system call number past the personality's table: whatever the personality, the program
    -- sees the carry flag and error 1 (EPERM), since the negated EINVAL is in no error table.
    pub persona_lcall7_past_end :
        length table ≤ bit_and regs.eax 0xff
        → persona_lcall7 host (domain_of p handler module_of) table regs w
          ≡ (set_error regs (pos eperm), w)
    unfolding persona_lcall7
    persona_lcall7_past_end h =
        rw (get_elem?-none table (bit_and regs.eax 0xff) h, iabi_errors_neg 21)
