-- ===== src/Abi/Calls/Conventions.antt =====
-- How the dispatcher passes arguments to the functions of the tables, against their prototypes.
use linux_abiemu.Prelude.{
  ℕ, Bool, true, false, ◌||◌, Option, none, some, ◌≡◌, ◌⊎◌, inl, inr, refl, get_elem?, all_of, ◌==◌,
  ==_iff, if◌then◌else◌, arith, ap, ◌&&◌, Bool-cases, subst,
}
use linux_abiemu.Entry.{Sysent, spl, fast}
use linux_abiemu.Abi.Calls.{Call, by_svr4, by_kernel, svr4_getpmsg, svr4_putpmsg, sys_getsockname}
use linux_abiemu.Abi.Personas.{ibcs, isc, uw7, wyse, solaris, sco, xenix}
use linux_abiemu.Abi.Calls.Prototypes.{Convention, words, registers, prototype}
use linux_abiemu.Abi.Calls.Table.{Table, calls_of, sysisc, nfscall, tcpcall, entries, each_table}

-- What the dispatcher passes for a count.
abbrev pub passed : ℕ → Convention
passed n = if n == spl || n == fast then registers else words n

abbrev same : Convention → Convention → Bool
same (words a) (words b) = a == b
same registers registers = true
same _ _ = false

same_eq : (a b : Convention) → same a b ≡ true → a ≡ b
same_eq (words a) (words b) h = ap words ((==_iff a b).0 h)
same_eq (words a) registers h = cc h
same_eq registers (words b) h = cc h
same_eq registers registers h = refl

-- The functions that some table calls in another way than they are declared.
abbrev pub mismatched : Call → Bool
mismatched (by_svr4 svr4_getpmsg) = true
mismatched (by_svr4 svr4_putpmsg) = true
mismatched (by_kernel sys_getsockname) = true
mismatched _ = false

-- The tables that name one of them: those with XTI, and the socket calls of Wyse.
abbrev pub has_mismatch : Table → Bool
has_mismatch (calls_of p xti) = xti
has_mismatch tcpcall = true
has_mismatch _ = false

abbrev fits_prototype : Bool → ℕ → Option Convention → Bool
fits_prototype excused n none = true
fits_prototype excused n (some c) = same (passed n) c || excused

abbrev fits_call : Table → ℕ → Option Call → Bool
fits_call t n none = true
fits_call t n (some f) = fits_prototype (has_mismatch t && mismatched f) n (prototype f)

abbrev fits : Table → Sysent Call → Bool
fits t ap = fits_call t ap.se_nargs ap.se_syscall

all_fit : (t : Table) → all_of (fits t) (entries t) ≡ true
all_fit (calls_of ibcs true) = refl
all_fit (calls_of ibcs false) = refl
all_fit (calls_of isc true) = refl
all_fit (calls_of isc false) = refl
all_fit (calls_of uw7 true) = refl
all_fit (calls_of uw7 false) = refl
all_fit (calls_of wyse true) = refl
all_fit (calls_of wyse false) = refl
all_fit (calls_of solaris true) = refl
all_fit (calls_of solaris false) = refl
all_fit (calls_of sco true) = refl
all_fit (calls_of sco false) = refl
all_fit (calls_of xenix true) = refl
all_fit (calls_of xenix false) = refl
all_fit sysisc = refl
all_fit nfscall = refl
all_fit tcpcall = refl

fit_or_excused :
    (t : Table) (n : ℕ) (f : Call) (c : Convention)
    → fits_call t n (some f) ≡ true
    → prototype f ≡ some c
    → (passed n ≡ c) ⊎ ((has_mismatch t && mismatched f) ≡ true)
fit_or_excused t n f c h e =
    let tested : (same (passed n) c || (has_mismatch t && mismatched f)) ≡ true =
      subst (λ o. fits_prototype (has_mismatch t && mismatched f) n o ≡ true) e h in
    elim (Bool-cases (same (passed n) c)) [
      | inl u ↦ inl (same_eq _ _ u)
      | inr u ↦ inr (ground (arith))
    ]

-- Every entry of a table whose function has a prototype in the headers of the personalities, or is
-- sys_getsockname, passes what the prototype asks for, so many words or the registers (of the other
-- functions of Linux, which have none there, nothing is said); but for svr4_getpmsg and svr4_putpmsg in the
-- tables with XTI compiled in, and sys_getsockname in the socket calls of Wyse.
pub calls_take_prototypes :
    (t : Table) (i : ℕ) (entry : Sysent Call) (f : Call) (c : Convention)
    → get_elem? (entries t) i ≡ some entry
    → entry.se_syscall ≡ some f
    → prototype f ≡ some c
    → (passed entry.se_nargs ≡ c) ⊎ ((has_mismatch t && mismatched f) ≡ true)
calls_take_prototypes t i entry f c e g h =
    fit_or_excused t entry.se_nargs f c
      (subst (λ o. fits_call t entry.se_nargs o ≡ true) g (each_table fits all_fit t i entry e)) h
