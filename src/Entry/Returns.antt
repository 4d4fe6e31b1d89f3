-- ===== src/Entry/Returns.antt =====
-- What `lcall7_dispatch` calls, and what the program finds in its registers afterwards.
use mathlib.Core.Bool.{or-false}
use native.Mathlib.Nat.{add-zero, add-suc, suc-add, zero-add}
use linux_abiemu.Prelude.{
  ℕ, zero, suc, ◌+◌, ◌*◌, ◌%◌, ◌^◌, ◌≤◌, ◌<◌, true, false, ◌||◌, none, some, List, [], ◌≡◌, refl,
  sym, subst, ap, ◌∙◌, ◌≢◌, ◌⊎◌, inl, inr, ℤ, neg, word, ◌==◌, ==_iff, leb, if◌then◌else◌, length,
  get_elem?, arith, Bool-cases, Option-cases,
}
use linux_abiemu.Prelude.Bits.{bit, bit-bit_and, bit-bit_or, bit_low_mask, bit-shl1}
use linux_abiemu.Kernel.Domain.{ExecDomain, iabi_errors, enosys}
use linux_abiemu.Util.Regs.{Regs, set_error, clear_error, set_result}
use linux_abiemu.Entry.{
  Sysent, Syscalls, spl, fast, is_error, negate, return_error, get_args, dispatch_call,
  lcall7_dispatch,
}

-- The registers after a call that returned `error`: the carry flag tells whether it failed, eax
-- holds the translated error number or the result, and all else is as it was.
pub record Returned (domain : ExecDomain) (regs : Regs) (error : ℤ) (regs' : Regs) : Type 0 where
  pub carry : bit 0 regs'.eflags ≡ is_error error
  pub other_flags : (i : ℕ) → 0 < i → i < 32 → bit i regs'.eflags ≡ bit i regs.eflags
  pub result :
      regs'.eax ≡ word (if is_error error then iabi_errors domain (negate error) else error)
  pub stack_kept : regs'.esp ≡ regs.esp
  pub edx_kept : regs'.edx ≡ regs.edx

bit_one_above : (i : ℕ) → 0 < i → bit i 1 ≡ false
bit_one_above i h = bit-shl1 i 0 ∙ ground arith

pub return_error-Returned :
    (domain : ExecDomain) (regs : Regs) (error : ℤ)
    → Returned domain regs error (return_error domain regs error)
unfolding return_error set_error clear_error set_result
return_error-Returned domain regs error = elim (Bool-cases (is_error error)) [
  | inl e ↦ rw e (record {
    carry = ground (arith, bit-bit_or 0 regs.eflags 1);
    other_flags = λ i p q.
        bit-bit_or i regs.eflags 1
        ∙ ap (λ b. bit i regs.eflags || b) (bit_one_above i p)
        ∙ or-false _;
    result = rw e;
    stack_kept = refl;
    edx_kept = refl;
  })
  | inr e ↦ rw e (record {
    carry = ground (arith, bit-bit_and 0 regs.eflags 0xffff_fffe);
    other_flags = λ i p q. bit-bit_and i regs.eflags 0xffff_fffe ∙ ground (arith, bit_low_mask i q);
    result = rw e;
    stack_kept = refl;
    edx_kept = refl;
  })
]

module _ {Fn : Type 0} (host : Syscalls Fn) (domain : ExecDomain) (off : ℕ) (regs : Regs) where
  open host use {World, get_user, call_args, call_regs}

  length-get_args : (n i : ℕ) (w : World) → length (get_args host domain n i regs off w) ≡ n
  unfolding get_args
  length-get_args zero i w = refl
  length-get_args (suc n) i w = ap suc (length-get_args n (suc i) w)

  get_elem?-get_args :
      (n i k : ℕ) (w : World)
      → k < n
      → get_elem? (get_args host domain n i regs off w) k
        ≡ some (get_user ((regs.esp + 4 * (i + k + off)) % 2 ^ 32) w)
  unfolding get_args
  get_elem?-get_args zero i k w h = elim h [ ]
  get_elem?-get_args (suc n) i zero w h = rw add-zero
  get_elem?-get_args (suc n) i (suc k) w h =
      get_elem?-get_args n (suc i) k w (omega arith) ∙ rw (suc-add, ← add-suc)

  -- The argument list of a call of n words: the n words above the stack pointer from `off` on.
  pub record Arguments (n : ℕ) (w : World) (args : List ℕ) : Type 0 where
    pub count : length args ≡ n
    pub words :
        (k : ℕ) → k < n → get_elem? args k ≡ some (get_user ((regs.esp + 4 * (k + off)) % 2 ^ 32) w)

  whole : (n : ℕ) (w : World) → Arguments n w (get_args host domain n 0 regs off w)
  whole n w = record {
    count = length-get_args n 0 w;
    words = λ k h. get_elem?-get_args n 0 k w h ∙ rw zero-add;
  }

  -- The ways in which a table entry is handled; the result is the registers and the world.
  pub data Dispatched (entry : Sysent Fn) (w : World) (out : Regs × World) : Type 0 where
    -- No function, or a count that is neither 0 to 7, Spl nor Fast.
    not_there :
        (entry.se_syscall ≡ none)
          ⊎ (8 ≤ entry.se_nargs) × (entry.se_nargs ≢ spl) × (entry.se_nargs ≢ fast)
        → out.1 ≡ w
        → Returned domain regs (neg enosys) out.0
        → Dispatched entry w out
    by_words :
        (f : Fn) (args : List ℕ)
        → entry.se_syscall ≡ some f
        → entry.se_nargs ≤ 7
        → Arguments entry.se_nargs w args
        → out.1 ≡ (call_args f args w).1
        → Returned domain regs (call_args f args w).0 out.0
        → Dispatched entry w out
    by_registers :
        (f : Fn)
        → entry.se_syscall ≡ some f
        → entry.se_nargs ≡ spl
        → out.1 ≡ (call_regs f regs w).2
        → Returned domain (call_regs f regs w).1 (call_regs f regs w).0 out.0
        → Dispatched entry w out
    untouched :
        (f : Fn)
        → entry.se_syscall ≡ some f
        → entry.se_nargs ≡ fast
        → out ≡ ((call_regs f regs w).1, (call_regs f regs w).2)
        → Dispatched entry w out

  module _ (entry : Sysent Fn) (w : World) where
    dispatch_none :
        entry.se_syscall ≡ none
        → lcall7_dispatch host domain regs entry off w ≡ (return_error domain regs (neg enosys), w)
    unfolding lcall7_dispatch
    dispatch_none e = rw (e, lcall7_dispatch)

    dispatch_some :
        (f : Fn)
        → entry.se_syscall ≡ some f
        → lcall7_dispatch host domain regs entry off w
          ≡ dispatch_call host domain f entry.se_nargs
              (if leb entry.se_nargs 8
                then get_args host domain entry.se_nargs 0 regs off w
                else [])
              regs
              w
    unfolding lcall7_dispatch
    dispatch_some f e = rw (e, lcall7_dispatch)

    dispatch_call-Dispatched :
        (f : Fn)
        → entry.se_syscall ≡ some f
        → Dispatched entry w (
            dispatch_call host domain f entry.se_nargs
              (if leb entry.se_nargs 8
                then get_args host domain entry.se_nargs 0 regs off w
                else [])
              regs
              w)
    unfolding dispatch_call
    dispatch_call-Dispatched f e = elim (Bool-cases (entry.se_nargs == fast)) [
      | inl t ↦ rw t (untouched f e ((==_iff _ _).0 t) refl)
      | inr t ↦ elim (Bool-cases (entry.se_nargs == spl)) [
        | inl u ↦
            rw (t, u) (by_registers f e ((==_iff _ _).0 u) refl (return_error-Returned domain _ _))
        | inr u ↦ elim (Bool-cases (leb entry.se_nargs 7)) [
          | inl v ↦
              let small : (leb entry.se_nargs 8) ≡ true = ground arith in
              rw (t, u, v, small)
                (by_words f _ e (ground arith) (whole entry.se_nargs w) refl
                  (return_error-Returned domain _ _))
          | inr v ↦
              rw (t, u, v)
                (not_there (inr (ground arith, ground arith, ground arith)) refl
                  (return_error-Returned domain regs (neg enosys)))
        ]
      ]
    ]

    -- `lcall7_dispatch` handles every table entry in one of the ways of `Dispatched`: ENOSYS where
    -- there is no function or its count is none that the dispatcher knows; a call with the words
    -- above the stack pointer that a count up to 7 asks for, or with the registers (Spl), whose
    -- result reaches the program through the carry flag and eax, all other flags, edx and the stack
    -- pointer kept; or a call with the registers that sets them up itself (Fast).
    pub lcall7_dispatch-Dispatched :
        Dispatched entry w (lcall7_dispatch host domain regs entry off w)
    lcall7_dispatch-Dispatched = elim (Option-cases entry.se_syscall) [
      | inl e ↦
          subst (Dispatched entry w) (sym (dispatch_none e))
            (not_there (inl e) refl (return_error-Returned domain regs (neg enosys)))
      | inr (f, e) ↦
          subst (Dispatched entry w) (sym (dispatch_some f e)) (dispatch_call-Dispatched f e)
    ]
