-- ===== src/Examples/Hosts.antt =====
-- Small concrete kernels in place of what the components call.
use linux_abiemu.Prelude.{
  ℕ, suc, ◌+◌, ◌-◌, ◌/◌, List, [], ◌∷◌, Bool, true, false, not, ◌&&◌, ◌||◌, Option, none, some, ◌≡◌,
  refl, sym, ap, ℤ, pos, neg, eqb_ℤ, ◌==◌, if◌then◌else◌, arith,
}
use linux_abiemu.Kernel.Personality.{Modules}
use linux_abiemu.Util.Map.{Sigsets}
use linux_abiemu.Entry.{Syscalls}
use linux_abiemu.Svr4.Fcntl.{Files}
use linux_abiemu.Svr4.Signal.Host.{SignalHost}
use linux_abiemu.Svr4.Signal.Sets.{MaskLaws}

-- Sets of signals as tests.
pub member_add_test :
    (s : ℕ → Bool) (a k : ℕ)
    → (eqb_ℤ (pos (suc a)) (pos (suc k)) || s (suc k)) ≡ ((a == k) || s (suc k))
member_add_test s a k = ground arith

abbrev pub test_sets : Sigsets
test_sets = record {
  Sigset = ℕ → Bool;
  sigemptyset = λ k. false;
  sigaddset = λ s a k. eqb_ℤ a (pos k) || s k;
  sigismember = λ s k. s k;
  member_empty = λ k. refl;
  member_add = member_add_test;
}

-- A kernel whose state is the set of blocked signals. The program's words: 5 (signal) or 0x205
-- (sighold) at 104, 7 at 108. An action with the flags 5 and the mask 2 stands at 400.
abbrev pub mask_host : SignalHost test_sets
mask_host = record {
  World = ℕ → Bool;
  read = λ a w. if a == 104 then 5 else if a == 204 then 0x205 else if a == 304 then 0x20 else 7;
  sigdelset_pending = λ s w. w;
  recalc_sigpending = λ w. w;
  sys_rt_sigaction = λ s act old w.
      (pos 0, record { sa_handler = 9; sa_flags = 0x1800_0000; sa_mask = λ k. k == 3 }, w);
  sys_rt_sigprocmask = λ how s w. (
    pos 0,
    w,
    elim s [
      | none ↦ w
      | some m ↦ if eqb_ℤ how (pos 0) then (λ k. m k || w k) else (λ k. not (m k) && w k)
    ],
  );
  sys_sigsuspend = λ mask w. (neg 4, w);
  verify_area = λ a w. pos 0;
  copy_from_user =
      λ a w. if a == 400 then some (record { sa_flags = 5; sa_handler = 7; sa_mask = 2 }) else none;
  copy_to_user = λ a act w. some w;
  get_user = λ a w. some 3;
  put_user = λ a v w. w;
  beyond_howcnv = λ i. pos 0;
  stack_flags = λ w. 0;
}

abbrev pub mask_laws : MaskLaws test_sets mask_host
mask_laws = record {
  blocked = λ w. w;
  block_ok = λ s w. refl;
  unblock_ok = λ s w. refl;
  blocks = λ s w k h h'. refl;
  unblocks = λ s w k. refl;
}

-- A kernel whose state counts the references to each module; nothing else changes.
pub count_up :
    (m : ℕ) (w : ℕ → ℕ) (k : ℕ)
    → (if k == m then w k + 1 else w k) ≡ (if true && (k == m) then w k + 1 else w k)
count_up m w k = refl

pub copied_refs :
    (w : ℕ → ℕ) (f : ℕ) (w' : ℕ → ℕ) (k : ℕ)
    → ◌≡◌ {A = Option (ℕ × (ℕ → ℕ))} (some (1, w)) (some (f, w'))
    → w' k ≡ w k
copied_refs w f w' k e = sym (ap (λ o. stored o k) e)
  where
    stored : Option (ℕ × (ℕ → ℕ)) → ℕ → ℕ
    stored none k = 0
    stored (some (f, w)) k = w k

abbrev pub count_host : Modules
count_host = record {
  World = ℕ → ℕ;
  refs = λ w k. w k;
  try_module_get = λ m w. (true, λ k. if k == m then w k + 1 else w k);
  module_put = λ m w k. if k == m then w k - 1 else w k;
  request_module = λ id r. r;
  fs_shared = λ w. true;
  copy_fs_struct = λ w. some (1, w);
  replace_fs = λ f w. w;
  set_fs_altroot = λ w. w;
  get_refs = count_up;
  put_refs = λ m w k. refl;
  copy_refs = copied_refs;
  replace_refs = λ f w k. refl;
  altroot_refs = λ w k. refl;
}

-- A kernel that counts calls. A function returns its first word, or eax; the words are 6, 7, 8, ….
abbrev pub first_word : List ℕ → ℤ
first_word [] = pos 0
first_word (x ∷ xs) = pos x

abbrev pub call_host : Syscalls ℕ
call_host = record {
  World = ℕ;
  get_user = λ a w. a / 4;
  call_args = λ f args w. (first_word args, suc w);
  call_regs = λ f regs w. (pos regs.eax, regs, suc w);
}

-- One lock, which is held; the state counts the copies.
abbrev pub lock_host : Files
lock_host = record {
  World = ℕ;
  sys_fcntl = λ fd cmd arg w. (neg 9, w);
  sys_fcntl_flock = λ fd cmd l w. (pos 0, record l { pid = 77 }, w);
  sys_ftruncate = λ fd n w. (pos 0, w);
  sys_ioctl_fionread = λ fd w. (pos 0, pos 0, w);
  verify_area = λ a w. pos 0;
  copy_from_user = λ a w.
      some (record { l_type = 2; l_whence = 0; l_start = 5; l_len = 6; l_sysid = 3; l_pid = 4 });
  copy_to_user = λ a l w. some (suc w);
}
