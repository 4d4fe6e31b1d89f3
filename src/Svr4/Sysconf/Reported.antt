-- ===== src/Svr4/Sysconf/Reported.antt =====
-- That the calls for limits agree with one another.
use linux_abiemu.Prelude.{ℕ, ◌+◌, ◌≡◌, inl, inr, refl, ℤ, pos, ◌==◌, Bool-cases, arith}
use linux_abiemu.Svr4.Sysconf.{
  SystemLimits, NameHost, Name, err_ptr, copied, svr4_sysconfig, ibcs_sysconf, svr4_pathconf,
  name_max,
}

-- Limits that both sysconfig and sysconf report, by their names there: the groups, processes, open
-- files, page size, clock and arguments.
pub data SameLimit : ℕ → ℕ → Type 0 where
  groups : SameLimit 2 3
  processes : SameLimit 3 1
  open_files : SameLimit 4 4
  page : SameLimit 6 11
  sco_page : SameLimit 6 34
  clock : SameLimit 7 2
  arguments : SameLimit 10 0

-- A limit that sysconfig and sysconf both report has the same value in both; but the version of
-- POSIX is 199009 by sysconfig and 198808 by sysconf.
pub sysconfig_agrees :
    (limits : SystemLimits)
    → ((a b : ℕ) → SameLimit a b → svr4_sysconfig limits a ≡ ibcs_sysconf limits b)
      × (svr4_sysconfig limits 5 ≡ pos 199009)
      × (ibcs_sysconf limits 7 ≡ pos 198808)
unfolding svr4_sysconfig ibcs_sysconf
sysconfig_agrees limits = (same, refl, refl)
  where
    same : (a b : ℕ) → SameLimit a b → svr4_sysconfig limits a ≡ ibcs_sysconf limits b
    same a b groups = refl
    same a b processes = refl
    same a b open_files = refl
    same a b page = refl
    same a b sco_page = refl
    same a b clock = refl
    same a b arguments = refl

-- What is counted of a kernel: the copies of names that are not freed yet. A file system call
-- leaves them alone.
pub record Copies (host : NameHost) : Type 0 where
  pub live : host.World → ℕ
  pub live-getname_err :
      (path : ℕ) (w : host.World) (e : ℤ)
      → (host.getname path w).0 ≡ err_ptr e
      → live (host.getname path w).1 ≡ live w
  pub live-getname :
      (path : ℕ) (w : host.World) (p : ℕ)
      → (host.getname path w).0 ≡ copied p
      → live (host.getname path w).1 ≡ live w + 1
  pub live-putname : (p n : ℕ) (w : host.World) → live w ≡ n + 1 → live (host.putname p w) ≡ n
  pub live-statfs : (p : ℕ) (w : host.World) → live (host.sys_statfs p w).2 ≡ live w

module _ (limits : SystemLimits) (host : NameHost) (copies : Copies host) where
  open copies use {live, live-getname_err, live-getname, live-putname, live-statfs}

  name_max_live :
      (path : ℕ) (w : host.World) (n : Name)
      → (host.getname path w).0 ≡ n
      → live (name_max limits host (n, (host.getname path w).1)).1 ≡ live w
  name_max_live path w (err_ptr e) h = live-getname_err path w e h
  name_max_live path w (copied p) h =
      let before = live-getname path w p h in
      let during = live-statfs p (host.getname path w).1 in
      live-putname p (live w) (host.sys_statfs p (host.getname path w).1).2
        (omega (arith, before, during))

  -- pathconf(2) frees every copy of a name that it makes: on every path, errors included, as many
  -- copies are left as there were.
  pub pathconf_live :
      (path name : ℕ) (w : host.World) → live (svr4_pathconf limits host path name w).1 ≡ live w
  unfolding svr4_pathconf
  pathconf_live path name w = elim (Bool-cases (name == 4)) [
    | inl e ↦ rw e (name_max_live path w (host.getname path w).0 refl)
    | inr e ↦ rw e refl
  ]
