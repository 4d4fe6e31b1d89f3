-- ===== src/Svr4/Statvfs/Held.antt =====
-- That the calls for file systems give back every path and file that they hold.
use linux_abiemu.Prelude.{
  ℕ, ◌+◌, Bool, true, false, Option, none, some, ◌≡◌, refl, ◌∙◌, inl, inr, ℤ, pos, is_zero, leb_ℤ,
  Bool-cases,
}
use linux_abiemu.Svr4.Statvfs.{
  FsHost, Statvfs, Svr4Statfs, report_statvfs, report_statfs, with_path, with_file, svr4_statvfs,
  svr4_fstatvfs, sco_statvfs, sco_fstatvfs, svr4_statfs, svr4_fstatfs,
}

-- The paths and files that are held, as the kernel counts them: a walk that succeeds holds a path
-- and fget a file that is open; path_release and fput give one back; the rest leaves them alone.
pub record Holding (host : FsHost) : Type 0 where
  pub held : host.World → ℕ
  pub held-walk :
      (p : ℕ) (w : host.World)
      → is_zero (host.user_path_walk p w).0 ≡ true
      → held (host.user_path_walk p w).2 ≡ held w + 1
  pub held-walk_failed :
      (p : ℕ) (w : host.World)
      → is_zero (host.user_path_walk p w).0 ≡ false
      → held (host.user_path_walk p w).2 ≡ held w
  pub held-release :
      (at n : ℕ) (w : host.World) → held w ≡ n + 1 → held (host.path_release at w) ≡ n
  pub held-fget :
      (fd : ℤ) (fp : ℕ) (w : host.World)
      → (host.fget fd w).0 ≡ some fp
      → held (host.fget fd w).1 ≡ held w + 1
  pub held-fget_none :
      (fd : ℤ) (w : host.World) → (host.fget fd w).0 ≡ none → held (host.fget fd w).1 ≡ held w
  pub held-fput : (fp n : ℕ) (w : host.World) → held w ≡ n + 1 → held (host.fput fp w) ≡ n
  pub held-statfs : (at : ℕ) (w : host.World) → held (host.vfs_statfs at w).2 ≡ held w
  pub held-copy_statvfs :
      (a : ℕ) (b : Statvfs) (w : host.World) → held (host.copy_statvfs a b w).1 ≡ held w
  pub held-copy_statfs :
      (a : ℕ) (b : Svr4Statfs) (len : ℤ) (w : host.World)
      → held (host.copy_statfs a b len w).1 ≡ held w

module _ (host : FsHost) (law : Holding host) where
  open host use {World, user_path_walk, fget, vfs_statfs}
  open law use {held}

  report_statvfs_held :
      (sco : Bool) (bufp at : ℕ) (w : World) → held (report_statvfs host sco bufp at w).1 ≡ held w
  unfolding report_statvfs
  report_statvfs_held sco bufp at w = elim (Bool-cases (is_zero (vfs_statfs at w).0)) [
    | inl e ↦ rw e (law.held-copy_statvfs bufp _ _ ∙ law.held-statfs at w)
    | inr e ↦ rw e (law.held-statfs at w)
  ]

  report_statfs_held : (buf at : ℕ) (w : World) → held (report_statfs host buf at w).1 ≡ held w
  unfolding report_statfs
  report_statfs_held buf at w = elim (Bool-cases (is_zero (vfs_statfs at w).0)) [
    | inl e ↦ rw e (law.held-copy_statfs buf _ (pos 40) _ ∙ law.held-statfs at w)
    | inr e ↦ rw e (law.held-statfs at w)
  ]

  -- What lies between leaves the count alone.
  module _ (f : ℕ → World → ℤ × World) (keeps : (at : ℕ) (w : World) → held (f at w).1 ≡ held w)
      (w : World) where
    with_path_held : (p : ℕ) → held (with_path host f (user_path_walk p w)).1 ≡ held w
    with_path_held p = elim (Bool-cases (is_zero (user_path_walk p w).0)) [
      | inl e ↦
          rw e
            (law.held-release (user_path_walk p w).1 (held w) _ (keeps _ _ ∙ law.held-walk p w e))
      | inr e ↦ rw e (law.held-walk_failed p w e)
    ]

    file_held :
        (fd : ℤ) (o : Option ℕ)
        → (fget fd w).0 ≡ o
        → held (with_file host f (o, (fget fd w).1)).1 ≡ held w
    file_held fd none h = law.held-fget_none fd w h
    file_held fd (some fp) h = law.held-fput fp (held w) _ (keeps _ _ ∙ law.held-fget fd fp w h)

  statfs_held :
      (name buf : ℕ) (len fstype : ℤ) (w : World)
      → held (svr4_statfs host name buf len fstype w).1 ≡ held w
  unfolding svr4_statfs
  statfs_held name buf len fstype w = elim (Bool-cases (leb_ℤ len (pos 40))) [
    | inr e ↦ rw e refl
    | inl e ↦ elim (Bool-cases (is_zero fstype)) [
      | inl f ↦ rw (e, f) (with_path_held (report_statfs host buf) (report_statfs_held buf) w name)
      | inr f ↦ rw (e, f) (law.held-copy_statfs buf _ len w)
    ]
  ]

  fstatfs_held :
      (fd : ℤ) (buf : ℕ) (len fstype : ℤ) (w : World)
      → held (svr4_fstatfs host fd buf len fstype w).1 ≡ held w
  unfolding svr4_fstatfs
  fstatfs_held fd buf len fstype w = elim (Bool-cases (leb_ℤ len (pos 40))) [
    | inr e ↦ rw e refl
    | inl e ↦ elim (Bool-cases (is_zero fstype)) [
      | inl f ↦ rw (e, f) (file_held (report_statfs host buf) (report_statfs_held buf) w fd _ refl)
      | inr f ↦ rw (e, f) (law.held-copy_statfs buf _ len w)
    ]
  ]

  -- statvfs, fstatvfs, both of SCO too, statfs and fstatfs hold nothing when they return: as many
  -- paths and files are held as before, on every path, errors included.
  pub statvfs_held :
      (name buf : ℕ) (fd len fstype : ℤ) (w : World)
      → (held (svr4_statvfs host name buf w).1 ≡ held w)
        × (held (svr4_fstatvfs host fd buf w).1 ≡ held w)
        × (held (sco_statvfs host name buf w).1 ≡ held w)
        × (held (sco_fstatvfs host fd buf w).1 ≡ held w)
        × (held (svr4_statfs host name buf len fstype w).1 ≡ held w)
        × (held (svr4_fstatfs host fd buf len fstype w).1 ≡ held w)
  unfolding svr4_statvfs svr4_fstatvfs sco_statvfs sco_fstatvfs
  statvfs_held name buf fd len fstype w = (
    with_path_held (report_statvfs host false buf) (report_statvfs_held false buf) w name,
    file_held (report_statvfs host false buf) (report_statvfs_held false buf) w fd _ refl,
    with_path_held (report_statvfs host true buf) (report_statvfs_held true buf) w name,
    file_held (report_statvfs host true buf) (report_statvfs_held true buf) w fd _ refl,
    statfs_held name buf len fstype w,
    fstatfs_held fd buf len fstype w,
  )
