-- ===== src/Svr4/Stat/Reports.antt =====
-- How the calls that report a file's state compare, and on every branch.
use linux_abiemu.Prelude.{
  ℕ, true, false, Option, none, some, ◌≡◌, ◌≢◌, refl, inl, inr, ℤ, pos, neg, is_zero, leb_ℤ, eqb_ℤ,
  Bool-cases, Option-cases, eqb_ℤ_eq, eqb_ℤ_ne,
}
use linux_abiemu.Kernel.Domain.{efault, einval}
use linux_abiemu.Svr4.Stat.{
  Kstat, StatHost, svr4_stat_of, svr4_xstat_of, copy_record, report_svr4_stat, report_svr4_xstat,
  by_version, if_found, svr4_stat, svr4_lstat, svr4_fstat, svr4_xstat, svr4_lxstat, svr4_fxstat,
  eoverflow, max_non_lfs,
}
use linux_abiemu.Svr4.Stat.Records.{Shows, ShowsMore, record-Shows, xrecord-ShowsMore}

module _ (host : StatHost) where
  open host use {World}

  -- xstat, lxstat and fxstat with version 1 do what stat, lstat and fstat do, errors included.
  pub xstat_version_1 :
      (filename bufp : ℕ) (fd : ℤ) (w : World)
      → (svr4_xstat host (pos 1) filename bufp w ≡ svr4_stat host filename bufp w)
        × (svr4_lxstat host (pos 1) filename bufp w ≡ svr4_lstat host filename bufp w)
        × (svr4_fxstat host (pos 1) fd bufp w ≡ svr4_fstat host fd bufp w)
  unfolding svr4_xstat svr4_stat svr4_lxstat svr4_lstat svr4_fxstat svr4_fstat by_version
  xstat_version_1 filename bufp fd w = (refl, refl, refl)

  -- The ends of a report of a record of type A.
  pub data Reported {A : Type 0} (copy : ℕ → A → World → Option World) (size : ℤ)
      (is_record : A → Type 0) (bufp : ℕ) (w : World) (out : ℤ × World) : Type 0 where
    too_large :
        leb_ℤ size (pos 0x7fff_ffff) ≡ false
        → out ≡ (neg eoverflow, w)
        → Reported copy size is_record bufp w out
    lost :
        (buf : A)
        → leb_ℤ size (pos 0x7fff_ffff) ≡ true
        → is_record buf
        → copy bufp buf w ≡ none
        → out ≡ (neg efault, w)
        → Reported copy size is_record bufp w out
    stored :
        (buf : A) (w' : World)
        → leb_ℤ size (pos 0x7fff_ffff) ≡ true
        → is_record buf
        → copy bufp buf w ≡ some w'
        → out ≡ (pos 0, w')
        → Reported copy size is_record bufp w out

  copy-Reported :
      {A : Type 0} (copy : ℕ → A → World → Option World) (size : ℤ) (is_record : A → Type 0)
      (bufp : ℕ) (w : World) (buf : A)
      → leb_ℤ size (pos 0x7fff_ffff) ≡ true
      → is_record buf
      → Reported copy size is_record bufp w (copy_record host copy bufp w (some buf))
  copy-Reported copy size is_record bufp w buf small shows = elim (Option-cases (copy bufp buf w)) [
    | inl e ↦ lost buf small shows e (rw e refl)
    | inr (w', e) ↦ stored buf w' small shows e (rw e refl)
  ]

  old-Reported :
      (st : Kstat) (bufp : ℕ) (w : World)
      → Reported host.copy_stat st.size
          (Shows host.types st)
          bufp
          w
          (copy_record host host.copy_stat bufp w (svr4_stat_of host.types st))
  unfolding svr4_stat_of
  old-Reported st bufp w = elim (Bool-cases (leb_ℤ st.size max_non_lfs)) [
    | inr e ↦ rw e (too_large e refl)
    | inl e ↦ rw e (copy-Reported host.copy_stat st.size _ bufp w _ e (record-Shows host.types st))
  ]

  new-Reported :
      (st : Kstat) (bufp : ℕ) (w : World)
      → Reported host.copy_xstat st.size
          (ShowsMore host.types host.short_inode st)
          bufp
          w
          (copy_record host host.copy_xstat bufp w (svr4_xstat_of host.types host.short_inode st))
  unfolding svr4_xstat_of
  new-Reported st bufp w = elim (Bool-cases (leb_ℤ st.size max_non_lfs)) [
    | inr e ↦ rw e (too_large e refl)
    | inl e ↦ rw e (
        copy-Reported host.copy_xstat st.size _ bufp w _ e
          (xrecord-ShowsMore host.types host.short_inode st))
  ]

  -- The ends of xstat and its kin, after the kernel's answer.
  pub data Versioned (vers : ℤ) (bufp : ℕ) (answer : ℤ × Kstat × World) (out : ℤ × World)
      : Type 0 where
    not_found :
        is_zero answer.0 ≡ false → out ≡ (answer.0, answer.2) → Versioned vers bufp answer out
    old_record :
        is_zero answer.0 ≡ true
        → vers ≡ pos 1
        → Reported host.copy_stat answer.1.size (Shows host.types answer.1) bufp answer.2 out
        → Versioned vers bufp answer out
    new_record :
        is_zero answer.0 ≡ true
        → vers ≡ pos 2
        → Reported host.copy_xstat answer.1.size
            (ShowsMore host.types host.short_inode answer.1)
            bufp
            answer.2
            out
        → Versioned vers bufp answer out
    no_version :
        is_zero answer.0 ≡ true
        → vers ≢ pos 1
        → vers ≢ pos 2
        → out ≡ (neg einval, answer.2)
        → Versioned vers bufp answer out

  module _ (vers : ℤ) (bufp : ℕ) where
    if_found-Versioned :
        (answer : ℤ × Kstat × World)
        → Versioned vers bufp answer (if_found host (by_version host vers bufp) answer)
    unfolding by_version report_svr4_stat report_svr4_xstat
    if_found-Versioned (error, st, w) = elim (Bool-cases (is_zero error)) [
      | inr e ↦ rw e (not_found e refl)
      | inl e ↦ elim (Bool-cases (eqb_ℤ vers (pos 1))) [
        | inl f ↦ rw (e, f) (old_record e (eqb_ℤ_eq _ _ f) (old-Reported st bufp w))
        | inr f ↦ elim (Bool-cases (eqb_ℤ vers (pos 2))) [
          | inl g ↦ rw (e, f, g) (new_record e (eqb_ℤ_eq _ _ g) (new-Reported st bufp w))
          | inr g ↦ rw (e, f, g) (no_version e (eqb_ℤ_ne _ _ f) (eqb_ℤ_ne _ _ g) refl)
        ]
      ]
    ]

    -- xstat, lxstat and fxstat on every branch: the error of a file that is not found; by version
    -- the old record (1), which shows of the file what `Shows` says, or the new one (2), for which it
    -- is `ShowsMore`; EOVERFLOW, with nothing written, exactly for a file of more than 2147483647
    -- bytes, and EFAULT where the record cannot be written; EINVAL for any other version.
    pub xstat-Versioned :
        (filename : ℕ) (fd : ℤ) (w : World)
        → Versioned vers bufp (host.vfs_stat filename w) (svr4_xstat host vers filename bufp w)
          × Versioned vers bufp (host.vfs_lstat filename w) (svr4_lxstat host vers filename bufp w)
          × Versioned vers bufp (host.vfs_fstat fd w) (svr4_fxstat host vers fd bufp w)
    unfolding svr4_xstat svr4_lxstat svr4_fxstat
    xstat-Versioned filename fd w = (
      if_found-Versioned (host.vfs_stat filename w),
      if_found-Versioned (host.vfs_lstat filename w),
      if_found-Versioned (host.vfs_fstat fd w),
    )
