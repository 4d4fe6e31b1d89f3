-- ===== src/Svr4/Open/Descriptors.antt =====
-- That open(2) leaves no descriptor behind when it fails.
use linux_abiemu.Prelude.{
  ℕ, Bool, true, false, not, ◌&&◌, ◌||◌, Option, none, some, ◌≡◌, refl, sym, ap, ◌∙◌, inl, inr, ℤ,
  neg, is_neg, is_zero, eqb_ℤ, eqb_ℤ_eq, leb, arith, Bool-cases,
}
use linux_abiemu.Util.Map.{map_flags}
use linux_abiemu.Svr4.Fcntl.{fl_svr4_to_linux}
use linux_abiemu.Svr4.Open.{
  OpenHost, GotName, err_ptr, copied, svr4_open, opened_file, connect_socket, connect_named,
  connected, e2big,
}

-- Is fd the descriptor that a result stands for? An error stands for none.
abbrev pub is_result : ℤ → ℤ → Bool
is_result out fd = not (is_neg out) && eqb_ℤ fd out

-- What the kernel's calls do to the open descriptors of a process: open and socket open the one that
-- they give, which was not open before, and none when they fail; close closes the one it is given,
-- and none when that is not open; getname fails with errors only and connect with negative ones; the
-- rest leaves descriptors alone.
pub record Descriptors (host : OpenHost) : Type 0 where
  pub is_open : host.World → ℤ → Bool
  pub open_new :
      (p f m : ℕ) (w : host.World)
      → is_neg (host.sys_open p f m w).0 ≡ false
      → is_open w (host.sys_open p f m w).0 ≡ false
  pub open_opens :
      (p f m : ℕ) (w : host.World) (k : ℤ)
      → is_open (host.sys_open p f m w).1 k ≡ (is_open w k || is_result (host.sys_open p f m w).0 k)
  pub socket_new :
      (w : host.World) → is_neg (host.socket w).0 ≡ false → is_open w (host.socket w).0 ≡ false
  pub socket_opens :
      (w : host.World) (k : ℤ)
      → is_open (host.socket w).1 k ≡ (is_open w k || is_result (host.socket w).0 k)
  pub close_closes :
      (fd : ℤ) (w : host.World) (k : ℤ)
      → is_open (host.sys_close fd w) k ≡ (is_open w k && not (eqb_ℤ k fd))
  pub fget_keeps : (fd : ℤ) (w : host.World) (k : ℤ) → is_open (host.fget fd w).1 k ≡ is_open w k
  pub fput_keeps : (file : ℕ) (w : host.World) (k : ℤ) → is_open (host.fput file w) k ≡ is_open w k
  pub connect_keeps :
      (fd : ℤ) (p : ℕ) (w : host.World) (k : ℤ) → is_open (host.connect fd p w).1 k ≡ is_open w k
  pub getname_keeps :
      (p : ℕ) (w : host.World) (k : ℤ) → is_open (host.getname p w).1 k ≡ is_open w k
  pub putname_keeps : (p : ℕ) (w : host.World) (k : ℤ) → is_open (host.putname p w) k ≡ is_open w k
  pub connect_error :
      (fd : ℤ) (p : ℕ) (w : host.World)
      → is_zero (host.connect fd p w).0 ≡ false
      → is_neg (host.connect fd p w).0 ≡ true
  pub getname_error :
      (p : ℕ) (w : host.World) (e : ℤ) → (host.getname p w).0 ≡ err_ptr e → is_neg e ≡ true

closed_again : (a b : Bool) → (b ≡ true → a ≡ false) → ((a || b) && not b) ≡ a
closed_again a b h = ground arith

module _ (host : OpenHost) (law : Descriptors host) (fname : ℕ) where
  open host use {World, sys_close, fget, fput, is_sock, socket, connect, getname, putname}
  open law use {is_open}

  -- The descriptors that are open after a call, against those at w: those, and the one that is
  -- returned, which is new.
  pub record IsAccounted (w : World) (out : ℤ × World) : Type 0 where
    pub opens : (k : ℤ) → is_open out.1 k ≡ (is_open w k || is_result out.0 k)
    pub new : is_neg out.0 ≡ false → is_open w out.0 ≡ false

  module _ (w : World) where
    abbrev Same : World → Type 0
    Same v = (k : ℤ) → is_open v k ≡ is_open w k

    -- An error, with the descriptors as they were.
    failed : (e : ℤ) (v : World) → is_neg e ≡ true → Same v → IsAccounted w (e, v)
    failed e v h same = record { opens = λ k. same k ∙ rw h (ground arith); new = λ g. cc (h, g) }

    -- A descriptor that was opened and is still open.
    module _ (fd : ℤ) (good : is_neg fd ≡ false) (fresh : is_open w fd ≡ false) where
      abbrev Held : World → Type 0
      Held v = (k : ℤ) → is_open v k ≡ (is_open w k || eqb_ℤ k fd)

      closed : (v : World) → Held v → Same (sys_close fd v)
      closed v held k =
          law.close_closes fd v k
          ∙ ap (λ b. b && not (eqb_ℤ k fd)) (held k)
          ∙ closed_again (is_open w k) (eqb_ℤ k fd) (λ e. ap (is_open w) (eqb_ℤ_eq k fd e) ∙ fresh)

      kept : (v : World) → Held v → IsAccounted w (fd, v)
      kept v held = record { opens = λ k. held k ∙ rw good refl; new = λ g. fresh }

      given_up : (e : ℤ) (v : World) → is_neg e ≡ true → Held v → IsAccounted w (e, sys_close fd v)
      given_up e v h held = failed e _ h (closed v held)

      connected-IsAccounted :
          (p : ℕ) (v : World) → Held v → IsAccounted w (connected host fd (connect fd p v))
      connected-IsAccounted p v held = elim (Bool-cases (is_zero (connect fd p v).0)) [
        | inl e ↦ rw e (kept (connect fd p v).1 (λ k. law.connect_keeps fd p v k ∙ held k))
        | inr e ↦
            rw e
              (given_up _ _ (law.connect_error fd p v e) (λ k. law.connect_keeps fd p v k ∙ held k))
      ]

      named-IsAccounted :
          (path : ℕ) (v : World) (name : GotName)
          → (getname path v).0 ≡ name
          → Held (getname path v).1
          → IsAccounted w (connect_named host fd (name, (getname path v).1))
      named-IsAccounted path v (err_ptr e) h held = given_up e _ (law.getname_error path v e h) held
      named-IsAccounted path v (copied p len) h held = elim (Bool-cases (leb 108 len)) [
        | inl e ↦ rw e (given_up (neg e2big) _ refl (λ k. law.putname_keeps p _ k ∙ held k))
        | inr e ↦ rw e (connected-IsAccounted p _ (λ k. law.putname_keeps p _ k ∙ held k))
      ]

    -- What a call that opens something gives.
    result_held :
        (v v' : World) (fd : ℤ)
        → is_neg fd ≡ false
        → Same v
        → ((k : ℤ) → is_open v' k ≡ (is_open v k || is_result fd k))
        → (k : ℤ) → is_open v' k ≡ (is_open w k || eqb_ℤ k fd)
    result_held v v' fd good same opens k = opens k ∙ rw good (ap (λ b. b || eqb_ℤ k fd) (same k))

    result_lost :
        (v v' : World) (fd : ℤ)
        → is_neg fd ≡ true
        → Same v
        → ((k : ℤ) → is_open v' k ≡ (is_open v k || is_result fd k))
        → Same v'
    result_lost v v' fd bad same opens k = opens k ∙ rw bad (ground (arith, same k))

    socket-IsAccounted : (v : World) → Same v → IsAccounted w (connect_socket host fname (socket v))
    socket-IsAccounted v same = elim (Bool-cases (is_neg (socket v).0)) [
      | inl e ↦ rw e (failed _ _ e (result_lost v _ _ e same (law.socket_opens v)))
      | inr e ↦ rw e (
          named-IsAccounted (socket v).0 e (sym (same _) ∙ law.socket_new v e) fname (socket v).1 _
            refl λ k. law.getname_keeps fname _ k ∙ result_held v _ _ e same (law.socket_opens v) k)
    ]

    module _ (fd : ℤ) (good : is_neg fd ≡ false) (fresh : is_open w fd ≡ false) where
      file-IsAccounted :
          (v : World) (file : Option ℕ)
          → ((k : ℤ) → is_open v k ≡ (is_open w k || eqb_ℤ k fd))
          → IsAccounted w (opened_file host fname fd (file, v))
      file-IsAccounted v none held = kept fd good fresh v held
      file-IsAccounted v (some file) held = elim (Bool-cases (is_sock file v)) [
        | inr e ↦ rw e (kept fd good fresh _ (λ k. law.fput_keeps file v k ∙ held k))
        | inl e ↦
            rw e (
              socket-IsAccounted _ (closed fd good fresh _ (λ k. law.fput_keeps file v k ∙ held k)))
      ]

  -- open(2) accounts for every descriptor: on success those that were open before are open, and one
  -- more that was not, the one that is returned, also where a socket takes the place of the file; on
  -- every failure exactly those that were open before.
  pub svr4_open-IsAccounted :
      (flag mode : ℕ) (w : World) → IsAccounted w (svr4_open host fname flag mode w)
  unfolding svr4_open
  svr4_open-IsAccounted flag mode w =
      let m = map_flags flag fl_svr4_to_linux in
      let got = host.sys_open fname m mode w in
      elim (Bool-cases (is_neg got.0)) [
        | inl e ↦
            rw e
              (failed w _ _ e (result_lost w w _ _ e (λ k. refl) (law.open_opens fname m mode w)))
        | inr e ↦ rw e (
            file-IsAccounted w _ e (law.open_new fname m mode w e) _ _ λ k.
              law.fget_keeps _ _ k
              ∙ result_held w w _ _ e (λ i. refl) (law.open_opens fname m mode w) k)
      ]
