-- ===== src/Fs/Coff/Stack.antt =====
-- abiemu/fs/binfmt_coff.c: coff_mktables, which lays out the tables of arguments and environment
-- below their strings.
use linux_abiemu.Prelude.{ℕ, zero, suc, ◌+◌, ◌-◌, ◌*◌, ◌/◌, ◌%◌, ◌^◌}
use linux_abiemu.Fs.Coff.Host.{CoffHost, Binprm, put_word, set_args}

-- A pointer to words goes down by n.
abbrev pub words_below : ℕ → ℕ → ℕ
words_below n sp = (sp + (2 ^ 32 - 4 * n % 2 ^ 32)) % 2 ^ 32

module _ (host : CoffHost) where
  open host use {World, act, strlen_user}

  -- One loop over strings: their addresses into the table, and where the strings end.
  unfoldable pub put_strings : ℕ → ℕ → ℕ → World → ℕ × World
  put_strings zero table p w = (p, act (put_word table 0) w)
  put_strings (suc n) table p w =
      let w' = act (put_word table p) w in
      put_strings n ((table + 4) % 2 ^ 32) ((p + strlen_user p w') % 2 ^ 32) w'

  unfoldable pub coff_mktables : Binprm → World → ℕ × World
  coff_mktables bprm w =
      let envp = words_below (bprm.envc + 1) (bprm.p / 4 * 4) in
      let argv = words_below (bprm.argc + 1) envp in
      let sp = words_below 1 argv in
      let (env_start, w') = put_strings bprm.argc argv bprm.p (act (put_word sp bprm.argc) w) in
      let (env_end, w'') = put_strings bprm.envc envp env_start w' in
      (sp, act (set_args bprm.p env_start env_end) w'')
