-- ===== src/Svr4/Open.antt =====
-- abiemu/abi/svr4/open.c: open(2), which connects to a socket where the name is one.
pub mod Descriptors
use linux_abiemu.Prelude.{
  ℕ, Bool, true, false, Option, none, some, ℤ, pos, neg, is_neg, is_zero, leb, if◌then◌else◌,
}
use linux_abiemu.Util.Map.{map_flags}
use linux_abiemu.Svr4.Fcntl.{fl_svr4_to_linux}

abbrev pub e2big : ℕ
e2big = 7

-- UNIX_PATH_MAX
abbrev pub unix_path_max : ℕ
unix_path_max = 108

-- A name in the kernel, with its length (`strlen`), or an error.
pub data GotName : Type 0 where
  err_ptr : ℤ → GotName
  copied : ℕ → ℕ → GotName

-- The kernel's calls. A file is a number; `socket` and `connect` are sys_socketcall for a stream
-- socket of the Unix domain, the latter with the name as the address.
pub record OpenHost : Type 1 where
  pub World : Type 0
  pub sys_open : ℕ → ℕ → ℕ → World → ℤ × World
  pub sys_close : ℤ → World → World
  pub fget : ℤ → World → Option ℕ × World
  pub fput : ℕ → World → World
  pub is_sock : ℕ → World → Bool
  pub socket : World → ℤ × World
  pub connect : ℤ → ℕ → World → ℤ × World
  pub getname : ℕ → World → GotName × World
  pub putname : ℕ → World → World

module _ (host : OpenHost) where
  open host use {World, sys_open, sys_close, fget, fput, is_sock, socket, connect, getname, putname}

  abbrev pub connected : ℤ → ℤ × World → ℤ × World
  connected fd (error, w) = if is_zero error then (fd, w) else (error, sys_close fd w)

  abbrev pub connect_named : ℤ → GotName × World → ℤ × World
  connect_named fd (err_ptr e, w) = (e, sys_close fd w)
  connect_named fd (copied p n, w) =
      if leb unix_path_max n
      then (neg e2big, sys_close fd (putname p w))
      else connected fd (connect fd p (putname p w))

  abbrev pub connect_socket : ℕ → ℤ × World → ℤ × World
  connect_socket fname (fd, w) = if is_neg fd then (fd, w) else connect_named fd (getname fname w)

  abbrev pub opened_file : ℕ → ℤ → Option ℕ × World → ℤ × World
  opened_file fname fd (none, w) = (fd, w)
  opened_file fname fd (some file, w) =
      if is_sock file w
      then connect_socket fname (socket (sys_close fd (fput file w)))
      else (fd, fput file w)

  abbrev pub opened : ℕ → ℤ × World → ℤ × World
  opened fname (fd, w) = if is_neg fd then (fd, w) else opened_file fname fd (fget fd w)

  -- The flags reach map_flags as a short, and the mode the kernel as it is.
  unfoldable pub svr4_open : ℕ → ℕ → ℕ → World → ℤ × World
  svr4_open fname flag mode w =
      opened fname (sys_open fname (map_flags flag fl_svr4_to_linux) mode w)
