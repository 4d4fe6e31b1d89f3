-- ===== src/Lib.antt =====
-- linux-abiemu: the emulation of foreign Unix system calls in a Linux kernel.
--
-- A program of another System V system enters the kernel by lcall7. The handler of its execution
-- domain picks an entry of the domain's system call table and `lcall7_dispatch` reads the
-- arguments, calls the function and puts its result, or an error number that the domain's table
-- translates, into the saved registers. The functions translate flags, signals and structures,
-- and call Linux. `__set_personality` gives a process its execution domain, out of a list that the
-- personality modules register with; the loader of COFF programs picks the domain by the comments
-- in the file.
--
-- What is modelled, and where:
--   Util.Map           abiemu/include/abi/util/map.h: tables for flags, signals and numbers
--   Util.Regs          abiemu/include/asm-i386/abi_machdep.h: results in the saved registers
--   Kernel.Domain      struct exec_domain (abiemu/include/linux/personality.h), iABI_errors
--   Kernel.Registry    abiemu/kernel/exec_domain.c: register_exec_domain, unregister_exec_domain
--   Kernel.Personality abiemu/kernel/exec_domain.c: lookup_exec_domain, __set_personality (here
--                      set_personality_always), the macro set_personality, sys_personality
--   Kernel.Handlers    abiemu/kernel/exec_domain.c: lcall_default_handler, lcall_autodetect_handler
--   Entry              abiemu/arch/i386/kernel/lcall7.c
--   Entry.Cxenix       abiemu/abi/cxenix/sysent.c
--   Abi                the tables of abiemu/abi/{ibcs,isc,uw7,wyse,solaris,sco}/sysent.c, and the
--                      lcall7 handlers, which differ in their tables only (persona_lcall7)
--   Abi.Calls          the system call tables of the same files, the prototypes of the functions
--                      they name (abiemu/include/abi/*/sysent.h) and the subdispatchers of ISC and
--                      Wyse
--   Svr4.Fcntl         abiemu/abi/svr4/fcntl.c
--   Svr4.Ulimit        abiemu/abi/svr4/ulimit.c
--   Svr4.Signal        abiemu/abi/svr4/signal.c
--   Svr4.Mmap          abiemu/abi/svr4/mmap.c
--   Svr4.Ipc           abiemu/abi/svr4/ipc.c, abiemu/include/abi/svr4/ipc.h
--   Svr4.Wait          abiemu/abi/svr4/svr4.c, but pathconf, which is in Svr4.Sysconf
--   Svr4.Sysconf       abiemu/abi/svr4/sysconf.c
--   Svr4.Types         abiemu/include/abi/svr4/types.h
--   Svr4.Stat          abiemu/abi/svr4/stat.c
--   Svr4.Statvfs       abiemu/abi/svr4/statvfs.c, abiemu/abi/sco/statvfs.c, statfs of open.c
--   Svr4.Open          abiemu/abi/svr4/open.c: open
--   Svr4.Getdents      abiemu/abi/svr4/open.c: getdents
--   Svr4.Process       abiemu/abi/svr4/misc.c: breaks, identities, fork, pipe, exec, groups, kill
--   Svr4.Waitpid       abiemu/abi/svr4/misc.c: abi_wait
--   Svr4.Readdir       abiemu/abi/svr4/misc.c: abi_read, abi_read_dir
--   Svr4.Nodes         abiemu/abi/svr4/misc.c: mkdir, mknod, xmknod
--   Svr4.Hrtsys        abiemu/abi/svr4/hrtsys.c
--   Svr4.Termios       abiemu/abi/svr4/termios.c: System V, with its ioctls in Requests; Bsd, Sgtty and
--                      Ioctls for BSD and Version 7
--   Fs.Coff            abiemu/fs/binfmt_coff.c: coff_load_object and what it is called by; Comments
--                      is coff_parse_comments, Libraries coff_preload_shlib and its caller, Stack
--                      coff_mktables, Image the sections and their mappings
-- The child modules hold the theorems, named for what they are about. Examples has concrete
-- kernels and programs.
--
-- How it is modelled. A C function is a function that takes the state and returns it; an int is a
-- ℤ, a word its bits as a ℕ below 2 ^ 32, a pointer a number (0 for NULL) or an option. The kernel
-- functions that the code calls are members of an interface record (Modules, LcallHost, Syscalls,
-- Files, Rlimits, SignalHost, IpcHost, Mappings, Sigsets, WaitHost, StatHost, ProcessHost,
-- DirHost, OpenHost, FsHost, TermHost, CoffHost and others) over a type World of states that the
-- record names; what is assumed of them is in fields of the record, or in a record of laws
-- (MaskLaws, Brk, Readdir, Descriptors, Holding, Copies, Keeps, Confined, Ledgers, Names, Quiet).
-- The pairs get_fs/set_fs, which switch the address check off for kernel buffers, are left out but
-- in the COFF loader, where one of them can be missed, and so is tracing. The lists of domains are
-- walked with fuel, one unit for a domain and one for the end; a result `none` means that it ran
-- out, and the theorems on the lists show that one more than the number of domains is enough. The
-- loop over a directory has one unit for each byte that the program asked for and one for the end,
-- and is proved to end within them. The loops of the COFF loader over comments and libraries have
-- one unit for each byte of the section, which the theorems on it show to be enough. The numbers
-- of linux/coff.h are parameters (Numbers). The locks make an operation on the list one step.
--
-- What is not modelled: the other ioctls, sockets, XTI, the remaining small calls of System V and
-- those of a single personality, the x.out loader: each is work of its own on top of these
-- parts. The patched copies of Linux files and the tools are left aside as third-party code and
-- command line helpers.
pub mod Prelude
pub mod Util
pub mod Kernel
pub mod Entry
pub mod Abi
pub mod Svr4
pub mod Fs
pub mod Examples
