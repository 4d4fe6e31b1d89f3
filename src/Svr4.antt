-- ===== src/Svr4.antt =====
-- The system calls of System V (abiemu/abi/svr4).
pub mod Fcntl
pub mod Ulimit
pub mod Signal
pub mod Ipc
pub mod Mmap
pub mod Wait
pub mod Sysconf
pub mod Types
pub mod Stat
pub mod Nodes
pub mod Process
pub mod Waitpid
pub mod Readdir
pub mod Open
pub mod Statvfs
pub mod Hrtsys
pub mod Termios
pub mod Getdents
