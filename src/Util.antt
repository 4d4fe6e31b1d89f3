-- ===== src/Util.antt =====
-- The helpers that every personality shares (abiemu/include/abi/util, abi_machdep.h).
pub mod Map
pub mod Regs
