-- ===== src/Kernel.antt =====
-- Execution domains and the personality of a process (abiemu/kernel/exec_domain.c).
pub mod Domain
pub mod Registry
pub mod Personality
pub mod Handlers
