-- ===== src/Abi.antt =====
-- The personalities (abiemu/abi): their tables, and what all of them have in common.
mod Segments
pub mod Calls
pub mod Ibcs
pub mod Isc
pub mod Uw7
pub mod Wyse
pub mod Solaris
pub mod Sco
pub mod Personas
pub mod Errors
pub mod Dispatch
pub mod Signals
