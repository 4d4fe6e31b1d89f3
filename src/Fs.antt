-- ===== src/Fs.antt =====
-- The loaders of foreign executables (abiemu/fs).
pub mod Coff
