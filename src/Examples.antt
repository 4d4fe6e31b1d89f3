-- ===== src/Examples.antt =====
-- Concrete kernels and programs, and the properties of the components at them.
mod Hosts
mod IpcHost
mod Tables
mod Registry
mod Calls
mod Signals
mod Ipc
mod Dispatch
mod Files
mod Directories
mod Terminals
mod Loader
mod Processes
