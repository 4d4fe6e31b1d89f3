-- ===== src/Svr4/Ipc.antt =====
-- abiemu/abi/svr4/ipc.c: semaphores, shared memory and message queues. Tracing is left out.
pub mod Structs
pub mod Convert
pub mod Host
pub mod Sem
pub mod Shm
pub mod Msg
pub mod Roundtrip
pub mod Calls
