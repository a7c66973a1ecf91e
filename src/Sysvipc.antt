-- ===== src/Sysvipc.antt =====
-- src/extension/sysvipc: System V semaphores and message queues for the tracees of a namespace, and the
-- calls that block.
pub mod State
pub mod Semaphore
pub mod Message
pub mod Waits
pub mod SharedMemory
