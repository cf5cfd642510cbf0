-- ===== src/Kernel.antt =====
-- kernel: the samples of kernel services, and utils/_01_SRNG, which prints numbers as they do.
pub mod Binary
pub mod Random
pub mod Events
pub mod Timers
pub mod Zbus
pub mod HeapQueue
pub mod MsgQueue
pub mod Pool
mod Tests
