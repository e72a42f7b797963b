-- ===== src/Nvme.antt =====
-- drivers/nvme-ssd: the command queues of the NVMe driver.
pub mod RingBuffer
pub mod Batch
pub mod Queue
pub mod Issue
mod Tests
