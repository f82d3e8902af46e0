-- ===== src/Queues.antt =====
-- The lock-free queues of src/tinybase-queues.c.
pub mod Fifo
pub mod Ring
pub mod FreeList
