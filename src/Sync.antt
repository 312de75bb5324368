-- ===== src/Sync.antt =====
-- The blocking mutex of kernel/mutex.c and the counting semaphore of kernel/semaphore.c, over the
-- FIFO wait queue that both thread through the field `wait_next` of the threads.
pub mod Wait
pub mod Mutex
pub mod Semaphore
mod Tests
