-- ===== src/Lock.antt =====
-- The blocking locks of kernel/proc: mutex.c, rwlock.c and condvar.c, over the wait queues of `Wait`.
pub mod Mutex
pub mod Semaphore
pub mod RwLock
