-- ===== src/Libc.antt =====
-- The C library of user programs in userland/libc.
pub mod Malloc
pub mod Memory
mod Tests
