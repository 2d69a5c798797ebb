-- ===== src/Locks.antt =====
-- app/persistence/redis/: the locks that the workers share.
mod Store
mod Exclusion
mod Tests
