-- ===== src/Secure.antt =====
-- src/secure: keys and locks. `Authorize` the walk
-- over the locks that decides an access (key.c, lock.c), `Decision` what that walk computes,
-- `Key` the active key.
pub mod Authorize
pub mod Decision
pub mod Key
