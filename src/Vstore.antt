-- ===== src/Vstore.antt =====
-- The virtual store: the classes under src/vstore.
pub mod Router
pub mod Mount
pub mod Observers
pub mod Subscriptions
