-- ===== src/Secure/Decision.antt =====
-- What `corto_authorize_id` computes: the votes of the locks that apply to the object, ranked by
-- priority first and by depth second.
pub mod Votes
pub mod Ranking
pub mod Weighing
pub mod Outcome
