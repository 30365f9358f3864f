-- ===== src/Operations/Owners.antt =====
-- The rule that an organization keeps an active owner.
pub mod Rows
pub mod Frames
pub mod Membership
pub mod Leaving
pub mod History
