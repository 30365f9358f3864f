-- ===== src/Db.antt =====
-- The persistence boundary: the tables, the policies on them, and transactions.
pub mod Schema
pub mod Context
pub mod TokenHash
pub mod Policies
pub mod Transaction
pub mod Steps
pub mod Keeps
