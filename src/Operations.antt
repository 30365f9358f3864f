-- ===== src/Operations.antt =====
-- crates/db/src/operations
pub mod Support
pub mod Membership
pub mod Teams
pub mod Channels
pub mod Messages
pub mod Identity
pub mod Invites
pub mod Sessions
pub mod Leaving
pub mod Stable
pub mod Keeps
pub mod Posting
pub mod Numbering
pub mod RevokedInvites
pub mod InviteEffects
pub mod Frames
pub mod Calls
pub mod Facts
pub mod Owners
pub mod Tenancy
pub mod Reading
pub mod TeamEffects
pub mod Founding
pub mod SigningIn
pub mod Acceptance
pub mod Revocation
