-- ===== src/Domain.antt =====
-- crates/domain/src/lib.rs: identities, enumerations, the last-owner rule and message identities.
pub mod ActorType
pub mod OrganizationRole
pub mod MemberStatus
pub mod TeamRole
pub mod InviteKind
pub mod Owners
pub mod Identifiers
