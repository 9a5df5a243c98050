-- ===== src/Orgs.antt =====
-- Organizations, their members and invitations: lib/organizations/types.ts, authorization.ts,
-- service.ts and the rows of repository.ts.
pub mod Roles
pub mod Row
pub mod Authorization
pub mod Members
pub mod Invitations
pub mod Privileges
pub mod Ownership
pub mod Founding
pub mod OrgHistories
pub mod Governance
pub mod Offers
pub mod Seats
mod Tests
