-- ===== src/Access.antt =====
-- packages/shared/src/permissions.ts and e2ee-recipients.ts: who may do what, and who may be given
-- a room's key.
pub mod Permissions
pub mod Topics
pub mod Recipients
mod Tests
