-- ===== src/Moderation.antt =====
-- apps/web/lib/moderation.ts and moderation-queue.ts: bans, mutes and flags, with what they call of
-- auth-revoke.ts, topic-events.ts, audit-log.ts, auth.ts and packages/db/src/topic-crypto-members.ts.
-- What Redis holds is part of the state: caches, revoked tokens and what was published.
pub mod Office
pub mod Members
pub mod Bans
pub mod Flags
pub mod Leaving
pub mod Banning
pub mod Silence
mod Tests
