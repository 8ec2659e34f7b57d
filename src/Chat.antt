-- ===== src/Chat.antt =====
-- apps/ws/src: the socket server's messages, polls and reactions, and what gates them.
pub mod Tables
pub mod Content
pub mod World
pub mod Gates
pub mod Messages
pub mod Edits
pub mod Posting
pub mod Polls
pub mod Socket
pub mod Joining
pub mod Requests
pub mod Gated
pub mod Steps
pub mod Sending
pub mod Delivery
pub mod Reacting
mod Tests
