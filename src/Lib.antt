-- ===== src/Lib.antt =====
-- legends-chat: what decides who may do what, what an upload may carry, and who is in a call.
--
-- The repository is a chat application: a Next.js server (apps/web), a socket server (apps/ws), a
-- Telegram bot (apps/bot), bots, and the packages they share (packages/shared, packages/db,
-- packages/crypto, packages/bot-sdk). Modelled are:
--
-- * Image, apps/web/lib/image-metadata.ts. The upload route sniffs a file's type by its first
--   bytes (`sniffImageMime`: Image.Sniff) and refuses it if the scanner of that type reports
--   metadata or cannot read the file (`hasImageMetadata`: Image.Sniff). `scanJpeg`, `scanPng`,
--   `scanWebp` and `scanGif` are Image.Jpeg, Image.Png, Image.Webp and Image.Gif: a function for
--   a round of each loop, over a record of the loop's variables, and `walk` of Image.Scan for the
--   loop. A buffer is a list of bytes; a read out of range, which throws, is `none`. The children
--   (Chunks, Segments, Blocks) say what a file of each format is, as data types; the theorems
--   compare the two.
-- * Access, packages/shared/src/permissions.ts and packages/shared/src/e2ee-recipients.ts. Roles,
--   permissions and topic grants (Access.Permissions, Access.Topics), and the set of users to
--   whom a room key is given (`verifyRecipientSet`: Access.Recipients). A Set is the list of its
--   members in insertion order. The order of `Array.prototype.sort` is a parameter.
-- * P2p, apps/ws/src/p2p-signaling.ts. The handlers of peer-to-peer calls, as functions on a
--   state: the Redis store, what has been emitted, and `socketTopics`. Redis is the interface
--   `Cache` of P2p.Redis, which states what the commands do to what the read commands show; the
--   fields of a hash from which one is deleted come in any order. P2p.Tests has a store that
--   satisfies it. A topic's view gate is `can_view_topic` of Access.Topics. `run` is a sequence
--   of the sockets' packets, one handled after the other.
-- * Ids, apps/web/lib/crypto-matrix.ts: the Matrix ids of users, rooms and bots. The regular
--   expressions are a prefix, a run of characters and the domain, read from the left.
-- * Ssrf, packages/shared/src/ssrf.ts: `isBlockedIp`, on the text of an address. Ssrf.Ranges has
--   the blocks that the code lists by their first addresses, Ssrf.Dotted and Ssrf.Groups (with
--   the numbers of Ssrf.Hextets) read the text of an IPv4 and of an IPv6 address, and
--   Ssrf.Addresses puts them together. Ssrf.Trim is about the white space around it.
-- * Codes, packages/shared/src/invite-code.ts and apps/web/lib/totp-recovery.ts: invite codes,
--   and recovery codes with the table `totp_recovery_codes` as a list of rows. SHA-256 and random
--   bytes are parameters; the loop that draws codes until ten differ is left out, its codes are
--   an argument.
-- * Limits, apps/ws/src/rate-limit.ts and `checkAndIncrement` of apps/web/lib/rate-limit.ts: the
--   limiters over an interface to the Redis counters, within a window; EXPIRE keeps a counter if
--   it is given a second or more.
-- * Chat, apps/ws/src/messages.ts and apps/ws/src/index.ts, on the tables of
--   packages/db/src/schema.ts (Chat.Tables). Chat.Gates, Chat.Messages, Chat.Edits and Chat.Polls
--   are the functions of messages.ts, on a database: who may open a topic, who is muted,
--   messages, edits, reactions, polls and votes; Chat.Content is how a message's text is stored.
--   Chat.Posting, Chat.Socket, Chat.Joining (with the gate of bootstrap.ts beside it) and
--   Chat.Requests are the handlers of index.ts, from a server (the database, what is emitted,
--   what is started and not waited for) to an answer and a server, and `handle` is all of them by
--   their event. Chat.World has what they read besides: the clock, the rate limiter, proofs of
--   passwords, JSON and the cipher. `Step` of Chat.Steps is the relation of a server and the
--   next, with a case for each thing that a request may do and the conditions for it; what every
--   request keeps is shown over its cases.
-- * Moderation, apps/web/lib/moderation.ts and moderation-queue.ts, with what they call of
--   auth-revoke.ts, topic-events.ts, audit-log.ts and auth.ts beside them, and of
--   packages/db/src/topic-crypto-members.ts: bans, mutes and flags, on the same database and what
--   Redis holds and has published. A key of a cache is there or not; its expiry is a state of the
--   cache. A mute is what the handlers of Chat ask for (Moderation.Silence).
--
-- Bounds and fuel. The container loops run at most MAX_SEGMENTS rounds, as in the source (GIF:
-- the buffer's length). Fuel stands in for `skipSubBlocks` and the fill bytes of a JPEG marker
-- (the buffer's length, and one more) and for `dequeueNext` (the queue's length, and one more).
-- Sizes are at most 2^32 and offsets far below 2^53, so JavaScript's numbers are exact here and
-- are the natural numbers; a position of -1 is `none`, or 0 where the source adds 1 to it.
--
-- Letters are ASCII in Ids, Ssrf and Codes, where texts are lists of characters, since these
-- change the case of a text; what `trim` takes off in Ssrf and Chat is the white space of all of
-- Unicode.
--
-- Not modelled. The metadata inside a JPEG's entropy-coded data, and bytes behind a file's end,
-- which the scanner does not read. In P2p: the interleaving of two handlers at their awaits,
-- failures of Redis or the database, the lists of ICE servers, the contents of packets, expiry of
-- keys other than as a state of the store, and a negative maximum. In Chat: what zod refuses
-- beyond the refinements (such a payload is answered with its error), the order of awaits,
-- failures of the database other than the refused INSERT of votes, the rooms of sockets and what
-- the bootstrap copies, presence, the relay of Redis channels and the re-authorisation of
-- sockets. In Moderation: the list of pending flags, the metadata of the audit log, and failures
-- of the calls that the code catches. Outside these: the routes, the bot, the other tables and
-- queries, cryptography (vendored or in the browser), and the interface.
pub mod Common
pub mod Image
pub mod Access
pub mod P2p
pub mod Ids
pub mod Ssrf
pub mod Codes
pub mod Limits
pub mod Chat
pub mod Moderation
