-- ===== src/Chat/Steps/Rows.antt =====
-- apps/ws/src/messages.ts: the rows that inserts and updates leave.
use legends_chat.Common.{◌<◌, ◌≡◌, nat_eq, string_eq, Among}
use legends_chat.Chat.Tables.{Message, Database}

-- The primary key, and the counter of fresh ids.
pub record IsKeyed (db : Database) : Type 0 where
  pub keyed : (m n : Message) → Among m db.messages → Among n db.messages → m.id ≡ n.id → m ≡ n
  pub below : (m : Message) → Among m db.messages → m.id < db.next_id
