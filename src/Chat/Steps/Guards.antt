-- ===== src/Chat/Steps/Guards.antt =====
-- apps/ws/src/index.ts: what the guards of the handlers have checked.
use legends_chat.Common.{◌≡◌, refl, Bool, true, false, not, Option, none, some, nat_eq, string_eq}
use legends_chat.Chat.Tables.{RowId, is_null}
use legends_chat.Chat.World.{World, Caller, Reply, Server}
use legends_chat.Chat.Socket.{reaches}
use legends_chat.Chat.Steps.{Step, Passed}

pub opened : (b : Bool) → not b ≡ false → b ≡ true
opened true h = refl
opened false h = cc

pub unset : {A : Type 0} (o : Option A) → not (is_null o) ≡ false → o ≡ none
unset none h = refl
unset (some a) h = cc

-- What a handler claims of its result.
abbrev pub Steps : World → Caller → Server → Reply × Server → Type 0
Steps w caller s out = Step w caller s out.1

pub passed :
    {w : World} {caller : Caller} {s : Server} {topic_id : Option RowId}
    → w.limited ≡ false
    → not (reaches w caller s.db topic_id) ≡ false
    → Passed w caller s topic_id
passed under shut = record { under = under; open_to = opened _ shut }
