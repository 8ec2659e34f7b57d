-- ===== src/Chat/Steps/Joins.antt =====
-- apps/ws/src/bootstrap.ts against apps/ws/src/messages.ts: the gate of joining a topic is the gate
-- of everything else in it.
use legends_chat.Common.{
  ◌≡◌, refl, sym, ap, ◌∙◌, String, Bool, true, false, not, ◌&&◌, Option, none, some, includes, ◌==◌,
  nat_eq, string_eq, if◌then◌else◌, guard, arith,
}
use legends_chat.Access.Topics.{can_view_topic, is_empty, roles_or_none}
use legends_chat.Chat.Tables.{Topic, is_null}
use legends_chat.Chat.World.{World, Caller, Server}
use legends_chat.Chat.Gates.{has_proof, admits}
use legends_chat.Chat.Joining.{
  SlugOrId, find_topic, bootstrap_gate, admitted_to, join_found, on_topic_join,
}
use legends_chat.Chat.Steps.{joins, stays}
use legends_chat.Chat.Steps.Guards.{Steps}

gates :
    (admin no_view in_view no_read in_read open_to_all proved : Bool) (e f : String)
    → is_null (
        if not no_view && not admin && not in_view
        then some e
        else if not no_read && not admin && not in_read
        then some e
        else if not open_to_all && not admin && not proved
        then some f
        else none)
      ≡ (if not (
            if admin
            then true
            else if not no_view && not in_view
            then false
            else if not no_read && not in_read
            then false
            else true)
          then false
          else if not open_to_all && not admin
          then proved
          else true)
gates admin no_view in_view no_read in_read open_to_all proved e f = ground arith

-- A topic lets a user join exactly if it lets the user do anything else.
pub bootstrap_gate-admits :
    (w : World) (caller : Caller) (t : Topic)
    → is_null (bootstrap_gate w caller t) ≡ admits w caller.sub caller.role (some t)
unfolding bootstrap_gate can_view_topic
bootstrap_gate-admits w caller t =
    gates (caller.role == "admin") (is_empty (roles_or_none t.view_roles))
      (includes caller.role (roles_or_none t.view_roles)) (is_empty (roles_or_none t.read_roles))
      (includes caller.role (roles_or_none t.read_roles)) (is_null t.password_hash)
      (has_proof (w.proof caller.sub t.id) t.password_version) "not_found" "forbidden"

admitted_to-Step :
    (w : World) (caller : Caller) (key : SlugOrId) (t : Topic) (s : Server) (o : Option String)
    → find_topic s.db key ≡ some t
    → bootstrap_gate w caller t ≡ o
    → w.limited ≡ false
    → Steps w caller s (admitted_to w caller t o s)
admitted_to-Step w caller key t s (some error) found at under = stays
admitted_to-Step w caller key t s none found at under =
    joins key t found under (sym (bootstrap_gate-admits w caller t) ∙ ap is_null at)

join_found-Step :
    (w : World) (caller : Caller) (key : SlugOrId) (s : Server) (o : Option Topic)
    → find_topic s.db key ≡ o
    → w.limited ≡ false
    → Steps w caller s (join_found w caller o s)
join_found-Step w caller key s none found under = stays
join_found-Step w caller key s (some t) found under =
    admitted_to-Step w caller key t s _ found refl under

pub on_topic_join-Step :
    (w : World) (caller : Caller) (key : SlugOrId) (s : Server)
    → Steps w caller s (on_topic_join w caller key s)
unfolding on_topic_join
on_topic_join-Step w caller key s =
    guard (Steps w caller s) w.limited _ _ (λ _. stays)
      (λ under. join_found-Step w caller key s (find_topic s.db key) refl under)
