-- ===== src/P2p.antt =====
-- apps/ws/src/p2p-signaling.ts: who is in a peer-to-peer call, who waits, and what is relayed.
pub mod Redis
pub mod Queue
pub mod Safety
pub mod Relaying
pub mod Rooms
pub mod Leaving
mod Tests
use legends_chat.Common.{
  ℕ, zero, suc, ◌+◌, String, Bool, true, false, not, ◌&&◌, ◌||◌, Option, none, some, List, [], ◌∷◌,
  ◌++◌, length, map, includes, set_add, without, leb, ◌==◌, nat_eq, if◌then◌else◌,
}
use legends_chat.Access.Topics.{can_view_topic}
use legends_chat.P2p.Redis.{Cache, TopicId, UserId}

-- The columns of a topic that the handlers read.
pub record Topic : Type 0 where
  pub is_e2ee : Bool
  pub p2p_fallback_e2ee : Bool
  pub p2p_max_participants : Option ℕ
  pub view_roles : Option (List String)
  pub read_roles : Option (List String)

-- What the handlers read besides Redis: the topics, and the setting `p2p_max_participants` as
-- `parseInt` reads it; `none` is NaN. ICE servers are passed on unread and left out.
pub record World : Type 0 where
  pub topics : TopicId → Option Topic
  pub global_max : Option ℕ

-- What is emitted, to a topic's room, to a user's room or to the socket.
pub data Emit : Type 0 where
  peer_left : TopicId → UserId → Emit
  admitted : UserId → TopicId → Emit
  resume fallback : TopicId → Emit
  joined : List UserId → Bool → Emit
  queued : ℕ → Emit
  peer_joined : UserId → UserId → Emit
  offer answer ice : UserId → UserId → Emit

-- `n >= max` and `n <= max`, which are false at NaN.
abbrev pub at_least : ℕ → Option ℕ → Bool
at_least n none = false
at_least n (some m) = leb m n

abbrev pub at_most : ℕ → Option ℕ → Bool
at_most n none = false
at_most n (some m) = leb n m

-- `topic?.p2pMaxParticipants ?? globalMax`
abbrev pub own_max : Option Topic → Option ℕ
own_max none = none
own_max (some t) = t.p2p_max_participants

abbrev pub or_global : Option ℕ → Option ℕ → Option ℕ
or_global none global = global
or_global (some m) global = some m

unfoldable pub max_peers : World → TopicId → Option ℕ
max_peers w t = or_global (own_max (w.topics t)) w.global_max

abbrev pub falls_back : Option Topic → Bool
falls_back none = false
falls_back (some t) = t.is_e2ee && t.p2p_fallback_e2ee

abbrev pub viewable : Option Topic → String → Bool
viewable none role = false
viewable (some t) role = can_view_topic role t.view_roles t.read_roles

-- `topicViewable`
unfoldable pub topic_viewable : World → String → TopicId → Bool
topic_viewable w role t = viewable (w.topics t) role

-- `queue.indexOf(userId) + 1`; a missing user is at -1.
unfoldable pub position_of : UserId → List UserId → ℕ
position_of u [] = 0
position_of u (x ∷ xs) =
    if x == u then 1 else (let later = position_of u xs in if later == 0 then 0 else later + 1)

abbrev pub SocketId : Type 0
SocketId = ℕ

-- What a socket sends, and the call it makes of a handler: its socket, the settings and topics at
-- that moment, the rate limiter's answer, its role at that moment, its user.
pub data Request : Type 0 where
  registered disconnected : Request
  join heartbeat leave : TopicId → Request
  send_offer send_answer send_ice : TopicId → UserId → Request

pub data Call : Type 0 where
  call : SocketId → World → Bool → String → UserId → Request → Call

-- `map.set(k, v)`; `none` is a missing key.
abbrev pub write :
    SocketId
    → Option (List TopicId)
    → (SocketId → Option (List TopicId))
    → SocketId
    → Option (List TopicId)
write k v m k' = if k == k' then v else m k'

-- `?.`
abbrev pub map_option :
    (List TopicId → List TopicId) → Option (List TopicId) → Option (List TopicId)
map_option f none = none
map_option f (some a) = some (f a)

module _ (c : Cache) where
  open c use {Store, active, queue, alive, hset, hdel, rpush, lpop, lrem, set_ex, del}

  -- Redis, what has been emitted (the newest last), and `socketTopics`, a map by socket.
  pub record Server : Type 0 where
    pub store : Store
    pub emitted : List Emit
    pub socket_topics : SocketId → Option (List TopicId)

  unfoldable pub enqueue : TopicId → UserId → Store → Store
  enqueue t u s = if includes u (queue s t) then s else set_ex t u (rpush t u s)

  -- The loop of `dequeueNext`, over fuel: pop until a user whose key is alive.
  unfoldable pub dequeue : ℕ → TopicId → Store → Option UserId × Store
  dequeue zero t s = (none, s)
  dequeue (suc fuel) t s = elim (queue s t) [
    | [] ↦ (none, s)
    | u ∷ _ ↦ elim (alive (lpop t s) t u) [
      | true ↦ (some u, del t u (lpop t s))
      | false ↦ dequeue fuel t (lpop t s)
    ]
  ]

  unfoldable pub dequeue_next : TopicId → Store → Option UserId × Store
  dequeue_next t s = dequeue (suc (length (queue s t))) t s

  unfoldable pub remove_from_queue : TopicId → UserId → Store → Store
  remove_from_queue t u s = del t u (lrem t u s)

  abbrev pub admit : TopicId → Option UserId → List Emit
  admit t none = []
  admit t (some u) = admitted u t ∷ []

  abbrev pub resumption : World → TopicId → Store → List Emit
  resumption w t s =
      if falls_back (w.topics t) && at_most (length (active s t)) (max_peers w t)
      then resume t ∷ []
      else []

  -- `handleLeave`, once the queue is served.
  unfoldable pub left : World → TopicId → UserId → Server → Option UserId × Store → Server
  left w t u server (next, s) = record server {
    store = s;
    emitted = server.emitted ++ (peer_left t u ∷ (admit t next ++ resumption w t s));
  }

  unfoldable pub handle_leave : World → TopicId → UserId → Server → Server
  handle_leave w t u server =
      left w t u server (dequeue_next t (remove_from_queue t u (hdel t u server.store)))

  abbrev pub emit : List Emit → Server → Server
  emit events server = record server { emitted = server.emitted ++ events }

  -- The room is full: fall back to relayed end-to-end encryption, or wait in the queue.
  unfoldable pub join_full : World → TopicId → UserId → Server → Server
  join_full w t u server =
      if falls_back (w.topics t)
      then record server {
        store = hset t u server.store;
        emitted =
            server.emitted ++ (fallback t ∷ joined (without u (active server.store t)) true ∷ []);
      }
      else record server {
        store = enqueue t u server.store;
        emitted =
            server.emitted ++ (queued (position_of u (queue (enqueue t u server.store) t)) ∷ []);
      }

  unfoldable pub join_open : TopicId → UserId → Server → Server
  join_open t u server = record server {
    store = hset t u server.store;
    emitted =
        server.emitted
        ++ (joined (without u (active server.store t)) false
            ∷ map (λ peer. peer_joined peer u) (without u (active server.store t)));
  }

  -- The P2P_JOIN handler. `limited` is the rate limiter's answer, `role` the socket's role now.
  unfoldable pub on_join : SocketId → World → Bool → String → UserId → TopicId → Server → Server
  on_join k w limited role u t server =
      if limited
      then server
      else if not (topic_viewable w role t)
      then server
      else let noted : Server = record server {
        socket_topics =
            write k (map_option (set_add t) (server.socket_topics k)) server.socket_topics;
      } in
        if at_least (length (without u (active server.store t))) (max_peers w t)
        then join_full w t u noted
        else join_open t u noted

  -- `relayAllowed`
  unfoldable pub relay_allowed : Bool → UserId → TopicId → UserId → Server → Bool
  relay_allowed limited u t to server =
      not limited && includes u (active server.store t) && includes to (active server.store t)

  -- The P2P_OFFER, P2P_ANSWER and P2P_ICE handlers; `packet` is the constructor of what is relayed.
  unfoldable pub on_relay :
      (UserId → UserId → Emit) → Bool → UserId → TopicId → UserId → Server → Server
  on_relay packet limited u t to server =
      if relay_allowed limited u t to server then emit (packet to u ∷ []) server else server

  -- The P2P_HEARTBEAT handler.
  unfoldable pub on_heartbeat : Bool → UserId → TopicId → Server → Server
  on_heartbeat limited u t server =
      if limited
      then server
      else if not (includes u (active server.store t))
      then server
      else record server { store = hset t u server.store }

  -- The P2P_LEAVE handler.
  unfoldable pub on_leave : SocketId → World → Bool → UserId → TopicId → Server → Server
  on_leave k w limited u t server =
      if limited
      then server
      else handle_leave w t u (record server {
        socket_topics =
            write k (map_option (without t) (server.socket_topics k)) server.socket_topics;
      })

  unfoldable pub leave_all : World → UserId → List TopicId → Server → Server
  leave_all w u [] server = server
  leave_all w u (t ∷ ts) server = leave_all w u ts (handle_leave w t u server)

  unfoldable pub leave_joined : World → UserId → Option (List TopicId) → Server → Server
  leave_joined w u none server = server
  leave_joined w u (some ts) server = leave_all w u ts server

  -- The handler of a disconnection.
  unfoldable pub on_disconnect : SocketId → World → UserId → Server → Server
  on_disconnect k w u server =
      leave_joined w u (server.socket_topics k)
        (record server { socket_topics = write k none server.socket_topics })

  -- `registerP2PHandlers`: what it does at once.
  unfoldable pub connect : SocketId → Server → Server
  connect k server = record server { socket_topics = write k (some []) server.socket_topics }

  -- A packet of a socket to its handler.
  unfoldable pub handle : Call → Server → Server
  handle (call k w limited role u registered) server = connect k server
  handle (call k w limited role u (join t)) server = on_join k w limited role u t server
  handle (call k w limited role u (send_offer t to)) server = on_relay offer limited u t to server
  handle (call k w limited role u (send_answer t to)) server = on_relay answer limited u t to server
  handle (call k w limited role u (send_ice t to)) server = on_relay ice limited u t to server
  handle (call k w limited role u (heartbeat t)) server = on_heartbeat limited u t server
  handle (call k w limited role u (leave t)) server = on_leave k w limited u t server
  handle (call k w limited role u disconnected) server = on_disconnect k w u server

  unfoldable pub run : List Call → Server → Server
  run [] server = server
  run (x ∷ xs) server = run xs (handle x server)
