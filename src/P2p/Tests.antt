-- ===== src/P2p/Tests.antt =====
-- apps/ws/src/p2p-signaling.ts: a store of the Redis commands, the handlers run on small rooms, and
-- the theorems applied to them.
use legends_chat.Common.{
  ◌+◌, ◌≤◌, ◌≡◌, ◌⊎◌, refl, String, Bool, true, false, not, ◌&&◌, ◌||◌, none, some, List, [], ◌∷◌,
  ◌++◌, length, drop, includes, set_add, without, some_of, Bool-cases, inl, inr, ◌==◌, nat_eq,
  if◌then◌else◌, arith, includes-set_add, includes-without, length-append, beq_refl,
}
use legends_chat.Access.Topics.{can_view_topic}
use legends_chat.P2p.Redis.{SameFields, Cache, TopicId, UserId}
use legends_chat.P2p.Queue.{dequeue_next-first}
use legends_chat.P2p.Safety.{admits, is_active, run-admits}
use legends_chat.P2p.Relaying.{drops, run-Relays}
use legends_chat.P2p.Rooms.{Bounded, Every, run_fits}
use legends_chat.P2p.Leaving.{without-absent, handle_leave-serves, handle_leave-stray}
use legends_chat.P2p.{
  World, Emit, Request, registered, join, leave, send_offer, Call, call, topic_viewable, max_peers,
  position_of, Server, enqueue, dequeue, dequeue_next, remove_from_queue, resumption, left,
  handle_leave, join_full, join_open, on_join, relay_allowed, on_relay, on_leave, connect, handle,
  run,
}

abbrev Table : Type 0
Table = TopicId → List UserId

record Memory : Type 0 where
  members : Table
  waiting : Table
  keys : Table

abbrev at : TopicId → (List UserId → List UserId) → Table → Table
at t f m t' = if t == t' then f (m t') else m t'

member-add :
    (b : Bool) (u v : UserId) (xs : List UserId)
    → includes v (if b then set_add u xs else xs) ≡ (includes v xs || (b && u == v))
member-add true u v xs = includes-set_add v u xs
member-add false u v xs = ground arith

member-remove :
    (b : Bool) (u v : UserId) (xs : List UserId)
    → includes v (if b then without u xs else xs) ≡ (includes v xs && not (b && u == v))
member-remove true u v xs = ground (arith, includes-without v u xs)
member-remove false u v xs = ground arith

length-set_add :
    (u : UserId) (xs : List UserId)
    → length (set_add u xs) ≡ (if includes u xs then length xs else length xs + 1)
length-set_add u xs = elim (Bool-cases (includes u xs)) [
  | inl old ↦ rw old refl
  | inr new ↦ rw new (length-append xs (u ∷ []))
]

abbrev memory : Cache
memory = record {
  Store = Memory;
  active = λ s t. s.members t;
  queue = λ s t. s.waiting t;
  alive = λ s t u. includes u (s.keys t);
  hset = λ t u s. record s { members = at t (set_add u) s.members };
  hdel = λ t u s. record s { members = at t (without u) s.members };
  rpush = λ t u s. record s { waiting = at t (λ q. q ++ u ∷ []) s.waiting };
  lpop = λ t s. record s { waiting = at t (drop 1) s.waiting };
  lrem = λ t u s. record s { waiting = at t (without u) s.waiting };
  set_ex = λ t u s. record s { keys = at t (set_add u) s.keys };
  del = λ t u s. record s { keys = at t (without u) s.keys };
  active-hset = λ t t' u v s. member-add (t == t') u v (s.members t');
  length-hset = λ t u s. rw (beq_refl t) (length-set_add u (s.members t));
  other-hset = λ t t' u s other. rw other refl;
  queue-hset = λ t t' u s. refl;
  active-hdel = λ t t' u s. (λ v. refl, refl);
  absent-hdel = λ t u s absent. rw (beq_refl t) (without-absent u (s.members t) absent);
  queue-hdel = λ t t' u s. refl;
  alive-hdel = λ t t' u v s. refl;
  active-rpush = λ t t' u s. refl;
  queue-rpush = λ t t' u s. refl;
  active-lpop = λ t t' s. refl;
  queue-lpop = λ t t' s. refl;
  alive-lpop = λ t t' v s. refl;
  active-lrem = λ t t' u s. refl;
  queue-lrem = λ t t' u s. refl;
  alive-lrem = λ t t' u v s. refl;
  active-set_ex = λ t t' u s. refl;
  queue-set_ex = λ t t' u s. refl;
  active-del = λ t t' u s. refl;
  queue-del = λ t t' u s. refl;
  alive-del = λ t t' u v s. member-remove (t == t') u v (s.keys t');
}

abbrev no_one : Table
no_one t = []

-- Topic 7 takes two peers and shows itself to members; topic 8 falls back to relayed encryption.
abbrev settings : World
settings = record {
  topics = λ t.
      if t == 7
      then some (record {
        is_e2ee = false;
        p2p_fallback_e2ee = false;
        p2p_max_participants = some 2;
        view_roles = some ("member" ∷ []);
        read_roles = none;
      })
      else if t == 8
      then some (record {
        is_e2ee = true;
        p2p_fallback_e2ee = true;
        p2p_max_participants = some 1;
        view_roles = none;
        read_roles = none;
      })
      else none;
  global_max = some 5;
}

abbrev start : Server memory
start = record {
  store = record { members = no_one; waiting = no_one; keys = no_one };
  emitted = [];
  socket_topics = λ k. none;
}

abbrev packet : UserId → String → Request → Call
packet u role x = call u settings false role u x

-- Users 1, 2 and 3 join topic 7, and a guest tries.
abbrev joins : List Call
joins =
    packet 1 "member" registered
    ∷ packet 1 "member" (join 7)
    ∷ packet 2 "member" (join 7)
    ∷ packet 3 "member" (join 7)
    ∷ packet 4 "guest" (join 7)
    ∷ []

-- What the handlers do: the third user waits, the guest is ignored, and when the first leaves the
-- third is called.
joins_test :
    ((run memory joins start).store.members 7 ≡ 1 ∷ 2 ∷ [])
    × ((run memory joins start).store.waiting 7 ≡ 3 ∷ [])
    × ((run memory (joins ++ packet 1 "member" (leave 7) ∷ []) start).emitted
        ≡ Emit.joined [] false
          ∷ Emit.joined (1 ∷ []) false
          ∷ Emit.peer_joined 1 2
          ∷ Emit.queued 1
          ∷ Emit.peer_left 7 1
          ∷ Emit.admitted 3 7
          ∷ [])
unfolding run handle connect on_join topic_viewable can_view_topic max_peers join_open join_full
    enqueue position_of on_leave handle_leave left dequeue_next dequeue remove_from_queue
joins_test = (refl, refl, refl)

one_is_active : is_active memory 7 1 (run memory joins start) ≡ true
unfolding run handle connect on_join topic_viewable can_view_topic max_peers join_open join_full
    enqueue position_of
one_is_active = refl

run-admits_example : (is_active memory 7 1 start ≡ true) ⊎ (some_of (admits 7 1) joins ≡ true)
run-admits_example = run-admits memory 7 1 joins start one_is_active

-- The offer of an active user to another is sent, and that of the user who waits is not.
offers_test :
    ((handle memory (packet 1 "member" (send_offer 7 2)) (run memory joins start)).emitted
      ≡ (run memory joins start).emitted ++ Emit.offer 2 1 ∷ [])
    × ((handle memory (packet 3 "member" (send_offer 7 2)) (run memory joins start)).emitted
        ≡ (run memory joins start).emitted)
unfolding run handle connect on_join topic_viewable can_view_topic max_peers join_open join_full
    enqueue position_of on_relay relay_allowed
offers_test = (refl, refl)

run-Relays_example :
    (((handle memory (packet 1 "member" (send_offer 7 2)) (run memory joins start)).emitted
        ≡ (run memory joins start).emitted)
      × (drops memory 7 1 2 false (run memory joins start) ≡ true))
    ⊎ (((handle memory (packet 1 "member" (send_offer 7 2)) (run memory joins start)).emitted
          ≡ (run memory joins start).emitted ++ Emit.offer 2 1 ∷ [])
        × (some_of (admits 7 1) joins ≡ true)
        × (some_of (admits 7 2) joins ≡ true))
run-Relays_example =
    run-Relays memory 7 1 2 joins start 1 settings false "member" (send_offer 7 2) refl (inl refl)

joins_are-Bounded : Every (Bounded 7 2) joins
unfolding max_peers
joins_are-Bounded =
    ((refl, refl), ((refl, refl), ((refl, refl), ((refl, refl), ((refl, refl), tt)))))

run_fits_example : length ((run memory joins start).store.members 7) ≤ 2
run_fits_example = run_fits memory 7 2 joins start joins_are-Bounded (omega arith)

-- Topic 7 is full, user 5's key has expired, user 6 waits.
abbrev full_room : Server memory
full_room = record {
  store = record {
    members = λ t. 1 ∷ 2 ∷ [];
    waiting = λ t. 5 ∷ 6 ∷ 3 ∷ [];
    keys = λ t. 3 ∷ 6 ∷ [];
  };
  emitted = [];
  socket_topics = λ k. none;
}

dequeue_next-first_example :
    ((dequeue_next memory 7 full_room.store).0 ≡ some 6)
    × ((dequeue_next memory 7 full_room.store).1.waiting 7 ≡ 3 ∷ [])
    × ((t : TopicId) → (dequeue_next memory 7 full_room.store).1.members t ≡ 1 ∷ 2 ∷ [])
dequeue_next-first_example = dequeue_next-first memory 7 full_room.store

handle_leave-serves_example :
    SameFields ((handle_leave memory settings 7 1 full_room).store.members 7) (2 ∷ [])
    × ((handle_leave memory settings 7 1 full_room).store.waiting 7 ≡ 3 ∷ [])
    × ((handle_leave memory settings 7 1 full_room).emitted
        ≡ Emit.peer_left 7 1
          ∷ Emit.admitted 6 7
          ∷ resumption memory settings 7 (handle_leave memory settings 7 1 full_room).store)
handle_leave-serves_example = handle_leave-serves memory settings 7 1 full_room

handle_leave-stray_example :
    ((handle_leave memory settings 7 9 full_room).store.members 7 ≡ 1 ∷ 2 ∷ [])
    × ((handle_leave memory settings 7 9 full_room).store.waiting 7 ≡ 3 ∷ [])
handle_leave-stray_example = handle_leave-stray memory settings 7 9 full_room refl refl
