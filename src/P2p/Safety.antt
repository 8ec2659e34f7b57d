-- ===== src/P2p/Safety.antt =====
-- apps/ws/src/p2p-signaling.ts: who can be active in a room.
use legends_chat.Common.{
  ◌≡◌, ◌⊎◌, refl, sym, ◌∙◌, String, Bool, true, false, not, ◌&&◌, Option, none, some, List, [], ◌∷◌,
  length, includes, without, some_of, Bool-cases, or-cases, and-cases, inl, inr, ◌==◌, nat_eq,
  if◌then◌else◌, arith, includes-without, subst, or_true,
}
use legends_chat.P2p.Redis.{SameFields, Cache, TopicId, UserId}
use legends_chat.P2p.Queue.{dequeue_next-first}
use legends_chat.P2p.{
  World, SocketId, Emit, registered, disconnected, join, heartbeat, leave, send_offer, send_answer,
  send_ice, Call, call, topic_viewable, at_least, max_peers, falls_back, Server, enqueue,
  remove_from_queue, left, handle_leave, join_full, join_open, on_join, relay_allowed, on_relay,
  on_heartbeat, on_leave, leave_all, leave_joined, on_disconnect, connect, handle, run,
}

-- The calls that let a user into a room: joins that the rate limiter and the view gate pass.
abbrev pub admits : TopicId → UserId → Call → Bool
admits t v (call k w limited role u (join t')) =
    not limited && topic_viewable w role t' && (t' == t && u == v)
admits t v (call k w limited role u request) = false

module _ (c : Cache) where
  open c use {
    Store, active, queue, hset, hdel, active-hset, active-hdel, active-rpush, active-lrem,
    active-set_ex, active-del,
  }

  abbrev pub is_active : TopicId → UserId → Server c → Bool
  is_active t v server = includes v (active server.store t)

  pub active-remove_from_queue :
      (t t' : TopicId) (u : UserId) (s : Store)
      → active (remove_from_queue c t u s) t' ≡ active s t'
  unfolding remove_from_queue
  active-remove_from_queue t t' u s = rw (active-del t t' u (c.lrem t u s)) (active-lrem t t' u s)

  pub active-enqueue :
      (t t' : TopicId) (u : UserId) (s : Store) → active (enqueue c t u s) t' ≡ active s t'
  unfolding enqueue
  active-enqueue t t' u s = elim (Bool-cases (includes u (queue s t))) [
    | inl h ↦ rw h refl
    | inr h ↦ rw h (active-set_ex t t' u (c.rpush t u s) ∙ active-rpush t t' u s)
  ]

  pub active-handle_leave :
      (w : World) (t t' : TopicId) (u : UserId) (server : Server c)
      → active (handle_leave c w t u server).store t' ≡ active (hdel t u server.store) t'
  unfolding handle_leave left
  active-handle_leave w t t' u server =
      (dequeue_next-first c t (remove_from_queue c t u (hdel t u server.store))).2 t'
      ∙ active-remove_from_queue t t' u (hdel t u server.store)

  pub fields-handle_leave :
      (w : World) (t t' : TopicId) (u : UserId) (server : Server c)
      → SameFields
          (active (handle_leave c w t u server).store t')
          (if t == t' then without u (active server.store t') else active server.store t')
  fields-handle_leave w t t' u server =
      subst
        (λ us.
          SameFields us
            (if t == t' then without u (active server.store t') else active server.store t'))
        (sym (active-handle_leave w t t' u server)) (active-hdel t t' u server.store)

  leave_shrinks :
      (w : World) (t t' : TopicId) (u v : UserId) (server : Server c)
      → is_active t' v (handle_leave c w t u server) ≡ true
      → is_active t' v server ≡ true
  leave_shrinks w t t' u v server h = elim (Bool-cases (t == t')) [
    | inl same ↦
        (and-cases _ _ (
          rw
            (
              (fields-handle_leave w t t' u server).0 v,
              same,
              includes-without v u (active server.store t'),
            )
            at h)).0
    | inr other ↦ rw ((fields-handle_leave w t t' u server).0 v, other) at h
  ]

  leave_all_shrinks :
      (w : World) (t : TopicId) (u v : UserId) (ts : List TopicId) (server : Server c)
      → is_active t v (leave_all c w u ts server) ≡ true
      → is_active t v server ≡ true
  unfolding leave_all
  leave_all_shrinks w t u v [] server h = h
  leave_all_shrinks w t u v (t' ∷ ts) server h =
      leave_shrinks w t' t u v server
        (leave_all_shrinks w t u v ts (handle_leave c w t' u server) h)

  leave_joined_shrinks :
      (w : World) (t : TopicId) (u v : UserId) (ts : Option (List TopicId)) (server : Server c)
      → is_active t v (leave_joined c w u ts server) ≡ true
      → is_active t v server ≡ true
  unfolding leave_joined
  leave_joined_shrinks w t u v none server h = h
  leave_joined_shrinks w t u v (some ts) server h = leave_all_shrinks w t u v ts server h

  pub relay_keeps :
      (packet : UserId → UserId → Emit) (limited : Bool) (u : UserId) (t : TopicId) (to : UserId)
      (server : Server c)
      → (on_relay c packet limited u t to server).store ≡ server.store
  unfolding on_relay
  relay_keeps packet limited u t to server =
      elim (Bool-cases (relay_allowed c limited u t to server)) [
        | inl h ↦ rw h refl
        | inr h ↦ rw h refl
      ]

  hset_admits :
      (t t' : TopicId) (u v : UserId) (s : Store)
      → includes v (active (hset t u s) t') ≡ true
      → (includes v (active s t') ≡ true) ⊎ ((t == t' && u == v) ≡ true)
  hset_admits t t' u v s h = or-cases _ _ (rw (active-hset t t' u v s) at h)

  on_join-admits :
      (k : SocketId) (w : World) (limited : Bool) (role : String) (u v : UserId) (t t' : TopicId)
      (server : Server c)
      → is_active t v (on_join c k w limited role u t' server) ≡ true
      → (is_active t v server ≡ true) ⊎ (admits t v (call k w limited role u (join t')) ≡ true)
  unfolding on_join join_full join_open
  on_join-admits k w true role u v t t' server h = inl h
  on_join-admits k w false role u v t t' server h = elim (Bool-cases (topic_viewable w role t')) [
    | inr hidden ↦ inl (rw hidden at h)
    | inl seen ↦
        rw seen
          (elim (Bool-cases
            (at_least (length (without u (active server.store t'))) (max_peers w t'))) [
              | inr room ↦ hset_admits t' t u v server.store (rw (seen, room) at h)
              | inl full ↦ elim (Bool-cases (falls_back (w.topics t'))) [
                | inl relayed ↦ hset_admits t' t u v server.store (rw (seen, full, relayed) at h)
                | inr waits ↦ inl (
                    subst (λ peers. includes v peers ≡ true) (active-enqueue t' t u server.store)
                      (rw (seen, full, waits) at h))
              ]
            ])
  ]

  heartbeat_admits :
      (limited : Bool) (u v : UserId) (t t' : TopicId) (server : Server c)
      → is_active t v (on_heartbeat c limited u t' server) ≡ true
      → is_active t v server ≡ true
  unfolding on_heartbeat
  heartbeat_admits true u v t t' server h = h
  heartbeat_admits false u v t t' server h =
      elim (Bool-cases (includes u (active server.store t'))) [
        | inr stranger ↦ rw stranger at h
        | inl present ↦ elim (hset_admits t' t u v server.store (rw present at h)) [
          | inl old ↦ old
          | inr same ↦
              let both : (t' ≡ t) × (u ≡ v) = ground (arith, and-cases (t' == t) (u == v) same) in
              subst (λ r. includes v (active server.store r) ≡ true) both.0
                (subst (λ x. includes x (active server.store t') ≡ true) both.1 present)
        ]
      ]

  handle-admits :
      (t : TopicId) (v : UserId) (x : Call) (server : Server c)
      → is_active t v (handle c x server) ≡ true
      → (is_active t v server ≡ true) ⊎ (admits t v x ≡ true)
  unfolding handle connect on_leave on_disconnect
  handle-admits t v (call k w limited role u registered) server h = inl h
  handle-admits t v (call k w limited role u (join t')) server h =
      on_join-admits k w limited role u v t t' server h
  handle-admits t v (call k w limited role u (send_offer t' to)) server h =
      inl (rw (relay_keeps Emit.offer limited u t' to server) at h)
  handle-admits t v (call k w limited role u (send_answer t' to)) server h =
      inl (rw (relay_keeps Emit.answer limited u t' to server) at h)
  handle-admits t v (call k w limited role u (send_ice t' to)) server h =
      inl (rw (relay_keeps Emit.ice limited u t' to server) at h)
  handle-admits t v (call k w limited role u (heartbeat t')) server h =
      inl (heartbeat_admits limited u v t t' server h)
  handle-admits t v (call k w true role u (leave t')) server h = inl h
  handle-admits t v (call k w false role u (leave t')) server h = inl (leave_shrinks w t' t u v _ h)
  handle-admits t v (call k w limited role u disconnected) server h =
      inl (leave_joined_shrinks w t u v (server.socket_topics k) _ h)

  -- Whatever the sockets send, in whatever order, a user who is active in a room at the end was
  -- active in it at the start, or sent a join of that topic that passed the view gate, with the
  -- role the socket had then.
  pub run-admits :
      (t : TopicId) (v : UserId) (xs : List Call) (server : Server c)
      → is_active t v (run c xs server) ≡ true
      → (is_active t v server ≡ true) ⊎ (some_of (admits t v) xs ≡ true)
  unfolding run
  run-admits t v [] server h = inl h
  run-admits t v (x ∷ xs) server h = elim (run-admits t v xs (handle c x server) h) [
    | inr later ↦ inr (rw later (or_true (admits t v x)))
    | inl now ↦ elim (handle-admits t v x server now) [
      | inl before ↦ inl before
      | inr here ↦ inr (rw here refl)
    ]
  ]
