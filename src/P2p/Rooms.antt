-- ===== src/P2p/Rooms.antt =====
-- apps/ws/src/p2p-signaling.ts: the size of a room without the relayed fallback, and what a
-- departure does.
use legends_chat.Common.{
  apart, ℕ, ◌≤◌, ◌≡◌, refl, ap, String, Bool, true, false, Option, none, some, List, [], ◌∷◌,
  length, includes, without, Bool-cases, inl, inr, ◌==◌, nat_eq, arith, subst,
}
use legends_chat.P2p.Redis.{Cache, TopicId, UserId}
use legends_chat.P2p.Safety.{fields-handle_leave, active-enqueue, relay_keeps}
use legends_chat.P2p.{
  World, SocketId, Emit, registered, disconnected, join, heartbeat, leave, send_offer, send_answer,
  send_ice, Call, call, topic_viewable, at_least, max_peers, falls_back, Server, handle_leave,
  join_full, join_open, on_join, on_heartbeat, on_leave, leave_all, leave_joined, on_disconnect,
  connect, handle, run,
}

length-without : (u : UserId) (xs : List UserId) → length (without u xs) ≤ length xs
length-without u [] = omega arith
length-without u (x ∷ xs) = ground (arith, length-without u xs)

without-absent : (u : UserId) (xs : List UserId) → includes u xs ≡ false → without u xs ≡ xs
without-absent u [] h = refl
without-absent u (x ∷ xs) h = ground (arith, without-absent u xs)

-- The settings at a call make a room of a topic hold at most `m`, with no fallback.
abbrev pub Bounded : TopicId → ℕ → Call → Type 0
Bounded t m (call k w limited role u request) =
    (max_peers w t ≡ some m) × (falls_back (w.topics t) ≡ false)

abbrev pub Every : (Call → Type 0) → List Call → Type 0
Every P [] = Unit
Every P (x ∷ xs) = P x × Every P xs

module _ (c : Cache) where
  open c use {
    Store, active, queue, alive, hset, hdel, length-hset, other-hset, queue-hdel, queue-lrem,
    queue-del,
  }

  hset_present :
      (t t' : TopicId) (u : UserId) (s : Store)
      → includes u (active s t') ≡ true
      → length (active (hset t' u s) t) ≡ length (active s t)
  hset_present t t' u s present = elim (Bool-cases (t' == t)) [
    | inr other ↦ rw (other-hset t' t u s other) refl
    | inl same ↦
        let e : t' ≡ t = ground arith in
        subst (λ r. length (active (hset t' u s) r) ≡ length (active s r)) e
          (rw (length-hset t' u s, present) refl)
  ]

  join_fits :
      (t : TopicId) (u : UserId) (m : ℕ) (s : Store)
      → length (active s t) ≤ m
      → at_least (length (without u (active s t))) (some m) ≡ false
      → length (active (hset t u s) t) ≤ m
  join_fits t u m s fits room = elim (Bool-cases (includes u (active s t))) [
    | inl present ↦ rw (length-hset t u s, present) fits
    | inr absent ↦
        let same : length (without u (active s t)) ≡ length (active s t) =
          ap length (without-absent u (active s t) absent) in
        rw (length-hset t u s, absent) (ground (arith, same))
  ]

  on_join_fits :
      (t t' : TopicId) (m : ℕ) (k : SocketId) (w : World) (limited : Bool) (role : String)
      (u : UserId) (server : Server c)
      → Bounded t m (call k w limited role u (join t'))
      → length (active server.store t) ≤ m
      → length (active (on_join c k w limited role u t' server).store t) ≤ m
  unfolding on_join join_full join_open
  on_join_fits t t' m k w true role u server b fits = fits
  on_join_fits t t' m k w false role u server b fits =
      elim (Bool-cases (topic_viewable w role t')) [
        | inr hidden ↦ rw hidden fits
        | inl seen ↦
            elim (Bool-cases
              (at_least (length (without u (active server.store t'))) (max_peers w t'))) [
                | inr room ↦
                    rw (seen, room)
                      (elim (Bool-cases (t' == t)) [
                        | inr other ↦ rw (other-hset t' t u server.store other) fits
                        | inl same ↦
                            let e : t' ≡ t = ground arith in
                            rw e (join_fits t u m server.store fits (rw (e, b.0) at room))
                      ])
                | inl full ↦ elim (Bool-cases (falls_back (w.topics t'))) [
                  | inr waits ↦ rw (seen, full, waits, active-enqueue c t' t u server.store) fits
                  | inl relayed ↦
                      rw (seen, full, relayed)
                        (elim (Bool-cases (t' == t)) [
                          | inr other ↦ rw (other-hset t' t u server.store other) fits
                          | inl same ↦
                              let e : t' ≡ t = ground arith in
                              let now : falls_back (w.topics t) ≡ true = rw e at relayed in
                              absurd (apart now b.1)
                        ])
                ]
              ]
      ]

  heartbeat_fits :
      (t t' : TopicId) (limited : Bool) (u : UserId) (server : Server c)
      → length (active (on_heartbeat c limited u t' server).store t)
        ≡ length (active server.store t)
  unfolding on_heartbeat
  heartbeat_fits t t' true u server = refl
  heartbeat_fits t t' false u server = elim (Bool-cases (includes u (active server.store t'))) [
    | inr stranger ↦ rw stranger refl
    | inl present ↦ rw present (hset_present t t' u server.store present)
  ]

  leave_fits :
      (w : World) (t t' : TopicId) (u : UserId) (server : Server c)
      → length (active (handle_leave c w t' u server).store t) ≤ length (active server.store t)
  leave_fits w t t' u server = elim (Bool-cases (t' == t)) [
    | inl same ↦
        rw ((fields-handle_leave c w t' t u server).1, same)
          (length-without u (active server.store t))
    | inr other ↦ rw ((fields-handle_leave c w t' t u server).1, other) (omega arith)
  ]

  leave_all_fits :
      (w : World) (t : TopicId) (u : UserId) (ts : List TopicId) (server : Server c)
      → length (active (leave_all c w u ts server).store t) ≤ length (active server.store t)
  unfolding leave_all
  leave_all_fits w t u [] server = omega arith
  leave_all_fits w t u (t' ∷ ts) server =
      omega
        (arith, leave_fits w t t' u server, leave_all_fits w t u ts (handle_leave c w t' u server))

  leave_joined_fits :
      (w : World) (t : TopicId) (m : ℕ) (u : UserId) (ts : Option (List TopicId))
      (server : Server c)
      → length (active server.store t) ≤ m
      → length (active (leave_joined c w u ts server).store t) ≤ m
  unfolding leave_joined
  leave_joined_fits w t m u none server fits = fits
  leave_joined_fits w t m u (some ts) server fits =
      omega (arith, leave_all_fits w t u ts server, fits)

  handle_fits :
      (t : TopicId) (m : ℕ) (x : Call) (server : Server c)
      → Bounded t m x
      → length (active server.store t) ≤ m
      → length (active (handle c x server).store t) ≤ m
  unfolding handle connect on_leave on_disconnect
  handle_fits t m (call k w limited role u registered) server b fits = fits
  handle_fits t m (call k w limited role u (join t')) server b fits =
      on_join_fits t t' m k w limited role u server b fits
  handle_fits t m (call k w limited role u (send_offer t' to)) server b fits =
      rw (relay_keeps c Emit.offer limited u t' to server) fits
  handle_fits t m (call k w limited role u (send_answer t' to)) server b fits =
      rw (relay_keeps c Emit.answer limited u t' to server) fits
  handle_fits t m (call k w limited role u (send_ice t' to)) server b fits =
      rw (relay_keeps c Emit.ice limited u t' to server) fits
  handle_fits t m (call k w limited role u (heartbeat t')) server b fits =
      rw (heartbeat_fits t t' limited u server) fits
  handle_fits t m (call k w true role u (leave t')) server b fits = fits
  handle_fits t m (call k w false role u (leave t')) server b fits =
      omega (arith, leave_fits w t t' u _, fits)
  handle_fits t m (call k w limited role u disconnected) server b fits =
      leave_joined_fits w t m u (server.socket_topics k) _ fits

  -- When at every call the topic's maximum is m and it has no end-to-end fallback, a room that
  -- holds at most m active users at the start holds at most m after whatever the sockets send.
  pub run_fits :
      (t : TopicId) (m : ℕ) (xs : List Call) (server : Server c)
      → Every (Bounded t m) xs
      → length (active server.store t) ≤ m
      → length (active (run c xs server).store t) ≤ m
  unfolding run
  run_fits t m [] server b fits = fits
  run_fits t m (x ∷ xs) server b fits =
      run_fits t m xs (handle c x server) b.1 (handle_fits t m x server b.0 fits)
