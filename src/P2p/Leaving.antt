-- ===== src/P2p/Leaving.antt =====
-- apps/ws/src/p2p-signaling.ts: what a departure does to the room, to its queue and to those who
-- listen.
use legends_chat.Common.{
  ◌≡◌, refl, ap, ◌∙◌, Bool, false, not, ◌&&◌, List, [], ◌∷◌, ◌++◌, includes, without, Bool-cases,
  inl, inr, ◌==◌, nat_eq, arith, beq_refl,
}
use legends_chat.P2p.Redis.{SameFields, Cache, TopicId, UserId}
use legends_chat.P2p.Queue.{dequeue_next-first, first_alive, behind}
use legends_chat.P2p.Safety.{active-handle_leave, fields-handle_leave}
use legends_chat.P2p.{
  World, Emit, Server, admit, resumption, remove_from_queue, dequeue_next, left, handle_leave,
}

pub without-absent : (u : UserId) (xs : List UserId) → includes u xs ≡ false → without u xs ≡ xs
without-absent u [] h = refl
without-absent u (x ∷ xs) h = ground (arith, without-absent u xs)

module _ (u : UserId) (alive alive' : UserId → Bool)
    (same : (v : UserId) → alive' v ≡ (alive v && not (u == v))) where
  first_alive-without :
      (us : List UserId) → first_alive alive' (without u us) ≡ first_alive alive (without u us)
  first_alive-without [] = refl
  first_alive-without (v ∷ us) = elim (Bool-cases (v == u)) [
    | inl gone ↦ rw gone (first_alive-without us)
    | inr other ↦ ground (arith, first_alive-without us, same v)
  ]

  behind-without : (us : List UserId) → behind alive' (without u us) ≡ behind alive (without u us)
  behind-without [] = refl
  behind-without (v ∷ us) = elim (Bool-cases (v == u)) [
    | inl gone ↦ rw gone (behind-without us)
    | inr other ↦ ground (arith, behind-without us, same v)
  ]

module _ (c : Cache) where
  open c use {
    Store, active, queue, alive, hdel, queue-hdel, queue-lrem, queue-del, alive-hdel, alive-lrem,
    alive-del, absent-hdel,
  }

  abbrev removed : TopicId → UserId → Store → Store
  removed t u s = remove_from_queue c t u (hdel t u s)

  queue-removed :
      (t : TopicId) (u : UserId) (s : Store) → queue (removed t u s) t ≡ without u (queue s t)
  unfolding remove_from_queue
  queue-removed t u s =
      rw
        (
          queue-del t t u (c.lrem t u (hdel t u s)),
          queue-lrem t t u (hdel t u s),
          beq_refl t,
          queue-hdel t t u s,
        )
        refl

  alive-removed :
      (t : TopicId) (u : UserId) (s : Store) (v : UserId)
      → alive (removed t u s) t v ≡ (alive s t v && not (u == v))
  unfolding remove_from_queue
  alive-removed t u s v =
      rw
        (
          alive-del t t u v (c.lrem t u (hdel t u s)),
          alive-lrem t t u v (hdel t u s),
          beq_refl t,
          alive-hdel t t u v s,
        )
        refl

  -- A departure takes the user, and nobody else, off the active users and takes the user off the
  -- queue. It then serves the queue: the
  -- first user there whose key is alive leaves it, with all before. It emits that the user left,
  -- then to the user served that there is a place, then the resumption, if there is one.
  pub handle_leave-serves :
      (w : World) (t : TopicId) (u : UserId) (server : Server c)
      → SameFields
          (active (handle_leave c w t u server).store t)
          (without u (active server.store t))
        × (queue (handle_leave c w t u server).store t
            ≡ behind (alive server.store t) (without u (queue server.store t)))
        × ((handle_leave c w t u server).emitted
            ≡ server.emitted
              ++ (Emit.peer_left t u
                  ∷ (admit c t
                        (first_alive (alive server.store t) (without u (queue server.store t)))
                      ++ resumption c w t (handle_leave c w t u server).store)))
  unfolding handle_leave left
  handle_leave-serves w t u server = (gone, rest, told)
    where
      s : Store
      s = removed t u server.store

      served :
          (dequeue_next c t s).0
          ≡ first_alive (alive server.store t) (without u (queue server.store t))
      served =
          (dequeue_next-first c t s).0
          ∙ (ap (first_alive (alive s t)) (queue-removed t u server.store)
              ∙ first_alive-without u (alive server.store t) (alive s t)
                  (alive-removed t u server.store) (queue server.store t))

      rest :
          queue (dequeue_next c t s).1 t
          ≡ behind (alive server.store t) (without u (queue server.store t))
      rest =
          (dequeue_next-first c t s).1
          ∙ (ap (behind (alive s t)) (queue-removed t u server.store)
              ∙ behind-without u (alive server.store t) (alive s t) (alive-removed t u server.store)
                  (queue server.store t))

      gone :
          SameFields
            (active (handle_leave c w t u server).store t)
            (without u (active server.store t))
      gone = rw (beq_refl t) at (fields-handle_leave c w t t u server)

      told :
          (handle_leave c w t u server).emitted
          ≡ server.emitted
            ++ (Emit.peer_left t u
                ∷ (admit c t (first_alive (alive server.store t) (without u (queue server.store t)))
                    ++ resumption c w t (handle_leave c w t u server).store))
      told = rw (← served) refl

  -- A departure of a user who is neither active in the room nor queued for it frees no place: the
  -- active users stay. It serves the queue all the same: the first queued user with a live key
  -- loses the place there.
  pub handle_leave-stray :
      (w : World) (t : TopicId) (u : UserId) (server : Server c)
      → includes u (active server.store t) ≡ false
      → includes u (queue server.store t) ≡ false
      → (active (handle_leave c w t u server).store t ≡ active server.store t)
        × (queue (handle_leave c w t u server).store t
            ≡ behind (alive server.store t) (queue server.store t))
  handle_leave-stray w t u server inactive unqueued =
      let all = handle_leave-serves w t u server in
      (
        active-handle_leave c w t t u server ∙ absent-hdel t u server.store inactive,
        all.1
            ∙ ap (behind (alive server.store t)) (without-absent u (queue server.store t) unqueued),
      )
