-- ===== src/P2p/Queue.antt =====
-- apps/ws/src/p2p-signaling.ts: the queue of a room. `dequeueNext` against a description of whom
-- it serves, and what the write commands leave of the active users.
use legends_chat.Common.{
  ℕ, zero, suc, ◌<◌, ◌≡◌, ◌⊎◌, refl, ◌∙◌, Bool, Option, none, some, List, [], ◌∷◌, length,
  Bool-cases, inl, inr, nat_eq, if◌then◌else◌, arith, beq_refl,
}
use legends_chat.P2p.Redis.{Cache, TopicId, UserId}
use legends_chat.P2p.{dequeue, dequeue_next}

-- The first user whose key is alive, and those behind that user.
abbrev pub first_alive : (UserId → Bool) → List UserId → Option UserId
first_alive alive [] = none
first_alive alive (u ∷ us) = if alive u then some u else first_alive alive us

abbrev pub behind : (UserId → Bool) → List UserId → List UserId
behind alive [] = []
behind alive (u ∷ us) = if alive u then us else behind alive us

List-cases :
    (xs : List UserId) → (xs ≡ []) ⊎ ((x : UserId) × (rest : List UserId) × (xs ≡ x ∷ rest))
List-cases [] = inl refl
List-cases (x ∷ xs) = inr (x, xs, refl)

module _ (c : Cache) where
  open c use {
    Store, active, queue, alive, lpop, del, active-lpop, queue-lpop, alive-lpop, active-del,
    queue-del,
  }

  pub active-dequeue :
      (fuel : ℕ) (t t' : TopicId) (s : Store) → active (dequeue c fuel t s).1 t' ≡ active s t'
  unfolding dequeue
  active-dequeue zero t t' s = refl
  active-dequeue (suc fuel) t t' s = elim (List-cases (queue s t)) [
    | inl e ↦ rw (e, dequeue) refl
    | inr (u, us, e) ↦
        rw (e, dequeue)
          (elim (Bool-cases (alive (lpop t s) t u)) [
            | inl h ↦ rw h (active-del t t' u (lpop t s) ∙ active-lpop t t' s)
            | inr h ↦ rw h (active-dequeue fuel t t' (lpop t s) ∙ active-lpop t t' s)
          ])
  ]

  -- With fuel above the length of the queue, the loop ends by itself.
  dequeue-lem :
      (fuel : ℕ) (t : TopicId) (s : Store) (us : List UserId) (living : UserId → Bool)
      → queue s t ≡ us
      → ((u : UserId) → alive s t u ≡ living u)
      → length us < fuel
      → ((dequeue c fuel t s).0 ≡ first_alive living us)
        × (queue (dequeue c fuel t s).1 t ≡ behind living us)
  unfolding dequeue
  dequeue-lem zero t s us living e a h = absurd (omega (arith, h))
  dequeue-lem (suc fuel) t s [] living e a h = rw (e, dequeue) (refl, e)
  dequeue-lem (suc fuel) t s (u ∷ us) living e a h =
      rw (e, dequeue)
        (elim (Bool-cases (living u)) [
          | inl l ↦ rw (alive-lpop t t u s, a u, l) (refl, queue-del t t u (lpop t s) ∙ rest)
          | inr l ↦
              rw (alive-lpop t t u s, a u, l)
                (dequeue-lem fuel t (lpop t s) us living rest (λ v. alive-lpop t t v s ∙ a v)
                  (omega arith))
        ])
    where
      rest : queue (lpop t s) t ≡ us
      rest = rw (queue-lpop t t s, beq_refl t, e) refl

  -- The loop of `dequeueNext` ends, whatever the queue holds, and returns the first queued user
  -- whose key is alive (`none` when there is none). That user and all before are taken off the
  -- queue, those behind stay in order, and no room's active users change.
  pub dequeue_next-first :
      (t : TopicId) (s : Store)
      → ((dequeue_next c t s).0 ≡ first_alive (alive s t) (queue s t))
        × (queue (dequeue_next c t s).1 t ≡ behind (alive s t) (queue s t))
        × ((t' : TopicId) → active (dequeue_next c t s).1 t' ≡ active s t')
  unfolding dequeue_next
  dequeue_next-first t s =
      (found.0, found.1, λ t'. active-dequeue (suc (length (queue s t))) t t' s)
    where
      found :
          ((dequeue c (suc (length (queue s t))) t s).0 ≡ first_alive (alive s t) (queue s t))
          × (queue (dequeue c (suc (length (queue s t))) t s).1 t ≡ behind (alive s t) (queue s t))
      found =
          dequeue-lem (suc (length (queue s t))) t s (queue s t) (alive s t) refl (λ u. refl)
            (omega arith)
