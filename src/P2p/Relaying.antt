-- ===== src/P2p/Relaying.antt =====
-- apps/ws/src/p2p-signaling.ts: between whom packets are relayed.
use legends_chat.Common.{
  ◌≡◌, ◌⊎◌, refl, sym, ◌++◌, String, Bool, true, not, ◌||◌, List, [], ◌∷◌, includes, some_of,
  Bool-cases, inl, inr, nat_eq, arith, subst,
}
use legends_chat.P2p.Redis.{Cache, TopicId, UserId}
use legends_chat.P2p.{
  World, SocketId, Emit, Request, send_offer, send_answer, send_ice, Call, call, Server,
  relay_allowed, on_relay, handle, run,
}
use legends_chat.P2p.Safety.{admits, is_active, run-admits}

-- What asks for a packet to be relayed to a user.
abbrev pub Relays : TopicId → UserId → Request → Type 0
Relays t to x = (x ≡ send_offer t to) ⊎ ((x ≡ send_answer t to) ⊎ (x ≡ send_ice t to))

-- What the server sends for it, to the recipient and from the sender.
abbrev pub packet_of : UserId → Request → List Emit
packet_of u (send_offer t to) = Emit.offer to u ∷ []
packet_of u (send_answer t to) = Emit.answer to u ∷ []
packet_of u (send_ice t to) = Emit.ice to u ∷ []
packet_of u x = []

no_member : (v : UserId) → ¬ (includes v [] ≡ true)
no_member v e = cc

module _ (c : Cache) where
  open c use {active}

  -- Why a packet is dropped: the rate limiter, or one of the two is not active.
  abbrev pub drops : TopicId → UserId → UserId → Bool → Server c → Bool
  drops t u to limited server =
      limited || not (is_active c t u server) || not (is_active c t to server)

  -- Nothing is sent, for a reason, or these events and no other, and both users are active.
  Relayed : TopicId → UserId → UserId → Bool → List Emit → Server c → Server c → Type 0
  Relayed t u to limited events server server' =
      ((server'.emitted ≡ server.emitted) × (drops t u to limited server ≡ true))
      ⊎ ((server'.emitted ≡ server.emitted ++ events)
          × (is_active c t u server ≡ true)
          × (is_active c t to server ≡ true))

  relay_sound :
      (packet : UserId → UserId → Emit) (limited : Bool) (u : UserId) (t : TopicId) (to : UserId)
      (server : Server c)
      → Relayed t u to limited (packet to u ∷ []) server (on_relay c packet limited u t to server)
  unfolding on_relay relay_allowed Relayed
  relay_sound packet limited u t to server =
      elim (Bool-cases (relay_allowed c limited u t to server)) [
        | inl allowed ↦ inr (rw allowed refl, ground arith, ground arith)
        | inr denied ↦ inl (rw denied refl, ground arith)
      ]

  handle-Relays :
      (t : TopicId) (u to : UserId) (k : SocketId) (w : World) (limited : Bool) (role : String)
      (x : Request) (server : Server c)
      → Relays t to x
      → Relayed t u to limited (packet_of u x) server (handle c (call k w limited role u x) server)
  unfolding handle
  handle-Relays t u to k w limited role x server (inl e) =
      subst
        (λ y.
          Relayed t u to limited (packet_of u y) server
            (handle c (call k w limited role u y) server))
        (sym e) (relay_sound Emit.offer limited u t to server)
  handle-Relays t u to k w limited role x server (inr (inl e)) =
      subst
        (λ y.
          Relayed t u to limited (packet_of u y) server
            (handle c (call k w limited role u y) server))
        (sym e) (relay_sound Emit.answer limited u t to server)
  handle-Relays t u to k w limited role x server (inr (inr e)) =
      subst
        (λ y.
          Relayed t u to limited (packet_of u y) server
            (handle c (call k w limited role u y) server))
        (sym e) (relay_sound Emit.ice limited u t to server)

  -- When nobody is active in a room at the start, then whatever the sockets send, in whatever
  -- order: an offer, answer or candidate that comes next is dropped, which happens only if the rate
  -- limiter refuses it or one of the two users is not active; or exactly one packet of its kind goes
  -- to the user it is for and names its sender, and both users each sent a join of that topic that
  -- passed the view gate.
  pub run-Relays :
      (t : TopicId) (u to : UserId) (xs : List Call) (server : Server c) (k : SocketId) (w : World)
      (limited : Bool) (role : String) (x : Request)
      → active server.store t ≡ []
      → Relays t to x
      → (((handle c (call k w limited role u x) (run c xs server)).emitted
            ≡ (run c xs server).emitted)
          × (drops t u to limited (run c xs server) ≡ true))
        ⊎ (((handle c (call k w limited role u x) (run c xs server)).emitted
              ≡ (run c xs server).emitted ++ packet_of u x)
            × (some_of (admits t u) xs ≡ true)
            × (some_of (admits t to) xs ≡ true))
  unfolding Relayed
  run-Relays t u to xs server k w limited role x empty asks =
      elim (handle-Relays t u to k w limited role x (run c xs server) asks) [
        | inl dropped ↦ inl dropped
        | inr (sent, from, at) ↦ inr (sent, joined u from, joined to at)
      ]
    where
      joined :
          (v : UserId) → is_active c t v (run c xs server) ≡ true → some_of (admits t v) xs ≡ true
      joined v now = elim (run-admits c t v xs server now) [
        | inr sent ↦ sent
        | inl old ↦ absurd (no_member v (rw empty at old))
      ]
