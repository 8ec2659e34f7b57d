-- ===== src/P2p/Redis.antt =====
-- The Redis commands that apps/ws/src/p2p-signaling.ts uses, as an interface: the store, what the
-- read commands show of it, and what each write command does to that. Topics and users stand in
-- for the key names: the hash `p2p:active:<topic>`, the list `p2p:queue:<topic>` and the key
-- `p2p:queue-ttl:<topic>:<user>`.
use legends_chat.Common.{
  ℕ, ◌+◌, ◌≡◌, Bool, false, not, ◌&&◌, ◌||◌, List, [], ◌∷◌, ◌++◌, length, drop, includes, without,
  ◌==◌, nat_eq, if◌then◌else◌,
}

abbrev pub TopicId : Type 0
TopicId = ℕ

abbrev pub UserId : Type 0
UserId = ℕ

-- The same fields, in any order, and as many.
abbrev pub SameFields : List UserId → List UserId → Type 0
SameFields xs ys = ((v : UserId) → includes v xs ≡ includes v ys) × (length xs ≡ length ys)

pub record Cache : Type 1 where
  pub Store : Type 0
  -- HKEYS of the active hash, LRANGE 0 -1 of the queue, EXISTS of the queue key.
  pub active : Store → TopicId → List UserId
  pub queue : Store → TopicId → List UserId
  pub alive : Store → TopicId → UserId → Bool
  -- HSET and HDEL on the hash, RPUSH, LPOP and LREM 0 on the list, SET EX and DEL on the key.
  pub hset : TopicId → UserId → Store → Store
  pub hdel : TopicId → UserId → Store → Store
  pub rpush : TopicId → UserId → Store → Store
  pub lpop : TopicId → Store → Store
  pub lrem : TopicId → UserId → Store → Store
  pub set_ex : TopicId → UserId → Store → Store
  pub del : TopicId → UserId → Store → Store
  -- HSET adds a field once, and overwrites it after.
  pub active-hset :
      (t t' : TopicId) (u v : UserId) (s : Store)
      → includes v (active (hset t u s) t') ≡ (includes v (active s t') || (t == t' && u == v))
  pub length-hset :
      (t : TopicId) (u : UserId) (s : Store)
      → length (active (hset t u s) t)
        ≡ (if includes u (active s t) then length (active s t) else length (active s t) + 1)
  pub other-hset :
      (t t' : TopicId) (u : UserId) (s : Store)
      → (t == t') ≡ false
      → active (hset t u s) t' ≡ active s t'
  pub queue-hset : (t t' : TopicId) (u : UserId) (s : Store) → queue (hset t u s) t' ≡ queue s t'
  -- HDEL takes a field off, in whatever order HKEYS gives the others then, and ignores a field that
  -- is not there.
  pub active-hdel :
      (t t' : TopicId) (u : UserId) (s : Store)
      → SameFields
          (active (hdel t u s) t')
          (if t == t' then without u (active s t') else active s t')
  pub absent-hdel :
      (t : TopicId) (u : UserId) (s : Store)
      → includes u (active s t) ≡ false
      → active (hdel t u s) t ≡ active s t
  pub queue-hdel : (t t' : TopicId) (u : UserId) (s : Store) → queue (hdel t u s) t' ≡ queue s t'
  pub alive-hdel :
      (t t' : TopicId) (u v : UserId) (s : Store) → alive (hdel t u s) t' v ≡ alive s t' v
  pub active-rpush :
      (t t' : TopicId) (u : UserId) (s : Store) → active (rpush t u s) t' ≡ active s t'
  pub queue-rpush :
      (t t' : TopicId) (u : UserId) (s : Store)
      → queue (rpush t u s) t' ≡ (if t == t' then queue s t' ++ u ∷ [] else queue s t')
  pub active-lpop : (t t' : TopicId) (s : Store) → active (lpop t s) t' ≡ active s t'
  pub queue-lpop :
      (t t' : TopicId) (s : Store)
      → queue (lpop t s) t' ≡ (if t == t' then drop 1 (queue s t') else queue s t')
  pub alive-lpop : (t t' : TopicId) (v : UserId) (s : Store) → alive (lpop t s) t' v ≡ alive s t' v
  pub active-lrem : (t t' : TopicId) (u : UserId) (s : Store) → active (lrem t u s) t' ≡ active s t'
  pub queue-lrem :
      (t t' : TopicId) (u : UserId) (s : Store)
      → queue (lrem t u s) t' ≡ (if t == t' then without u (queue s t') else queue s t')
  pub alive-lrem :
      (t t' : TopicId) (u v : UserId) (s : Store) → alive (lrem t u s) t' v ≡ alive s t' v
  pub active-set_ex :
      (t t' : TopicId) (u : UserId) (s : Store) → active (set_ex t u s) t' ≡ active s t'
  pub queue-set_ex :
      (t t' : TopicId) (u : UserId) (s : Store) → queue (set_ex t u s) t' ≡ queue s t'
  pub active-del : (t t' : TopicId) (u : UserId) (s : Store) → active (del t u s) t' ≡ active s t'
  pub queue-del : (t t' : TopicId) (u : UserId) (s : Store) → queue (del t u s) t' ≡ queue s t'
  pub alive-del :
      (t t' : TopicId) (u v : UserId) (s : Store)
      → alive (del t u s) t' v ≡ (alive s t' v && not (t == t' && u == v))
