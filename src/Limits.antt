-- ===== src/Limits.antt =====
-- apps/ws/src/rate-limit.ts and apps/web/lib/rate-limit.ts (`checkAndIncrement`): fixed windows over
-- Redis counters. Keys are numbers.
pub mod Window
mod Tests
use legends_chat.Common.{
  ℕ, ◌+◌, ◌-◌, ◌*◌, ◌<◌, ◌≡◌, Bool, true, false, ltb, ◌==◌, nat_eq, if◌then◌else◌,
}

-- The Redis commands, and what they do to the counters: `count` is 0 where the key is missing, `ttl`
-- is 0 where Redis gives a number that is not positive.
pub record Counters : Type 1 where
  pub Store : Type 0
  pub count : Store → ℕ → ℕ
  pub ttl : Store → ℕ → ℕ
  pub incr : ℕ → Store → Store
  pub expire : ℕ → ℕ → Store → Store
  pub count-incr :
      (k k' : ℕ) (s : Store)
      → count (incr k s) k' ≡ (if k == k' then count s k' + 1 else count s k')
  -- A time that is not 0; at 0 the key is deleted.
  pub count-expire :
      (k k' seconds : ℕ) (s : Store) → 0 < seconds → count (expire k seconds s) k' ≡ count s k'

pub record RateLimitResult : Type 0 where
  pub allowed : Bool
  pub remaining : ℕ
  pub reset_at : ℕ

module _ (c : Counters) where
  open c use {Store, count, ttl, incr, expire}

  -- INCR, and EXPIRE on the first hit.
  unfoldable pub hit : ℕ → ℕ → Store → Store
  hit key window s =
      if count (incr key s) key == 1 then expire key window (incr key s) else incr key s

  -- `isRateLimited`: whether the caller is over the limit, and the store then.
  unfoldable pub is_rate_limited : ℕ → ℕ → ℕ → Store → Bool × Store
  is_rate_limited key limit window s = (ltb limit (count (incr key s) key), hit key window s)

  abbrev pub effective_ttl : ℕ → ℕ → ℕ
  effective_ttl left window = if ltb 0 left then left else window

  -- `checkAndIncrement`; `now` is `Date.now()`.
  unfoldable pub check_and_increment : ℕ → ℕ → ℕ → ℕ → Store → RateLimitResult × Store
  check_and_increment now key limit window s =
      if ltb limit (count (incr key s) key)
      then (
        record {
          allowed = false;
          remaining = 0;
          reset_at = now + effective_ttl (ttl (hit key window s) key) window * 1000;
        },
        hit key window s,
      )
      else (
        record {
          allowed = true;
          remaining = limit - count (incr key s) key;
          reset_at = now + effective_ttl (ttl (hit key window s) key) window * 1000;
        },
        hit key window s,
      )
