-- ===== src/Limits/Tests.antt =====
-- apps/ws/src/rate-limit.ts and apps/web/lib/rate-limit.ts: a store of counters, and the limiters
-- run on it.
use legends_chat.Common.{
  ℕ, ◌+◌, ◌≡◌, arith, refl, true, not, List, [], ◌∷◌, ◌==◌, nat_eq, if◌then◌else◌,
}
use legends_chat.Limits.{Counters, hit, is_rate_limited, check_and_increment}
use legends_chat.Limits.Window.{
  Attempt, serve, is_rate_limited-serve, check_and_increment-is_rate_limited,
}

record Table : Type 0 where
  counts : ℕ → ℕ
  windows : ℕ → ℕ

abbrev counters : Counters
counters = record {
  Store = Table;
  count = λ s k. s.counts k;
  ttl = λ s k. s.windows k;
  incr = λ k s. record s { counts = λ k'. if k == k' then s.counts k' + 1 else s.counts k' };
  expire = λ k seconds s. record s { windows = λ k'. if k == k' then seconds else s.windows k' };
  count-incr = λ k k' s. refl;
  count-expire = λ k k' seconds s lasts. refl;
}

abbrev empty : Table
empty = record { counts = λ k. 0; windows = λ k. 0 }

abbrev attempts : List Attempt
attempts = (7, 2, 60) ∷ (8, 2, 60) ∷ (7, 2, 60) ∷ []

is_rate_limited-serve_example :
    (is_rate_limited counters 7 2 60 (serve counters attempts empty)).0 ≡ true
is_rate_limited-serve_example =
    is_rate_limited-serve counters 7 2 60 attempts empty
      (omega arith, (omega arith, (omega arith, tt))) refl

check_test :
    ((check_and_increment counters 1000 7 2 60 empty).0
      ≡ record { allowed = true; remaining = 1; reset_at = 61000 })
    × ((is_rate_limited counters 7 0 60 empty).0 ≡ true)
unfolding check_and_increment is_rate_limited hit
check_test = (refl, refl)

check_and_increment-is_rate_limited_example :
    ((check_and_increment counters 1000 7 2 60 empty).0.allowed
      ≡ not (is_rate_limited counters 7 2 60 empty).0)
    × ((check_and_increment counters 1000 7 2 60 empty).1
        ≡ (is_rate_limited counters 7 2 60 empty).1)
    × ((check_and_increment counters 1000 7 2 60 empty).0.remaining ≡ 1)
check_and_increment-is_rate_limited_example =
    check_and_increment-is_rate_limited counters 1000 7 2 60 empty
