-- ===== src/Limits/Window.antt =====
-- apps/ws/src/rate-limit.ts and apps/web/lib/rate-limit.ts: how many calls pass in a window.
use legends_chat.Common.{
  ℕ, ◌+◌, ◌-◌, ◌<◌, ◌≡◌, All, refl, ap, ◌∙◌, not, List, [], ◌∷◌, leb, ltb, ◌==◌, nat_eq,
  if◌then◌else◌, arith, Bool-cases, inl, inr, beq_refl,
}
use legends_chat.Limits.{Counters, hit, is_rate_limited, check_and_increment}

-- A call: its key, its limit and its window.
abbrev pub Attempt : Type 0
Attempt = ℕ × ℕ × ℕ

-- A window of a second or more.
abbrev pub Lasts : Attempt → Type 0
Lasts (key, limit, window) = 0 < window

abbrev pub attempts_at : ℕ → List Attempt → ℕ
attempts_at k [] = 0
attempts_at k ((key, limit, window) ∷ xs) =
    if key == k then attempts_at k xs + 1 else attempts_at k xs

module _ (c : Counters) where
  open c use {Store, count, incr, count-incr, count-expire}

  -- The calls one after the other.
  pub serve : List Attempt → Store → Store
  serve [] s = s
  serve ((key, limit, window) ∷ xs) s = serve xs (is_rate_limited c key limit window s).1

  count-hit :
      (key k window : ℕ) (s : Store)
      → 0 < window
      → count (hit c key window s) k ≡ (if key == k then count s k + 1 else count s k)
  unfolding hit
  count-hit key k window s lasts = elim (Bool-cases (count (incr key s) key == 1)) [
    | inl first ↦ rw first (count-expire key k window (incr key s) lasts ∙ count-incr key k s)
    | inr later ↦ rw later (count-incr key k s)
  ]

  count-serve :
      (k : ℕ) (xs : List Attempt) (s : Store)
      → All Lasts xs
      → count (serve xs s) k ≡ count s k + attempts_at k xs
  unfolding serve is_rate_limited
  count-serve k [] s all = omega arith
  count-serve k ((key, limit, window) ∷ xs) s (lasts, all) = elim (Bool-cases (key == k)) [
    | inl same ↦
        let one : count (hit c key window s) k ≡ count s k + 1 =
          count-hit key k window s lasts ∙ rw same refl in
        rw same (omega (arith, count-serve k xs (hit c key window s) all, one))
    | inr other ↦
        let none_more : count (hit c key window s) k ≡ count s k =
          count-hit key k window s lasts ∙ rw other refl in
        rw other (omega (arith, count-serve k xs (hit c key window s) all, none_more))
  ]

  -- From a store in which the key is missing, after any calls with windows of a second or more and
  -- while no window ends: a call is over the limit exactly if at least as many calls with its key as the limit came before, whatever
  -- the other calls were.
  pub is_rate_limited-serve :
      (key limit window : ℕ) (xs : List Attempt) (s : Store)
      → All Lasts xs
      → count s key ≡ 0
      → (is_rate_limited c key limit window (serve xs s)).0 ≡ leb limit (attempts_at key xs)
  unfolding is_rate_limited
  is_rate_limited-serve key limit window xs s lasting fresh =
      rw (count-incr key key (serve xs s), beq_refl key, count-serve key xs s lasting, fresh)
        (ground arith)

  -- The web server's limiter allows a call exactly if the socket server's does not refuse it, both
  -- leave the same store, and a call that is allowed has as many left as the limit is above the count.
  pub check_and_increment-is_rate_limited :
      (now key limit window : ℕ) (s : Store)
      → ((check_and_increment c now key limit window s).0.allowed
          ≡ not (is_rate_limited c key limit window s).0)
        × ((check_and_increment c now key limit window s).1
            ≡ (is_rate_limited c key limit window s).1)
        × ((check_and_increment c now key limit window s).0.remaining ≡ limit - (count s key + 1))
  unfolding check_and_increment is_rate_limited
  check_and_increment-is_rate_limited now key limit window s =
      let counted : count (incr key s) key ≡ count s key + 1 =
        count-incr key key s ∙ rw (beq_refl key) refl in
      elim (Bool-cases (ltb limit (count (incr key s) key))) [
        | inl over ↦ rw over (refl, refl, ground (arith, over, counted))
        | inr under ↦ rw under (refl, refl, ap (λ n. limit - n) counted)
      ]
