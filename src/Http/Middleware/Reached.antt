-- ===== src/Http/Middleware/Reached.antt =====
-- How many requests of a client the rate limit lets through to the payment handler.
use paycore.Base.{
  ℕ, ◌+◌, ◌-◌, ◌≤◌, ◌≡◌, refl, Bool, true, false, List, [], ◌∷◌, inl, inr, arith, Result-cases,
  if◌then◌else◌,
}
use paycore.Base.Int.{pos, pos_part, ◌<ℤ◌}
use paycore.Base.Text.{Text, text_eq}
use paycore.Errors.{Error}
use paycore.Http.{Request, Encoding}
use paycore.Http.Middleware.{
  Decision, passes, refuses, rate_limit_key, rate_limit_middleware, limiter_answered,
  limiter_failed,
}
use paycore.RateLimit.{Redis, RedisLimiter, Faults, redis_key, allow}
use paycore.RateLimit.Window.{Calls, admitted, admitted-within_limit}

abbrev is_passed : Decision → Bool
is_passed passes = true
is_passed (refuses _) = false

module _ (enc : Encoding) (now : ℕ) {R : Type 0} (redis : Redis R) (l : RedisLimiter) where
  -- The requests that reach the handler among those whose client counts under `k`.
  abbrev pub reached : Text → List (Faults × Request) → R → ℕ
  reached k [] r = 0
  reached k ((f, q) ∷ qs) r =
      let (checked, r') = rate_limit_middleware enc now q (allow redis l f) r in
      let rest = reached k qs r' in
      if text_eq (redis_key l (rate_limit_key q)) k
      then (if is_passed checked.decision then rest + 1 else rest)
      else rest

  abbrev calls_of : List (Faults × Request) → Calls
  calls_of [] = []
  calls_of ((f, q) ∷ qs) = (f, rate_limit_key q) ∷ calls_of qs

  failed-refuses :
      (q : Request) (e : Error) → is_passed (limiter_failed enc now q e).decision ≡ false
  unfolding limiter_failed
  failed-refuses q e = ground arith

  reached-admitted :
      (k : Text) (qs : List (Faults × Request)) (r : R)
      → reached k qs r ≡ admitted redis l k (calls_of qs) r
  unfolding rate_limit_middleware limiter_answered
  reached-admitted k [] r = refl
  reached-admitted k ((f, q) ∷ qs) r =
      let rest = reached-admitted k qs (allow redis l f (rate_limit_key q) r).1 in
      elim (Result-cases (allow redis l f (rate_limit_key q) r).0) [
        | inl (x, e) ↦ ground (arith, rest)
        | inr (x, e) ↦ ground (arith, rest, failed-refuses q x)
      ]

  -- While no key expires, of any requests to the payment routes, on a Redis that may fail at any
  -- command, those of the clients that count under a key reach the handler at most as often as the
  -- limit exceeds what the key has counted before.
  pub reached-within_limit :
      (k : Text) (qs : List (Faults × Request)) (r : R)
      → pos 0 <ℤ l.window
      → reached k qs r ≤ pos_part l.limit - redis.count k r
  reached-within_limit k qs r positive =
      ground
        (arith, reached-admitted k qs r, admitted-within_limit redis l k (calls_of qs) r positive)
