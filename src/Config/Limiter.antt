-- ===== src/Config/Limiter.antt =====
-- The rate limiter that the API makes of its configuration (`newRateLimiter` of
-- cmd/paycore-api/main.go).
use paycore.Base.{
  ℕ, ◌≤◌, ◌≡◌, refl, [], ◌∷◌, true, false, inl, inr, ◌⊎◌, Option, none, some, arith, Result, ok,
  err, Bool-cases, Option-cases, if◌then◌else◌,
}
use paycore.Base.Int.{ℤ, pos, leb_ℤ, int64, ◌<ℤ◌, ◌≤ℤ◌}
use paycore.Base.Text.{Text, codes, is_empty, trim_space}
use paycore.Config.{Config, parse_int, duration_seconds, int64env, load, seconds}
use paycore.Errors.{Error, window_required}
use paycore.RateLimit.{RedisLimiter, new_limiter}

-- Whether the API limits at all, and the limiter, or the error that stops the start. `ping` is what
-- Redis answers.
unfoldable pub new_rate_limiter : Config → Option Error → Result (Option RedisLimiter)
new_rate_limiter cfg ping =
    if cfg.rate_limit_enabled
    then elim ping [
      | some e ↦ err e
      | none ↦ elim (new_limiter (codes "") cfg.rate_limit_requests cfg.rate_limit_window) [
        | ok l ↦ ok (some l)
        | err e ↦ err e
      ]
    ]
    else ok none

abbrev pub window_key : Text
window_key = codes "PAYCORE_RATE_LIMIT_WINDOW_SECONDS"

module _ (environment : Text → Text) where
  parsed-full : {n : ℤ} (value : Text) → parse_int value ≡ some n → is_empty value ≡ false
  unfolding parse_int
  parsed-full [] h = ground arith
  parsed-full (c ∷ s) h = refl

  -- A duration of at most 9223372036 seconds is positive.
  duration_seconds_positive :
      (key : Text) (fallback : ℤ)
      → pos 0 <ℤ fallback
      → ((n : ℤ) → parse_int (environment key) ≡ some n → n ≤ℤ pos 9223372036)
      → pos 0 <ℤ duration_seconds environment key fallback
  unfolding duration_seconds int64
  duration_seconds_positive key fallback default short =
      elim (Option-cases (parse_int (environment key))) [
        | inl unread ↦ ground arith
        | inr (n, parsed) ↦ ground (arith, parsed-full (environment key) parsed, short n parsed)
      ]

  duration_seconds_overflow :
      (key : Text) (fallback : ℤ) (n : ℕ)
      → parse_int (environment key) ≡ some (pos n)
      → 9223372037 ≤ n
      → n ≤ 18446744073
      → leb_ℤ (duration_seconds environment key fallback) (pos 0) ≡ true
  unfolding duration_seconds int64
  duration_seconds_overflow key fallback n parsed low high =
      ground (arith, parsed-full (environment key) parsed)

  int64env_positive :
      (key : Text) (fallback : ℤ) → pos 0 <ℤ fallback → pos 0 <ℤ int64env environment key fallback
  unfolding int64env
  int64env_positive key fallback default = ground arith

  -- Where Redis answers and the window's text is no number above 9223372036, the API's
  -- choice of a rate limiter succeeds, with a limit and a window that are positive if it limits at all.
  pub new_rate_limiter_starts :
      ((n : ℤ) → parse_int (environment window_key) ≡ some n → n ≤ℤ pos 9223372036)
      → (new_rate_limiter (load environment) none ≡ ok none)
        ⊎ ((l : RedisLimiter) × (new_rate_limiter (load environment) none ≡ ok (some l))
            × (pos 0 <ℤ l.limit)
            × (pos 0 <ℤ l.window))
  unfolding new_rate_limiter new_limiter load trim_space
  new_rate_limiter_starts short =
      let window = duration_seconds_positive window_key (seconds 60) (omega arith) short in
      let limit = int64env_positive (codes "PAYCORE_RATE_LIMIT_REQUESTS") (pos 60) (omega arith) in
      elim (Bool-cases (load environment).rate_limit_enabled) [
        | inr off ↦ inl (ground arith)
        | inl on ↦
            let l : RedisLimiter = record {
              prefix = codes "paycore:rate_limit";
              limit = (load environment).rate_limit_requests;
              window = (load environment).rate_limit_window;
            } in
            inr (l, ground (arith, window, limit), limit, window)
      ]

  -- A window of 9223372037 up to 18446744073 seconds passes the check that it is positive, wraps to a
  -- duration that is not, and stops the start of an API that limits.
  pub new_rate_limiter_overflow :
      (n : ℕ)
      → parse_int (environment window_key) ≡ some (pos n)
      → 9223372037 ≤ n
      → n ≤ 18446744073
      → (load environment).rate_limit_enabled ≡ true
      → new_rate_limiter (load environment) none ≡ err window_required
  unfolding new_rate_limiter new_limiter load
  new_rate_limiter_overflow n parsed low high on =
      let wrapped = duration_seconds_overflow window_key (seconds 60) n parsed low high in
      let limit = int64env_positive (codes "PAYCORE_RATE_LIMIT_REQUESTS") (pos 60) (omega arith) in
      ground (arith, wrapped, limit)
