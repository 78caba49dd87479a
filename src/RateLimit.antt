-- ===== src/RateLimit.antt =====
-- The rate limiter (internal/ratelimit): the result, the limiter that never refuses, and the
-- fixed-window limiter over Redis (internal/ratelimit/adapters/redis/limiter.go).
pub mod Window
use paycore.Base.{
  ℕ, ◌+◌, ◌-◌, ◌≡◌, ◌≢◌, ◌≤◌, Bool, true, false, not, Option, none, some, List, ◌++◌, leb, ltb,
  ◌==◌, Result, ok, err, if◌then◌else◌,
}
use paycore.Base.Int.{ℤ, pos, pos_part, leb_ℤ, ltb_ℤ, ◌<ℤ◌}
use paycore.Base.Text.{Text, codes, is_empty, trim_space}
use paycore.Errors.{Error, limiter_unavailable, limit_required, window_required}

pub record LimitResult : Type 0 where
  pub allowed : Bool
  pub limit : ℤ
  pub remaining : ℤ
  pub retry_after : ℤ

unfoldable pub noop_allow : Option Error → Result LimitResult
noop_allow (some e) = err e
noop_allow none =
    ok (record { allowed = true; limit = pos 0; remaining = pos 0; retry_after = pos 0 })

-- The commands of the Redis client that the limiter calls, each with the error that the connection
-- gives, if any, on a database in the state `R`. `count` is the number that a key holds, 0 where
-- there is none, and `expires` says whether the key has a time to live. The laws are those of the
-- commands while no key expires: a command that fails may have reached the server.
pub record Redis (R : Type 0) : Type 0 where
  pub incr : Option Error → Text → R → Result ℕ × R
  pub expire : Option Error → Text → ℤ → R → Result (Unit {0}) × R
  pub ttl : Option Error → Text → R → Result ℤ × R
  pub count : Text → R → ℕ
  pub expires : Text → R → Bool
  pub incr_answers :
      (e : Option Error) (k : Text) (r : R) {n : ℕ}
      → (incr e k r).0 ≡ ok n
      → (n ≡ count k r + 1) × (count k (incr e k r).1 ≡ n)
  pub incr_grows : (e : Option Error) (k j : Text) (r : R) → count j r ≤ count j (incr e k r).1
  pub incr_expires :
      (e : Option Error) (k j : Text) (r : R)
      → 1 ≤ count j r
      → expires j (incr e k r).1 ≡ expires j r
  pub expire_count :
      (e : Option Error) (k j : Text) (d : ℤ) (r : R)
      → pos 0 <ℤ d
      → count j (expire e k d r).1 ≡ count j r
  pub expire_expires :
      (e : Option Error) (k j : Text) (d : ℤ) (r : R)
      → j ≢ k
      → expires j (expire e k d r).1 ≡ expires j r
  pub ttl_keeps : (e : Option Error) (k : Text) (r : R) → (ttl e k r).1 ≡ r

pub record RedisLimiter : Type 0 where
  pub prefix : Text
  pub limit : ℤ
  pub window : ℤ

-- `NewLimiter`, given a client.
unfoldable pub new_limiter : Text → ℤ → ℤ → Result RedisLimiter
new_limiter prefix limit window =
    let trimmed = trim_space prefix in
    if leb_ℤ limit (pos 0)
    then err limit_required
    else if leb_ℤ window (pos 0)
    then err window_required
    else ok (record {
      prefix = if is_empty trimmed then codes "paycore:rate_limit" else trimmed;
      limit = limit;
      window = window;
    })

abbrev pub redis_key : RedisLimiter → Text → Text
redis_key l key =
    let trimmed = trim_space key in
    l.prefix ++ codes ":" ++ (if is_empty trimmed then codes "anonymous" else trimmed)

-- What the connection answers to the commands of one call.
pub record Faults : Type 0 where
  pub on_incr : Option Error
  pub on_expire : Option Error
  pub on_ttl : Option Error

-- A limit is positive, and `count` at most 2^63 - 1, so that the difference is exact.
abbrev pub remaining_of : ℤ → ℕ → ℤ
remaining_of limit count = pos (pos_part limit - count)

module _ {R : Type 0} (redis : Redis R) where
  abbrev pub retry_of : RedisLimiter → Result ℤ → ℤ
  retry_of l (err _) = l.window
  retry_of l (ok d) = if ltb_ℤ d (pos 0) then l.window else d

  -- The answer to the call that counted `n`.
  unfoldable pub answer : RedisLimiter → Option Error → Text → ℕ → R → Result LimitResult × R
  answer l e k n r =
      let counted : LimitResult = record {
        allowed = leb_ℤ (pos n) l.limit;
        limit = l.limit;
        remaining = remaining_of l.limit n;
        retry_after = pos 0;
      } in
      if leb_ℤ (pos n) l.limit
      then (ok counted, r)
      else let (d, r') = redis.ttl e k r in (ok (record counted { retry_after = retry_of l d }), r')

  unfoldable pub allow : RedisLimiter → Faults → Text → R → Result LimitResult × R
  allow l f key r =
      let k = redis_key l key in
      let (n, r1) = redis.incr f.on_incr k r in
      elim n [
        | err _ ↦ (err limiter_unavailable, r1)
        | ok n ↦
            let (set, r2) = redis.expire f.on_expire k l.window r1 in
            if n == 1
            then elim set [
              | err _ ↦ (err limiter_unavailable, r2)
              | ok _ ↦ answer l f.on_ttl k n r2
            ]
            else answer l f.on_ttl k n r1
      ]
