-- ===== src/Http/Middleware.antt =====
-- The middleware (internal/http/middleware.go): the id of a request, the recovery from panics, the
-- rate limit and the bytes that a body may have. What logging and metrics tell is left out, but for
-- the results of the rate limiter.
pub mod Reached
use paycore.Base.{
  ℕ, ◌+◌, ◌*◌, ◌/◌, Bool, not, Option, none, some, List, [], ◌∷◌, ltb, ◌==◌, Result, ok, err,
  if◌then◌else◌,
}
use paycore.Base.Int.{ℤ, pos, pos_part, leb_ℤ, ltb_ℤ}
use paycore.Base.Text.{Text, codes, is_empty, trim_space}
use paycore.Errors.{Error, cause, limiter_unavailable}
use paycore.Http.{Request, Response, Encoding, write_error}
use paycore.Http.Payments.{Outcome, answers, panics}
use paycore.Id.{hex_encode}
use paycore.Idempotency.{Bytes}
use paycore.RateLimit.{LimitResult}

-- `newRequestID`; `stamp` is the formatted time, which is used where `rand.Read` fails.
unfoldable pub new_request_id : Option Bytes → Text → Text
new_request_id none stamp = stamp
new_request_id (some bytes) stamp = hex_encode bytes

-- `requestIDMiddleware`
unfoldable pub with_request_id : Option Bytes → Text → Request → Request
with_request_id random stamp q = record q {
  request_id = if is_empty q.request_id then new_request_id random stamp else q.request_id;
}

-- `recoveryMiddleware`
unfoldable pub recovered : Encoding → ℕ → Request → Outcome → Response
recovered enc now q (answers r) = r
recovered enc now q panics =
    write_error enc now q.request_id (pos 500) (codes "INTERNAL_SERVER_ERROR")
      (codes "Internal server error")

-- `defaultMaxBodyBytes`
abbrev pub default_max_body_bytes : ℤ
default_max_body_bytes = pos (1024 * 1024)

length : Bytes → ℕ
length [] = 0
length (_ ∷ bytes) = length bytes + 1

-- `bodyLimitMiddleware`: reading a longer body to its end fails, as the payment handler does.
unfoldable pub with_body_limit : ℤ → Request → Request
unfolding length
with_body_limit max q =
    let limit = if leb_ℤ max (pos 0) then default_max_body_bytes else max in
    record q {
      body = elim q.body [
        | none ↦ none
        | some bytes ↦ if ltb_ℤ limit (pos (length bytes)) then none else some bytes
      ];
    }

-- `strings.Split(s, ",")[0]`
unfoldable pub first_part : Text → Text
first_part [] = []
first_part (c ∷ s) = let rest = first_part s in if c == b',' then [] else c ∷ rest

unfoldable pub rate_limit_key : Request → Text
unfolding first_part
rate_limit_key q =
    let candidate = trim_space (first_part q.forwarded_for) in
    let real_ip = trim_space q.real_ip in
    let remote_addr = trim_space q.remote_addr in
    if not (is_empty candidate)
    then candidate
    else if not (is_empty real_ip)
    then real_ip
    else if not (is_empty remote_addr)
    then remote_addr
    else codes "unknown"

-- The headers that `rateLimitMiddleware` sets: the limit with what remains of it, and the seconds
-- after which to retry.
pub record LimitHeaders : Type 0 where
  pub limit : Option (ℤ × ℤ)
  pub retry_after : Option ℕ

-- What the middleware does with a request: it passes it on to the next handler, or answers it.
pub data Decision : Type 0 where
  passes : Decision
  refuses : Response → Decision

pub record Checked : Type 0 where
  pub decision : Decision
  pub headers : LimitHeaders
  -- what `ObserveRateLimit` is told
  pub told : Text

abbrev pub no_headers : LimitHeaders
no_headers = record { limit = none; retry_after = none }

module _ (enc : Encoding) (now : ℕ) (q : Request) where
  unfoldable pub limiter_failed : Error → Checked
  limiter_failed e = elim (cause e) [
    | limiter_unavailable ↦ record {
      decision = refuses (
          write_error enc now q.request_id (pos 503) (codes "RATE_LIMITER_UNAVAILABLE")
            (codes "Rate limiter unavailable"));
      headers = no_headers;
      told = codes "redis_error";
    }
    | _ ↦ record {
      decision = refuses (
          write_error enc now q.request_id (pos 500) (codes "RATE_LIMIT_ERROR")
            (codes "Rate limit check failed"));
      headers = no_headers;
      told = codes "error";
    }
  ]

  unfoldable pub limiter_answered : LimitResult → Checked
  limiter_answered x =
      let limit = if ltb_ℤ (pos 0) x.limit then some (x.limit, x.remaining) else none in
      if not x.allowed
      then record {
        decision = refuses (
            write_error enc now q.request_id (pos 429) (codes "RATE_LIMIT_EXCEEDED")
              (codes "Rate limit exceeded"));
        headers = record {
          limit = limit;
          retry_after =
              if ltb_ℤ (pos 0) x.retry_after
              then some (pos_part x.retry_after / 1000000000)
              else none;
        };
        told = codes "rejected";
      }
      else record {
        decision = passes;
        headers = record { limit = limit; retry_after = none };
        told = codes "allowed";
      }

  -- `rateLimitMiddleware` up to the call of the next handler, over a limiter.
  unfoldable pub rate_limit_middleware :
      {R : Type 0} → (Text → R → Result LimitResult × R) → R → Checked × R
  rate_limit_middleware limiter r =
      let (x, r') = limiter (rate_limit_key q) r in
      elim x [ ok x ↦ (limiter_answered x, r') | err e ↦ (limiter_failed e, r') ]
