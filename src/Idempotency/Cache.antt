-- ===== src/Idempotency/Cache.antt =====
-- The interface of a response cache (internal/idempotency/cache.go), and `NoopCache`.
use paycore.Base.{◌≡◌, ◌⊎◌, inr, Option, none, some, Result, ok, err, arith}
use paycore.Base.Int.{ℤ}
use paycore.Base.Text.{Text}
use paycore.Errors.{Error, cached_response_not_found}
use paycore.Idempotency.{CachedResponse}

-- A cache with the state `C`. The first argument of an operation is what the environment answers,
-- an error of the context or of the connection. `may_return` holds of the responses that are in the
-- cache: a cache answers a request with a response to the same key and hash that is in it, and
-- holds nothing that was not put in; it may forget.
pub record Cache (C : Type 0) : Type 1 where
  pub get_response : Option Error → Text → Text → C → Result CachedResponse × C
  pub set_response : Option Error → CachedResponse → ℤ → C → Result (Unit {0}) × C
  pub may_return : C → CachedResponse → Type 0
  pub get_returns :
      (e : Option Error) (key request_hash : Text) (c : C) (r : CachedResponse)
      → (get_response e key request_hash c).0 ≡ ok r
      → may_return c r × (r.key ≡ key) × (r.request_hash ≡ request_hash)
  pub get_keeps :
      (e : Option Error) (key request_hash : Text) (c : C) (r : CachedResponse)
      → may_return (get_response e key request_hash c).1 r
      → may_return c r
  pub set_keeps :
      (e : Option Error) (x : CachedResponse) (ttl : ℤ) (c : C) (r : CachedResponse)
      → may_return (set_response e x ttl c).1 r
      → (r ≡ x) ⊎ may_return c r

abbrev pub noop_get_response :
    Option Error → Text → Text → Unit {0} → Result CachedResponse × Unit {0}
noop_get_response (some e) key request_hash c = (err e, c)
noop_get_response none key request_hash c = (err cached_response_not_found, c)

abbrev pub noop_set_response :
    Option Error → CachedResponse → ℤ → Unit {0} → Result (Unit {0}) × Unit {0}
noop_set_response (some e) x ttl c = (err e, c)
noop_set_response none x ttl c = (ok tt, c)

pub noop-get_returns :
    (e : Option Error) (key request_hash : Text) (c : Unit {0}) (r : CachedResponse)
    → (noop_get_response e key request_hash c).0 ≡ ok r
    → ⊥ × (r.key ≡ key) × (r.request_hash ≡ request_hash)
noop-get_returns none key request_hash c r h = ground arith
noop-get_returns (some e) key request_hash c r h = ground arith

abbrev pub noop_cache : Cache (Unit {0})
noop_cache = record {
  get_response = noop_get_response;
  set_response = noop_set_response;
  may_return = λ c r. ⊥;
  get_returns = noop-get_returns;
  get_keeps = λ e key h c r m. m;
  set_keeps = λ e x ttl c r m. inr m;
}
