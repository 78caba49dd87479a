-- ===== src/Idempotency/Service.antt =====
-- The idempotency service (internal/idempotency/service.go).
pub mod Cases
pub mod Once
pub mod Transparent
pub mod Replay
use paycore.Base.{
  ℕ, ◌-◌, ◌^◌, min, Bool, true, false, not, Option, List, [], ◌∷◌, ltb, Result, ok, err,
  if◌then◌else◌,
}
use paycore.Base.Int.{ℤ, pos, leb_ℤ}
use paycore.Base.Stateful.{Stateful, pure, fail, lift, ◌>>=◌, ◌>>◌, fail_if, next}
use paycore.Base.Text.{Text, text_eq}
use paycore.Errors.{
  Error, duplicate_key, expired_idempotency_key, request_hash_mismatch, request_in_progress,
  invalid_status, cached_response_not_found,
}
use paycore.Idempotency.{
  Record, Bytes, CachedResponse, new_record, complete, is_expired, is_in_progress, is_completed,
  ttl_or_day,
}
use paycore.Idempotency.Cache.{Cache}
use paycore.Idempotency.Store.{Store, create_record, get_record, update_record}

-- The calls of `MetricsRecorder`.
pub data Observation : Type 0 where
  cache_hit cache_miss cache_error postgres_fallback : Observation

-- What the service works on. `ctx` holds what the next calls of the repository and the cache are
-- answered by the environment (no error past its end), `observed` what the metrics were told, the
-- last first.
pub record State (C : Type 0) : Type 0 where
  pub records : Store
  pub cache : C
  pub ctx : List (Option Error)
  pub observed : List Observation

-- `metrics` says whether the recorder is not nil. The repository is the map of the state, and the
-- clock is an argument of the calls.
pub record Service (C : Type 0) : Type 1 where
  pub cache : Cache C
  pub metrics : Bool
  pub ttl : ℤ

abbrev pub new_service : {C : Type 0} → Cache C → Bool → ℤ → Service C
new_service cache metrics ttl = record { cache = cache; metrics = metrics; ttl = ttl_or_day ttl }

pub record StartRequestInput : Type 0 where
  pub key : Text
  pub request_hash : Text

pub record StartRequestResult : Type 0 where
  pub idempotency_record : Record
  pub replay : Bool
  pub response_code : ℤ
  pub response_body : Bytes

pub record CompleteRequestInput : Type 0 where
  pub key : Text
  pub response_code : ℤ
  pub response_body : Bytes

-- `errors.Is` with the two errors that the service asks for.
abbrev pub is_duplicate_key : Error → Bool
is_duplicate_key duplicate_key = true
is_duplicate_key _ = false

abbrev pub is_not_cached : Error → Bool
is_not_cached cached_response_not_found = true
is_not_cached _ = false

abbrev pub started : Record → StartRequestResult
started r = record {
  idempotency_record = r;
  replay = false;
  response_code = pos 0;
  response_body = [];
}

abbrev pub replayed : Record → ℤ → Bytes → StartRequestResult
replayed r code body = record {
  idempotency_record = r;
  replay = true;
  response_code = code;
  response_body = body;
}

-- The time that is left to a record, as a Duration, or the ttl of the service.
abbrev pub cache_ttl : ℤ → Record → ℕ → ℤ
cache_ttl ttl r now =
    if ltb now r.expires_at then pos (min (r.expires_at - now) (2 ^ 63 - 1)) else ttl

module _ {C : Type 0} where
  abbrev pub on_records :
      {A : Type 0} → (Option Error → Store → Result A × Store) → Stateful (State C) A
  on_records op s =
      let (e, rest) = next s.ctx in
      let (r, records) = op e s.records in (r, record s { records = records; ctx = rest })

  abbrev pub on_cache : {A : Type 0} → (Option Error → C → Result A × C) → Stateful (State C) A
  on_cache op s =
      let (e, rest) = next s.ctx in
      let (r, cache) = op e s.cache in (r, record s { cache = cache; ctx = rest })

  abbrev pub observe : Bool → Observation → State C → State C
  observe metrics o s = if metrics then record s { observed = o ∷ s.observed } else s

  -- The part of `StartRequest` from the call of the cache on.
  unfoldable pub replay_response :
      Service C → Record → State C → Result StartRequestResult × State C
  replay_response v existing s =
      let (cached, s') =
        on_cache (λ e. v.cache.get_response e existing.key existing.request_hash) s in
      elim cached [
        | ok c ↦
            (ok (replayed existing c.response_code c.response_body), observe v.metrics cache_hit s')
        | err e ↦ (
          ok (replayed existing existing.response_code existing.response_body),
          observe v.metrics postgres_fallback
              (observe v.metrics (if is_not_cached e then cache_miss else cache_error) s'),
        )
      ]

  -- The part of `StartRequest` for a key that is already there.
  unfoldable pub resume_request : Service C → ℕ → Record → Stateful (State C) StartRequestResult
  resume_request v now r = do
    existing ← on_records λ e. get_record e r.key
    fail_if (is_expired existing now) expired_idempotency_key
    fail_if (not (text_eq existing.request_hash r.request_hash)) request_hash_mismatch
    fail_if (is_in_progress existing.status) request_in_progress
    fail_if (not (is_completed existing.status)) invalid_status
    replay_response v existing

  -- `now` is what `s.now()` returns.
  unfoldable pub start_request :
      Service C → ℕ → StartRequestInput → State C → Result StartRequestResult × State C
  start_request v now input s =
      elim (new_record
        (record { key = input.key; request_hash = input.request_hash; now = now; ttl = v.ttl })) [
          | err e ↦ (err e, s)
          | ok r ↦
              let (created, s') = on_records (λ e. create_record e r) s in
              elim created [
                | ok r' ↦ (ok (started r'), s')
                | err e ↦ if is_duplicate_key e then resume_request v now r s' else (err e, s')
              ]
        ]

  -- The error of the cache is dropped.
  abbrev pub remember : Service C → Record → ℕ → State C → State C
  remember v r now s =
      (on_cache
        (λ e.
          v.cache.set_response e
            (record {
              key = r.key;
              request_hash = r.request_hash;
              response_code = r.response_code;
              response_body = r.response_body;
            })
            (cache_ttl v.ttl r now))
        s).1

  unfoldable pub complete_request : Service C → ℕ → CompleteRequestInput → Stateful (State C) Record
  complete_request v now input = do
    existing ← on_records λ e. get_record e input.key
    completed ← lift (complete existing input.response_code input.response_body now)
    updated ← on_records λ e. update_record e completed
    λ s. (ok updated, remember v updated now s)
