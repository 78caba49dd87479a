-- ===== src/Idempotency.antt =====
-- Idempotency records and the cached responses (internal/idempotency/record.go and cache.go).
pub mod Store
pub mod Postgres
pub mod Cache
pub mod Hash
pub mod Redis
pub mod Service
use paycore.Base.{
  ℕ, ◌+◌, ◌*◌, Bool, true, false, not, ◌&&◌, List, [], ltb, ◌==◌, Result, ok, ◌>>=◌, ◌>>◌, fail_if,
  if◌then◌else◌,
}
use paycore.Base.Int.{ℤ, pos, pos_part, leb_ℤ}
use paycore.Base.Text.{Text, is_empty, trim_space}
use paycore.Errors.{invalid_key, invalid_request_hash, invalid_status}

pub data Status : Type 0 where
  in_progress completed failed : Status

abbrev pub Bytes : Type 0
Bytes = List ℕ

pub record Record : Type 0 where
  pub key : Text
  pub request_hash : Text
  pub status : Status
  pub response_code : ℤ
  pub response_body : Bytes
  pub created_at : ℕ
  pub updated_at : ℕ
  pub expires_at : ℕ

pub record NewRecordInput : Type 0 where
  pub key : Text
  pub request_hash : Text
  pub now : ℕ
  pub ttl : ℤ

-- `24 * time.Hour`, in nanoseconds.
abbrev pub day : ℤ
day = pos (24 * 3600 * 1000000000)

abbrev pub ttl_or_day : ℤ → ℤ
ttl_or_day ttl = if leb_ℤ ttl (pos 0) then day else ttl

unfoldable pub new_record : NewRecordInput → Result Record
new_record input = do
  let key = trim_space input.key
  fail_if (is_empty key) invalid_key
  let request_hash = trim_space input.request_hash
  fail_if (is_empty request_hash) invalid_request_hash
  ok (record {
    key = key;
    request_hash = request_hash;
    status = in_progress;
    response_code = pos 0;
    response_body = [];
    created_at = input.now;
    updated_at = input.now;
    expires_at = input.now + pos_part (ttl_or_day input.ttl);
  })

abbrev pub is_in_progress : Status → Bool
is_in_progress in_progress = true
is_in_progress _ = false

abbrev pub is_completed : Status → Bool
is_completed completed = true
is_completed _ = false

unfoldable pub complete : Record → ℤ → Bytes → ℕ → Result Record
complete r response_code response_body now = do
  fail_if (not (is_in_progress r.status)) invalid_status
  ok (record r {
    status = completed;
    response_code = response_code;
    response_body = response_body;
    updated_at = now;
  })

-- The zero time, 0, is no expiry.
abbrev pub is_expired : Record → ℕ → Bool
is_expired r now = not (r.expires_at == 0) && ltb r.expires_at now

pub record CachedResponse : Type 0 where
  pub key : Text
  pub request_hash : Text
  pub response_code : ℤ
  pub response_body : Bytes
