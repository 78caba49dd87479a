-- ===== src/Outbox.antt =====
-- Outbox events and their states (internal/outbox/event.go).
pub mod Store
pub mod Postgres
pub mod Noop
pub mod Kafka
pub mod Worker
use paycore.Base.{
  ℕ, ◌+◌, ◌*◌, Bool, true, false, not, ◌&&◌, List, Option, none, some, ltb, Result, ok, ◌>>=◌, ◌>>◌,
  fail_if,
}
use paycore.Base.Int.{ℤ}
use paycore.Base.Text.{Text, is_empty, trim_space}
use paycore.Errors.{
  aggregate_type_required, aggregate_id_required, event_type_required, payload_not_marshalled,
  worker_id_required, event_not_claimable, event_not_publishable, event_not_failable,
  error_message_required,
}
use paycore.Id.{new_id, evt}

pub data Status : Type 0 where
  pending in_progress published failed : Status

-- The payload structs of the services, before `json.Marshal`: the event keeps the value in place
-- of its JSON text.
pub data Payload : Type 0 where
  payment_authorized : Text → Text → Text → ℤ → Text → Text → ℕ → ℕ → Payload
  payment_captured : Text → Text → Text → ℤ → Text → Text → ℕ → Payload
  payment_expired : Text → Text → Text → ℤ → Text → Text → ℕ → ℕ → Payload
  payment_settled : Text → Text → Text → Text → ℤ → Text → ℕ → Payload

-- The first instant of the year 10000, in nanoseconds from the year 1: `Time.MarshalJSON` refuses
-- it and what is later.
abbrev pub year_10000 : ℕ
year_10000 = 315537897600 * 1000000000

-- json.Marshal on these structs fails on such a time only.
abbrev pub is_marshallable : Payload → Bool
is_marshallable (payment_authorized _ _ _ _ _ _ t u) = ltb t year_10000 && ltb u year_10000
is_marshallable (payment_captured _ _ _ _ _ _ t) = ltb t year_10000
is_marshallable (payment_expired _ _ _ _ _ _ t u) = ltb t year_10000 && ltb u year_10000
is_marshallable (payment_settled _ _ _ _ _ _ t) = ltb t year_10000

pub record Event : Type 0 where
  pub id : Text
  pub aggregate_type : Text
  pub aggregate_id : Text
  pub event_type : Text
  pub payload : Payload
  pub status : Status
  pub attempts : ℕ
  pub available_at : ℕ
  pub created_at : ℕ
  pub updated_at : ℕ
  pub locked_at : Option ℕ
  pub locked_by : Option Text
  pub published_at : Option ℕ
  pub last_error : Option Text

pub record NewEventInput : Type 0 where
  pub aggregate_type : Text
  pub aggregate_id : Text
  pub event_type : Text
  pub payload : Payload
  pub now : ℕ

-- The last argument is what `rand.Read` gives.
unfoldable pub new_event : NewEventInput → Option (List ℕ) → Result Event
new_event input random = do
  let aggregate_type = trim_space input.aggregate_type
  let aggregate_id = trim_space input.aggregate_id
  let event_type = trim_space input.event_type
  fail_if (is_empty aggregate_type) aggregate_type_required
  fail_if (is_empty aggregate_id) aggregate_id_required
  fail_if (is_empty event_type) event_type_required
  fail_if (not (is_marshallable input.payload)) payload_not_marshalled
  id ← new_id evt random
  ok (record {
    id = id;
    aggregate_type = aggregate_type;
    aggregate_id = aggregate_id;
    event_type = event_type;
    payload = input.payload;
    status = pending;
    attempts = 0;
    available_at = input.now;
    created_at = input.now;
    updated_at = input.now;
    locked_at = none;
    locked_by = none;
    published_at = none;
    last_error = none;
  })

-- `Status == StatusPending || Status == StatusFailed`
abbrev pub is_open : Status → Bool
is_open pending = true
is_open failed = true
is_open _ = false

abbrev pub is_in_progress : Status → Bool
is_in_progress in_progress = true
is_in_progress _ = false

unfoldable pub claim : Event → Text → ℕ → Result Event
claim e worker_id now = do
  let worker = trim_space worker_id
  fail_if (is_empty worker) worker_id_required
  fail_if (not (is_open e.status)) event_not_claimable
  ok (record e {
    status = in_progress;
    attempts = e.attempts + 1;
    locked_at = some now;
    locked_by = some worker;
    last_error = none;
    updated_at = now;
  })

unfoldable pub mark_published : Event → ℕ → Result Event
mark_published e now = do
  fail_if (not (is_in_progress e.status)) event_not_publishable
  ok (record e {
    status = published;
    published_at = some now;
    locked_at = none;
    locked_by = none;
    last_error = none;
    updated_at = now;
  })

unfoldable pub mark_failed : Event → Text → ℕ → ℕ → Result Event
mark_failed e error_message next_available_at now = do
  fail_if (not (is_in_progress e.status)) event_not_failable
  let message = trim_space error_message
  fail_if (is_empty message) error_message_required
  ok (record e {
    status = failed;
    available_at = next_available_at;
    locked_at = none;
    locked_by = none;
    published_at = none;
    last_error = some message;
    updated_at = now;
  })
