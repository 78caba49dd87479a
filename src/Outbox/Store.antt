-- ===== src/Outbox/Store.antt =====
-- The in-memory outbox repository (internal/outbox/adapters/memory/repository.go). The first
-- argument of an operation is what `ctx.Err()` returns.
pub mod Claims
use paycore.Base.{
  ℕ, ◌+◌, ◌-◌, ◌^◌, min, Bool, true, false, not, Option, none, some, List, [], ◌∷◌, ltb, ◌==◌,
  Result, ok, err, if◌then◌else◌,
}
use paycore.Base.Int.{ℤ, pos, pos_part, leb_ℤ}
use paycore.Base.Text.{Text, text_lt}
use paycore.Base.Sort.{sort, take}
use paycore.Base.Dict.{Dict, lookup, insert, values, filter_values}
use paycore.Errors.{Error, event_not_found, duplicate_event}
use paycore.Outbox.{Event, is_open, claim, mark_published, mark_failed}

abbrev pub Store : Type 0
Store = Dict Event

unfoldable pub create_event : Option Error → Event → Store → Result Event × Store
create_event (some e) event s = (err e, s)
create_event none event s = elim (lookup event.id s) [
  | some _ ↦ (err duplicate_event, s)
  | none ↦ (ok event, insert event.id event s)
]

-- The two tests of the loop in `ClaimPendingEvents`.
abbrev pub is_claimable : ℕ → Event → Bool
is_claimable now event =
    if ltb now event.available_at then false else if not (is_open event.status) then false else true

-- The order that it sorts by: availability, creation, id.
abbrev pub available_before : Event → Event → Bool
available_before a b =
    if not (a.available_at == b.available_at)
    then ltb a.available_at b.available_at
    else if not (a.created_at == b.created_at)
    then ltb a.created_at b.created_at
    else text_lt a.id b.id

-- The loop that claims each event and writes it back; it stops at the first error.
unfoldable pub claim_all : Text → ℕ → List Event → Store → Result (List Event) × Store
claim_all worker_id now [] s = (ok [], s)
claim_all worker_id now (event ∷ rest) s = elim (claim event worker_id now) [
  | err e ↦ (err e, s)
  | ok claimed ↦
      let (r, s') = claim_all worker_id now rest (insert claimed.id claimed s) in
      (elim r [ ok others ↦ ok (claimed ∷ others) | err e ↦ err e ], s')
]

pub record ClaimPendingEventsInput : Type 0 where
  pub worker_id : Text
  pub limit : ℤ
  pub now : ℕ

unfoldable pub claim_pending_events :
    Option Error → ClaimPendingEventsInput → Store → Result (List Event) × Store
unfolding claim_all
claim_pending_events (some e) input s = (err e, s)
claim_pending_events none input s =
    if leb_ℤ input.limit (pos 0)
    then (ok [], s)
    else claim_all input.worker_id input.now
        (take (pos_part input.limit)
          (sort available_before (filter_values (is_claimable input.now) s)))
        s

unfoldable pub mark_event_published : Option Error → Text → ℕ → Store → Result Event × Store
mark_event_published (some e) event_id now s = (err e, s)
mark_event_published none event_id now s = elim (lookup event_id s) [
  | none ↦ (err event_not_found, s)
  | some event ↦ elim (mark_published event now) [
    | err e ↦ (err e, s)
    | ok event' ↦ (ok event', insert event_id event' s)
  ]
]

pub record MarkEventFailedInput : Type 0 where
  pub event_id : Text
  pub error_message : Text
  pub next_available : ℕ
  pub now : ℕ

unfoldable pub mark_event_failed :
    Option Error → MarkEventFailedInput → Store → Result Event × Store
mark_event_failed (some e) input s = (err e, s)
mark_event_failed none input s = elim (lookup input.event_id s) [
  | none ↦ (err event_not_found, s)
  | some event ↦ elim (mark_failed event input.error_message input.next_available input.now) [
    | err e ↦ (err e, s)
    | ok event' ↦ (ok event', insert input.event_id event' s)
  ]
]

-- The order of the result is that of the association list; Go's is unspecified.
unfoldable pub list_events : Option Error → Store → Result (List Event) × Store
list_events (some e) s = (err e, s)
list_events none s = (ok (values s), s)

pub record Stats : Type 0 where
  pub pending_events : ℕ
  pub publish_lag : ℕ

-- The loop of `Stats`: the number of open events that are due, and the oldest of their times.
abbrev pub older : ℕ → Option ℕ → Option ℕ
older t none = some t
older t (some o) = if ltb t o then some t else some o

unfoldable pub count_due : ℕ → Dict Event → ℕ × Option ℕ → ℕ × Option ℕ
count_due now [] acc = acc
count_due now ((_, event) ∷ d) (pending, oldest) = count_due now d (
    if not (is_open event.status)
    then (pending, oldest)
    else if ltb now event.available_at
    then (pending, oldest)
    else (pending + 1, older event.available_at oldest))

-- `now.Sub(*oldest)`, kept from 0 to the largest int64.
abbrev pub lag : ℕ → Option ℕ → ℕ
lag now none = 0
lag now (some oldest) = min (now - oldest) (2 ^ 63 - 1)

-- The second argument is the clock that is read where the input's time is the zero time.
unfoldable pub stats : Option Error → ℕ → ℕ → Store → Result Stats × Store
unfolding count_due
stats (some e) clock now s = (err e, s)
stats none clock now s =
    let now' = if now == 0 then clock else now in
    let (pending, oldest) = count_due now' s (0, none) in
    (ok (record { pending_events = pending; publish_lag = lag now' oldest }), s)
