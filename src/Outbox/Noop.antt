-- ===== src/Outbox/Noop.antt =====
-- The outbox repository that keeps nothing (`NoopRepository` of internal/outbox/repository.go).
use paycore.Base.{ℕ, Option, none, some, List, [], Result, ok, err}
use paycore.Base.Text.{Text}
use paycore.Errors.{Error, event_not_found}
use paycore.Outbox.{Event}
use paycore.Outbox.Store.{ClaimPendingEventsInput, MarkEventFailedInput, Stats}

unfoldable pub noop_create_event : Option Error → Event → Result Event
noop_create_event (some e) event = err e
noop_create_event none event = ok event

unfoldable pub noop_claim_pending_events :
    Option Error → ClaimPendingEventsInput → Result (List Event)
noop_claim_pending_events (some e) input = err e
noop_claim_pending_events none input = ok []

unfoldable pub noop_mark_event_published : Option Error → Text → ℕ → Result Event
noop_mark_event_published (some e) id now = err e
noop_mark_event_published none id now = err event_not_found

unfoldable pub noop_mark_event_failed : Option Error → MarkEventFailedInput → Result Event
noop_mark_event_failed (some e) input = err e
noop_mark_event_failed none input = err event_not_found

unfoldable pub noop_stats : Option Error → ℕ → Result Stats
noop_stats (some e) now = err e
noop_stats none now = ok (record { pending_events = 0; publish_lag = 0 })
