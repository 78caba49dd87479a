-- ===== src/Tests/Events.antt =====
-- The theorems about the outbox, on two events of which one is locked.
use paycore.Base.{◌≡◌, refl, none, some, [], ◌∷◌, arith}
use paycore.Base.Dict.{lookup}
use paycore.Base.Int.{pos}
use paycore.Base.Text.{codes, Text_discrete}
use paycore.Outbox.{Event, Status, payment_captured}
use paycore.Outbox.Store.{Store, ClaimPendingEventsInput, claim_pending_events}
use paycore.Outbox.Store.Claims.{IsOutbox, claim_pending_events-keeps_locked}

abbrev open_event : Event
open_event = record {
  id = codes "evt_1";
  aggregate_type = codes "payment";
  aggregate_id = codes "pay_1";
  event_type = codes "payment.captured";
  payload =
      payment_captured (codes "pay_1") (codes "m1") (codes "p1") (pos 5) (codes "EUR")
        (codes "hold_1") 60;
  status = Status.pending;
  attempts = 0;
  available_at = 60;
  created_at = 60;
  updated_at = 60;
  locked_at = none;
  locked_by = none;
  published_at = none;
  last_error = none;
}

abbrev locked_event : Event
locked_event = record open_event {
  id = codes "evt_2";
  status = Status.in_progress;
  attempts = 1;
  locked_at = some 61;
  locked_by = some (codes "worker-1");
}

abbrev two_events : Store
two_events = (codes "evt_1", open_event) ∷ (codes "evt_2", locked_event) ∷ []

two_events-IsOutbox : IsOutbox two_events
unfolding lookup Text_discrete
two_events-IsOutbox = record { is_map = (refl, (refl, tt)); keyed = λ k e h. ground arith }

abbrev claim_input : ClaimPendingEventsInput
claim_input = record { worker_id = codes "worker-2"; limit = pos 10; now = 1000000 }

claim_pending_events-keeps_locked_example :
    lookup (codes "evt_2") (claim_pending_events none claim_input two_events).1 ≡ some locked_event
unfolding lookup Text_discrete
claim_pending_events-keeps_locked_example =
    claim_pending_events-keeps_locked none claim_input two_events (codes "evt_2") locked_event
      two_events-IsOutbox refl refl
