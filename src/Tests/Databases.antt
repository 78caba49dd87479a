-- ===== src/Tests/Databases.antt =====
-- The PostgreSQL repositories and the outbox worker at concrete tables.
use paycore.Base.{
  ℕ, ◌+◌, ◌≤◌, ◌≡◌, ◌≢◌, ◌↔◌, refl, false, Option, none, some, List, [], ◌∷◌, length, ok, arith,
}
use paycore.Base.Dict.{Dict, lookup, insert, filter_values}
use paycore.Base.Every.{Every}
use paycore.Base.Int.{pos, ◌-ℤ◌, ◌≤ℤ◌, ◌<ℤ◌, int64, sub_int64}
use paycore.Base.Sort.{sort, insert_sorted}
use paycore.Base.Text.{Text, codes, is_space, is_empty, trim_space, Text_discrete}
use paycore.Currency.{normalize_currency, is_valid_currency}
use paycore.Idempotency as I
use paycore.Idempotency.{Record}
use paycore.Idempotency.Postgres.{
  create_record_row-refines, kept_record, AgreesWith, kept_record_result, create_record_row,
  update_record_row, get_record_row, record_rows-refine,
}
use paycore.Idempotency.Store.{create_record, update_record, get_record}
use paycore.Outbox as O
use paycore.Outbox.{Event}
use paycore.Outbox.Postgres.{
  claim_event_rows, claim_event_list, mark_event_row_published, event_row_stats, count_rows,
}
use paycore.Outbox.Store.Claims.{IsOutbox}
use paycore.Outbox.Worker.{
  ProcessBatchResult, Worker, Reading, publish_all, process_batch, claim_batch,
}
use paycore.Outbox.Worker.Batch.{process_batch_complete}
use paycore.Outbox.Worker.Finishes.{process_batch_finishes}
use paycore.Outbox.Worker.Ends.{Ended}
use paycore.Payer.{Payer}
use paycore.Payer.Postgres.Refines.{
  update, Agrees, Fits, kept_result, call_memory, call_postgres, call_postgres-refines,
}
use paycore.Settlement as S
use paycore.Settlement.{
  Batch, LineItem, NewLineItemInput, new_line_item, start_processing, complete_batch, fail_batch,
}
use paycore.Settlement.Lifecycle.{start_processing-locked, new_line_item-net}
use paycore.Tests.{ascii, pool}
use paycore.Tests.{micros}
use paycore.World.{Env, postgres, within_tx}

abbrev payer : Payer
payer = record {
  id = codes "p1";
  available = pos 500;
  held = pos 0;
  currency = codes "EUR";
  version = pos 1;
  created_at = 2500;
  updated_at = 2500;
}

abbrev payer_row : Payer
payer_row = record payer { created_at = 2000; updated_at = 2000 }

abbrev reserved_payer : Payer
reserved_payer = record payer {
  available = pos 300;
  held = pos 200;
  version = pos 2;
  updated_at = 7500;
}

one_payer-Agrees : Agrees ((codes "p1", payer) ∷ []) ((codes "p1", payer_row) ∷ [])
unfolding lookup
one_payer-Agrees = record { at = λ k. ground arith }

reserved-Fits : Fits (update reserved_payer) ((codes "p1", payer) ∷ [])
unfolding lookup Text_discrete
reserved-Fits = record { fits = λ p q e found. ground arith }

call_postgres-refines_example :
    ((call_postgres (update reserved_payer) ((codes "p1", payer_row) ∷ [])).0
      ≡ kept_result (call_memory (update reserved_payer) ((codes "p1", payer) ∷ [])).0)
    × Agrees
        (call_memory (update reserved_payer) ((codes "p1", payer) ∷ [])).1
        (call_postgres (update reserved_payer) ((codes "p1", payer_row) ∷ [])).1
call_postgres-refines_example =
    call_postgres-refines (update reserved_payer) ((codes "p1", payer) ∷ [])
      ((codes "p1", payer_row) ∷ []) one_payer-Agrees reserved-Fits

abbrev request : Record
request = record {
  key = codes "k1";
  request_hash = codes "ab";
  status = I.in_progress;
  response_code = pos 0;
  response_body = [];
  created_at = 1500;
  updated_at = 1500;
  expires_at = 99999;
}

-- A retry of the request, some time later.
abbrev retried : Record
retried = record request { created_at = 7500; updated_at = 7500 }

abbrev stored : Dict Record
stored = (codes "k1", request) ∷ []

abbrev rows : Dict Record
rows = (codes "k1", kept_record request) ∷ []

stored-AgreesWith : AgreesWith stored rows
unfolding lookup insert create_record create_record_row
stored-AgreesWith = (create_record_row-refines none request [] [] (record { at = λ k. refl })).1

same_creation :
    (q : Record) → lookup request.key stored ≡ some q → request.created_at ≡ q.created_at
unfolding lookup Text_discrete
same_creation q h = cc

record_rows-refine_example :
    (((create_record_row none retried rows).0
        ≡ kept_record_result (create_record none retried stored).0)
      × AgreesWith (create_record none retried stored).1 (create_record_row none retried rows).1)
    × (((update_record_row none request rows).0
          ≡ kept_record_result (update_record none request stored).0)
        × AgreesWith (update_record none request stored).1 (update_record_row none request rows).1)
    × ((get_record_row none request.key rows).0
        ≡ kept_record_result (get_record none request.key stored).0)
record_rows-refine_example =
    record_rows-refine none retried request request.key stored rows stored-AgreesWith same_creation

abbrev batch : Batch
batch = record {
  id = codes "b1";
  status = S.created;
  window_start = 10;
  window_end = 20;
  claimed_by = none;
  locked_until = none;
  completed_at = none;
  last_error = none;
  created_at = 30;
  updated_at = 30;
}

abbrev started_batch : Batch
started_batch = record batch {
  status = S.processing;
  claimed_by = some (codes "w1");
  locked_until = some 90;
  updated_at = 40;
}

started_ok : start_processing batch (codes "w1") 90 40 ≡ ok started_batch
unfolding start_processing trim_space is_space
started_ok = refl

other_given : is_empty (trim_space (codes "w2")) ≡ false
unfolding trim_space is_space
other_given = refl

start_processing-locked_example :
    ((x : Batch) × (start_processing started_batch (codes "w2") 160 90 ≡ ok x)) ↔ (90 ≤ 90)
start_processing-locked_example =
    start_processing-locked batch started_batch (codes "w1") (codes "w2") 90 160 40 90 started_ok
      other_given (omega arith)

abbrev item_input : NewLineItemInput
item_input = record {
  id = codes "i1";
  batch_id = codes "b1";
  merchant_id = codes "m1";
  payment_id = codes "p1";
  amount = pos 120;
  fee_amount = pos 20;
  currency = codes "eur";
  payment_captured = 15;
  now = 40;
}

abbrev item : LineItem
item = record {
  id = codes "i1";
  batch_id = codes "b1";
  merchant_id = codes "m1";
  payment_id = codes "p1";
  amount = pos 120;
  fee_amount = pos 20;
  net_amount = pos 100;
  currency = codes "EUR";
  payment_captured = 15;
  created_at = 40;
}

item_ok : new_line_item 1 item_input ≡ ok item
unfolding new_line_item trim_space is_space normalize_currency is_valid_currency sub_int64 int64
    ◌-ℤ◌
item_ok = refl

new_line_item-net_example :
    (item.net_amount ≡ item.amount -ℤ item.fee_amount)
    × (pos 0 ≤ℤ item.net_amount)
    × (item.net_amount ≤ℤ item.amount)
    × (pos 0 <ℤ item.amount)
new_line_item-net_example =
    new_line_item-net 1 item_input {i = item} (omega arith, omega arith) item_ok

abbrev event : Event
event = record {
  id = codes "e1";
  aggregate_type = codes "payment";
  aggregate_id = codes "pay_1";
  event_type = codes "payment.captured";
  payload =
      O.payment_captured (codes "pay_1") (codes "m1") (codes "p1") (pos 5) (codes "EUR") (codes "h")
        7;
  status = O.pending;
  attempts = 0;
  available_at = 3000;
  created_at = 3000;
  updated_at = 3000;
  locked_at = none;
  locked_by = none;
  published_at = none;
  last_error = none;
}

abbrev waiting : Env (Dict Event)
waiting = record {
  stores = (codes "e1", event) ∷ [];
  ctx = [];
  random = [];
  locked = [];
  in_tx = false;
}

waiting-IsOutbox : IsOutbox waiting.stores
unfolding lookup
waiting-IsOutbox = record { is_map = (refl, tt); keyed = λ k e found. ground arith }

abbrev worker : Worker
worker = record { worker_id = codes "w1"; batch_size = pos 10 }

abbrev answers : Event → Option Text
answers e = none

abbrev clock : Reading → ℕ
clock _ = 5000

abbrev one_published : ProcessBatchResult
one_published = record { claimed = 1; published = 1; failed = 0 }

abbrev processed : Env (Dict Event)
processed = (process_batch answers clock (postgres pool) worker waiting).1

processed_ok :
    process_batch answers clock (postgres pool) worker waiting ≡ ((one_published, none), processed)
unfolding process_batch claim_batch publish_all event_row_stats count_rows claim_event_rows
    claim_event_list mark_event_row_published within_tx lookup insert filter_values sort
    insert_sorted Text_discrete
processed_ok = refl

process_batch_complete_example :
    (es : List Event) × (one_published.claimed ≡ length es)
    × (one_published.published + one_published.failed ≡ length es)
    × Every (Ended answers clock processed.stores) es
    × ((k : Text) → Every (λ e. e.id ≢ k) es → lookup k processed.stores ≡ lookup k waiting.stores)
process_batch_complete_example =
    process_batch_complete answers clock pool worker waiting refl waiting-IsOutbox processed_ok

process_batch_finishes_example :
    let (r, x) = (process_batch answers clock (postgres pool) worker waiting).0 in
    (x ≡ none) × (r.published + r.failed ≡ r.claimed)
process_batch_finishes_example =
    process_batch_finishes answers clock pool worker waiting refl refl refl refl waiting-IsOutbox
