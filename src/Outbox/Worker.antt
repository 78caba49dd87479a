-- ===== src/Outbox/Worker.antt =====
-- The outbox worker (internal/outbox/worker.go) over the PostgreSQL repository.
pub mod Ends
pub mod Batch
pub mod Finishes
pub mod Metrics
use paycore.Base.{
  ℕ, ◌+◌, ◌*◌, Bool, true, false, Option, none, some, List, [], ◌∷◌, length, Result, ok, err,
  if◌then◌else◌,
}
use paycore.Base.Dict.{Dict}
use paycore.Base.Int.{ℤ, pos, leb_ℤ}
use paycore.Base.Text.{Text, codes, is_empty}
use paycore.Database.{Columns}
use paycore.Errors.{Error}
use paycore.Outbox.{Event}
use paycore.Outbox.Postgres.{
  claim_event_rows, mark_event_row_published, mark_event_row_failed, event_row_stats,
}
use paycore.Outbox.Store.{ClaimPendingEventsInput, MarkEventFailedInput, Stats}
use paycore.World.{Env, Stateful, Transactor, within_tx, next, listed}

pub record ProcessBatchResult : Type 0 where
  pub claimed : ℕ
  pub published : ℕ
  pub failed : ℕ

pub record Worker : Type 0 where
  pub worker_id : Text
  pub batch_size : ℤ

-- The defaults of `NewWorker`.
unfoldable pub new_worker : Text → ℤ → Worker
new_worker worker_id batch_size = record {
  worker_id = if is_empty worker_id then codes "outbox-worker" else worker_id;
  batch_size = if leb_ℤ batch_size (pos 0) then pos 100 else batch_size;
}

-- The calls of `w.now()` in one batch; each reads the clock anew.
pub data Reading : Type 0 where
  for_stats for_claim : Reading
  for_published for_next_available for_failed : Event → Reading

abbrev pub minute : ℕ
minute = 60 * 1000000000

abbrev pub Call : Type 0 → Type 0
Call = Stateful (Env (Dict Event))

abbrev pub on_rows : {A : Type 0} → (Option Error → Dict Event → Result A × Dict Event) → Call A
on_rows op w =
    let (e, rest) = next w.ctx in
    let (r, t) = op e w.stores in (r, record w { stores = t; ctx = rest })

abbrev pub no_result : ProcessBatchResult
no_result = record { claimed = 0; published = 0; failed = 0 }

abbrev pub counted : ℕ → ProcessBatchResult
counted n = record no_result { claimed = n }

-- What the publisher answers for an event: nothing, or the message of its error.
module _ ⦃c : Columns⦄ (publish : Event → Option Text) (clock : Reading → ℕ) where
  abbrev pub failure : Event → Text → MarkEventFailedInput
  failure e message = record {
    event_id = e.id;
    error_message = message;
    next_available = clock (for_next_available e) + minute;
    now = clock (for_failed e);
  }

  -- The loop over the claimed events; the counts are returned beside an error too.
  unfoldable pub publish_all :
      List Event
      → ProcessBatchResult
      → Env (Dict Event)
      → (ProcessBatchResult × Option Error) × Env (Dict Event)
  publish_all [] r w = ((r, none), w)
  publish_all (e ∷ es) r w = elim (publish e) [
    | some message ↦
        let (marked, w') = on_rows (λ x. mark_event_row_failed x (failure e message)) w in
        elim marked [
          | err x ↦ ((r, some x), w')
          | ok _ ↦ publish_all es (record r { failed = r.failed + 1 }) w'
        ]
    | none ↦
        let (marked, w') =
          on_rows (λ x. mark_event_row_published x e.id (clock (for_published e))) w in
        elim marked [
          | err x ↦ ((r, some x), w')
          | ok _ ↦ publish_all es (record r { published = r.published + 1 }) w'
        ]
  ]

  -- The body of the transaction.
  unfoldable pub claim_batch : Worker → Call (List Event)
  claim_batch v w =
      let (ids, rest) = next w.locked in
      on_rows
        (λ x.
          claim_event_rows w.in_tx x (listed ids)
            (record { worker_id = v.worker_id; limit = v.batch_size; now = clock for_claim }))
        (record w { locked = rest })

  unfoldable pub process_batch :
      Transactor
      → Worker
      → Env (Dict Event)
      → (ProcessBatchResult × Option Error) × Env (Dict Event)
  process_batch tx v w =
      let (stats, w1) = on_rows (λ x. event_row_stats x (clock for_stats) (clock for_stats)) w in
      elim stats [
        | err x ↦ ((no_result, some x), w1)
        | ok _ ↦
            let (claimed, w2) = within_tx tx (claim_batch v) w1 in
            elim claimed [
              | err x ↦ ((no_result, some x), w2)
              | ok events ↦ publish_all events (counted (length events)) w2
            ]
      ]
