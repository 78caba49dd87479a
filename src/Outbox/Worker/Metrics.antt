-- ===== src/Outbox/Worker/Metrics.antt =====
-- What the worker tells its metrics (internal/outbox/worker.go).
use paycore.Base.{ℕ, Bool, Option, none, some, List, ◌∷◌, ok, err, if◌then◌else◌}
use paycore.Base.Dict.{Dict}
use paycore.Base.Text.{Text}
use paycore.Database.{Columns}
use paycore.Outbox.{Event}
use paycore.Outbox.Postgres.{event_row_stats}
use paycore.Outbox.Store.{Stats}
use paycore.Outbox.Worker.{ProcessBatchResult, Worker, Reading, for_stats, on_rows, process_batch}
use paycore.World.{Env, Transactor}

-- The calls of `MetricsRecorder`, the publisher's name among the arguments of the second.
pub data Observation : Type 0 where
  outbox_stats : ℕ → ℕ → Observation
  outbox_batch : Text → ProcessBatchResult → Observation

unfoldable pub observe_outbox_stats : Bool → Stats → List Observation → List Observation
observe_outbox_stats metrics s told =
    if metrics then outbox_stats s.pending_events s.publish_lag ∷ told else told

unfoldable pub observe_outbox_batch :
    Bool → Text → ProcessBatchResult → List Observation → List Observation
observe_outbox_batch metrics publisher_name r told =
    if metrics then outbox_batch publisher_name r ∷ told else told

module _ ⦃c : Columns⦄ (publish : Event → Option Text) (clock : Reading → ℕ) where
  -- What a batch tells: the statistics once they are read, and the counts if it ends without an
  -- error.
  unfoldable pub told_by_batch :
      Bool → Text → Transactor → Worker → Env (Dict Event) → List Observation → List Observation
  told_by_batch metrics publisher_name tx v w told =
      let (stats, _) = on_rows (λ x. event_row_stats x (clock for_stats) (clock for_stats)) w in
      let ((r, x), _) = process_batch publish clock tx v w in
      elim stats [
        | err _ ↦ told
        | ok s ↦ elim x [
          | some _ ↦ observe_outbox_stats metrics s told
          | none ↦
              observe_outbox_batch metrics publisher_name r (observe_outbox_stats metrics s told)
        ]
      ]
