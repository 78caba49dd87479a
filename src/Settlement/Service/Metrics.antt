-- ===== src/Settlement/Service/Metrics.antt =====
-- What the settlement service tells its metrics (internal/settlement/service.go). Durations are left
-- out.
use paycore.Base.{ℕ, Bool, List, [], ◌∷◌, length, Result, ok, err, if◌then◌else◌}
use paycore.Base.Int.{ℤ}
use paycore.Base.Text.{Text, codes}
use paycore.Currency.{Unicode}
use paycore.Database.{Columns}
use paycore.Settlement.{Batch, BatchStatus, created, processing, completed, failed}
use paycore.Settlement.Service.{
  Tables, SettlementService, CreateBatchInput, CreateBatchResult, RecoverStaleBatchesResult,
  create_batch, recover_stale_batches,
}
use paycore.World.{Env, Transactor}

-- The calls of `MetricsRecorder`.
pub data Observation : Type 0 where
  settlement_batch : Text → ℕ → Observation
  recovered_batches : ℕ → Observation

abbrev pub batch_status_text : BatchStatus → Text
batch_status_text created = codes "CREATED"
batch_status_text processing = codes "PROCESSING"
batch_status_text completed = codes "COMPLETED"
batch_status_text failed = codes "FAILED"

-- The service with its metrics: `told` is what they were told, the last first.
pub record Metered : Type 0 where
  pub env : Env Tables
  pub told : List Observation

unfoldable pub observe_settlement_batch : Bool → Text → ℕ → List Observation → List Observation
observe_settlement_batch metrics status payments told =
    if metrics then settlement_batch status payments ∷ told else told

unfoldable pub observe_recovered_batches : Bool → ℕ → List Observation → List Observation
observe_recovered_batches metrics count told =
    if metrics then recovered_batches count ∷ told else told

-- The loop over the recovered batches, with the count of payments at each index.
unfoldable pub observe_batches : Bool → List Batch → List ℕ → List Observation → List Observation
unfolding observe_settlement_batch
observe_batches metrics [] counts told = told
observe_batches metrics (b ∷ bs) [] told = told
observe_batches metrics (b ∷ bs) (n ∷ counts) told =
    observe_batches metrics bs counts
      (observe_settlement_batch metrics (batch_status_text b.status) n told)

module _ ⦃u : Unicode⦄ ⦃c : Columns⦄ where
  unfoldable pub create_batch_observed :
      Bool
      → Transactor
      → SettlementService
      → ℕ
      → CreateBatchInput
      → Metered
      → Result CreateBatchResult × Metered
  create_batch_observed metrics tx v now input m =
      let (r, w) = create_batch tx v now input m.env in
      elim r [
        | err e ↦ (
          err e,
          record { env = w; told = observe_settlement_batch metrics (codes "FAILED") 0 m.told },
        )
        | ok x ↦ (
          ok x,
          record {
            env = w;
            told =
                observe_settlement_batch metrics (batch_status_text x.batch.status)
                  (length x.payments) m.told;
          },
        )
      ]

  unfoldable pub recover_observed :
      Bool
      → Transactor
      → SettlementService
      → ℕ
      → ℤ
      → Metered
      → Result RecoverStaleBatchesResult × Metered
  recover_observed metrics tx v now limit m =
      let (r, w) = recover_stale_batches tx v now limit m.env in
      elim r [
        | err e ↦ (
          err e,
          record { env = w; told = observe_settlement_batch metrics (codes "FAILED") 0 m.told },
        )
        | ok x ↦ (
          ok x,
          record {
            env = w;
            told =
                observe_batches metrics x.batches x.payment_counts
                  (observe_recovered_batches metrics (length x.batches) m.told);
          },
        )
      ]
