-- ===== src/Settlement/Run.antt =====
-- The run of the settlement worker (`main` of cmd/paycore-settlement-worker/main.go), once it has
-- reached the database.
use paycore.Base.{ℕ}
use paycore.Currency.{Unicode}
use paycore.Database.{Columns}
use paycore.Settlement.Service.{
  Call, SettlementService, CreateBatchResult, new_settlement_service, create_batch,
  recover_stale_batches,
}
use paycore.Settlement.Window.{WorkerConfig, previous_full_window}
use paycore.World.{Transactor, lift, ◌>>=◌}

unfoldable pub worker_service : WorkerConfig → SettlementService
worker_service cfg = new_settlement_service cfg.worker_id cfg.claim_limit cfg.lock_ttl

module _ ⦃u : Unicode⦄ ⦃c : Columns⦄ where
  -- The window is that of `started`; `recovering` and `creating` are what `s.now()` returns to the two
  -- calls. An error ends the run, also one of a context that was canceled.
  unfoldable pub run_worker : Transactor → WorkerConfig → ℕ → ℕ → ℕ → Call CreateBatchResult
  unfolding worker_service
  run_worker tx cfg started recovering creating = do
    window ← lift (previous_full_window started cfg.window_minutes)
    _ ← recover_stale_batches tx (worker_service cfg) recovering cfg.claim_limit
    create_batch tx (worker_service cfg) creating
        (record { window_start = window.start; window_end = window.end })
