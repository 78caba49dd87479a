-- ===== src/Outbox/Worker/Finishes.antt =====
-- That a batch of the worker ends without an error while the database answers.
use paycore.Base.{
  ℕ, ◌+◌, ◌≡◌, ◌≢◌, ◌∙◌, sym, refl, true, false, Option, none, some, List, [], ◌∷◌, map, length, ok,
  inl, inr, arith, Bool-cases, Option-cases, Result-cases,
}
use mathlib.Core.Path.{subst}
use paycore.Base.Dict.{Dict, lookup, insert, lookup-insert_self, lookup-insert_ne}
use paycore.Base.Distinct.{Distinct}
use paycore.Base.Every.{Every}
use paycore.Base.Int.{pos, leb_ℤ}
use paycore.Base.Text.{Text}
use paycore.Database.{Columns}
use paycore.Outbox.{Event, is_in_progress}
use paycore.Outbox.Postgres.{
  claim_event_list, claim_event_rows, claimed_event, event_row_stats, mark_event_row_published,
  mark_event_row_failed,
}
use paycore.Outbox.Store.{ClaimPendingEventsInput, MarkEventFailedInput}
use paycore.Outbox.Worker.{
  ProcessBatchResult, Worker, Reading, for_claim, for_published, publish_all, process_batch,
  claim_batch, counted, failure,
}
use paycore.Outbox.Worker.Batch.{
  claim_event_list-keeps, due_rows, due_rows-Distinct, process_batch_complete,
}
use paycore.Outbox.Store.Claims.{IsOutbox}
use paycore.World.{Env, Pool, postgres, committed, within_tx, next, listed}

module _ ⦃c : Columns⦄ where
  -- An event whose row is in progress.
  pub record Waits (t : Dict Event) (e : Event) : Type 0 where
    pub row : Event
    pub found : lookup e.id t ≡ some row
    pub claimed : is_in_progress row.status ≡ true

  insert-Waits :
      (k : Text) (row : Event) (t : Dict Event) (es : List Event)
      → Every (λ e. e.id ≢ k) es
      → Every (Waits t) es
      → Every (Waits (insert k row t)) es
  insert-Waits k row t [] avoids waits = tt
  insert-Waits k row t (e ∷ es) avoids waits = (
    record {
      row = waits.0.row;
      found = lookup-insert_ne e.id k row t avoids.0 ∙ waits.0.found;
      claimed = waits.0.claimed;
    },
    insert-Waits k row t es avoids.1 waits.1,
  )

  -- The events that a claim returns wait for their answers.
  claim_event_list-Waits :
      (input : ClaimPendingEventsInput) (es : List Event) (t : Dict Event)
      → Distinct (λ e. e.id) (map (claimed_event input) es)
      → Every (Waits (claim_event_list input es t)) (map (claimed_event input) es)
  unfolding claim_event_list
  claim_event_list-Waits input [] t d = tt
  claim_event_list-Waits input (e ∷ es) t d = (
    record {
      row = claimed_event input e;
      found =
          claim_event_list-keeps input e.id es (insert e.id (claimed_event input e) t) d.0
          ∙ lookup-insert_self e.id (claimed_event input e) t;
      claimed = refl;
    },
    claim_event_list-Waits input es (insert e.id (claimed_event input e) t) d.1,
  )

  published-Waits :
      (e : Event) (now : ℕ) (t : Dict Event)
      → Waits t e
      → (y : Event) × (mark_event_row_published none e.id now t ≡ (ok y, insert e.id y t))
  unfolding mark_event_row_published
  published-Waits e now t w = elim (Result-cases (mark_event_row_published none e.id now t).0) [
    | inl (y, h) ↦ (y, ground (arith, w.found, w.claimed))
    | inr (x, h) ↦ absurd (ground (arith, w.found, w.claimed))
  ]

  failed-Waits :
      (input : MarkEventFailedInput) (e : Event) (t : Dict Event)
      → input.event_id ≡ e.id
      → Waits t e
      → (y : Event) × (mark_event_row_failed none input t ≡ (ok y, insert e.id y t))
  unfolding mark_event_row_failed
  failed-Waits input e t same w = elim (Result-cases (mark_event_row_failed none input t).0) [
    | inl (y, h) ↦ (y, ground (arith, same, w.found, w.claimed))
    | inr (x, h) ↦ absurd (ground (arith, same, w.found, w.claimed))
  ]

  module _ (publish : Event → Option Text) (clock : Reading → ℕ) where
    -- While no statement fails, the loop marks every event that waits.
    publish_all_finishes :
        (es : List Event) (r : ProcessBatchResult) (w : Env (Dict Event))
        → Distinct (λ e. e.id) es
        → Every (Waits w.stores) es
        → w.ctx ≡ []
        → (publish_all publish clock es r w).0.1 ≡ none
    unfolding publish_all
    publish_all_finishes [] r w d waits calm = refl
    publish_all_finishes (e ∷ es) r w d waits calm =
        let goes_on = λ (y : Event) (r' : ProcessBatchResult).
          publish_all_finishes es r' (record w { stores = insert e.id y w.stores; ctx = [] }) d.1
            (insert-Waits e.id y w.stores es d.0 waits.1) refl in
        elim (Option-cases (publish e)) [
          | inl answer ↦
              let (y, marked) = published-Waits e (clock (for_published e)) w.stores waits.0 in
              ground (arith, marked, goes_on y (record r { published = r.published + 1 }))
          | inr (message, answer) ↦
              let (y, marked) =
                failed-Waits (failure publish clock e message) e w.stores refl waits.0 in
              ground (arith, marked, goes_on y (record r { failed = r.failed + 1 }))
        ]

    -- A claim inside the transaction lists events that wait.
    claim_batch-Waits :
        (v : Worker) (w : Env (Dict Event))
        → IsOutbox w.stores
        → w.in_tx ≡ true
        → w.ctx ≡ []
        → (es : List Event) × (w' : Env (Dict Event)) × (claim_batch publish clock v w
            ≡ (ok es, w'))
          × Distinct (λ e. e.id) es
          × Every (Waits w'.stores) es
          × (w'.ctx ≡ [])
    unfolding claim_batch claim_event_rows
    claim_batch-Waits v w o inside calm =
        let input : ClaimPendingEventsInput = record {
          worker_id = v.worker_id;
          limit = v.batch_size;
          now = clock for_claim;
        } in
        let ids = listed (next w.locked).0 in
        let w' = (claim_batch publish clock v w).1 in
        elim (Bool-cases (leb_ℤ v.batch_size (pos 0))) [
          | inl none_asked ↦ ([], w', ground arith, tt, tt, ground arith)
          | inr asked ↦
              let rows = due_rows input ids w.stores in
              let distinct = due_rows-Distinct input ids w.stores o in
              let stored : claim_event_list input rows w.stores ≡ w'.stores = ground arith in
              (
                map (claimed_event input) rows,
                w',
                ground arith,
                distinct,
                subst (λ t. Every (Waits t) (map (claimed_event input) rows)) stored
                    (claim_event_list-Waits input rows w.stores distinct),
                ground arith,
              )
        ]

    -- While the database answers every statement, begins and commits, a batch of the worker over an
    -- outbox ends without an error, whatever the publisher answers and other transactions lock; every
    -- event that it claimed is counted as published or as failed.
    pub process_batch_finishes :
        (pool : Pool) (v : Worker) (w : Env (Dict Event))
        → pool.begins ≡ true
        → pool.commits ≡ committed
        → w.in_tx ≡ false
        → w.ctx ≡ []
        → IsOutbox w.stores
        → let (r, x) = (process_batch publish clock (postgres pool) v w).0 in
          (x ≡ none) × (r.published + r.failed ≡ r.claimed)
    unfolding process_batch within_tx event_row_stats
    process_batch_finishes pool v w begins commits out calm o =
        let inside : Env (Dict Event) = record w { in_tx = true; ctx = [] } in
        let (es, w2, claimed, distinct, waits, quiet) = claim_batch-Waits v inside o refl refl in
        let finished =
          publish_all_finishes es (counted (length es)) (record w2 { in_tx = false }) distinct waits
            quiet in
        let done : (process_batch publish clock (postgres pool) v w).0.1 ≡ none =
          ground (arith, claimed, finished) in
        let (fs, first, counts, _, _) =
          process_batch_complete publish clock pool v w
            {r = (process_batch publish clock (postgres pool) v w).0.0}
            {w' = (process_batch publish clock (postgres pool) v w).1} out o
            (ground (arith, done)) in
        (done, counts ∙ sym first)
