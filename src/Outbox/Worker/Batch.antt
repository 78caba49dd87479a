-- ===== src/Outbox/Worker/Batch.antt =====
-- A batch of the worker on the database.
use mathlib.Core.Path.{subst}
use paycore.Base.{
  ℕ, ◌+◌, ◌≡◌, ◌≢◌, ◌∙◌, sym, ap, refl, true, false, Bool, Option, none, some, List, [], ◌∷◌, map,
  length, ok, inl, inr, arith, Bool-cases, Result-cases,
}
use paycore.Base.Dict.{Dict, lookup, insert, lookup-insert_ne, filter_values, All-map, IsMap-listed}
use paycore.Base.Distinct.{
  Distinct, filter_values-Distinct, sort-Distinct, take-Distinct, map-Distinct,
}
use paycore.Base.Every.{Every}
use paycore.Base.Int.{pos, pos_part, leb_ℤ}
use paycore.Base.Sort.{sort, take}
use paycore.Base.Text.{Text}
use paycore.Database.{Columns}
use paycore.Errors.{Error}
use paycore.Outbox.{Event}
use paycore.Outbox.Postgres.{
  claim_event_rows, claim_event_list, claimed_event, is_due_row, row_available_before,
  event_row_stats,
}
use paycore.Outbox.Store.{ClaimPendingEventsInput}
use paycore.Outbox.Store.Claims.{IsOutbox}
use paycore.Outbox.Worker.{
  ProcessBatchResult, Worker, Reading, for_stats, for_claim, publish_all, process_batch,
  claim_batch, counted, on_rows,
}
use paycore.Outbox.Worker.Ends.{Ended, publish_all_complete}
use paycore.World.{Env, Pool, postgres, within_tx, next, listed}
use paycore.World.Run.{within_tx-eq-ok}

module _ ⦃c : Columns⦄ where
  -- A claim changes the rows that it lists, and no other.
  pub claim_event_list-keeps :
      (input : ClaimPendingEventsInput) (k : Text) (es : List Event) (t : Dict Event)
      → Every (λ e. e.id ≢ k) (map (claimed_event input) es)
      → lookup k (claim_event_list input es t) ≡ lookup k t
  unfolding claim_event_list
  claim_event_list-keeps input k [] t avoids = refl
  claim_event_list-keeps input k (e ∷ es) t avoids =
      claim_event_list-keeps input k es (insert e.id (claimed_event input e) t) avoids.1
      ∙ lookup-insert_ne k e.id (claimed_event input e) t (λ at. avoids.0 (sym at))

  -- The rows that a claim selects.
  abbrev pub due_rows : ClaimPendingEventsInput → List Text → Dict Event → List Event
  due_rows input locked t =
      take (pos_part input.limit)
        (sort row_available_before (filter_values (is_due_row input.now locked) t))

  pub due_rows-Distinct :
      (input : ClaimPendingEventsInput) (locked : List Text) (t : Dict Event)
      → IsOutbox t
      → Distinct (λ e. e.id) (map (claimed_event input) (due_rows input locked t))
  due_rows-Distinct input locked t o =
      map-Distinct (λ e. e.id) (λ e. e.id) (claimed_event input) (due_rows input locked t)
        (λ e. refl)
        (take-Distinct (λ e. e.id) _ _
          (sort-Distinct (λ e. e.id) row_available_before _
            (filter_values-Distinct (λ e. e.id) (is_due_row input.now locked) t o.is_map
              (All-map t (λ k e found. o.keyed k e found) (IsMap-listed t o.is_map)))))

  claim_event_rows-claims :
      (in_tx : Bool) (x : Option Error) (locked : List Text) (input : ClaimPendingEventsInput)
      (t : Dict Event) {es : List Event} {t' : Dict Event}
      → IsOutbox t
      → claim_event_rows in_tx x locked input t ≡ (ok es, t')
      → Distinct (λ e. e.id) es × ((k : Text) → Every (λ e. e.id ≢ k) es → lookup k t' ≡ lookup k t)
  unfolding claim_event_rows
  claim_event_rows-claims in_tx x locked input t {es} {t'} o h =
      let rows = due_rows input locked t in
      let distinct = due_rows-Distinct input locked t o in
      elim (Bool-cases (leb_ℤ input.limit (pos 0))) [
        | inl none_asked ↦
            let empty : [] ≡ es = ground arith in
            (subst (Distinct (λ e. e.id)) empty tt, λ k avoids. ground arith)
        | inr asked ↦
            let claimed : map (claimed_event input) rows ≡ es = ground arith in
            let written : claim_event_list input rows t ≡ t' = ground arith in
            (
              subst (Distinct (λ e. e.id)) claimed distinct,
              λ k avoids.
                  ap (lookup k) (sym written)
                  ∙ claim_event_list-keeps input k rows t
                      (subst (Every (λ e. e.id ≢ k)) (sym claimed) avoids),
            )
      ]

  module _ (publish : Event → Option Text) (clock : Reading → ℕ) where
    stats_keeps :
        (x : Option Error) (t : Dict Event)
        → (event_row_stats x (clock for_stats) (clock for_stats) t).1 ≡ t
    unfolding event_row_stats
    stats_keeps (some e) t = refl
    stats_keeps none t = refl

    -- A batch that ends without an error has claimed some events: it counts them, as many as it
    -- published and failed; each ends published or failed as the publisher answered for it, a failed
    -- one to be available a minute after; and no other event changes.
    pub process_batch_complete :
        (pool : Pool) (v : Worker) (w : Env (Dict Event)) {r : ProcessBatchResult}
        {w' : Env (Dict Event)}
        → w.in_tx ≡ false
        → IsOutbox w.stores
        → process_batch publish clock (postgres pool) v w ≡ ((r, none), w')
        → (es : List Event) × (r.claimed ≡ length es)
          × (r.published + r.failed ≡ length es)
          × Every (Ended publish clock w'.stores) es
          × ((k : Text) → Every (λ e. e.id ≢ k) es → lookup k w'.stores ≡ lookup k w.stores)
    unfolding process_batch claim_batch
    process_batch_complete pool v w {r} {w'} out o h =
        let counted_stats =
          λ (x : Option Error). event_row_stats x (clock for_stats) (clock for_stats) in
        let w1 = (on_rows counted_stats w).1 in
        let same = stats_keeps (next w.ctx).0 w.stores in
        let claim = claim_batch publish clock v in
        let w2 = (within_tx (postgres pool) claim w1).1 in
        elim (Result-cases (counted_stats (next w.ctx).0 w.stores).0) [
          | inr (x, e) ↦ absurd (ground arith)
          | inl (stats, e) ↦ elim (Result-cases (within_tx (postgres pool) claim w1).0) [
            | inr (x, f) ↦ absurd (ground arith)
            | inl (es, f) ↦
                let (z, ran, kept) =
                  within_tx-eq-ok pool claim w1 {a = es} {w' = w2} out (ground arith) in
                let input : ClaimPendingEventsInput = record {
                  worker_id = v.worker_id;
                  limit = v.batch_size;
                  now = clock for_claim;
                } in
                let claimed : claim_event_rows true (next w1.ctx).0 (listed (next w1.locked).0)
                      input w1.stores
                    ≡ (ok es, z.stores) =
                  ground arith in
                let (distinct, others) =
                  claim_event_rows-claims true (next w1.ctx).0 (listed (next w1.locked).0) input
                    w1.stores (subst IsOutbox (sym same) o) claimed in
                let run : publish_all publish clock es (counted (length es)) w2 ≡ ((r, none), w') =
                  ground arith in
                let (first, counts, ended, rest) =
                  publish_all_complete publish clock es (counted (length es)) w2 distinct run in
                (
                  es,
                  first,
                  omega (arith, counts),
                  ended,
                  λ k avoids.
                      rest k avoids ∙ ap (lookup k) kept ∙ others k avoids ∙ ap (lookup k) same,
                )
          ]
        ]
