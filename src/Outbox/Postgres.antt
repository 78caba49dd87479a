-- ===== src/Outbox/Postgres.antt =====
-- The PostgreSQL outbox repository (internal/outbox/adapters/postgres/repository.go) on the table
-- outbox_events.
use paycore.Base.{
  ℕ, ◌+◌, Bool, not, ◌&&◌, Option, none, some, List, [], ◌∷◌, map, leb, ltb, ◌==◌, Result, ok, err,
  if◌then◌else◌,
}
use paycore.Base.Dict.{Dict, lookup, insert, filter_values}
use paycore.Base.Int.{pos, pos_part, leb_ℤ}
use paycore.Base.Sort.{sort, take}
use paycore.Base.Text.{Text}
use paycore.Database.{Columns, nullable, is_listed}
use paycore.Errors.{Error, event_not_found, duplicate_event, transaction_required}
use paycore.Outbox.{Event, is_open, is_in_progress, in_progress, published, failed}
use paycore.Outbox.Store.{ClaimPendingEventsInput, MarkEventFailedInput, Stats, older, lag}

module _ ⦃c : Columns⦄ where
  abbrev pub kept_event : Event → Event
  kept_event e = record e {
    available_at = c.timestamptz e.available_at;
    created_at = c.timestamptz e.created_at;
    updated_at = c.timestamptz e.updated_at;
    locked_at = nullable c.timestamptz e.locked_at;
    published_at = nullable c.timestamptz e.published_at;
  }

  unfoldable pub create_event_row : Option Error → Event → Dict Event → Result Event × Dict Event
  create_event_row (some x) e t = (err x, t)
  create_event_row none e t = elim (lookup e.id t) [
    | some _ ↦ (err duplicate_event, t)
    | none ↦ (ok (kept_event e), insert e.id (kept_event e) t)
  ]

  -- The WHERE clause of `claimable`, of the rows that are not locked.
  abbrev pub is_due_row : ℕ → List Text → Event → Bool
  is_due_row now locked e =
      is_open e.status && leb e.available_at (c.timestamptz now) && not (is_listed e.id locked)

  abbrev pub row_available_before : Event → Event → Bool
  row_available_before a b =
      if not (a.available_at == b.available_at)
      then ltb a.available_at b.available_at
      else if not (a.created_at == b.created_at)
      then ltb a.created_at b.created_at
      else c.collates a.id b.id

  -- The columns that the claim sets; the worker's id is not trimmed.
  abbrev pub claimed_event : ClaimPendingEventsInput → Event → Event
  claimed_event input e = record e {
    status = in_progress;
    attempts = e.attempts + 1;
    locked_at = some (c.timestamptz input.now);
    locked_by = some input.worker_id;
    last_error = none;
    updated_at = c.timestamptz input.now;
  }

  unfoldable pub claim_event_list : ClaimPendingEventsInput → List Event → Dict Event → Dict Event
  claim_event_list input [] t = t
  claim_event_list input (e ∷ es) t =
      claim_event_list input es (insert e.id (claimed_event input e) t)

  -- RETURNING gives the rows in the order of the claim here; PostgreSQL's is unspecified.
  unfoldable pub claim_event_rows :
      Bool
      → Option Error
      → List Text
      → ClaimPendingEventsInput
      → Dict Event
      → Result (List Event) × Dict Event
  claim_event_rows in_tx x locked input t =
      if leb_ℤ input.limit (pos 0)
      then (ok [], t)
      else if not in_tx
      then (err transaction_required, t)
      else elim x [
        | some e ↦ (err e, t)
        | none ↦
            let rows =
              take (pos_part input.limit)
                (sort row_available_before (filter_values (is_due_row input.now locked) t)) in
            (ok (map (claimed_event input) rows), claim_event_list input rows t)
      ]

  -- `WHERE id = $1 AND status = 'IN_PROGRESS'`
  unfoldable pub mark_event_row_published :
      Option Error → Text → ℕ → Dict Event → Result Event × Dict Event
  mark_event_row_published (some x) id now t = (err x, t)
  mark_event_row_published none id now t = elim (lookup id t) [
    | none ↦ (err event_not_found, t)
    | some e ↦
        let e' : Event = record e {
          status = published;
          published_at = some (c.timestamptz now);
          locked_at = none;
          locked_by = none;
          last_error = none;
          updated_at = c.timestamptz now;
        } in
        if is_in_progress e.status then (ok e', insert id e' t) else (err event_not_found, t)
  ]

  -- The message is not trimmed, and may be empty.
  unfoldable pub mark_event_row_failed :
      Option Error → MarkEventFailedInput → Dict Event → Result Event × Dict Event
  mark_event_row_failed (some x) input t = (err x, t)
  mark_event_row_failed none input t = elim (lookup input.event_id t) [
    | none ↦ (err event_not_found, t)
    | some e ↦
        let e' : Event = record e {
          status = failed;
          available_at = c.timestamptz input.next_available;
          locked_at = none;
          locked_by = none;
          published_at = none;
          last_error = some input.error_message;
          updated_at = c.timestamptz input.now;
        } in
        if is_in_progress e.status
        then (ok e', insert input.event_id e' t)
        else (err event_not_found, t)
  ]

  -- `COUNT(*), MIN(available_at)`
  unfoldable pub count_rows : List Event → ℕ × Option ℕ → ℕ × Option ℕ
  count_rows [] acc = acc
  count_rows (e ∷ es) (count, oldest) = count_rows es (count + 1, older e.available_at oldest)

  abbrev pub is_waiting_row : ℕ → Event → Bool
  is_waiting_row now e = is_open e.status && leb e.available_at (c.timestamptz now)

  -- The second argument is the clock that is read where the input's time is the zero time.
  unfoldable pub event_row_stats : Option Error → ℕ → ℕ → Dict Event → Result Stats × Dict Event
  unfolding count_rows
  event_row_stats (some x) clock now t = (err x, t)
  event_row_stats none clock now t =
      let now' = if now == 0 then clock else now in
      let (pending, oldest) = count_rows (filter_values (is_waiting_row now') t) (0, none) in
      (ok (record { pending_events = pending; publish_lag = lag now' oldest }), t)
