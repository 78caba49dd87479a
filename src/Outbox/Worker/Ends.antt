-- ===== src/Outbox/Worker/Ends.antt =====
-- How the events of a batch end, and the counts of a batch.
use paycore.Base.{
  ℕ, ◌+◌, ◌≡◌, ◌≢◌, ◌∙◌, sym, ap, refl, Option, none, some, List, [], ◌∷◌, length, ok, inl, inr,
  ◌⊎◌, arith, Option-cases, Result-cases,
}
use paycore.Base.Dict.{Dict, lookup, insert, lookup-insert_self, lookup-insert_ne}
use paycore.Base.Distinct.{Distinct}
use paycore.Base.Every.{Every}
use paycore.Base.Text.{Text}
use paycore.Database.{Columns}
use paycore.Errors.{Error}
use paycore.Outbox as O
use paycore.Outbox.{Event}
use paycore.Outbox.Postgres.{mark_event_row_published, mark_event_row_failed}
use paycore.Outbox.Worker.{
  ProcessBatchResult, Reading, for_published, for_next_available, publish_all, failure, minute,
  on_rows,
}
use paycore.World.{Env, next}

module _ ⦃c : Columns⦄ (publish : Event → Option Text) (clock : Reading → ℕ) where
  -- What the publisher's answer makes of an event.
  abbrev pub EndsAs : Event → Event → Option Text → Type 0
  EndsAs e row none =
      (row.status ≡ O.published)
      × (row.published_at ≡ some (c.timestamptz (clock (for_published e))))
  EndsAs e row (some message) =
      (row.status ≡ O.failed)
      × (row.last_error ≡ some message)
      × (row.available_at ≡ c.timestamptz (clock (for_next_available e) + minute))

  pub record Ended (t : Dict Event) (e : Event) : Type 0 where
    pub row : Event
    pub found : lookup e.id t ≡ some row
    pub answer : EndsAs e row (publish e)

  published-Ended :
      (x : Option Error) (e : Event) (t : Dict Event) {y : Event}
      → publish e ≡ none
      → (mark_event_row_published x e.id (clock (for_published e)) t).0 ≡ ok y
      → let t' = (mark_event_row_published x e.id (clock (for_published e)) t).1 in
        Ended t' e × ((k : Text) → k ≢ e.id → lookup k t' ≡ lookup k t)
  unfolding mark_event_row_published
  published-Ended x e t {y} answer h =
      let t' = (mark_event_row_published x e.id (clock (for_published e)) t).1 in
      elim (Option-cases x) [
        | inr (z, fault) ↦ absurd (ground arith)
        | inl calm ↦ elim (Option-cases (lookup e.id t)) [
          | inl missing ↦ absurd (ground arith)
          | inr (row, found) ↦
              let written : t' ≡ insert e.id y t = ground arith in
              (
                record {
                  row = y;
                  found = ap (lookup e.id) written ∙ lookup-insert_self e.id y t;
                  answer = rw answer (ground arith, ground arith);
                },
                λ k other. ap (lookup k) written ∙ lookup-insert_ne k e.id y t other,
              )
        ]
      ]

  failed-Ended :
      (x : Option Error) (e : Event) (message : Text) (t : Dict Event) {y : Event}
      → publish e ≡ some message
      → (mark_event_row_failed x (failure publish clock e message) t).0 ≡ ok y
      → let t' = (mark_event_row_failed x (failure publish clock e message) t).1 in
        Ended t' e × ((k : Text) → k ≢ e.id → lookup k t' ≡ lookup k t)
  unfolding mark_event_row_failed
  failed-Ended x e message t {y} answer h =
      let t' = (mark_event_row_failed x (failure publish clock e message) t).1 in
      elim (Option-cases x) [
        | inr (z, fault) ↦ absurd (ground arith)
        | inl calm ↦ elim (Option-cases (lookup e.id t)) [
          | inl missing ↦ absurd (ground arith)
          | inr (row, found) ↦
              let written : t' ≡ insert e.id y t = ground arith in
              (
                record {
                  row = y;
                  found = ap (lookup e.id) written ∙ lookup-insert_self e.id y t;
                  answer = rw answer (ground arith, ground arith, ground arith);
                },
                λ k other. ap (lookup k) written ∙ lookup-insert_ne k e.id y t other,
              )
        ]
      ]

  -- A round of the loop: it ends in an error, or counts its event, which ends, and goes on.
  record GoesOn (e : Event) (es : List Event) (r : ProcessBatchResult) (w : Env (Dict Event))
      : Type 0 where
    pub result : ProcessBatchResult
    pub world : Env (Dict Event)
    pub claimed : result.claimed ≡ r.claimed
    pub counts : result.published + result.failed ≡ r.published + r.failed + 1
    pub ended : Ended world.stores e
    pub others : (k : Text) → k ≢ e.id → lookup k world.stores ≡ lookup k w.stores
    pub goes_on : publish_all publish clock (e ∷ es) r w ≡ publish_all publish clock es result world

  round-cases :
      (e : Event) (es : List Event) (r : ProcessBatchResult) (w : Env (Dict Event))
      → ((x : Error) × (w' : Env (Dict Event)) × (publish_all publish clock (e ∷ es) r w
            ≡ ((r, some x), w')))
        ⊎ GoesOn e es r w
  unfolding publish_all
  round-cases e es r w = elim (Option-cases (publish e)) [
    | inl answer ↦
        let op = λ (x : Option Error). mark_event_row_published x e.id (clock (for_published e)) in
        elim (Result-cases (op (next w.ctx).0 w.stores).0) [
          | inr (x, h) ↦ inl (x, (on_rows op w).1, ground arith)
          | inl (y, h) ↦
              let (ended, others) = published-Ended (next w.ctx).0 e w.stores answer h in
              inr (record {
                result = record r { published = r.published + 1 };
                world = (on_rows op w).1;
                claimed = refl;
                counts = omega arith;
                ended = ended;
                others = others;
                goes_on = ground arith;
              })
        ]
    | inr (message, answer) ↦
        let op = λ (x : Option Error). mark_event_row_failed x (failure publish clock e message) in
        elim (Result-cases (op (next w.ctx).0 w.stores).0) [
          | inr (x, h) ↦ inl (x, (on_rows op w).1, ground arith)
          | inl (y, h) ↦
              let (ended, others) = failed-Ended (next w.ctx).0 e message w.stores answer h in
              inr (record {
                result = record r { failed = r.failed + 1 };
                world = (on_rows op w).1;
                claimed = refl;
                counts = omega arith;
                ended = ended;
                others = others;
                goes_on = ground arith;
              })
        ]
  ]

  -- A run of the loop without an error: it counts each event once, each ends as the publisher
  -- answered, and no other event changes.
  pub publish_all_complete :
      (es : List Event) (r : ProcessBatchResult) (w : Env (Dict Event)) {r' : ProcessBatchResult}
      {w' : Env (Dict Event)}
      → Distinct (λ e. e.id) es
      → publish_all publish clock es r w ≡ ((r', none), w')
      → (r'.claimed ≡ r.claimed)
        × (r'.published + r'.failed ≡ r.published + r.failed + length es)
        × Every (Ended w'.stores) es
        × ((k : Text) → Every (λ e. e.id ≢ k) es → lookup k w'.stores ≡ lookup k w.stores)
  unfolding publish_all
  publish_all_complete [] r w d h = (ground arith, ground arith, tt, λ k _. ground arith)
  publish_all_complete (e ∷ es) r w {r'} {w'} d h = elim (round-cases e es r w) [
    | inl (x, v, a) ↦ absurd (ground arith)
    | inr g ↦
        let (same, counts, ends, others) =
          publish_all_complete es g.result g.world d.1 (sym g.goes_on ∙ h) in
        (
          same ∙ g.claimed,
          omega (arith, counts, g.counts),
          (
            record {
              row = g.ended.row;
              found = others e.id d.0 ∙ g.ended.found;
              answer = g.ended.answer;
            },
            ends,
          ),
          λ k avoided. others k avoided.1 ∙ g.others k (λ at. avoided.0 (sym at)),
        )
  ]
