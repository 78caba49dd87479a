-- ===== src/Idempotency/Service/Cases.antt =====
-- How the calls of the idempotency service end, and what they do to the records and the cache.
use mathlib.Core.Path.{subst}
use paycore.Base.{
  ℕ, ◌≡◌, ap, ◌∙◌, ◌⊎◌, refl, true, false, inl, inr, none, some, Option-cases, Bool-cases, ok, err,
  arith, Result-cases,
}
use paycore.Base.Dict.{lookup, insert}
use paycore.Base.Stateful.{next}
use paycore.Base.Text.{trim_space, text_eq}
use paycore.Errors.{
  Error, record_not_found, expired_idempotency_key, request_hash_mismatch, request_in_progress,
  invalid_status,
}
use paycore.Idempotency.{
  CachedResponse, Record, NewRecordInput, new_record, complete, is_expired, is_in_progress,
  is_completed,
}
use paycore.Idempotency.Service.{
  State, Service, StartRequestInput, CompleteRequestInput, StartRequestResult, start_request,
  complete_request, resume_request, replay_response, started, is_duplicate_key, remember, replayed,
}
use paycore.Idempotency.Store.{create_record, get_record, update_record}

pub new_record-key :
    (input : NewRecordInput) {r : Record}
    → new_record input ≡ ok r
    → (r.key ≡ trim_space input.key) × (r.request_hash ≡ trim_space input.request_hash)
unfolding new_record
new_record-key input h = ground arith

-- The record that a start would create.
abbrev pub request : {C : Type 0} → Service C → ℕ → StartRequestInput → NewRecordInput
request v now input = record {
  key = input.key;
  request_hash = input.request_hash;
  now = now;
  ttl = v.ttl;
}

-- The state after a repository call that wrote nothing.
abbrev pub asked : {C : Type 0} → State C → State C
asked s = record s { ctx = (next s.ctx).1 }

module _ {C : Type 0} (v : Service C) where
  -- How a resumption ends: with an error and no change, or with the replay of a completed record.
  pub resume_request-cases :
      (now : ℕ) (r : Record) (s : State C)
      → ((e : Error) × (resume_request v now r s ≡ (err e, asked s)))
        ⊎ ((x : Record) × (lookup r.key s.records ≡ some x)
            × (is_expired x now ≡ false)
            × (text_eq x.request_hash r.request_hash ≡ true)
            × (is_completed x.status ≡ true)
            × (resume_request v now r s ≡ replay_response v x (asked s)))
  unfolding resume_request get_record
  resume_request-cases now r s = elim (Option-cases (next s.ctx).0) [
    | inr (e, c) ↦ inl (e, ground arith)
    | inl c ↦ elim (Option-cases (lookup r.key s.records)) [
      | inl n ↦ inl (record_not_found, ground arith)
      | inr (x, f) ↦ elim (Bool-cases (is_expired x now)) [
        | inl b ↦ inl (expired_idempotency_key, ground arith)
        | inr b ↦ elim (Bool-cases (text_eq x.request_hash r.request_hash)) [
          | inr h ↦ inl (request_hash_mismatch, ground arith)
          | inl h ↦ elim (Bool-cases (is_completed x.status)) [
            | inl d ↦ inr (x, f, b, h, d, ground arith)
            | inr d ↦ elim (Bool-cases (is_in_progress x.status)) [
              | inl p ↦ inl (request_in_progress, ground arith)
              | inr p ↦ inl (invalid_status, ground arith)
            ]
          ]
        ]
      ]
    ]
  ]

  replay_response-replay :
      (r : Record) (s : State C)
      → (x : StartRequestResult) × ((replay_response v r s).0 ≡ ok x)
        × (x.replay ≡ true)
        × ((replay_response v r s).1.records ≡ s.records)
  unfolding replay_response
  replay_response-replay r s =
      elim (Result-cases (v.cache.get_response (next s.ctx).0 r.key r.request_hash s.cache).0) [
        | inl (c, h) ↦
            (replayed r c.response_code c.response_body, ground arith, refl, ground arith)
        | inr (e, h) ↦
            (replayed r r.response_code r.response_body, ground arith, refl, ground arith)
      ]

  replay_response-cache :
      (r : Record) (s : State C)
      → (replay_response v r s).1.cache
        ≡ (v.cache.get_response (next s.ctx).0 r.key r.request_hash s.cache).1
  unfolding replay_response
  replay_response-cache r s = ground arith

  pub resume_request-replay :
      (now : ℕ) (r : Record) (s : State C) {x : StartRequestResult}
      → (resume_request v now r s).0 ≡ ok x
      → x.replay ≡ true
  resume_request-replay now r s h = elim (resume_request-cases now r s) [
    | inl (e, a) ↦ ground arith
    | inr (y, f, b, g, d, a) ↦ let (z, k, t, _) = replay_response-replay y (asked s) in ground arith
  ]

  -- A resumption leaves the records, and the cache holds nothing new.
  pub resume_request-keeps :
      (now : ℕ) (r : Record) (s : State C)
      → ((resume_request v now r s).1.records ≡ s.records)
        × ((c : CachedResponse)
            → v.cache.may_return (resume_request v now r s).1.cache c
            → v.cache.may_return s.cache c)
  resume_request-keeps now r s = elim (resume_request-cases now r s) [
    | inl (e, a) ↦ (ap (λ w. w.1.records) a, λ c. subst (λ w. v.cache.may_return w.1.cache c) a)
    | inr (y, f, b, g, d, a) ↦
        let (z, k, t, records) = replay_response-replay y (asked s) in
        (
          ap (λ w. w.1.records) a ∙ records,
          λ c m. v.cache.get_keeps _ _ _ _ c (
              subst (λ k. v.cache.may_return k c) (replay_response-cache y (asked s))
                (subst (λ w. v.cache.may_return w.1.cache c) a m)),
        )
  ]

  -- How a start ends: with an error that leaves records and cache, with a new record, or as the
  -- resumption of a key that is there.
  pub start_request-cases :
      (now : ℕ) (input : StartRequestInput) (s : State C)
      → ((e : Error) × ((start_request v now input s).0 ≡ err e)
          × ((start_request v now input s).1.records ≡ s.records)
          × ((start_request v now input s).1.cache ≡ s.cache))
        ⊎ ((r : Record) × (new_record (request v now input) ≡ ok r)
            × (((lookup r.key s.records ≡ none)
                  × (start_request v now input s
                      ≡ (ok (started r), record (asked s) { records = insert r.key r s.records })))
                ⊎ (start_request v now input s ≡ resume_request v now r (asked s))))
  unfolding start_request create_record
  start_request-cases now input s = elim (Result-cases (new_record (request v now input))) [
    | inr (e, h) ↦ inl (e, ground arith, ground arith, ground arith)
    | inl (r, h) ↦ elim (Option-cases (next s.ctx).0) [
      | inr (e, c) ↦ elim (Bool-cases (is_duplicate_key e)) [
        | inl b ↦ inr (r, h, inr (ground arith))
        | inr b ↦ inl (e, ground arith, ground arith, ground arith)
      ]
      | inl c ↦ elim (Option-cases (lookup r.key s.records)) [
        | inl n ↦ inr (r, h, inl (n, ground arith))
        | inr (x, f) ↦ inr (r, h, inr (ground arith))
      ]
    ]
  ]

  -- What `CompleteRequest` does: an error with the records and the cache as they were, or a record
  -- in progress is completed and put in the cache.
  pub complete_request-cases :
      (now : ℕ) (input : CompleteRequestInput) (s : State C)
      → ((e : Error) × ((complete_request v now input s).0 ≡ err e)
          × ((complete_request v now input s).1.records ≡ s.records)
          × ((complete_request v now input s).1.cache ≡ s.cache))
        ⊎ ((r : Record) × (r' : Record) × (lookup input.key s.records ≡ some r)
            × (complete r input.response_code input.response_body now ≡ ok r')
            × (complete_request v now input s ≡ (
              ok r',
              remember v r' now (record (asked (asked s)) { records = insert r'.key r' s.records }),
            )))
  unfolding complete_request get_record update_record
  complete_request-cases now input s = elim (Option-cases (next s.ctx).0) [
    | inr (e, c) ↦ inl (e, ground arith, ground arith, ground arith)
    | inl c ↦ elim (Option-cases (lookup input.key s.records)) [
      | inl n ↦ inl (record_not_found, ground arith, ground arith, ground arith)
      | inr (r, f) ↦ elim (Result-cases (complete r input.response_code input.response_body now)) [
        | inr (e, h) ↦ inl (e, ground arith, ground arith, ground arith)
        | inl (r', h) ↦ elim (Option-cases (next (next s.ctx).1).0) [
          | inr (e, c') ↦ inl (e, ground arith, ground arith, ground arith)
          | inl c' ↦ elim (Option-cases (lookup r'.key s.records)) [
            | inl n ↦ inl (record_not_found, ground arith, ground arith, ground arith)
            | inr (y, g) ↦ inr (r, r', f, h, ground arith)
          ]
        ]
      ]
    ]
  ]
