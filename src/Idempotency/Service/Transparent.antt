-- ===== src/Idempotency/Service/Transparent.antt =====
-- The cache never changes an answer: what it may return is what the record says.
use mathlib.Core.Path.{subst}
use paycore.Base.{
  ℕ, ◌≡◌, sym, ap, ◌∙◌, refl, true, inl, inr, some, Option-cases, ok, arith, Result-cases,
}
use paycore.Base.Dict.{lookup, lookup-insert, Entries}
use paycore.Base.Stateful.{next}
use paycore.Base.Text.{Text}
use paycore.Idempotency.{Record, new_record, CachedResponse, complete, is_completed}
use paycore.Idempotency.Cache.{noop_cache}
use paycore.Idempotency.Service.{
  State, Service, StartRequestInput, CompleteRequestInput, start_request, complete_request,
  resume_request, replay_response, replayed,
}
use paycore.Idempotency.Store.{create_record, get_record}
use paycore.Idempotency.Service.Cases.{
  asked, request, start_request-cases, complete_request-cases, resume_request-keeps,
}
use paycore.Idempotency.Service.Once.{environment, start, finish, Reach, here, after}

-- The service without its cache.
abbrev pub uncached : {C : Type 0} → Service C → Service (Unit {0})
uncached v = record { cache = noop_cache; metrics = v.metrics; ttl = v.ttl }

abbrev pub forget : {C : Type 0} → State C → State (Unit {0})
forget s = record { records = s.records; cache = tt; ctx = s.ctx; observed = s.observed }

module _ {C : Type 0} (v : Service C) where
  -- Each record stands under its key, and each cached response is that of a completed record.
  pub record IsFaithful (s : State C) : Type 0 where
    pub keyed : Entries (λ k r. r.key ≡ k) s.records
    pub cached :
        (c : CachedResponse)
        → v.cache.may_return s.cache c
        → (r : Record) × (lookup c.key s.records ≡ some r)
          × (is_completed r.status ≡ true)
          × (c.response_code ≡ r.response_code)
          × (c.response_body ≡ r.response_body)

  -- The records stay and the cache holds nothing new.
  kept-IsFaithful :
      (s s' : State C)
      → s'.records ≡ s.records
      → ((c : CachedResponse) → v.cache.may_return s'.cache c → v.cache.may_return s.cache c)
      → IsFaithful s
      → IsFaithful s'
  kept-IsFaithful s s' same less f = record {
    keyed = subst (Entries (λ k r. r.key ≡ k)) (sym same) f.keyed;
    cached = λ c m.
        let (r, a, b, d, e) = f.cached c (less c m) in (r, ap (lookup c.key) same ∙ a, b, d, e);
  }

  start-IsFaithful :
      (now : ℕ) (input : StartRequestInput) (s : State C)
      → IsFaithful s
      → IsFaithful (start_request v now input s).1
  start-IsFaithful now input s f = elim (start_request-cases v now input s) [
    | inl (e, a, b, c) ↦ kept-IsFaithful s _ b (λ x. subst (λ k. v.cache.may_return k x) c) f
    | inr (r, n, inr a) ↦
        subst (λ w. IsFaithful w.1) (sym a)
          (kept-IsFaithful s _ (resume_request-keeps v now r (asked s)).0
            (resume_request-keeps v now r (asked s)).1 f)
    | inr (r, n, inl (new, a)) ↦
        subst (λ w. IsFaithful w.1) (sym a)
          (record {
            keyed = λ k x h. ground (arith, lookup-insert k r.key r s.records, f.keyed k x);
            cached = λ c m.
                let (x, h, b, d, e) = f.cached c m in
                (x, ground (arith, lookup-insert c.key r.key r s.records), b, d, e);
          })
  ]

  pub finish-IsFaithful :
      (now : ℕ) (input : CompleteRequestInput) (s : State C)
      → IsFaithful s
      → IsFaithful (complete_request v now input s).1
  unfolding complete
  finish-IsFaithful now input s f = elim (complete_request-cases v now input s) [
    | inl (e, a, b, c) ↦ kept-IsFaithful s _ b (λ x. subst (λ k. v.cache.may_return k x) c) f
    | inr (r, r', h, d, a) ↦
        subst (λ w. IsFaithful w.1) (sym a)
          (record {
            keyed = λ k x g. ground (arith, lookup-insert k r'.key r' s.records, f.keyed k x);
            cached = λ c m. elim (v.cache.set_keeps _ _ _ _ c m) [
              | inl same ↦ (
                r',
                ground (arith, lookup-insert c.key r'.key r' s.records),
                ground arith,
                ground arith,
                ground arith,
              )
              | inr old ↦
                  let (x, g, b, d', e) = f.cached c old in
                  (
                    x,
                    ground (arith, lookup-insert c.key r'.key r' s.records, f.keyed input.key r),
                    b,
                    d',
                    e,
                  )
            ];
          })
  ]

  pub Reach-IsFaithful : {s s' : State C} → Reach v s s' → IsFaithful s → IsFaithful s'
  Reach-IsFaithful here f = f
  Reach-IsFaithful (after a (environment ctx)) f =
      kept-IsFaithful _ _ refl (λ c m. m) (Reach-IsFaithful a f)
  Reach-IsFaithful (after a (start now input)) f =
      start-IsFaithful now input _ (Reach-IsFaithful a f)
  Reach-IsFaithful (after a (finish now input)) f =
      finish-IsFaithful now input _ (Reach-IsFaithful a f)

  -- The replay of a completed record gives its response, from the cache or not.
  pub replay_response-answer :
      (k : Text) (r : Record) (s : State C)
      → IsFaithful s
      → lookup k s.records ≡ some r
      → (replay_response v r s).0 ≡ ok (replayed r r.response_code r.response_body)
  unfolding replay_response
  replay_response-answer k r s f h =
      elim (Result-cases (v.cache.get_response (next s.ctx).0 r.key r.request_hash s.cache).0) [
        | inr (e, g) ↦ ground arith
        | inl (c, g) ↦
            let (held, same, _) =
              v.cache.get_returns (next s.ctx).0 r.key r.request_hash s.cache c g in
            let (x, a, b, code, body) = f.cached c held in ground (arith, f.keyed k r)
      ]

  pub asked-IsFaithful : (s : State C) → IsFaithful s → IsFaithful (asked s)
  asked-IsFaithful s f = kept-IsFaithful s (asked s) refl (λ c m. m) f

  uncached-answer :
      (r : Record) (s : State (Unit {0}))
      → (replay_response (uncached v) r s).0 ≡ ok (replayed r r.response_code r.response_body)
  unfolding replay_response
  uncached-answer r s = ground arith

  resume_request-transparent :
      (now : ℕ) (r : Record) (s : State C)
      → IsFaithful s
      → (resume_request v now r s).0 ≡ (resume_request (uncached v) now r (forget s)).0
  unfolding resume_request get_record
  resume_request-transparent now r s f = elim (Option-cases (next s.ctx).0) [
    | inr (e, c) ↦ ground arith
    | inl c ↦ elim (Option-cases (lookup r.key s.records)) [
      | inl n ↦ ground arith
      | inr (x, h) ↦
          let here = replay_response-answer r.key x (asked s) (asked-IsFaithful s f) h in
          let there = uncached-answer x (asked (forget s)) in ground arith
    ]
  ]

  -- The answer of a start, value or error, is the one that the service gives without its cache.
  start_request-transparent :
      (now : ℕ) (input : StartRequestInput) (s : State C)
      → IsFaithful s
      → (start_request v now input s).0 ≡ (start_request (uncached v) now input (forget s)).0
  unfolding start_request create_record
  start_request-transparent now input s f = elim (Result-cases (new_record (request v now input))) [
    | inr (e, h) ↦ ground arith
    | inl (r, h) ↦
        let resumed = resume_request-transparent now r (asked s) (asked-IsFaithful s f) in
        ground arith
  ]
