-- ===== src/Idempotency/Service/Replay.antt =====
-- A completed request is replayed: what a later start of its key answers.
use paycore.Base.{
  ℕ, ◌≡◌, sym, ap, ◌∙◌, true, false, not, inl, inr, some, [], ok, err, arith, if◌then◌else◌,
}
use paycore.Base.Dict.{lookup, insert, lookup-insert, lookup-insert_self}
use paycore.Base.Int.{ℤ}
use paycore.Base.Text.{Text, trim_space, is_empty, text_eq}
use paycore.Errors.{expired_idempotency_key, request_hash_mismatch}
use paycore.Idempotency.{Record, Bytes, new_record, complete, is_completed, is_expired}
use paycore.Idempotency.Service.{
  State, Service, StartRequestInput, StartRequestResult, CompleteRequestInput, start_request,
  complete_request, resume_request, replayed,
}
use paycore.Idempotency.Service.Cases.{
  asked, request, new_record-key, start_request-cases, complete_request-cases, resume_request-keeps,
  resume_request-cases,
}
use paycore.Idempotency.Service.Once.{Step, environment, start, finish, Reach, here, after}
use paycore.Idempotency.Service.Transparent.{
  IsFaithful, Reach-IsFaithful, asked-IsFaithful, finish-IsFaithful, replay_response-answer,
}
use paycore.Idempotency.Store.{create_record, get_record}

module _ {C : Type 0} (v : Service C) where
  module _ (k : Text) (r : Record) (done : is_completed r.status ≡ true) where
    -- A completion is of a record in progress, so it is of another key.
    completion-keeps :
        (now : ℕ) (input : CompleteRequestInput) (x x' : Record) (s : State C)
        → IsFaithful v s
        → lookup k s.records ≡ some r
        → lookup input.key s.records ≡ some x
        → complete x input.response_code input.response_body now ≡ ok x'
        → lookup k (insert x'.key x' s.records) ≡ some r
    unfolding complete
    completion-keeps now input x x' s f h g d =
        ground (arith, lookup-insert k x'.key x' s.records, f.keyed input.key x)

    Step-final :
        {s s' : State C}
        → Step v s s'
        → IsFaithful v s
        → lookup k s.records ≡ some r
        → lookup k s'.records ≡ some r
    Step-final {s} (environment ctx) f h = h
    Step-final {s} (start now input) f h = elim (start_request-cases v now input s) [
      | inl (e, a, b, c) ↦ ap (lookup k) b ∙ h
      | inr (x, n, inl (new, a)) ↦
          ap (λ w. lookup k w.1.records) a ∙ ground (arith, lookup-insert k x.key x s.records)
      | inr (x, n, inr a) ↦
          ap (λ w. lookup k w.1.records) a
          ∙ ap (lookup k) (resume_request-keeps v now x (asked s)).0
          ∙ h
    ]
    Step-final {s} (finish now input) f h = elim (complete_request-cases v now input s) [
      | inl (e, a, b, c) ↦ ap (lookup k) b ∙ h
      | inr (x, x', g, d, a) ↦
          ap (λ w. lookup k w.1.records) a ∙ completion-keeps now input x x' s f h g d
    ]

    pub Reach-final :
        {s s' : State C}
        → Reach v s s'
        → IsFaithful v s
        → lookup k s.records ≡ some r
        → lookup k s'.records ≡ some r
    Reach-final here f h = h
    Reach-final (after a b) f h = Step-final b (Reach-IsFaithful v a f) (Reach-final a f h)

  complete-fields :
      (r : Record) (code : ℤ) (body : Bytes) (now : ℕ) {r' : Record}
      → complete r code body now ≡ ok r'
      → (is_completed r'.status ≡ true)
        × (r'.key ≡ r.key)
        × (r'.response_code ≡ code)
        × (r'.response_body ≡ body)
  unfolding complete
  complete-fields r code body now h = ground arith

  -- Where a record is completed, a start that succeeds replays its response.
  start_request-replayed :
      (now : ℕ) (input : StartRequestInput) (s : State C) (r : Record) {x : StartRequestResult}
      → IsFaithful v s
      → lookup (trim_space input.key) s.records ≡ some r
      → (start_request v now input s).0 ≡ ok x
      → (r.request_hash ≡ trim_space input.request_hash)
        × (x ≡ replayed r r.response_code r.response_body)
  start_request-replayed now input s r {x} f h e = elim (start_request-cases v now input s) [
    | inl (y, a, b, c) ↦ ground arith
    | inr (q, n, inl (new, a)) ↦ ground (arith, new_record-key (request v now input) n)
    | inr (q, n, inr a) ↦ elim (resume_request-cases v now q (asked s)) [
      | inl (y, b) ↦ ground arith
      | inr (y, g, alive, hash, d, b) ↦
          let (key, hash') = new_record-key (request v now input) n in
          let answer =
            replay_response-answer v q.key y (asked (asked s))
              (asked-IsFaithful v _ (asked-IsFaithful v s f)) g in
          ground arith
    ]
  ]

  -- After a request is completed, whatever calls follow, a start under its key that succeeds is a
  -- replay with the completed response, and had the hash of the request.
  pub complete_request-replayed :
      (now later : ℕ) (input : CompleteRequestInput) (again : StartRequestInput) (s s' : State C)
      {r : Record} {x : StartRequestResult}
      → IsFaithful v s
      → (complete_request v now input s).0 ≡ ok r
      → Reach v (complete_request v now input s).1 s'
      → trim_space again.key ≡ input.key
      → (start_request v later again s').0 ≡ ok x
      → (x.replay ≡ true)
        × (x.response_code ≡ input.response_code)
        × (x.response_body ≡ input.response_body)
        × (r.request_hash ≡ trim_space again.request_hash)
  complete_request-replayed now later input again s s' f h reach same e =
      elim (complete_request-cases v now input s) [
        | inl (y, a, b, c) ↦ ground arith
        | inr (q, q', g, d, a) ↦
            let (done, key, code, body) =
              complete-fields q input.response_code input.response_body now d in
            let found =
              ap (λ w. lookup q'.key w.1.records) a ∙ lookup-insert_self q'.key q' s.records in
            let served = finish-IsFaithful v now input s f in
            let kept = Reach-final q'.key q' done reach served found in
            let asked_again = same ∙ sym (f.keyed input.key q g) ∙ sym key in
            let (hash, replay) =
              start_request-replayed later again s' q' (Reach-IsFaithful v reach served)
                (ap (λ k. lookup k s'.records) asked_again ∙ kept) e in
            ground arith
      ]

  -- With no error of the environment, a start under the key of a completed record answers by the
  -- record alone: its expiry, then the hash, then the replay.
  pub start_request-completed :
      (now : ℕ) (input : StartRequestInput) (s : State C) (r : Record)
      → IsFaithful v s
      → s.ctx ≡ []
      → is_empty (trim_space input.key) ≡ false
      → is_empty (trim_space input.request_hash) ≡ false
      → lookup (trim_space input.key) s.records ≡ some r
      → is_completed r.status ≡ true
      → (start_request v now input s).0 ≡ (
          if is_expired r now
          then err expired_idempotency_key
          else if not (text_eq r.request_hash (trim_space input.request_hash))
          then err request_hash_mismatch
          else ok (replayed r r.response_code r.response_body))
  unfolding start_request resume_request new_record create_record get_record
  start_request-completed now input s r f calm k h found done =
      let answer =
        replay_response-answer v (trim_space input.key) r (asked (asked s))
          (asked-IsFaithful v _ (asked-IsFaithful v s f)) found in
      ground arith
