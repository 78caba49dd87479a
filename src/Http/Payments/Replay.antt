-- ===== src/Http/Payments/Replay.antt =====
-- A request that is sent again is answered as the first time.
use paycore.Base.{
  ℕ, ◌+◌, ◌≤◌, ◌≡◌, ◌⊎◌, sym, ap, ◌∙◌, refl, true, false, inl, inr, Option, none, some, [], ◌∷◌,
  arith, ok, Bool-cases, if◌then◌else◌,
}
use paycore.Base.Dict.{lookup, insert, lookup-insert_self}
use paycore.Base.Int.{ℤ, pos, pos_part}
use paycore.Base.Text.{Text, codes, text_eq, trim_space, is_empty}
use paycore.Database.{Columns}
use paycore.Currency.{Unicode}
use paycore.Http.{Request, post}
use paycore.Http.Payments.{
  Clock, Handler, Api, Outcome, answers, start_input, recorded, handle_idempotency_start,
  complete_idempotency, handle_keyed, handle_authorize, handle_capture, authorize_call,
  capture_call, serve_http,
}
use paycore.Http.Payments.Ends.{serve_http-Ends}
use paycore.Http.Payments.Once.{ApiReach, ApiReach-Reach}
use paycore.Idempotency.{
  Bytes, Record, in_progress, completed, new_record, complete, ttl_or_day, is_in_progress,
}
use paycore.Idempotency.Service.{
  State, Service, StartRequestInput, CompleteRequestInput, start_request, complete_request, started,
}
use paycore.Idempotency.Service.Replay.{Reach-final, start_request-completed}
use paycore.Idempotency.Service.Transparent.{IsFaithful, Reach-IsFaithful}
use paycore.Idempotency.Store.{create_record, get_record, update_record}
use paycore.Payment.Service.Metrics.{Metered}
use paycore.World.{World}

-- The record that a start creates.
abbrev fresh : {C : Type 0} → Service C → ℕ → StartRequestInput → Record
fresh v now input = record {
  key = trim_space input.key;
  request_hash = trim_space input.request_hash;
  status = in_progress;
  response_code = pos 0;
  response_body = [];
  created_at = now;
  updated_at = now;
  expires_at = now + pos_part (ttl_or_day v.ttl);
}

abbrev finished : Record → ℤ → Bytes → ℕ → Record
finished r code body now = record r {
  status = completed;
  response_code = code;
  response_body = body;
  updated_at = now;
}

module _ {C : Type 0} (v : Service C) where
  start_request-fresh :
      (now : ℕ) (input : StartRequestInput) (s : State C)
      → s.ctx ≡ []
      → is_empty (trim_space input.key) ≡ false
      → is_empty (trim_space input.request_hash) ≡ false
      → lookup (trim_space input.key) s.records ≡ none
      → start_request v now input s ≡ (
        ok (started (fresh v now input)),
        record s {
          records = insert (trim_space input.key) (fresh v now input) s.records;
          ctx = [];
        },
      )
  unfolding start_request new_record create_record
  start_request-fresh now input s calm k h new = ground arith

  complete_request-fresh :
      (now : ℕ) (input : CompleteRequestInput) (r : Record) (s : State C)
      → s.ctx ≡ []
      → r.key ≡ input.key
      → is_in_progress r.status ≡ true
      → lookup input.key s.records ≡ some r
      → lookup input.key (complete_request v now input s).1.records
        ≡ some (finished r input.response_code input.response_body now)
  unfolding complete_request get_record complete update_record
  complete_request-fresh now input r s calm key fresh found =
      let done = finished r input.response_code input.response_body now in
      ground (arith, lookup-insert_self input.key done s.records)

blank_key : (s : Text) → is_empty (trim_space s) ≡ false → is_empty s ≡ false
unfolding trim_space
blank_key [] h = ground arith
blank_key (c ∷ s) h = refl

-- A request that a route leads to the idempotent part of its handler.
pub record IsRouted (q : Request) (body : Bytes) : Type 0 where
  pub posted : text_eq q.method post ≡ true
  pub routed :
      (text_eq q.path (codes "/payments/authorize") ≡ true) ⊎ (is_empty q.payment_id ≡ false)
  pub read : q.body ≡ some body
  pub key : is_empty (trim_space q.idempotency_key) ≡ false

module _ {C : Type 0} (h : Handler C) (v : Service C) (idempotent : h.idempotency ≡ some v)
    (q : Request) (body : Bytes) (route : IsRouted q body)
    (hashed : is_empty (trim_space (start_input h q body).request_hash) ≡ false) where
  -- The record of the request, once it has ended with `o`.
  abbrev record_of : Clock → Outcome → Record
  record_of clock o =
      finished (fresh v clock.at_start (start_input h q body)) (recorded o).status (recorded o).body
        clock.at_end

  module _ (clock : Clock) (call : Bytes → Metered → Outcome × Metered) (api : Api C)
      (calm : api.requests.ctx ≡ []) where
    handle_keyed-fresh :
        lookup (trim_space q.idempotency_key) api.requests.records ≡ none
        → ((handle_keyed h clock q call api).0 ≡ (call body api.payments).0)
          × (lookup
                (trim_space q.idempotency_key)
                (handle_keyed h clock q call api).1.requests.records
              ≡ some (record_of clock (call body api.payments).0))
    unfolding handle_keyed handle_idempotency_start complete_idempotency start_input
    handle_keyed-fresh new =
        let input = start_input h q body in
        let key = trim_space q.idempotency_key in
        let o = (call body api.payments).0 in
        let s = record (api.requests) {
          records = insert key (fresh v clock.at_start input) api.requests.records;
          ctx = [];
        } in
        let begun =
          start_request-fresh v clock.at_start input api.requests calm route.key hashed new in
        let ended =
          complete_request-fresh v clock.at_end
            (record {
              key = key;
              response_code = (recorded o).status;
              response_body = (recorded o).body;
            })
            (fresh v clock.at_start input) s refl refl refl
            (lookup-insert_self key (fresh v clock.at_start input) api.requests.records) in
        ground (arith, blank_key q.idempotency_key route.key, route.read, begun, ended, idempotent)

    handle_keyed-again :
        (first : Clock) (o : Outcome)
        → IsFaithful v api.requests
        → lookup (trim_space q.idempotency_key) api.requests.records ≡ some (record_of first o)
        → clock.at_start ≤ first.at_start + pos_part (ttl_or_day v.ttl)
        → ((handle_keyed h clock q call api).0 ≡ answers (recorded o))
          × ((handle_keyed h clock q call api).1.payments ≡ api.payments)
    unfolding handle_keyed handle_idempotency_start start_input
    handle_keyed-again first o faithful found alive =
        let answer =
          start_request-completed v clock.at_start (start_input h q body) api.requests
            (record_of first o) faithful calm route.key hashed found refl in
        ground (arith, blank_key q.idempotency_key route.key, route.read, answer, idempotent)

  module _ ⦃u : Unicode⦄ ⦃c : Columns⦄ where
    abbrev routed_call : Clock → Option World → Bytes → Metered → Outcome × Metered
    routed_call clock fault body =
        if text_eq q.path (codes "/payments/authorize")
        then authorize_call h clock fault body
        else capture_call h clock fault q.payment_id

    serve_http-handle_keyed :
        (clock : Clock) (fault : Option World) (api : Api C)
        → serve_http h clock fault q api ≡ handle_keyed h clock q (routed_call clock fault) api
    unfolding serve_http handle_authorize handle_capture
    serve_http-handle_keyed clock fault api =
        elim (Bool-cases (text_eq q.path (codes "/payments/authorize"))) [
          | inl authorizes ↦ ground (arith, route.posted)
          | inr other ↦ elim route.routed [
            | inl same ↦ absurd (ground arith)
            | inr given ↦ ground (arith, route.posted, given)
          ]
        ]

    -- A request with a new key, sent again within the time to live of its record, is answered as the
    -- first time and leaves the payments, whatever other requests and changes came between, where no
    -- statement on the records and no call of the cache fails in the two. After a panic the second
    -- answer is 200 with an empty body.
    pub serve_http-replayed :
        (clock clock' : Clock) (fault fault' : Option World) (api api' : Api C)
        → IsFaithful v api.requests
        → api.requests.ctx ≡ []
        → lookup (trim_space q.idempotency_key) api.requests.records ≡ none
        → ApiReach h (serve_http h clock fault q api).1 api'
        → api'.requests.ctx ≡ []
        → clock'.at_start ≤ clock.at_start + pos_part (ttl_or_day v.ttl)
        → ((serve_http h clock' fault' q api').0
            ≡ answers (recorded (serve_http h clock fault q api).0))
          × ((serve_http h clock' fault' q api').1.payments ≡ api'.payments)
    serve_http-replayed clock clock' fault fault' api api' faithful calm new reach calm' alive =
        let first = serve_http h clock fault q api in
        let key = trim_space q.idempotency_key in
        let (ended, kept) = handle_keyed-fresh clock (routed_call clock fault) api calm new in
        let o = (routed_call clock fault body api.payments).0 in
        let answered : first.0 ≡ o =
          ap (λ w. w.0) (serve_http-handle_keyed clock fault api) ∙ ended in
        let found : lookup key first.1.requests.records ≡ some (record_of clock o) =
          ap (λ w. lookup key w.1.requests.records) (serve_http-handle_keyed clock fault api)
          ∙ kept in
        let served =
          Reach-IsFaithful v (serve_http-Ends h v idempotent clock q fault api).reach faithful in
        let later = ApiReach-Reach h v idempotent reach in
        let still = Reach-final v key (record_of clock o) refl later served found in
        let (again, same) =
          handle_keyed-again clock' (routed_call clock' fault') api' calm' clock o
            (Reach-IsFaithful v later served) still alive in
        (
          ap (λ w. w.0) (serve_http-handle_keyed clock' fault' api')
              ∙ again
              ∙ ap (λ x. answers (recorded x)) (sym answered),
          ap (λ w. w.1.payments) (serve_http-handle_keyed clock' fault' api') ∙ same,
        )
