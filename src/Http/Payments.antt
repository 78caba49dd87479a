-- ===== src/Http/Payments.antt =====
-- The payment handler (internal/payment/handler.go and response_recorder.go).
pub mod Ends
pub mod Once
pub mod Replay
pub mod Refused
use paycore.Base.{ℕ, Bool, not, Option, none, some, [], Result, ok, err, if◌then◌else◌}
use paycore.Base.Int.{pos}
use paycore.Base.Text.{Text, codes, text_eq, is_empty}
use paycore.Database.{Columns}
use paycore.Currency.{Unicode}
use paycore.Http.{Request, Response, Encoding, write, method_not_allowed, post}
use paycore.Http.Responses.{
  authorization_error_response, capture_error_response, idempotency_error_response,
  authorize_payment_response, capture_payment_response, route_not_found, invalid_request_body,
  invalid_json, key_required,
}
use paycore.Idempotency.{Bytes}
use paycore.Idempotency.Hash.{hash_request}
use paycore.Idempotency.Service.{
  State, Service, StartRequestInput, StartRequestResult, start_request, complete_request,
}
use paycore.Payment.Service.{PaymentResult}
use paycore.Payment.Service.Metrics.{Metered, authorize_observed, capture_observed}
use paycore.World.{World, Transactor}

-- What a handler does: it answers, or a panic leaves it.
pub data Outcome : Type 0 where
  answers : Response → Outcome
  panics : Outcome

-- What the clock gives in the calls of one request.
pub record Clock : Type 0 where
  pub at_start : ℕ
  pub at_service : ℕ
  pub at_end : ℕ

-- The handler: its service of payments by the transactor and whether it has metrics, and its service
-- of idempotency, if it has one.
pub record Handler (C : Type 0) : Type 1 where
  pub encoding : Encoding
  pub sha256 : Bytes → Bytes
  pub transactor : Transactor
  pub metrics : Bool
  pub idempotency : Option (Service C)

-- What the handler works on: the payments, and the records of requests.
pub record Api (C : Type 0) : Type 0 where
  pub payments : Metered
  pub requests : State C

-- A call of the service that panics leaves the world as `fault` says.
abbrev pub serve :
    {A : Type 0}
    → Option World
    → (Metered → Result A × Metered)
    → (Result A → Response)
    → Metered
    → Outcome × Metered
serve none call respond m = let (r, m') = call m in (answers (respond r), m')
serve (some w) call respond m = (panics, record m { world = w })

-- `responseRecorder`: the status is 200 and the body empty until they are written.
abbrev pub recorded : Outcome → Response
recorded (answers r) = r
recorded panics = record { status = pos 200; body = [] }

-- What `handleIdempotencyStart` returns: the request is handled, or goes on with a new record.
pub data Started : Type 0 where
  handled : Response → Started
  goes_on : StartRequestResult → Started

module _ {C : Type 0} (h : Handler C) where
  unfoldable pub start_input : Request → Bytes → StartRequestInput
  start_input q body = record {
    key = q.idempotency_key;
    request_hash = hash_request h.sha256 q.method q.path body;
  }

  unfoldable pub handle_idempotency_start :
      Service C → ℕ → Request → Bytes → State C → Started × State C
  handle_idempotency_start v now q body s =
      if is_empty q.idempotency_key
      then (handled (key_required h.encoding), s)
      else let (r, s') = start_request v now (start_input q body) s in
        elim r [
          | err e ↦ (handled (idempotency_error_response h.encoding e), s')
          | ok x ↦
              if x.replay
              then (handled (record { status = x.response_code; body = x.response_body }), s')
              else (goes_on x, s')
        ]

  -- The error of the completion is dropped.
  unfoldable pub complete_idempotency : Service C → ℕ → Text → Outcome → State C → State C
  complete_idempotency v now key o s =
      (complete_request v now
        (record {
          key = key;
          response_code = (recorded o).status;
          response_body = (recorded o).body;
        })
        s).1

  -- What the two handlers have in common: reading the body, and the key around the call. The
  -- completion is deferred, so it runs after a panic too.
  unfoldable pub handle_keyed :
      Clock → Request → (Bytes → Metered → Outcome × Metered) → Api C → Outcome × Api C
  handle_keyed clock q call api = elim q.body [
    | none ↦ (answers (invalid_request_body h.encoding), api)
    | some body ↦ elim h.idempotency [
      | none ↦
          let (o, m) = call body api.payments in
          (o, record { payments = m; requests = api.requests })
      | some v ↦
          let (started, s) = handle_idempotency_start v clock.at_start q body api.requests in
          elim started [
            | handled r ↦ (answers r, record { payments = api.payments; requests = s })
            | goes_on x ↦
                let (o, m) = call body api.payments in
                (
                  o,
                  record {
                    payments = m;
                    requests = complete_idempotency v clock.at_end x.idempotency_record.key o s;
                  },
                )
          ]
    ]
  ]

  module _ ⦃u : Unicode⦄ ⦃c : Columns⦄ where
    unfoldable pub authorize_response : Result PaymentResult → Response
    authorize_response (ok p) = write h.encoding (pos 201) (authorize_payment_response h.encoding p)
    authorize_response (err e) = authorization_error_response h.encoding e

    unfoldable pub capture_response : Result PaymentResult → Response
    capture_response (ok p) = write h.encoding (pos 200) (capture_payment_response h.encoding p)
    capture_response (err e) = capture_error_response h.encoding e

    -- The part of `HandleAuthorize` after the key is started.
    unfoldable pub authorize_call : Clock → Option World → Bytes → Metered → Outcome × Metered
    authorize_call clock fault body m = elim (h.encoding.decode_authorize body) [
      | none ↦ (answers (invalid_json h.encoding), m)
      | some r ↦
          serve fault
            (authorize_observed h.metrics h.transactor clock.at_service (record {
              merchant_id = r.merchant_id;
              payer_id = r.payer_id;
              amount = r.amount;
              currency = r.currency;
            }))
            authorize_response m
    ]

    unfoldable pub capture_call : Clock → Option World → Text → Metered → Outcome × Metered
    capture_call clock fault id m =
        serve fault (capture_observed h.metrics h.transactor clock.at_service id) capture_response m

    unfoldable pub handle_authorize : Clock → Option World → Request → Api C → Outcome × Api C
    handle_authorize clock fault q api =
        if not (text_eq q.method post)
        then (answers (method_not_allowed h.encoding), api)
        else handle_keyed clock q (authorize_call clock fault) api

    unfoldable pub handle_capture : Clock → Option World → Request → Api C → Outcome × Api C
    handle_capture clock fault q api =
        if not (text_eq q.method post)
        then (answers (method_not_allowed h.encoding), api)
        else if is_empty q.payment_id
        then (answers (route_not_found h.encoding), api)
        else handle_keyed clock q (λ body. capture_call clock fault q.payment_id) api

    unfoldable pub serve_http : Clock → Option World → Request → Api C → Outcome × Api C
    serve_http clock fault q api =
        if text_eq q.path (codes "/payments/authorize")
        then handle_authorize clock fault q api
        else if not (is_empty q.payment_id)
        then handle_capture clock fault q api
        else (answers (route_not_found h.encoding), api)
