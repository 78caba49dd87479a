-- ===== src/Http/Payments/Ends.antt =====
-- What a request to the payment handler does to the payments and to the records of requests.
use mathlib.Core.Path.{subst}
use paycore.Base.{
  ℕ, ◌≡◌, sym, ◌⊎◌, refl, false, inl, inr, Option, some, Bool-cases, Option-cases, ok, arith,
}
use paycore.Base.Text.{Text, codes, text_eq, trim_space, is_empty}
use paycore.Database.{Columns}
use paycore.Currency.{Unicode}
use paycore.Http.{Request, Response, post}
use paycore.Http.Payments.{
  Clock, Handler, Api, Outcome, Started, handled, goes_on, start_input, handle_idempotency_start,
  complete_idempotency, handle_keyed, handle_authorize, handle_capture, authorize_call,
  capture_call, serve_http,
}
use paycore.Idempotency.{Bytes}
use paycore.Idempotency.Service.{State, Service, StartRequestResult, start_request}
use paycore.Idempotency.Service.Once.{
  Has, Step, Reach, Reach-Has, start_request-Has, start_request-known, here, after, start, finish,
}
use paycore.Payment.Service.Metrics.{Metered}
use paycore.World.{World}

pub Started-cases :
    (x : Started)
    → ((r : Response) × (x ≡ handled r)) ⊎ ((y : StartRequestResult) × (x ≡ goes_on y))
Started-cases (handled r) = inl (r, refl)
Started-cases (goes_on y) = inr (y, refl)

module _ {C : Type 0} (h : Handler C) (v : Service C) where
  -- A request that goes on has started its key.
  handle_idempotency_start-goes_on :
      (now : ℕ) (q : Request) (body : Bytes) (s : State C) {x : StartRequestResult}
      → (handle_idempotency_start h v now q body s).0 ≡ goes_on x
      → ((start_request v now (start_input h q body) s).0 ≡ ok x) × (x.replay ≡ false)
  unfolding handle_idempotency_start
  handle_idempotency_start-goes_on now q body s e = ground arith

  handle_idempotency_start-state :
      (now : ℕ) (q : Request) (body : Bytes) (s : State C)
      → ((handle_idempotency_start h v now q body s).1 ≡ s)
        ⊎ ((handle_idempotency_start h v now q body s).1
            ≡ (start_request v now (start_input h q body) s).1)
  unfolding handle_idempotency_start
  handle_idempotency_start-state now q body s = elim (Bool-cases (is_empty q.idempotency_key)) [
    | inl blank ↦ inl (ground arith)
    | inr given ↦ inr (ground arith)
  ]

  handle_idempotency_start-moved :
      (now : ℕ) (q : Request) (body : Bytes) (s : State C) {x : StartRequestResult}
      → (handle_idempotency_start h v now q body s).0 ≡ goes_on x
      → (handle_idempotency_start h v now q body s).1
        ≡ (start_request v now (start_input h q body) s).1
  unfolding handle_idempotency_start
  handle_idempotency_start-moved now q body s e = ground arith

  handle_idempotency_start-Reach :
      (now : ℕ) (q : Request) (body : Bytes) (s : State C)
      → Reach v s (handle_idempotency_start h v now q body s).1
  handle_idempotency_start-Reach now q body s = elim (handle_idempotency_start-state now q body s) [
    | inl same ↦ subst (Reach v s) (sym same) here
    | inr moved ↦ subst (Reach v s) (sym moved) (after here (start now (start_input h q body)))
  ]

  -- What a completion does is a step of the service.
  complete_idempotency-Step :
      (now : ℕ) (key : Text) (o : Outcome) (s : State C)
      → Step v s (complete_idempotency h v now key o s)
  unfolding complete_idempotency
  complete_idempotency-Step now key o s = finish now _

  module _ (idempotent : h.idempotency ≡ some v) (clock : Clock) (q : Request) where
    -- How a request ends for the payments and the records: it does not reach the payments, or its key
    -- was not there and is now. The records change by calls of the service.
    pub record Ends (api : Api C) (api' : Api C) : Type 0 where
      pub reaches :
          (api'.payments ≡ api.payments)
          ⊎ (¬ Has (trim_space q.idempotency_key) api.requests.records
              × Has (trim_space q.idempotency_key) api'.requests.records)
      pub reach : Reach v api.requests api'.requests

    stays-Ends : (api : Api C) → Ends api api
    stays-Ends api = record { reaches = inl refl; reach = here }

    -- The state after a request that goes on.
    abbrev went_on :
        (Bytes → Metered → Outcome × Metered) → Bytes → StartRequestResult → Api C → Api C
    went_on call body x api =
        let (o, m) = call body api.payments in
        record {
          payments = m;
          requests =
              complete_idempotency h v clock.at_end x.idempotency_record.key o
                (handle_idempotency_start h v clock.at_start q body api.requests).1;
        }

    went_on-Ends :
        (call : Bytes → Metered → Outcome × Metered) (body : Bytes) (x : StartRequestResult)
        (api : Api C)
        → (handle_idempotency_start h v clock.at_start q body api.requests).0 ≡ goes_on x
        → Ends api (went_on call body x api)
    unfolding start_input
    went_on-Ends call body x api e =
        let s = (handle_idempotency_start h v clock.at_start q body api.requests).1 in
        let o = (call body api.payments).0 in
        let key = x.idempotency_record.key in
        let (started, new) =
          handle_idempotency_start-goes_on clock.at_start q body api.requests e in
        let moved : s ≡ (start_request v clock.at_start (start_input h q body) api.requests).1 =
          handle_idempotency_start-moved clock.at_start q body api.requests e in
        let has =
          start_request-Has v clock.at_start (start_input h q body) api.requests started new in
        record {
          reaches = inr (
            λ had. absurd (
                ground (
                  arith,
                  start_request-known v clock.at_start (start_input h q body) api.requests had
                      started,
                )),
            Reach-Has v (trim_space q.idempotency_key)
                (after here (complete_idempotency-Step clock.at_end key o s))
                (subst (λ t. Has (trim_space q.idempotency_key) t.records) (sym moved) has),
          );
          reach =
              after (handle_idempotency_start-Reach clock.at_start q body api.requests)
                (complete_idempotency-Step clock.at_end key o s);
        }

    handle_keyed-Ends :
        (call : Bytes → Metered → Outcome × Metered) (api : Api C)
        → Ends api (handle_keyed h clock q call api).1
    unfolding handle_keyed
    handle_keyed-Ends call api = elim (Option-cases q.body) [
      | inl unread ↦ subst (Ends api) (ground arith) (stays-Ends api)
      | inr (body, read) ↦
          let start = handle_idempotency_start h v clock.at_start q body api.requests in
          elim (Started-cases start.0) [
            | inl (r, ended) ↦
                subst (Ends api) {x = record { payments = api.payments; requests = start.1 }}
                  (ground arith)
                  (record {
                    reaches = inl refl;
                    reach = handle_idempotency_start-Reach clock.at_start q body api.requests;
                  })
            | inr (x, on) ↦
                subst (Ends api) {x = went_on call body x api} (ground arith)
                  (went_on-Ends call body x api on)
          ]
    ]

    module _ ⦃u : Unicode⦄ ⦃c : Columns⦄ (fault : Option World) where
      handle_authorize-Ends : (api : Api C) → Ends api (handle_authorize h clock fault q api).1
      unfolding handle_authorize
      handle_authorize-Ends api = elim (Bool-cases (text_eq q.method post)) [
        | inl posted ↦
            subst (Ends api) {x = (handle_keyed h clock q (authorize_call h clock fault) api).1}
              (ground arith) (handle_keyed-Ends (authorize_call h clock fault) api)
        | inr other ↦ subst (Ends api) {x = api} (ground arith) (stays-Ends api)
      ]

      handle_capture-Ends : (api : Api C) → Ends api (handle_capture h clock fault q api).1
      unfolding handle_capture
      handle_capture-Ends api = elim (Bool-cases (text_eq q.method post)) [
        | inr other ↦ subst (Ends api) {x = api} (ground arith) (stays-Ends api)
        | inl posted ↦ elim (Bool-cases (is_empty q.payment_id)) [
          | inl blank ↦ subst (Ends api) {x = api} (ground arith) (stays-Ends api)
          | inr given ↦
              let call = λ (_ : Bytes). capture_call h clock fault q.payment_id in
              subst (Ends api) {x = (handle_keyed h clock q call api).1} (ground arith)
                (handle_keyed-Ends call api)
        ]
      ]

      pub serve_http-Ends : (api : Api C) → Ends api (serve_http h clock fault q api).1
      unfolding serve_http
      serve_http-Ends api = elim (Bool-cases (text_eq q.path (codes "/payments/authorize"))) [
        | inl authorizes ↦
            subst (Ends api) {x = (handle_authorize h clock fault q api).1} (ground arith)
              (handle_authorize-Ends api)
        | inr other ↦ elim (Bool-cases (is_empty q.payment_id)) [
          | inl blank ↦ subst (Ends api) {x = api} (ground arith) (stays-Ends api)
          | inr given ↦
              subst (Ends api) {x = (handle_capture h clock fault q api).1} (ground arith)
                (handle_capture-Ends api)
        ]
      ]
