-- ===== src/Http/Payments/Refused.antt =====
-- A request that is refused leaves the tables.
use paycore.Base.{
  ℕ, ◌≡◌, ◌≢◌, ◌⊎◌, sym, ap, ◌∙◌, false, inl, inr, none, arith, err, Bool-cases, Option-cases,
  Result-cases,
}
use paycore.Base.Int.{pos}
use paycore.Base.Text.{Text, codes, text_eq, is_empty}
use paycore.Database.{Columns}
use paycore.Currency.{Unicode}
use paycore.Http.{Request, Response, post, write}
use paycore.Http.Payments.{
  Clock, Handler, Api, Outcome, answers, handle_idempotency_start, handle_keyed, handle_authorize,
  handle_capture, authorize_call, capture_call, authorize_response, capture_response, serve_http,
}
use paycore.Http.Payments.Ends.{Started-cases}
use paycore.Idempotency.{Bytes}
use paycore.Errors.{Error}
use paycore.Payment.Service.{
  AuthorizePaymentInput, authorize_payment, authorize_tx, capture_payment, capture_tx,
}
use paycore.Payment.Service.Metrics.{Metered, authorize_observed, capture_observed}
use paycore.World.{Pool, postgres, unanswered, within_tx}
use paycore.World.Run.{within_tx-atomic}

module _ {C : Type 0} (h : Handler C) (clock : Clock) (q : Request) where
  -- The payments stay as they were, or become what the call makes of them and it gives the answer.
  handle_keyed-runs :
      (call : Bytes → Metered → Outcome × Metered) (api : Api C)
      → ((handle_keyed h clock q call api).1.payments ≡ api.payments)
        ⊎ ((body : Bytes) × ((handle_keyed h clock q call api).0 ≡ (call body api.payments).0)
            × ((handle_keyed h clock q call api).1.payments ≡ (call body api.payments).1))
  unfolding handle_keyed
  handle_keyed-runs call api = elim (Option-cases q.body) [
    | inl unread ↦ inl (ground arith)
    | inr (body, read) ↦ elim (Option-cases h.idempotency) [
      | inl without ↦ inr (body, ground arith, ground arith)
      | inr (v, given) ↦
          elim (Started-cases (handle_idempotency_start h v clock.at_start q body api.requests).0) [
            | inl (r, ended) ↦ inl (ground arith)
            | inr (x, on) ↦ inr (body, ground arith, ground arith)
          ]
    ]
  ]

  module _ ⦃u : Unicode⦄ ⦃c : Columns⦄ (pool : Pool) (database : h.transactor ≡ postgres pool)
      (answered : pool.commits ≢ unanswered) where
    authorize_observed-atomic :
        (now : ℕ) (input : AuthorizePaymentInput) (m : Metered) {e : Error}
        → m.world.in_tx ≡ false
        → (authorize_observed h.metrics h.transactor now input m).0 ≡ err e
        → (authorize_observed h.metrics h.transactor now input m).1.world.stores ≡ m.world.stores
    unfolding authorize_observed authorize_payment
    authorize_observed-atomic now input m out failed =
        elim (Result-cases (within_tx (postgres pool) (authorize_tx now input) m.world).0) [
          | inl (p, e) ↦ absurd (ground (arith, database))
          | inr (x, e) ↦
              let same =
                within_tx-atomic pool (authorize_tx now input) m.world {e = x}
                  {w' = (within_tx (postgres pool) (authorize_tx now input) m.world).1} answered out
                  (ground arith) in
              ground (arith, database, same)
        ]

    capture_observed-atomic :
        (now : ℕ) (id : Text) (m : Metered) {e : Error}
        → m.world.in_tx ≡ false
        → (capture_observed h.metrics h.transactor now id m).0 ≡ err e
        → (capture_observed h.metrics h.transactor now id m).1.world.stores ≡ m.world.stores
    unfolding capture_observed capture_payment
    capture_observed-atomic now id m out failed =
        elim (Result-cases (within_tx (postgres pool) (capture_tx now id) m.world).0) [
          | inl (p, e) ↦ absurd (ground (arith, database))
          | inr (x, e) ↦
              let same =
                within_tx-atomic pool (capture_tx now id) m.world {e = x}
                  {w' = (within_tx (postgres pool) (capture_tx now id) m.world).1} answered out
                  (ground arith) in
              ground (arith, database, same)
        ]

    -- An answer other than a success comes with the tables as they were.
    abbrev Refuses : Metered → Outcome × Metered → Type 0
    Refuses m (o, m') =
        (r : Response)
        → o ≡ answers r
        → r.status ≢ pos 200
        → r.status ≢ pos 201
        → m'.world.stores ≡ m.world.stores

    authorize_call-Refuses :
        (body : Bytes) (m : Metered)
        → m.world.in_tx ≡ false
        → Refuses m (authorize_call h clock none body m)
    unfolding authorize_call authorize_response write
    authorize_call-Refuses body m out r answer s200 s201 =
        elim (Option-cases (h.encoding.decode_authorize body)) [
          | inl malformed ↦ ground arith
          | inr (x, decoded) ↦
              let input : AuthorizePaymentInput = record {
                merchant_id = x.merchant_id;
                payer_id = x.payer_id;
                amount = x.amount;
                currency = x.currency;
              } in
              elim (Result-cases
                (authorize_observed h.metrics h.transactor clock.at_service input m).0) [
                  | inl (p, e) ↦ absurd (ground arith)
                  | inr (y, e) ↦
                      ground
                        (arith, authorize_observed-atomic clock.at_service input m {e = y} out e)
                ]
        ]

    capture_call-Refuses :
        (id : Text) (m : Metered)
        → m.world.in_tx ≡ false
        → Refuses m (capture_call h clock none id m)
    unfolding capture_call capture_response write
    capture_call-Refuses id m out r answer s200 s201 =
        elim (Result-cases (capture_observed h.metrics h.transactor clock.at_service id m).0) [
          | inl (p, e) ↦ absurd (ground arith)
          | inr (y, e) ↦ ground (arith, capture_observed-atomic clock.at_service id m {e = y} out e)
        ]

    handle_keyed-Refuses :
        (call : Bytes → Metered → Outcome × Metered) (api : Api C)
        → ((body : Bytes) → Refuses api.payments (call body api.payments))
        → let (o, api') = handle_keyed h clock q call api in Refuses api.payments (o, api'.payments)
    handle_keyed-Refuses call api refuses r answer s200 s201 = elim (handle_keyed-runs call api) [
      | inl kept ↦ ap (λ m. m.world.stores) kept
      | inr (body, same, moved) ↦
          ap (λ m. m.world.stores) moved ∙ refuses body r (sym same ∙ answer) s200 s201
    ]

    -- On the database, unless the reply to a COMMIT is lost, an answer of the payment handler that is
    -- neither 200 nor 201 comes with the merchants, payers, payments, holds and events as they were,
    -- whatever errors the statements, BEGIN, COMMIT and ROLLBACK gave.
    pub serve_http-refused :
        (api : Api C) (r : Response)
        → api.payments.world.in_tx ≡ false
        → (serve_http h clock none q api).0 ≡ answers r
        → r.status ≢ pos 200
        → r.status ≢ pos 201
        → (serve_http h clock none q api).1.payments.world.stores ≡ api.payments.world.stores
    unfolding serve_http handle_authorize handle_capture
    serve_http-refused api r out answer s200 s201 =
        let authorizes =
          handle_keyed-Refuses (authorize_call h clock none) api
            (λ body. authorize_call-Refuses body api.payments out) r in
        let captures =
          handle_keyed-Refuses (λ _. capture_call h clock none q.payment_id) api
            (λ body. capture_call-Refuses q.payment_id api.payments out) r in
        elim (Bool-cases (text_eq q.method post)) [
          | inr other ↦ ground arith
          | inl posted ↦ elim (Bool-cases (text_eq q.path (codes "/payments/authorize"))) [
            | inl here ↦ ground (arith, authorizes)
            | inr there ↦ elim (Bool-cases (is_empty q.payment_id)) [
              | inl blank ↦ ground arith
              | inr given ↦ ground (arith, captures)
            ]
          ]
        ]
