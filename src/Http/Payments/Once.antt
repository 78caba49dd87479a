-- ===== src/Http/Payments/Once.antt =====
-- Of the requests with one idempotency key, one at most touches the payments.
use mathlib.Core.Path.{subst}
use paycore.Base.{◌≡◌, ◌≢◌, sym, inl, inr, Option, some, List}
use paycore.Base.Text.{trim_space}
use paycore.Database.{Columns}
use paycore.Currency.{Unicode}
use paycore.Errors.{Error}
use paycore.Http.{Request}
use paycore.Http.Payments.{Clock, Handler, Api, serve_http}
use paycore.Http.Payments.Ends.{serve_http-Ends}
use paycore.Idempotency.Service.{Service}
use paycore.Idempotency.Service.Once.{Has, Reach, here, after, environment, Reach-Has, Reach-trans}
use paycore.Payment.Service.Metrics.{Metered}
use paycore.World.{World}

-- A request, a change of the payments by another part of the program, or a change of what the
-- environment will answer.
pub data ApiStep ⦃u : Unicode⦄ ⦃c : Columns⦄ {C : Type 0} (h : Handler C) (api : Api C)
    : Api C → Type 0 where
  request :
      (clock : Clock) (fault : Option World) (q : Request)
      → ApiStep h api (serve_http h clock fault q api).1
  elsewhere :
      (payments : Metered) (ctx : List (Option Error))
      → ApiStep h api
          (record { payments = payments; requests = record (api.requests) { ctx = ctx } })

pub data ApiReach ⦃u : Unicode⦄ ⦃c : Columns⦄ {C : Type 0} (h : Handler C) (api : Api C)
    : Api C → Type 0 where
  nothing : ApiReach h api api
  also : {api' api'' : Api C} → ApiReach h api api' → ApiStep h api' api'' → ApiReach h api api''

module _ ⦃u : Unicode⦄ ⦃c : Columns⦄ {C : Type 0} (h : Handler C) (v : Service C)
    (idempotent : h.idempotency ≡ some v) where
  -- Meanwhile the records change by calls of the service.
  pub ApiReach-Reach : {api api' : Api C} → ApiReach h api api' → Reach v api.requests api'.requests
  ApiReach-Reach nothing = here
  ApiReach-Reach (also reach (request clock fault q)) =
      Reach-trans v (ApiReach-Reach reach) (serve_http-Ends h v idempotent clock q fault _).reach
  ApiReach-Reach (also reach (elsewhere payments ctx)) =
      after (ApiReach-Reach reach) (environment ctx)

  -- Of the requests with one idempotency key, one at most changes the payments: after a request that
  -- changed them, whatever requests and other changes follow, with any errors and panics, no request
  -- with that key changes them, on any route and with any body.
  pub serve_http-once :
      (clock clock' : Clock) (fault fault' : Option World) (q q' : Request) (api api' : Api C)
      → trim_space q'.idempotency_key ≡ trim_space q.idempotency_key
      → (serve_http h clock fault q api).1.payments ≢ api.payments
      → ApiReach h (serve_http h clock fault q api).1 api'
      → (serve_http h clock' fault' q' api').1.payments ≡ api'.payments
  serve_http-once clock clock' fault fault' q q' api api' same changed reach =
      elim (serve_http-Ends h v idempotent clock q fault api).reaches [
        | inl kept ↦ absurd (changed kept)
        | inr (new, has) ↦ elim (serve_http-Ends h v idempotent clock' q' fault' api').reaches [
          | inl kept ↦ kept
          | inr (new', has') ↦ absurd (
              new' (
                subst (λ k. Has k api'.requests.records) (sym same)
                  (Reach-Has v (trim_space q.idempotency_key) (ApiReach-Reach reach) has)))
        ]
      ]
