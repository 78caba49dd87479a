-- ===== src/Payment/Service/Metrics.antt =====
-- What the payment service tells its metrics (internal/payment/service.go). Durations are left out.
use paycore.Base.{ℕ, Bool, List, ◌∷◌, Result, ok, err, if◌then◌else◌}
use paycore.Base.Int.{ℤ}
use paycore.Base.Text.{Text, codes}
use paycore.Database.{Columns}
use paycore.Currency.{Unicode}
use paycore.Errors.{
  Error, cause, merchant_not_found, merchant_cannot_create_payments, payer_not_found,
  payer_version_conflict, payer_currency_mismatch, insufficient_available_balance,
  payment_not_found, hold_not_found, payment_not_capturable, authorization_expired,
}
use paycore.Payment.Service.{
  AuthorizePaymentInput, PaymentResult, authorize_payment, capture_payment,
  expire_authorized_payments,
}
use paycore.World.{World, Transactor}

-- The calls of `MetricsRecorder`.
pub data Observation : Type 0 where
  authorization : Text → Observation
  capture : Text → Observation
  payer_version_conflicted : Observation

result_of_cause : Error → Text
result_of_cause merchant_not_found = codes "merchant_not_found"
result_of_cause merchant_cannot_create_payments = codes "merchant_cannot_create_payments"
result_of_cause payer_not_found = codes "payer_not_found"
result_of_cause payer_version_conflict = codes "payer_version_conflict"
result_of_cause payer_currency_mismatch = codes "currency_mismatch"
result_of_cause insufficient_available_balance = codes "insufficient_balance"
result_of_cause payment_not_found = codes "payment_not_found"
result_of_cause hold_not_found = codes "hold_not_found"
result_of_cause payment_not_capturable = codes "not_capturable"
result_of_cause authorization_expired = codes "authorization_expired"
result_of_cause _ = codes "error"

unfoldable pub payment_metric_result : Error → Text
unfolding result_of_cause
payment_metric_result e = result_of_cause (cause e)

-- The service with its metrics: `told` is what they were told, the last first.
pub record Metered : Type 0 where
  pub world : World
  pub told : List Observation

abbrev pub observe_metric : Bool → Observation → List Observation → List Observation
observe_metric metrics o told = if metrics then o ∷ told else told

conflict_of : Error → List Observation → List Observation
conflict_of payer_version_conflict told = payer_version_conflicted ∷ told
conflict_of _ told = told

unfoldable pub observe_payer_version_conflict : Bool → Error → List Observation → List Observation
unfolding conflict_of
observe_payer_version_conflict metrics e told = if metrics then conflict_of (cause e) told else told

module _ ⦃u : Unicode⦄ ⦃c : Columns⦄ where
  -- `AuthorizePayment` with its metrics; `metrics` says whether the recorder is not nil.
  unfoldable pub authorize_observed :
      Bool → Transactor → ℕ → AuthorizePaymentInput → Metered → Result PaymentResult × Metered
  authorize_observed metrics tx now input m =
      let (r, w) = authorize_payment tx now input m.world in
      elim r [
        | ok p ↦ (
          ok p,
          record {
            world = w;
            told = observe_metric metrics (authorization (codes "success")) m.told;
          },
        )
        | err e ↦ (
          err e,
          record {
            world = w;
            told =
                observe_metric metrics (authorization (payment_metric_result e))
                  (observe_payer_version_conflict metrics e m.told);
          },
        )
      ]

  unfoldable pub capture_observed :
      Bool → Transactor → ℕ → Text → Metered → Result PaymentResult × Metered
  capture_observed metrics tx now payment_id m =
      let (r, w) = capture_payment tx now payment_id m.world in
      elim r [
        | ok p ↦ (
          ok p,
          record { world = w; told = observe_metric metrics (capture (codes "success")) m.told },
        )
        | err e ↦ (
          err e,
          record {
            world = w;
            told =
                observe_metric metrics (capture (payment_metric_result e))
                  (observe_payer_version_conflict metrics e m.told);
          },
        )
      ]

  unfoldable pub expire_observed :
      Bool → Transactor → ℕ → ℤ → Metered → Result (List PaymentResult) × Metered
  expire_observed metrics tx now limit m =
      let (r, w) = expire_authorized_payments tx now limit m.world in
      elim r [
        | ok ps ↦ (ok ps, record { world = w; told = m.told })
        | err e ↦
            (err e, record { world = w; told = observe_payer_version_conflict metrics e m.told })
      ]
