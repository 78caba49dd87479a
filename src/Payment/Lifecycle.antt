-- ===== src/Payment/Lifecycle.antt =====
-- The states of a payment and of a hold.
use paycore.Base.{ℕ, ◌≤◌, ◌≡◌, ◌↔◌, true, some, ◌⊎◌, ok, err, arith}
use paycore.Errors.{payment_not_authorized, payment_not_expirable, payment_not_captured}
use paycore.Payment.{Payment, can_capture, capture, expire, settle}
use paycore.Payment as P

-- `CanCapture` is the guard of `Capture`.
pub can_capture-capture :
    (p : Payment) (now : ℕ) → (can_capture p now ≡ true) ↔ ((q : Payment) × (capture p now ≡ ok q))
unfolding can_capture capture
can_capture-capture p now = (
  λ e. (record p { status = P.captured; captured_at = some now; updated_at = now }, ground arith),
  λ (q, e). ground arith,
)

-- A captured payment can be settled, and neither captured nor expired.
pub capture-next :
    (p q : Payment) (now later : ℕ)
    → capture p now ≡ ok q
    → ((r : Payment) × (settle q later ≡ ok r))
      × (capture q later ≡ err payment_not_authorized)
      × (expire q later ≡ err payment_not_expirable)
unfolding capture expire settle
capture-next p q now later e = (
  (record q { status = P.settled; settled_at = some later; updated_at = later }, ground arith),
  ground arith,
  ground arith,
)

-- An expired or settled payment takes no further step.
pub expire-settle_final :
    (p q : Payment) (now later : ℕ)
    → (expire p now ≡ ok q) ⊎ (settle p now ≡ ok q)
    → (capture q later ≡ err payment_not_authorized)
      × (expire q later ≡ err payment_not_expirable)
      × (settle q later ≡ err payment_not_captured)
unfolding capture expire settle
expire-settle_final p q now later e = ground arith

-- At the instant of its expiry an authorized payment can be captured and expired alike; after it
-- only expired.
pub expiry_boundary :
    (p : Payment) (now : ℕ)
    → p.status ≡ P.authorized
    → p.expires_at ≤ now
    → ((q : Payment) × (expire p now ≡ ok q))
      × (((q : Payment) × (capture p now ≡ ok q)) ↔ (now ≡ p.expires_at))
unfolding capture expire
expiry_boundary p now a h = (
  (record p { status = P.expired; updated_at = now }, ground arith),
  (
    λ (q, e). ground arith,
    λ e. (record p { status = P.captured; captured_at = some now; updated_at = now }, ground arith),
  ),
)
