-- ===== src/Ledger.antt =====
-- What the tables promise together, across the packages payer and payment: every held balance
-- is the sum of the open holds of its payer, and every payment and its hold agree.
pub mod Total
pub mod Close
pub mod Open
pub mod Services
pub mod Snapshots
pub mod Expiry
pub mod Create
pub mod Calls
pub mod History
pub mod Outcome
pub mod Capture
use paycore.Base.{Bool, true, false, ◌≡◌, ◌&&◌, some, if◌then◌else◌}
use paycore.Base.Int.{ℤ, pos, ◌+ℤ◌}
use paycore.Base.Text.{Text, text_eq, trim_space}
use paycore.Base.Dict.{Dict, lookup, Entries, IsMap}
use paycore.Payer.{Payer}
use paycore.Payer.Balance.{IsSolvent}
use paycore.Payment.{Payment, Hold, Status, HoldStatus, is_held}
use paycore.Payment as P
use paycore.Payment.Postgres.{PaymentRow}
use paycore.Payment.Postgres.Holds.{hold_id_of}
use paycore.Base.{List, [], ◌∷◌}
use paycore.World.{Stores}

-- What a hold counts for in the held balance of a payer.
abbrev pub weight : Text → Hold → ℤ
weight payer_id h = if is_held h.status && text_eq payer_id h.payer_id then h.amount else pos 0

unfoldable pub held_total : Text → Dict Hold → ℤ
held_total payer_id [] = pos 0
held_total payer_id ((_, h) ∷ d) = weight payer_id h +ℤ held_total payer_id d

-- The states that a payment and its hold can be in together.
abbrev pub agree : Status → HoldStatus → Bool
agree Status.authorized h = is_held h
agree Status.captured HoldStatus.captured = true
agree Status.settled HoldStatus.captured = true
agree Status.expired HoldStatus.released = true
agree _ _ = false

-- A payer: under its own trimmed id, in range, and holding what its open holds sum up to.
pub record PayerOk (s : Stores) (k : Text) (p : Payer) : Type 0 where
  pub keyed : p.id ≡ k
  pub trimmed : trim_space k ≡ k
  pub solvent : IsSolvent p
  pub backed : p.held ≡ held_total k s.payments.holds

-- A payment: under its own id, with a hold.
pub record PaymentOk (s : Stores) (k : Text) (row : PaymentRow) : Type 0 where
  pub keyed : row.payment.id ≡ k
  pub hold_key : Text
  pub indexed : hold_id_of k s.payments.holds ≡ some hold_key

-- A hold: under its own id, of a known payer, and the one hold of a payment that agrees with it.
pub record HoldOk (s : Stores) (k : Text) (h : Hold) : Type 0 where
  pub keyed : h.id ≡ k
  pub indexed : hold_id_of h.payment_id s.payments.holds ≡ some k
  pub payer : Payer
  pub found_payer : lookup h.payer_id s.payers ≡ some payer
  pub row : PaymentRow
  pub found_payment : lookup h.payment_id s.payments.payments ≡ some row
  pub same_amount : row.payment.amount ≡ h.amount
  pub same_payer : row.payment.payer_id ≡ h.payer_id
  pub agreed : agree row.payment.status h.status ≡ true

pub record IsConsistent (s : Stores) : Type 0 where
  pub payments_map : IsMap s.payments.payments
  pub holds_map : IsMap s.payments.holds
  pub payers : Entries (PayerOk s) s.payers
  pub payments : Entries (PaymentOk s) s.payments.payments
  pub holds : Entries (HoldOk s) s.payments.holds
