-- ===== src/Ledger/Create.antt =====
-- Creating a payer or a merchant keeps the tables consistent.
use paycore.Base.{
  ℕ, ◌<◌, ◌^◌, ◌≡◌, ◌≢◌, refl, none, some, inl, inr, [], ◌∷◌, ok, err, Result-cases, arith,
}
use paycore.Base.Dict.{
  Dict, lookup, insert, insert-Entries, lookup-insert, All, All-map, IsMap-listed,
}
use paycore.Errors.{Error}
use paycore.Base.Int.{ℤ, pos, pos_part, ◌+ℤ◌}
use paycore.Base.Text.{Text, trim_space, trim_space_idem}
use paycore.Database.{Columns}
use paycore.Currency.{Unicode}
use paycore.Ledger.{PayerOk, HoldOk, IsConsistent, held_total}
use paycore.Merchant.Service.{CreateMerchantInput, serve_create_merchant}
use paycore.Payer.{Payer, new_payer}
use paycore.Payer.Balance.{IsSolvent, new_payer-IsSolvent}
use paycore.Payer.Service.{CreatePayerInput, serve_create_payer}
use paycore.Payer.Postgres.{kept_payer, create_payer_row}
use paycore.Payment.{Hold}
use paycore.World.{World, Stores}

-- A payer that no hold names has nothing held.
held_total-zero :
    (y : Text) (d : Dict Hold) → All (λ _ h. h.payer_id ≢ y) d → held_total y d ≡ pos 0
unfolding held_total ◌+ℤ◌
held_total-zero y [] a = refl
held_total-zero y (e ∷ d) a = ground (arith, held_total-zero y d a.1)

module _ {s : Stores} (c : IsConsistent s) (p : Payer) (fresh : lookup p.id s.payers ≡ none) where
  unheld : held_total p.id s.payments.holds ≡ pos 0
  unheld = held_total-zero p.id s.payments.holds (
      All-map s.payments.holds (λ k h e. λ same. ground (arith, c.holds k h e))
        (IsMap-listed s.payments.holds c.holds_map))

  module _ (s' : Stores) (payers : s'.payers ≡ insert p.id p s.payers)
      (payments : s'.payments ≡ s.payments) (solvent : IsSolvent p) (empty : p.held ≡ pos 0)
      (trimmed : trim_space p.id ≡ p.id) where
    hold_old : (k : Text) (h : Hold) → lookup k s'.payments.holds ≡ some h → HoldOk s' k h
    hold_old k h e =
        let old = c.holds k h (rw (← payments) e) in
        record {
          keyed = old.keyed;
          indexed = rw payments old.indexed;
          payer = old.payer;
          found_payer = grind (arith, lookup-insert h.payer_id p.id p s.payers, old);
          row = old.row;
          found_payment = rw payments old.found_payment;
          same_amount = old.same_amount;
          same_payer = old.same_payer;
          agreed = old.agreed;
        }

    pub new_payer-IsConsistent : IsConsistent s'
    new_payer-IsConsistent = record {
      payments_map = rw payments c.payments_map;
      holds_map = rw payments c.holds_map;
      payers =
          insert-Entries (PayerOk s') p.id p _ payers
            (record {
              keyed = refl;
              trimmed = trimmed;
              solvent = solvent;
              backed = ground (arith, unheld);
            })
            (λ k z ne e.
              let old = c.payers k z e in
              record {
                keyed = old.keyed;
                trimmed = old.trimmed;
                solvent = old.solvent;
                backed = ground (arith, old);
              });
      payments = λ k z e.
          let old = c.payments k z (rw (← payments) e) in
          record { keyed = old.keyed; hold_key = old.hold_key; indexed = rw payments old.indexed };
      holds = hold_old;
    }

-- A call that writes merchants only.
pub merchants-IsConsistent :
    (s s' : Stores)
    → IsConsistent s
    → s'.payers ≡ s.payers
    → s'.payments ≡ s.payments
    → IsConsistent s'
merchants-IsConsistent s s' c payers payments = record {
  payments_map = rw payments c.payments_map;
  holds_map = rw payments c.holds_map;
  payers = λ k z e.
      let old = c.payers k z (rw (← payers) e) in
      record {
        keyed = old.keyed;
        trimmed = old.trimmed;
        solvent = old.solvent;
        backed = rw payments old.backed;
      };
  payments = λ k z e.
      let old = c.payments k z (rw (← payments) e) in
      record { keyed = old.keyed; hold_key = old.hold_key; indexed = rw payments old.indexed };
  holds = λ k h e.
      let old = c.holds k h (rw (← payments) e) in
      record {
        keyed = old.keyed;
        indexed = rw payments old.indexed;
        payer = old.payer;
        found_payer = rw payers old.found_payer;
        row = old.row;
        found_payment = rw payments old.found_payment;
        same_amount = old.same_amount;
        same_payer = old.same_payer;
        agreed = old.agreed;
      };
}

module _ ⦃u : Unicode⦄ ⦃columns : Columns⦄ where
  pub serve_create_merchant-IsConsistent :
      (now : ℕ) (input : CreateMerchantInput) (w : World)
      → IsConsistent w.stores
      → IsConsistent (serve_create_merchant now input w).1.stores
  unfolding serve_create_merchant
  serve_create_merchant-IsConsistent now input w c =
      merchants-IsConsistent w.stores (serve_create_merchant now input w).1.stores c (ground arith)
        (ground arith)

  -- What a successful call adds.
  serve_create_payer-adds :
      (now : ℕ) (input : CreatePayerInput) (w : World) {p : Payer} {w' : World}
      → serve_create_payer now input w ≡ (ok p, w')
      → (q : Payer) × (new_payer input.id input.available input.currency now ≡ ok q)
        × (p ≡ kept_payer q)
        × (lookup p.id w.stores.payers ≡ none)
        × (w'.stores.payers ≡ insert p.id p w.stores.payers)
        × (w'.stores.payments ≡ w.stores.payments)
  unfolding serve_create_payer create_payer_row
  serve_create_payer-adds now input w e =
      elim (Result-cases (new_payer input.id input.available input.currency now)) [
        | inr (x, h) ↦ absurd (ground arith)
        | inl (q, h) ↦ (q, h, ground arith, ground arith, ground arith, ground arith)
      ]

  new_payer-trimmed :
      (id : Text) (x : ℤ) (c : Text) (now : ℕ) {p : Payer}
      → new_payer id x c now ≡ ok p
      → trim_space p.id ≡ p.id
  unfolding new_payer
  new_payer-trimmed id x c now e = ground (arith, trim_space_idem id)

  serve_create_payer-fails :
      (now : ℕ) (input : CreatePayerInput) (w : World) {e : Error} {w' : World}
      → serve_create_payer now input w ≡ (err e, w')
      → w'.stores ≡ w.stores
  unfolding serve_create_payer create_payer_row
  serve_create_payer-fails now input w h = ground arith

  pub serve_create_payer-IsConsistent :
      (now : ℕ) (input : CreatePayerInput) (w : World)
      → pos_part input.available < 2 ^ 63
      → IsConsistent w.stores
      → IsConsistent (serve_create_payer now input w).1.stores
  serve_create_payer-IsConsistent now input w small c =
      let w' = (serve_create_payer now input w).1 in
      elim (Result-cases (serve_create_payer now input w).0) [
        | inl (p, h) ↦
            let (q, built, kept, fresh, payers, payments) =
              serve_create_payer-adds now input w {p = p} {w' = w'} (ground arith) in
            let (solvent, _, empty) =
              new_payer-IsSolvent input.id input.available input.currency now {p = q} small built in
            let trimmed =
              new_payer-trimmed input.id input.available input.currency now {p = q} built in
            new_payer-IsConsistent c p fresh w'.stores payers payments
              (ground (arith, kept, solvent)) (ground (arith, kept, empty))
              (ground (arith, kept, trimmed))
        | inr (e, h) ↦ rw (serve_create_payer-fails now input w {e = e} {w' = w'} (ground arith)) c
      ]
