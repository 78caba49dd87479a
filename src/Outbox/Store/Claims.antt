-- ===== src/Outbox/Store/Claims.antt =====
-- Which events a claim takes, and what it leaves alone.
use paycore.Base.{
  ℕ, ◌∙◌, ◌≡◌, ◌≢◌, refl, false, inl, inr, Option, none, some, List, [], ◌∷◌, Bool-cases, ok, arith,
  Result-cases,
}
use paycore.Base.Dict.{
  lookup, insert, lookup-insert_ne, IsMap, IsMap-listed, All-map, filter_values, Entries,
}
use paycore.Base.Every.{Every, take-Every, sort-Every, filter_values-Every}
use paycore.Base.Int.{pos, pos_part, leb_ℤ}
use paycore.Base.Sort.{sort, take}
use paycore.Base.Text.{Text}
use paycore.Errors.{Error}
use paycore.Outbox.{Event, is_open, claim}
use paycore.Outbox.Store.{
  Store, ClaimPendingEventsInput, is_claimable, available_before, claim_all, claim_pending_events,
}

-- What the loop needs to leave the event `id` alone.
abbrev Avoids : Text → List Event → Type 0
Avoids id = Every (λ e. e.id ≢ id)

claim-same_id :
    (e : Event) (worker : Text) (now : ℕ) {f : Event} → claim e worker now ≡ ok f → f.id ≡ e.id
unfolding claim
claim-same_id e worker now h = ground arith

claim_all-keeps :
    (id : Text) (worker : Text) (now : ℕ) (es : List Event) (s : Store)
    → Avoids id es
    → lookup id (claim_all worker now es s).1 ≡ lookup id s
unfolding claim_all
claim_all-keeps id worker now [] s a = refl
claim_all-keeps id worker now (e ∷ es) s a = elim (Result-cases (claim e worker now)) [
  | inl (f, h) ↦ ground (
    arith,
    claim-same_id e worker now {f = f} h,
    claim_all-keeps id worker now es (insert f.id f s) a.1,
    lookup-insert_ne id f.id f s,
  )
  | inr (x, h) ↦ ground arith
]

-- The outbox, as the operations keep it: a map in which each event stands under its own id.
pub record IsOutbox (s : Store) : Type 0 where
  pub is_map : IsMap s
  pub keyed : Entries (λ k e. e.id ≡ k) s

-- An event that is not open is left as it is by every claim, however old its lock: an event of a
-- worker that died between claim and mark is never claimed again.
pub claim_pending_events-keeps_locked :
    (ctx : Option Error) (input : ClaimPendingEventsInput) (s : Store) (id : Text) (e : Event)
    → IsOutbox s
    → lookup id s ≡ some e
    → is_open e.status ≡ false
    → lookup id (claim_pending_events ctx input s).1 ≡ some e
unfolding claim_pending_events
claim_pending_events-keeps_locked (some x) input s id e o found locked = found
claim_pending_events-keeps_locked none input s id e o found locked =
    let due = filter_values (is_claimable input.now) s in
    let avoided =
      filter_values-Every (λ x. x.id ≢ id) (is_claimable input.now) s
        (All-map s (λ k x h. λ test same. ground (arith, o.keyed k x h))
          (IsMap-listed s o.is_map)) in
    let kept =
      claim_all-keeps id input.worker_id input.now
        (take (pos_part input.limit) (sort available_before due)) s
        (take-Every (λ x. x.id ≢ id) _ _
          (sort-Every (λ x. x.id ≢ id) available_before due avoided)) in
    elim (Bool-cases (leb_ℤ input.limit (pos 0))) [
      | inl b ↦ rw b found
      | inr b ↦ rw b (kept ∙ found)
    ]
