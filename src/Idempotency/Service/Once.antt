-- ===== src/Idempotency/Service/Once.antt =====
-- A key is started once: whatever calls follow, a later start of it replays or fails.
use mathlib.Core.Path.{subst}
use paycore.Base.{
  ℕ, ◌≡◌, sym, ap, ◌∙◌, true, false, inl, inr, Option, some, List, Bool-cases, ok, arith,
}
use paycore.Base.Dict.{lookup, insert, lookup-insert}
use paycore.Base.Text.{Text, trim_space, text_eq}
use paycore.Errors.{Error}
use paycore.Idempotency.{Record}
use paycore.Idempotency.Service.{
  State, Service, StartRequestInput, CompleteRequestInput, StartRequestResult, start_request,
  complete_request,
}
use paycore.Idempotency.Store.{Store}
use paycore.Idempotency.Service.Cases.{
  asked, request, new_record-key, start_request-cases, complete_request-cases,
  resume_request-replay, resume_request-keeps,
}

-- A call of the service, or a change of what the environment will answer.
pub data Step {C : Type 0} (v : Service C) (s : State C) : State C → Type 0 where
  environment : (ctx : List (Option Error)) → Step v s (record s { ctx = ctx })
  start : (now : ℕ) (input : StartRequestInput) → Step v s (start_request v now input s).1
  finish : (now : ℕ) (input : CompleteRequestInput) → Step v s (complete_request v now input s).1

pub data Reach {C : Type 0} (v : Service C) (s : State C) : State C → Type 0 where
  here : Reach v s s
  after : {s' s'' : State C} → Reach v s s' → Step v s' s'' → Reach v s s''

abbrev pub Has : Text → Store → Type 0
Has k d = (r : Record) × (lookup k d ≡ some r)

pub insert-Has : (k j : Text) (r : Record) (d : Store) → Has k d → Has k (insert j r d)
insert-Has k j r d (x, h) = elim (Bool-cases (text_eq k j)) [
  | inl b ↦ (r, ground (arith, lookup-insert k j r d))
  | inr b ↦ (x, ground (arith, lookup-insert k j r d))
]

module _ {C : Type 0} (v : Service C) where
  Step-Has : (k : Text) {s s' : State C} → Step v s s' → Has k s.records → Has k s'.records
  Step-Has k {s} (environment ctx) h = h
  Step-Has k {s} (start now input) h = elim (start_request-cases v now input s) [
    | inl (e, a, b, c) ↦ subst (Has k) (sym b) h
    | inr (r, n, inl (f, a)) ↦
        subst (λ w. Has k w.1.records) (sym a) (insert-Has k r.key r s.records h)
    | inr (r, n, inr a) ↦
        subst (λ w. Has k w.1.records) (sym a)
          (subst (Has k) (sym (resume_request-keeps v now r (asked s)).0) h)
  ]
  Step-Has k {s} (finish now input) h = elim (complete_request-cases v now input s) [
    | inl (e, a, b, c) ↦ subst (Has k) (sym b) h
    | inr (r, r', f, g, a) ↦
        subst (λ w. Has k w.1.records) (sym a) (insert-Has k r'.key r' s.records h)
  ]

  pub Reach-Has : (k : Text) {s s' : State C} → Reach v s s' → Has k s.records → Has k s'.records
  Reach-Has k here h = h
  Reach-Has k (after a b) h = Step-Has k b (Reach-Has k a h)

  pub Reach-trans : {s s' s'' : State C} → Reach v s s' → Reach v s' s'' → Reach v s s''
  Reach-trans a here = a
  Reach-trans a (after b step) = after (Reach-trans a b) step

  -- A start that is no replay had a new key, and leaves a record under it.
  pub start_request-Has :
      (now : ℕ) (input : StartRequestInput) (s : State C) {x : StartRequestResult}
      → (start_request v now input s).0 ≡ ok x
      → x.replay ≡ false
      → Has (trim_space input.key) (start_request v now input s).1.records
  start_request-Has now input s {x} h new = elim (start_request-cases v now input s) [
    | inl (e, a, b, c) ↦ ground arith
    | inr (r, n, inl (f, a)) ↦ (
      r,
      ground (arith, new_record-key (request v now input) n, lookup-insert r.key r.key r s.records),
    )
    | inr (r, n, inr a) ↦
        ground (arith, resume_request-replay v now r (asked s) (sym (ap (λ w. w.0) a) ∙ h))
  ]

  pub start_request-known :
      (now : ℕ) (input : StartRequestInput) (s : State C) {x : StartRequestResult}
      → Has (trim_space input.key) s.records
      → (start_request v now input s).0 ≡ ok x
      → x.replay ≡ true
  start_request-known now input s {x} (y, f) h = elim (start_request-cases v now input s) [
    | inl (e, a, b, c) ↦ ground arith
    | inr (r, n, inl (g, a)) ↦ ground (arith, new_record-key (request v now input) n)
    | inr (r, n, inr a) ↦ resume_request-replay v now r (asked s) (sym (ap (λ w. w.0) a) ∙ h)
  ]

  -- A key is started once: after a start that is no replay, whatever calls follow it, a start with
  -- the same key that succeeds is a replay.
  pub start_request-once :
      (now later : ℕ) (input input' : StartRequestInput) (s s' : State C)
      {x x' : StartRequestResult}
      → (start_request v now input s).0 ≡ ok x
      → x.replay ≡ false
      → Reach v (start_request v now input s).1 s'
      → trim_space input'.key ≡ trim_space input.key
      → (start_request v later input' s').0 ≡ ok x'
      → x'.replay ≡ true
  start_request-once now later input input' s s' {x} {x'} h new reach same h' =
      start_request-known later input' s'
        (subst (λ k. Has k s'.records) (sym same)
          (Reach-Has (trim_space input.key) reach (start_request-Has now input s h new)))
        h'
