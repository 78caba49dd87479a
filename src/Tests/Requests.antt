-- ===== src/Tests/Requests.antt =====
-- Runs of the idempotency service with a cache that holds one response, and the theorems at them.
use paycore.Base.{
  ◌≡◌, ℕ, ◌≢◌, ◌+◌, ◌==◌, List, refl, true, false, not, ◌&&◌, ◌⊎◌, inl, inr, Option, none, some, [],
  ◌∷◌, ok, err, Result, arith, if◌then◌else◌,
}
use paycore.Base.Dict.{lookup, insert}
use paycore.Base.Int.{ℤ, pos}
use paycore.Base.Text.{Text, is_empty, codes, is_space, trim_space, text_eq, Text_discrete}
use paycore.Errors.{
  Error, cached_response_not_found, request_in_progress, expired_idempotency_key,
  request_hash_mismatch,
}
use paycore.Idempotency.{
  Record, CachedResponse, new_record, complete, completed, in_progress, is_expired,
}
use paycore.Idempotency.Cache.{Cache}
use paycore.Idempotency.Hash.{hash_request, hashed, OneLine, hash_request-collision}
use paycore.Idempotency.Service.{
  State, Service, new_service, StartRequestInput, CompleteRequestInput, start_request,
  complete_request, resume_request, replay_response, started, replayed,
}
use paycore.Idempotency.Service.Once.{Reach, here, after, start, finish, start_request-once}
use paycore.Idempotency.Service.Replay.{complete_request-replayed, start_request-completed}
use paycore.Idempotency.Service.Transparent.{IsFaithful, Reach-IsFaithful}
use paycore.Idempotency.Store.{create_record, get_record, update_record}

abbrev Slot : Type 0
Slot = Option CachedResponse

abbrev slot_get : Option Error → Text → Text → Slot → Result CachedResponse × Slot
slot_get (some e) key hash c = (err e, c)
slot_get none key hash none = (err cached_response_not_found, none)
slot_get none key hash (some x) =
    if text_eq x.key key && text_eq x.request_hash hash
    then (ok x, some x)
    else (err cached_response_not_found, some x)

abbrev slot_set : Option Error → CachedResponse → ℤ → Slot → Result (Unit {0}) × Slot
slot_set (some e) x ttl c = (err e, c)
slot_set none x ttl c = (ok tt, some x)

slot-get_returns :
    (e : Option Error) (key hash : Text) (c : Slot) (r : CachedResponse)
    → (slot_get e key hash c).0 ≡ ok r
    → (c ≡ some r) × (r.key ≡ key) × (r.request_hash ≡ hash)
slot-get_returns e key hash c r h = ground arith

slot-get_keeps :
    (e : Option Error) (key hash : Text) (c : Slot) (r : CachedResponse)
    → (slot_get e key hash c).1 ≡ some r
    → c ≡ some r
slot-get_keeps e key hash c r h = ground arith

slot-set_keeps :
    (e : Option Error) (x : CachedResponse) (ttl : ℤ) (c : Slot) (r : CachedResponse)
    → (slot_set e x ttl c).1 ≡ some r
    → (r ≡ x) ⊎ (c ≡ some r)
slot-set_keeps (some e) x ttl c r h = inr h
slot-set_keeps none x ttl c r h = inl (ground arith)

abbrev slot_cache : Cache Slot
slot_cache = record {
  get_response = slot_get;
  set_response = slot_set;
  may_return = λ c r. c ≡ some r;
  get_returns = slot-get_returns;
  get_keeps = slot-get_keeps;
  set_keeps = slot-set_keeps;
}

abbrev service : Service Slot
service = new_service slot_cache true (pos 0)

abbrev fresh : State Slot
fresh = record { records = []; cache = none; ctx = []; observed = [] }

fresh-IsFaithful : IsFaithful service fresh
unfolding lookup
fresh-IsFaithful = record { keyed = λ k r h. cc; cached = λ c h. cc }

abbrev request : StartRequestInput
request = record { key = codes " k1"; request_hash = codes "ab12" }

abbrev answer : CompleteRequestInput
answer = record { key = codes "k1"; response_code = pos 201; response_body = 123 ∷ 125 ∷ [] }

abbrev begun : State Slot
begun = (start_request service 1000 request fresh).1

abbrev answered : State Slot
answered = (complete_request service 2000 answer begun).1

abbrev stored : Record
stored = record {
  key = codes "k1";
  request_hash = codes "ab12";
  status = completed;
  response_code = pos 201;
  response_body = 123 ∷ 125 ∷ [];
  created_at = 1000;
  updated_at = 2000;
  expires_at = 86400000001000;
}

abbrev opened : Record
opened = record stored {
  status = in_progress;
  response_code = pos 0;
  response_body = [];
  updated_at = 1000;
}

begun_ok : (start_request service 1000 request fresh).0 ≡ ok (started opened)
unfolding start_request new_record create_record lookup insert trim_space is_space
begun_ok = refl

answered_ok : (complete_request service 2000 answer begun).0 ≡ ok stored
unfolding complete_request complete get_record update_record start_request new_record create_record
    lookup insert trim_space is_space Text_discrete
answered_ok = refl

replayed_ok :
    (start_request service 3000 request answered).0
    ≡ ok (replayed stored (pos 201) (123 ∷ 125 ∷ []))
unfolding complete_request complete get_record update_record start_request new_record create_record
    resume_request replay_response lookup insert trim_space is_space Text_discrete
replayed_ok = refl

in_progress_err : (start_request service 1500 request begun).0 ≡ err request_in_progress
unfolding get_record start_request new_record create_record resume_request lookup insert trim_space
    is_space Text_discrete
in_progress_err = refl

stored_found : lookup (trim_space request.key) answered.records ≡ some stored
unfolding complete_request complete get_record update_record start_request new_record create_record
    lookup insert trim_space is_space Text_discrete
stored_found = refl

key_trimmed : trim_space request.key ≡ answer.key
unfolding trim_space is_space
key_trimmed = refl

key_given : is_empty (trim_space request.key) ≡ false
unfolding trim_space is_space
key_given = refl

hash_given : is_empty (trim_space request.request_hash) ≡ false
unfolding trim_space is_space
hash_given = refl

no_errors : answered.ctx ≡ []
unfolding complete_request complete get_record update_record start_request new_record create_record
    lookup insert trim_space is_space Text_discrete
no_errors = refl

answered-Reach : Reach service fresh answered
answered-Reach = after (after here (start 1000 request)) (finish 2000 answer)

begun-IsFaithful : IsFaithful service begun
begun-IsFaithful = Reach-IsFaithful service (after here (start 1000 request)) fresh-IsFaithful

answered-IsFaithful : IsFaithful service answered
answered-IsFaithful = Reach-IsFaithful service answered-Reach fresh-IsFaithful

start_request-once_example : (replayed stored (pos 201) (123 ∷ 125 ∷ [])).replay ≡ true
start_request-once_example =
    start_request-once service 1000 3000 request request fresh answered {x = started opened}
      {x' = replayed stored (pos 201) (123 ∷ 125 ∷ [])} begun_ok refl
      (after here (finish 2000 answer)) refl replayed_ok

complete_request-replayed_example :
    ((replayed stored (pos 201) (123 ∷ 125 ∷ [])).replay ≡ true)
    × (pos 201 ≡ answer.response_code)
    × (123 ∷ 125 ∷ [] ≡ answer.response_body)
    × (stored.request_hash ≡ trim_space request.request_hash)
complete_request-replayed_example =
    complete_request-replayed service 2000 3000 answer request begun answered {r = stored}
      {x = replayed stored (pos 201) (123 ∷ 125 ∷ [])} begun-IsFaithful answered_ok here key_trimmed
      replayed_ok

start_request-completed_example : (start_request service 3000 request answered).0 ≡ (
    if is_expired stored 3000
    then err expired_idempotency_key
    else if not (text_eq stored.request_hash (trim_space request.request_hash))
    then err request_hash_mismatch
    else ok (replayed stored stored.response_code stored.response_body))
start_request-completed_example =
    start_request-completed service 3000 request answered stored answered-IsFaithful no_errors
      key_given hash_given stored_found refl

-- A sum in place of SHA-256: it has collisions.
abbrev sum : List ℕ → ℕ
sum [] = 0
sum (x ∷ xs) = x + sum xs

abbrev post : List ℕ
post = codes "POST"

abbrev path : List ℕ
path = codes "/p"

not_newline : {c : ℕ} → (c == 10) ≡ false → c ≢ 10
not_newline h = ground arith

abbrev body : List ℕ
body = 1 ∷ 2 ∷ []

abbrev body' : List ℕ
body' = 2 ∷ 1 ∷ []

post-OneLine : OneLine post
post-OneLine = (not_newline refl, (not_newline refl, (not_newline refl, (not_newline refl, tt))))

path-OneLine : OneLine path
path-OneLine = (not_newline refl, (not_newline refl, tt))

sums_agree :
    hash_request (λ s. sum s ∷ []) post path body ≡ hash_request (λ s. sum s ∷ []) post path body'
sums_agree = refl

hash_request-collision_example :
    ((post ≡ post) × (path ≡ path) × (body ≡ body'))
    ⊎ ((hashed post path body ≢ hashed post path body')
        × (sum (hashed post path body) ∷ [] ≡ sum (hashed post path body') ∷ []))
hash_request-collision_example =
    hash_request-collision (λ s. sum s ∷ []) post post path path body body' post-OneLine
      post-OneLine path-OneLine path-OneLine sums_agree
