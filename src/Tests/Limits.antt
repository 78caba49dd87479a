-- ===== src/Tests/Limits.antt =====
-- The rate limiter over counters in a map.
use paycore.Base.{
  ℕ, ◌+◌, ◌-◌, ◌≡◌, ◌≢◌, ◌≤◌, refl, Bool, true, false, Option, none, some, List, [], ◌∷◌, Result,
  ok, err, arith, inl, inr, Option-cases,
}
use paycore.Base.Dict.{Dict, lookup, insert, lookup-insert, lookup-insert_self, lookup-insert_ne}
use paycore.Base.Int.{ℤ, pos, pos_part, ◌<ℤ◌}
use paycore.Base.Text.{Text, codes, Text_discrete, trim_space, is_space}
use paycore.Errors.{Error, context_done}
use paycore.Http.{Request, Encoding}
use paycore.Http.Middleware.{rate_limit_middleware, rate_limit_key, limiter_answered}
use paycore.Http.Middleware.Reached.{reached, reached-within_limit}
use paycore.RateLimit.{Redis, RedisLimiter, Faults, allow, answer}
use paycore.RateLimit.Window.{run, admitted, run-keeps_eternal}

-- A number and whether it has a time to live.
abbrev Counters : Type 0
Counters = Dict (ℕ × Bool)

abbrev number : Option (ℕ × Bool) → ℕ
number none = 0
number (some (n, _)) = n

abbrev has_time : Option (ℕ × Bool) → Bool
has_time none = false
has_time (some (_, x)) = x

abbrev up : Option Error → Text → Counters → Result ℕ × Counters
up (some e) k t = (err e, t)
up none k t = let n = number (lookup k t) + 1 in (ok n, insert k (n, has_time (lookup k t)) t)

abbrev set_expiry : Option Error → Text → ℤ → Counters → Result (Unit {0}) × Counters
set_expiry (some e) k d t = (err e, t)
set_expiry none k d t = elim (lookup k t) [
  | none ↦ (ok tt, t)
  | some (n, _) ↦ (ok tt, insert k (n, true) t)
]

up_answers :
    (e : Option Error) (k : Text) (t : Counters) {n : ℕ}
    → (up e k t).0 ≡ ok n
    → (n ≡ number (lookup k t) + 1) × (number (lookup k (up e k t).1) ≡ n)
up_answers none k t h =
    ground (arith, lookup-insert_self k (number (lookup k t) + 1, has_time (lookup k t)) t)
up_answers (some e) k t h = absurd (ground arith)

up_grows :
    (e : Option Error) (k j : Text) (t : Counters)
    → number (lookup j t) ≤ number (lookup j (up e k t).1)
up_grows none k j t =
    ground (arith, lookup-insert j k (number (lookup k t) + 1, has_time (lookup k t)) t)
up_grows (some e) k j t = omega arith

up_keeps_time :
    (e : Option Error) (k j : Text) (t : Counters)
    → 1 ≤ number (lookup j t)
    → has_time (lookup j (up e k t).1) ≡ has_time (lookup j t)
up_keeps_time none k j t h =
    ground (arith, lookup-insert j k (number (lookup k t) + 1, has_time (lookup k t)) t)
up_keeps_time (some e) k j t h = refl

expiry_number :
    (e : Option Error) (k j : Text) (d : ℤ) (t : Counters)
    → pos 0 <ℤ d
    → number (lookup j (set_expiry e k d t).1) ≡ number (lookup j t)
expiry_number (some e) k j d t h = refl
expiry_number none k j d t h = elim (Option-cases (lookup k t)) [
  | inl missing ↦ ground arith
  | inr ((n, x), found) ↦ ground (arith, lookup-insert j k (n, true) t)
]

expiry_keeps_time :
    (e : Option Error) (k j : Text) (d : ℤ) (t : Counters)
    → j ≢ k
    → has_time (lookup j (set_expiry e k d t).1) ≡ has_time (lookup j t)
expiry_keeps_time (some e) k j d t h = refl
expiry_keeps_time none k j d t h = elim (Option-cases (lookup k t)) [
  | inl missing ↦ ground arith
  | inr ((n, x), found) ↦ ground (arith, lookup-insert_ne j k (n, true) t h)
]

abbrev counters : Redis Counters
counters = record {
  incr = up;
  expire = set_expiry;
  ttl = λ e k t. (ok (pos 1000000000), t);
  count = λ k t. number (lookup k t);
  expires = λ k t. has_time (lookup k t);
  incr_answers = up_answers;
  incr_grows = up_grows;
  incr_expires = up_keeps_time;
  expire_count = expiry_number;
  expire_expires = expiry_keeps_time;
  ttl_keeps = λ e k t. refl;
}

abbrev twice : RedisLimiter
twice = record { prefix = codes "p"; limit = pos 2; window = pos 60000000000 }

abbrev calm : Faults
calm = record { on_incr = none; on_expire = none; on_ttl = none }

abbrev no_expiry : Faults
no_expiry = record { on_incr = none; on_expire = some context_done; on_ttl = none }

abbrev three_calls : List (Faults × Text)
three_calls = (calm, codes "a") ∷ (calm, codes "a") ∷ (calm, codes "a") ∷ []

-- Of three calls two are allowed.
two_of_three : admitted counters twice (codes "p:a") three_calls [] ≡ 2
unfolding allow answer lookup insert trim_space is_space Text_discrete
two_of_three = refl

-- The state after a first call whose EXPIRE failed, and a second call.
abbrev spent : Counters
spent = (codes "p:a", (2, false)) ∷ []

spent_reached : run counters twice ((no_expiry, codes "a") ∷ (calm, codes "a") ∷ []) [] ≡ spent
unfolding allow answer lookup insert trim_space is_space Text_discrete
spent_reached = refl

run-keeps_eternal_example :
    (counters.expires (codes "p:a") (run counters twice three_calls spent) ≡ false)
    × (counters.count (codes "p:a") spent
        ≤ counters.count (codes "p:a") (run counters twice three_calls spent))
unfolding lookup Text_discrete
run-keeps_eternal_example =
    run-keeps_eternal counters twice (codes "p:a") three_calls spent (omega arith) (omega arith)
      refl

abbrev enc : Encoding
enc = record {
  encode = λ j. [];
  decode_authorize = λ body. none;
  decode_merchant = λ body. none;
  decode_payer = λ body. none;
  format_time = λ t. [];
  error_text = λ e. [];
}

abbrev visit : Request
visit = record {
  method = codes "POST";
  path = codes "/payments/authorize";
  payment_id = [];
  idempotency_key = [];
  request_id = [];
  forwarded_for = codes " a , b";
  real_ip = [];
  remote_addr = codes "c";
  body = none;
}

abbrev three_visits : List (Faults × Request)
three_visits = (calm, visit) ∷ (calm, visit) ∷ (calm, visit) ∷ []

two_of_three_visits : reached enc 0 counters twice (codes "p:a") three_visits [] ≡ 2
unfolding allow answer lookup insert trim_space is_space Text_discrete rate_limit_middleware
    rate_limit_key limiter_answered
two_of_three_visits = refl

reached-within_limit_example :
    reached enc 0 counters twice (codes "p:a") three_visits []
    ≤ pos_part twice.limit - counters.count (codes "p:a") []
reached-within_limit_example =
    reached-within_limit enc 0 counters twice (codes "p:a") three_visits [] (omega arith)
