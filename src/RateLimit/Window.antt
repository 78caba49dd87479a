-- ===== src/RateLimit/Window.antt =====
-- What the fixed-window limiter admits in a window, and what becomes of a key without an expiry.
use mathlib.Core.Path.{subst}
use paycore.Base.{
  ℕ, ◌+◌, ◌-◌, ◌≡◌, ◌≤◌, ap, Bool, true, false, Option, List, [], ◌∷◌, Result, ok, err, inl, inr,
  arith, Bool-cases, Result-cases, if◌then◌else◌,
}
use paycore.Base.Int.{pos, pos_part, leb_ℤ, ◌<ℤ◌}
use paycore.Base.Text.{Text, text_eq, Text_discrete}
use paycore.Errors.{Error}
use paycore.RateLimit.{LimitResult, Redis, RedisLimiter, Faults, redis_key, allow, answer}

-- The calls of clients, in the order in which Redis runs them.
abbrev pub Calls : Type 0
Calls = List (Faults × Text)

module _ {R : Type 0} (redis : Redis R) (l : RedisLimiter) where
  abbrev pub run : Calls → R → R
  run [] r = r
  run ((f, key) ∷ calls) r = run calls (allow redis l f key r).1

  abbrev pub is_admitted : Result LimitResult → Bool
  is_admitted (ok x) = x.allowed
  is_admitted (err _) = false

  -- How many of the calls that count under `k` are allowed.
  abbrev pub admitted : Text → Calls → R → ℕ
  admitted k [] r = 0
  admitted k ((f, key) ∷ calls) r =
      let rest = admitted k calls (allow redis l f key r).1 in
      if text_eq (redis_key l key) k
      then (if is_admitted (allow redis l f key r).0 then rest + 1 else rest)
      else rest

  answer_lem :
      (e : Option Error) (k : Text) (n : ℕ) (r : R)
      → (is_admitted (answer redis l e k n r).0 ≡ leb_ℤ (pos n) l.limit)
        × ((answer redis l e k n r).1 ≡ r)
  unfolding answer
  answer_lem e k n r = ground (arith, redis.ttl_keeps e k r)

  allow-count_grows :
      (f : Faults) (key j : Text) (r : R)
      → pos 0 <ℤ l.window
      → redis.count j r ≤ redis.count j (allow redis l f key r).1
  unfolding allow
  allow-count_grows f key j r positive =
      let k = redis_key l key in
      let r1 = (redis.incr f.on_incr k r).1 in
      let up = redis.incr_grows f.on_incr k j r in
      let kept = redis.expire_count f.on_expire k j l.window r1 positive in
      elim (Result-cases (redis.incr f.on_incr k r).0) [
        | inr (x, h) ↦ ground arith
        | inl (n, h) ↦
            let r2 = (redis.expire f.on_expire k l.window r1).1 in
            let (_, same1) = answer_lem f.on_ttl k n r1 in
            let (_, same2) = answer_lem f.on_ttl k n r2 in
            ground (arith, up, kept, ap (redis.count j) same1, ap (redis.count j) same2)
      ]

  -- An allowed call counts its key up, to at most the limit.
  allow-admits :
      (f : Faults) (key : Text) (r : R)
      → pos 0 <ℤ l.window
      → is_admitted (allow redis l f key r).0 ≡ true
      → let k = redis_key l key in
        (redis.count k (allow redis l f key r).1 ≡ redis.count k r + 1)
        × (redis.count k r + 1 ≤ pos_part l.limit)
  unfolding allow
  allow-admits f key r positive h =
      let k = redis_key l key in
      let r1 = (redis.incr f.on_incr k r).1 in
      elim (Result-cases (redis.incr f.on_incr k r).0) [
        | inr (x, e) ↦ absurd (ground arith)
        | inl (n, e) ↦
            let r2 = (redis.expire f.on_expire k l.window r1).1 in
            let kept = redis.expire_count f.on_expire k k l.window r1 positive in
            let (after, counted) = redis.incr_answers f.on_incr k r e in
            let (test1, same1) = answer_lem f.on_ttl k n r1 in
            let (test2, same2) = answer_lem f.on_ttl k n r2 in
            ground (
              arith,
              kept,
              after,
              counted,
              test1,
              test2,
              ap (redis.count k) same1,
              ap (redis.count k) same2,
            )
      ]

  -- While no key expires, of any calls on a database that may fail at any command, those that count
  -- under a key are allowed at most as often as the limit exceeds what the key has counted before.
  pub admitted-within_limit :
      (k : Text) (calls : Calls) (r : R)
      → pos 0 <ℤ l.window
      → admitted k calls r ≤ pos_part l.limit - redis.count k r
  admitted-within_limit k [] r positive = omega arith
  admitted-within_limit k ((f, key) ∷ calls) r positive =
      let rest = admitted-within_limit k calls (allow redis l f key r).1 positive in
      let grows = allow-count_grows f key k r positive in
      elim (Bool-cases (text_eq (redis_key l key) k)) [
        | inr other ↦ ground (arith, rest, grows)
        | inl at ↦ elim (Bool-cases (is_admitted (allow redis l f key r).0)) [
          | inr refused ↦ ground (arith, rest, grows)
          | inl admits ↦
              let same : redis_key l key ≡ k = ground arith in
              let (up, below) = allow-admits f key r positive admits in
              ground (arith, rest, same, up, below)
        ]
      ]

  allow-keeps_eternal :
      (f : Faults) (key j : Text) (r : R)
      → 1 ≤ redis.count j r
      → redis.expires j r ≡ false
      → redis.expires j (allow redis l f key r).1 ≡ false
  unfolding allow
  allow-keeps_eternal f key j r used eternal =
      let k = redis_key l key in
      let r1 = (redis.incr f.on_incr k r).1 in
      let same = redis.incr_expires f.on_incr k j r used in
      elim (Result-cases (redis.incr f.on_incr k r).0) [
        | inr (x, h) ↦ ground arith
        | inl (n, h) ↦
            let r2 = (redis.expire f.on_expire k l.window r1).1 in
            let (_, same1) = answer_lem f.on_ttl k n r1 in
            let (_, same2) = answer_lem f.on_ttl k n r2 in
            elim (Text_discrete j k) [
              | yes at ↦
                  let (after, counted) = redis.incr_answers f.on_incr k r h in
                  let later : 2 ≤ n =
                    omega (arith, after, subst (λ x. 1 ≤ redis.count x r) at used) in
                  ground (arith, later, same, eternal, ap (redis.expires j) same1)
              | no other ↦ ground (
                arith,
                same,
                eternal,
                redis.expire_expires f.on_expire k j l.window r1 other,
                ap (redis.expires j) same1,
                ap (redis.expires j) same2,
              )
            ]
      ]

  -- A key that has counted and has no time to live, as after a first call whose EXPIRE failed, gets
  -- none from any later calls, and its number does not go down.
  pub run-keeps_eternal :
      (k : Text) (calls : Calls) (r : R)
      → pos 0 <ℤ l.window
      → 1 ≤ redis.count k r
      → redis.expires k r ≡ false
      → (redis.expires k (run calls r) ≡ false) × (redis.count k r ≤ redis.count k (run calls r))
  run-keeps_eternal k [] r positive used eternal = (eternal, omega arith)
  run-keeps_eternal k ((f, key) ∷ calls) r positive used eternal =
      let grows = allow-count_grows f key k r positive in
      let (still, more) =
        run-keeps_eternal k calls (allow redis l f key r).1 positive (omega (arith, used, grows))
          (allow-keeps_eternal f key k r used eternal) in
      (still, omega (arith, grows, more))
