-- ===== src/Idempotency/Redis.antt =====
-- The response cache over Redis (internal/idempotency/adapters/redis/cache.go). The client's
-- commands GET and SET are a parameter, and so is the JSON text of a response; an error of either is
-- the one that the environment gives.
use paycore.Base.{Option, none, some, ◌++◌, Result, ok, err, if◌then◌else◌}
use paycore.Base.Int.{ℤ, pos, leb_ℤ}
use paycore.Base.Text.{Text, codes, is_empty, trim_space}
use paycore.Errors.{Error, cached_response_not_found, cache_unavailable, cache_ttl_required}
use paycore.Idempotency.{Bytes, CachedResponse}

-- A key that is missing answers none.
pub record RedisStrings (R : Type 0) : Type 0 where
  pub get : Option Error → Text → R → Result (Option Bytes) × R
  pub set : Option Error → Text → Bytes → ℤ → R → Result (Unit {0}) × R

pub record ResponseCodec : Type 0 where
  pub marshal : CachedResponse → Option Bytes
  pub unmarshal : Bytes → Option CachedResponse

pub record RedisCache : Type 0 where
  pub prefix : Text
  pub ttl : ℤ

-- `NewCache`, given a client.
unfoldable pub new_cache : Text → ℤ → Result RedisCache
new_cache prefix ttl =
    let trimmed = trim_space prefix in
    if leb_ℤ ttl (pos 0)
    then err cache_ttl_required
    else ok (record {
      prefix = if is_empty trimmed then codes "paycore:idempotency:response" else trimmed;
      ttl = ttl;
    })

unfoldable pub cache_key : RedisCache → Text → Text → Text
cache_key c key request_hash =
    c.prefix ++ (codes ":" ++ (trim_space key ++ (codes ":" ++ trim_space request_hash)))

module _ {R : Type 0} (redis : RedisStrings R) (codec : ResponseCodec) where
  unfoldable pub redis_get_response :
      RedisCache → Option Error → Text → Text → R → Result CachedResponse × R
  unfolding cache_key
  redis_get_response c e key request_hash r =
      let (value, r') = redis.get e (cache_key c key request_hash) r in
      elim value [
        | err x ↦ (err x, r')
        | ok none ↦ (err cached_response_not_found, r')
        | ok (some bytes) ↦ elim (codec.unmarshal bytes) [
          | none ↦ (err cache_unavailable, r')
          | some dto ↦ (ok dto, r')
        ]
      ]

  unfoldable pub redis_set_response :
      RedisCache → Option Error → CachedResponse → ℤ → R → Result (Unit {0}) × R
  unfolding cache_key
  redis_set_response c e response ttl r =
      let ttl' = if leb_ℤ ttl (pos 0) then c.ttl else ttl in
      elim (codec.marshal response) [
        | none ↦ (err cache_unavailable, r)
        | some value ↦ redis.set e (cache_key c response.key response.request_hash) value ttl' r
      ]
