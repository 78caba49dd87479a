-- ===== src/Outbox/Kafka.antt =====
-- The publisher over Kafka (internal/outbox/adapters/kafka/publisher.go): its configuration and the
-- message of an event, which the client writes; `payload_text` is the JSON text of a payload.
use paycore.Base.{ℕ, List, [], ◌∷◌, ◌==◌, Result, ok, err, if◌then◌else◌}
use paycore.Base.Text.{Text, codes, is_empty, trim_space}
use paycore.Errors.{broker_required}
use paycore.Outbox.{Event, Payload}

-- `strings.Split(s, ",")`
prepend : ℕ → List Text → List Text
prepend c [] = (c ∷ []) ∷ []
prepend c (part ∷ parts) = (c ∷ part) ∷ parts

unfoldable pub split_commas : Text → List Text
unfolding prepend
split_commas [] = [] ∷ []
split_commas (c ∷ s) = let rest = split_commas s in if c == b',' then [] ∷ rest else prepend c rest

unfoldable pub clean_brokers : List Text → List Text
clean_brokers [] = []
clean_brokers (value ∷ values) =
    let rest = clean_brokers values in
    let trimmed = trim_space value in if is_empty trimmed then rest else trimmed ∷ rest

unfoldable pub brokers_from_string : Text → List Text
unfolding split_commas clean_brokers
brokers_from_string value = clean_brokers (split_commas value)

abbrev pub default_topic : Text
default_topic = codes "paycore.outbox.events"

pub record KafkaPublisher : Type 0 where
  pub brokers : List Text
  pub topic : Text

-- `NewPublisher`
unfoldable pub new_publisher : List Text → Text → Result KafkaPublisher
unfolding clean_brokers
new_publisher brokers topic =
    let trimmed = trim_space topic in
    elim (clean_brokers brokers) [
      | [] ↦ err broker_required
      | b ∷ bs ↦
          ok (record {
            brokers = b ∷ bs;
            topic = if is_empty trimmed then default_topic else trimmed;
          })
    ]

pub record Message : Type 0 where
  pub key : Text
  pub value : Text
  pub headers : List (Text × Text)
  pub time : ℕ

-- What `Publish` writes.
unfoldable pub message_of : (Payload → Text) → Event → Message
message_of payload_text e = record {
  key = e.aggregate_id;
  value = payload_text e.payload;
  headers =
      (codes "event_id", e.id)
      ∷ (codes "event_type", e.event_type)
      ∷ (codes "aggregate_type", e.aggregate_type)
      ∷ (codes "aggregate_id", e.aggregate_id)
      ∷ [];
  time = e.created_at;
}
