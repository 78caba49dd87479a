-- ===== src/Tests/Endpoints.antt =====
-- The payment handler at concrete requests.
use paycore.Base.{◌≡◌, ◌≢◌, refl, true, false, none, some, [], ◌∷◌, arith, inl}
use paycore.Base.Dict.{lookup, insert, find_value}
use paycore.Base.Int.{pos, ◌+ℤ◌, ◌-ℤ◌, int64, add_int64, sub_int64}
use paycore.Base.Text.{codes, is_space, trim_space, Text_discrete}
use paycore.Currency.{normalize_currency, is_valid_currency}
use paycore.Errors.{cause, context_done}
use paycore.Http.{Request, Response, Encoding, write, write_error_map, post}
use paycore.Http.Payments.{
  Clock, Handler, Api, answers, recorded, start_input, handle_idempotency_start,
  complete_idempotency, handle_keyed, handle_authorize, authorize_call, authorize_response,
  serve_http,
}
use paycore.Http.Payments.Once.{nothing, serve_http-once}
use paycore.Http.Payments.Refused.{serve_http-refused}
use paycore.Http.Payments.Replay.{IsRouted, serve_http-replayed}
use paycore.Http.Responses.{authorization_error_response, authorize_payment_response}
use paycore.Id.{new_id, hex_encode}
use paycore.Idempotency.{new_record, complete}
use paycore.Idempotency.Cache.{noop_cache}
use paycore.Idempotency.Service.{Service, start_request, complete_request}
use paycore.Idempotency.Service.Transparent.{IsFaithful}
use paycore.Idempotency.Store.{create_record, get_record, update_record}
use paycore.Ledger.History.{Reach-IsServing, empty_stores-IsConsistent}
use paycore.Merchant.{new_merchant, can_create_payments}
use paycore.Merchant.Postgres.{create_merchant_row, get_merchant_row}
use paycore.Outbox.{new_event}
use paycore.Outbox.Postgres.{create_event_row}
use paycore.Payer.{new_payer, can_authorize, reserve}
use paycore.Payer.Postgres.{create_payer_row, get_payer_row, update_payer_row}
use paycore.Payment.{new_hold, new_authorized_payment}
use paycore.Payment.Service.{
  authorize_tx, make_authorization, write_authorization, authorize_payment,
}
use paycore.Payment.Service.Metrics.{Metered, authorization, authorize_observed}
use paycore.Payment.Postgres.{create_payment_row, create_hold_row}
use paycore.Tests.{Reach-with_payer, ascii, micros, pool, start, with_payer, authorize_input}
use paycore.World.{postgres, unanswered, within_tx}

-- Each body decodes to `authorize_input`.
abbrev encoding : Encoding
encoding = record {
  encode = λ j. b'{' ∷ [];
  decode_authorize = λ body. some (record {
    merchant_id = authorize_input.merchant_id;
    payer_id = authorize_input.payer_id;
    amount = authorize_input.amount;
    currency = authorize_input.currency;
  });
  decode_merchant = λ body. none;
  decode_payer = λ body. none;
  format_time = λ t. [];
  error_text = λ e. [];
}

abbrev service : Service (Unit {0})
service = record { cache = noop_cache; metrics = false; ttl = pos 1000 }

abbrev handler : Handler (Unit {0})
handler = record {
  encoding = encoding;
  sha256 = λ bytes. 7 ∷ [];
  transactor = postgres pool;
  metrics = true;
  idempotency = some service;
}

abbrev order : Request
order = record {
  method = codes "POST";
  path = codes "/payments/authorize";
  payment_id = [];
  idempotency_key = codes "k1";
  request_id = [];
  forwarded_for = [];
  real_ip = [];
  remote_addr = [];
  body = some [];
}

abbrev clock : Clock
clock = record { at_start = 30; at_service = 30; at_end = 40 }

abbrev later : Clock
later = record { at_start = 50; at_service = 50; at_end = 60 }

abbrev before : Api (Unit {0})
before = record {
  payments = record { world = with_payer; told = [] };
  requests = record { records = []; cache = tt; ctx = []; observed = [] };
}

authorized :
    (serve_http handler clock none order before).1.payments.told
    ≡ authorization (codes "success") ∷ []
unfolding serve_http handle_authorize handle_keyed handle_idempotency_start complete_idempotency
    start_input authorize_call authorize_response authorize_observed authorize_payment post write
    authorize_payment_response start_request new_record create_record complete_request get_record
    complete update_record hex_encode lookup insert Text_discrete is_space trim_space
    normalize_currency is_valid_currency new_merchant create_merchant_row new_payer create_payer_row
    authorize_tx make_authorization write_authorization find_value within_tx get_merchant_row
    get_payer_row can_create_payments can_authorize reserve update_payer_row add_int64 sub_int64
    int64 ◌+ℤ◌ ◌-ℤ◌ new_id new_hold new_authorized_payment create_payment_row create_hold_row
    new_event create_event_row with_payer
authorized = refl

told-ne : (m : Metered) → m.told ≡ authorization (codes "success") ∷ [] → m ≢ before.payments
told-ne m told e = cc

serve_http-once_example :
    (serve_http handler later none order (serve_http handler clock none order before).1).1.payments
    ≡ (serve_http handler clock none order before).1.payments
serve_http-once_example =
    serve_http-once handler service refl clock later none none order order before
      (serve_http handler clock none order before).1 refl
      (told-ne (serve_http handler clock none order before).1.payments authorized) nothing

before-IsFaithful : IsFaithful service before.requests
unfolding lookup
before-IsFaithful = record { keyed = λ k r found. cc; cached = λ c m. absurd m }

order-IsRouted : IsRouted order []
unfolding Text_discrete post trim_space is_space
order-IsRouted = record { posted = refl; routed = inl refl; read = refl; key = refl }

serve_http-replayed_example :
    ((serve_http handler later none order (serve_http handler clock (some start) order before).1).0
      ≡ answers (recorded (serve_http handler clock (some start) order before).0))
    × ((serve_http handler later none order
          (serve_http handler clock (some start) order before).1).1.payments
        ≡ (serve_http handler clock (some start) order before).1.payments)
unfolding lookup trim_space is_space hex_encode start_input serve_http handle_authorize handle_keyed
    handle_idempotency_start complete_idempotency authorize_call post start_request new_record
    create_record complete_request get_record complete update_record insert Text_discrete
serve_http-replayed_example =
    serve_http-replayed handler service refl order [] order-IsRouted refl clock later (some start)
      none before (serve_http handler clock (some start) order before).1 before-IsFaithful refl refl
      nothing refl (omega arith)

-- The database fails the insertion of the event, after the other writes.
abbrev failing : Api (Unit {0})
failing = record {
  payments = record {
    world = record with_payer {
      ctx = none ∷ none ∷ none ∷ none ∷ none ∷ none ∷ some context_done ∷ [];
    };
    told = [];
  };
  requests = before.requests;
}

abbrev bad_request : Response
bad_request = record { status = pos 400; body = b'{' ∷ [] }

not_authorized : (serve_http handler clock none order failing).0 ≡ answers bad_request
unfolding serve_http handle_authorize handle_keyed handle_idempotency_start complete_idempotency
    start_input authorize_call authorize_response authorize_observed authorize_payment post write
    authorization_error_response write_error_map cause start_request new_record create_record
    complete_request get_record complete update_record hex_encode lookup insert Text_discrete
    is_space trim_space normalize_currency is_valid_currency new_merchant create_merchant_row
    new_payer create_payer_row authorize_tx make_authorization write_authorization find_value
    within_tx get_merchant_row get_payer_row can_create_payments can_authorize reserve
    update_payer_row add_int64 sub_int64 int64 ◌+ℤ◌ ◌-ℤ◌ new_id new_hold new_authorized_payment
    create_payment_row create_hold_row new_event create_event_row with_payer
not_authorized = refl

with_payer_outside : with_payer.in_tx ≡ false
with_payer_outside =
    (Reach-IsServing (record { outside = refl; consistent = empty_stores-IsConsistent })
      Reach-with_payer).outside

pool_answers : pool.commits ≢ unanswered
pool_answers e = ground arith

serve_http-refused_example :
    (serve_http handler clock none order failing).1.payments.world.stores
    ≡ failing.payments.world.stores
serve_http-refused_example =
    serve_http-refused handler clock order pool refl pool_answers failing bad_request
      with_payer_outside not_authorized (λ e. ground arith) (λ e. ground arith)
