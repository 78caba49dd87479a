-- ===== src/Errors.antt =====
-- The error values of the packages under internal/: the exported ones and those that the
-- constructors and methods make in place. `context_done` stands for what `ctx.Err()` returns.
pub data Error : Type 0 where
  context_done : Error
  id_prefix_required generate_id : Error
  begin_transaction commit_transaction : Error
  -- `errors.Join` of the error and of a failed rollback
  rollback_failed : Error → Error
  -- a unique violation that an adapter passes on
  unique_violation : Error
  invalid_currency invalid_settlement_currency : Error
  -- internal/merchant
  merchant_not_found duplicate_merchant merchant_id_required merchant_name_required : Error
  -- internal/payer
  payer_not_found duplicate_payer payer_version_conflict : Error
  payer_id_required available_balance_negative : Error
  reserve_amount_not_positive release_amount_not_positive capture_amount_not_positive : Error
  reserve_currency_mismatch release_currency_mismatch capture_currency_mismatch : Error
  insufficient_available insufficient_held : Error
  -- internal/payment
  payment_not_found duplicate_payment hold_not_found duplicate_hold : Error
  merchant_cannot_create_payments payer_currency_mismatch : Error
  insufficient_available_balance payment_not_capturable authorization_expired : Error
  payment_id_required hold_id_required amount_not_positive hold_amount_not_positive : Error
  expiry_not_after_authorization payment_not_authorized payment_not_expirable payment_not_captured :
      Error
  hold_not_capturable hold_not_releasable : Error
  -- internal/outbox
  event_not_found duplicate_event event_not_claimable event_not_publishable : Error
  event_not_failable aggregate_type_required aggregate_id_required event_type_required : Error
  payload_not_marshalled worker_id_required error_message_required publish_failed : Error
  -- internal/idempotency
  record_not_found duplicate_key request_hash_mismatch expired_idempotency_key : Error
  invalid_key invalid_request_hash invalid_status request_in_progress : Error
  cached_response_not_found cache_unavailable : Error
  -- internal/settlement
  batch_not_found duplicate_batch duplicate_line_item invalid_settlement_window : Error
  invalid_batch_status invalid_line_item_amount batch_id_required lock_not_after_now : Error
  transaction_required null_captured_at : Error
  line_item_id_required fee_negative fee_exceeds_amount : Error
  -- internal/ratelimit
  limiter_unavailable limit_required window_required : Error
  -- internal/idempotency/adapters/redis, internal/outbox/adapters/kafka
  cache_ttl_required broker_required : Error
  -- cmd/paycore-settlement-worker
  window_minutes_required : Error
  unsupported_repository_backend database_url_required unsupported_outbox_publisher : Error

-- The error that `errors.Is` finds in a joined one.
unfoldable pub cause : Error → Error
cause (rollback_failed e) = cause e
cause e = e
