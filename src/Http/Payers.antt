-- ===== src/Http/Payers.antt =====
-- The payer handler (internal/payer/handler.go). A body that cannot be read does not decode.
use paycore.Base.{ℕ, Option, none, some, [], ◌∷◌, map, ok, err, if◌then◌else◌}
use paycore.Base.Int.{pos}
use paycore.Base.Text.{codes, text_eq}
use paycore.Database.{Columns}
use paycore.Currency.{Unicode}
use paycore.Errors.{Error, cause, duplicate_payer, payer_not_found}
use paycore.Http.{
  Request, Response, Encoding, Fields, object, array, text, number, write, write_error_map,
  method_not_allowed, post, get, CreatePayerRequest,
}
use paycore.Idempotency.{Bytes}
use paycore.Payer.{Payer}
use paycore.Payer.Service.{serve_create_payer, serve_list_payers}
use paycore.World.{World}

module _ (enc : Encoding) where
  unfoldable pub payer_response : Payer → Fields
  payer_response p =
      (codes "id", text p.id)
      ∷ (codes "available_balance_minor", number p.available)
      ∷ (codes "held_balance_minor", number p.held)
      ∷ (codes "currency", text p.currency)
      ∷ (codes "version", number p.version)
      ∷ (codes "created_at", text (enc.format_time p.created_at))
      ∷ (codes "updated_at", text (enc.format_time p.updated_at))
      ∷ []

  payer_error_of : Error → Error → Response
  payer_error_of e duplicate_payer =
      write_error_map enc (pos 409) (codes "PAYER_ALREADY_EXISTS") (codes "Payer already exists")
  payer_error_of e payer_not_found =
      write_error_map enc (pos 404) (codes "PAYER_NOT_FOUND") (codes "Payer not found")
  payer_error_of e _ = write_error_map enc (pos 400) (codes "INVALID_PAYER") (enc.error_text e)

  unfoldable pub payer_error_response : Error → Response
  unfolding payer_error_of
  payer_error_response e = payer_error_of e (cause e)

  decoded_payer : Option Bytes → Option CreatePayerRequest
  decoded_payer none = none
  decoded_payer (some body) = enc.decode_payer body

  unfoldable pub handle_create_payer :
      ⦃u : Unicode⦄ → ⦃c : Columns⦄ → ℕ → Request → World → Response × World
  unfolding decoded_payer
  handle_create_payer now q w = elim (decoded_payer q.body) [
    | none ↦ (
      write_error_map enc (pos 400) (codes "INVALID_JSON")
          (codes "Request body must be valid JSON"),
      w,
    )
    | some x ↦
        let (r, w') =
          serve_create_payer now
            (record { id = x.id; available = x.available_balance; currency = x.currency }) w in
        elim r [
          | ok p ↦ (write enc (pos 201) (object (payer_response p)), w')
          | err e ↦ (payer_error_response e, w')
        ]
  ]

  unfoldable pub handle_list_payers : ⦃c : Columns⦄ → World → Response × World
  handle_list_payers w =
      let (r, w') = serve_list_payers w in
      elim r [
        | ok ps ↦ (write enc (pos 200) (array (map payer_response ps)), w')
        | err e ↦ (
          write_error_map enc (pos 500) (codes "PAYER_LIST_FAILED") (codes "Failed to list payers"),
          w',
        )
      ]

  unfoldable pub handle_payers :
      ⦃u : Unicode⦄ → ⦃c : Columns⦄ → ℕ → Request → World → Response × World
  handle_payers now q w =
      if text_eq q.method post
      then handle_create_payer now q w
      else if text_eq q.method get
      then handle_list_payers w
      else (method_not_allowed enc, w)
