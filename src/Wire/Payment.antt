-- ===== src/Wire/Payment.antt =====
-- A payment: the passenger's lines at the gateway, and the gateway's answers at the passenger.
use concu_ride.Prelude.{
  ℕ, String, ◌≡◌, refl, ap, ◌∙◌, Bool, some, [], ◌∷◌, string_eq, leb, if◌then◌else◌,
}
use concu_ride.Prelude.HashMap.{HashMap, get}
use concu_ride.Common.Json.{Json, IsJson}
use concu_ride.Common.Message.{and_then, serialize_message, split_message-serialize_message}
use concu_ride.Common.Message.Fields.{str_field, bool_field}
use concu_ride.Gateway.{answer, authorize_payment}
use concu_ride.Gateway
use concu_ride.Gateway.Wire.{handle, line_of, encode}
use concu_ride.Passenger
use concu_ride.Passenger.{Addr}
use concu_ride.Passenger.Wire.{encode_payment}
use concu_ride.Passenger.GatewayConnection.{
  payment_authorized, request_drive, payment_deny, set_passenger, decide, receive, dispatch,
  GatewayConnection,
}

module _ (j : Json) (laws : IsJson j) where
  asked :
      (draw : ℕ) (name : String) (payload : j.Value)
      → handle j draw (some (serialize_message j name (some payload)))
        ≡ and_then (answer draw (line_of j name payload)) (λ out. some (encode j out))
  unfolding handle
  asked draw name payload =
      ap
        (λ (r : String × j.Value).
          and_then (answer draw (line_of j r.0 r.1)) (λ out. some (encode j out)))
        (split_message-serialize_message j laws name payload)

  answered :
      (c : GatewayConnection) (name : String) (payload : j.Value)
      → receive j c (some (serialize_message j name (some payload)))
        ≡ dispatch j c.passenger name payload
  unfolding receive
  answered c name payload =
      ap (λ (r : String × j.Value). dispatch j c.passenger r.0 r.1)
        (split_message-serialize_message j laws name payload)

  authorize_answer :
      (draw : ℕ)
      → handle j draw (some (encode_payment j Passenger.authorize_payment))
        ≡ some (encode j (Gateway.payment_authorization_status (authorize_payment draw)))
  unfolding encode_payment line_of answer
  authorize_answer draw = asked draw "AuthorizePayment" (j.of_object [])

  status_arrives :
      (c : GatewayConnection) (is_authorized : Bool)
      → receive j c (some (encode j (Gateway.payment_authorization_status is_authorized)))
        ≡ decide c.passenger is_authorized
  unfolding encode dispatch get
  status_arrives c is_authorized =
      let fields : HashMap String j.Value = ("is_authorized", j.of_bool is_authorized) ∷ [] in
      answered c "PaymentAuthorizationStatus" (j.of_object fields)
      ∙ rw (bool_field j laws fields (refl, tt) "is_authorized" is_authorized refl) refl

  -- A passenger that asks for its payment to be authorised is answered by one line, by which its
  -- connection tells it that the payment is authorised and that it may request the ride where the
  -- draw is at least 1, and else that the payment is denied.
  pub authorize_round :
      (c : GatewayConnection) (passenger : Addr) (draw : ℕ)
      → (line : j.Text) × (handle j draw (some (encode_payment j Passenger.authorize_payment))
          ≡ some line)
        × (receive j (set_passenger c passenger) (some line) ≡ (
            if leb 1 draw
            then payment_authorized passenger ∷ request_drive passenger ∷ []
            else payment_deny passenger ∷ []))
  unfolding set_passenger decide authorize_payment
  authorize_round c passenger draw = (
    encode j (Gateway.payment_authorization_status (authorize_payment draw)),
    authorize_answer draw,
    status_arrives (record c { passenger = some passenger }) (authorize_payment draw),
  )

  -- A passenger that confirms its payment is answered by one line, of which its connection tells
  -- the passenger nothing.
  pub confirm_round :
      (c : GatewayConnection) (draw : ℕ) (name : String)
      → (line : j.Text) × (handle j draw (some (encode_payment j (Passenger.confirm_payment name)))
          ≡ some line)
        × (receive j c (some line) ≡ [])
  unfolding encode_payment line_of answer encode dispatch get
  confirm_round c draw name =
      let fields : HashMap String j.Value = ("name", j.of_str name) ∷ [] in
      (
        encode j Gateway.pago_confirmado,
        asked draw "ConfirmPayment" (j.of_object fields)
            ∙ rw (str_field j laws fields (refl, tt) "name" name refl) refl,
        answered c "pago_confirmado" j.null,
      )
