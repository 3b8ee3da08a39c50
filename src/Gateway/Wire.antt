-- ===== src/Gateway/Wire.antt =====
-- The lines of the gateway: the stream handler of gateway/src/connection.rs, and the lines that it
-- and gateway/src/gateway.rs write.
use concu_ride.Prelude.{ℕ, String, Option, none, some, [], ◌∷◌, string_eq, ◌==◌, if◌then◌else◌}
use concu_ride.Common.Json.{Json}
use concu_ride.Common.Message.{
  Deserialized, ok, err, and_then, serialize_message, split_message, deserialize_field,
}
use concu_ride.Gateway.{
  TcpOut, identificador, payment_authorization_status, pago_confirmado, Line, authorize_payment_msg,
  confirm_payment_msg, invalid, answer,
}

module _ (j : Json) where
  open j use {null, of_bool, of_u64, as_str, of_object}

  abbrev pub to_option : {A : Type 0} → Deserialized A → Option A
  to_option (ok a) = some a
  to_option (err e) = none

  -- A line by its name and payload.
  unfoldable pub line_of : String → j.Value → Line
  line_of message_name payload =
      if message_name == "AuthorizePayment"
      then authorize_payment_msg
      else if message_name == "ConfirmPayment"
      then confirm_payment_msg (to_option (deserialize_field j as_str payload "name"))
      else invalid

  -- The line that answers the passenger.
  unfoldable pub encode : TcpOut → j.Text
  encode (identificador id) =
      serialize_message j "identificador" (some (of_object (("id", of_u64 id) ∷ [])))
  encode (payment_authorization_status is_authorized) =
      serialize_message j "PaymentAuthorizationStatus"
        (some (of_object (("is_authorized", of_bool is_authorized) ∷ [])))
  encode pago_confirmado = serialize_message j "pago_confirmado" (some null)

  -- The handler: `read` is the line, or `none` where it could not be read, and `draw` what the
  -- random number generator gives.
  unfoldable pub handle : ℕ → Option j.Text → Option j.Text
  unfolding line_of encode
  handle draw none = none
  handle draw (some line) =
      let (message_name, payload) = split_message j line in
      and_then (answer draw (line_of message_name payload)) (λ out. some (encode out))
