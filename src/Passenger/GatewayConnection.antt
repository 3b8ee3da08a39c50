-- ===== src/Passenger/GatewayConnection.antt =====
-- The passenger's connection to the gateway: passenger/src/gateway_connection.rs.
use concu_ride.Prelude.{
  String, Bool, Option, none, some, List, [], ◌∷◌, string_eq, ◌==◌, if◌then◌else◌,
}
use concu_ride.Common.Json.{Json}
use concu_ride.Common.Tcp.{WriteHalf, Written, Handled, write_or_panic}
use concu_ride.Common.Message.{Deserialized, ok, err, split_message, deserialize_field}
use concu_ride.Passenger.{Addr}

pub record GatewayConnection : Type 0 where
  pub passenger : Option Addr
  pub write : Option WriteHalf

-- `TcpMessage`
unfoldable pub handle_tcp_message :
    {A : Type 0} → GatewayConnection → List A → Written → List A × Handled GatewayConnection
unfolding write_or_panic
handle_tcp_message c = write_or_panic (λ write. record c { write = write }) c.write

-- What it sends to the passenger.
pub data Effect : Type 0 where
  payment_authorized request_drive payment_deny : Addr → Effect

unfoldable pub set_passenger : GatewayConnection → Addr → GatewayConnection
set_passenger c passenger = record c { passenger = some passenger }

-- The answer to `PaymentAuthorizationStatus`.
unfoldable pub decide : Option Addr → Bool → List Effect
decide none is_authorized = []
decide (some passenger) is_authorized =
    if is_authorized
    then payment_authorized passenger ∷ request_drive passenger ∷ []
    else payment_deny passenger ∷ []

module _ (j : Json) where
  status_of : Option Addr → Deserialized Bool → List Effect
  unfolding decide
  status_of passenger (err e) = []
  status_of passenger (ok is_authorized) = decide passenger is_authorized

  -- The arms of `match message_name.as_str()`.
  unfoldable pub dispatch : Option Addr → String → j.Value → List Effect
  unfolding status_of
  dispatch passenger message_name payload =
      if message_name == "PaymentAuthorizationStatus"
      then status_of passenger (deserialize_field j j.as_bool payload "is_authorized")
      else []

  -- `read` is the line, or `none` where it could not be read.
  unfoldable pub receive : GatewayConnection → Option j.Text → List Effect
  unfolding dispatch
  receive c none = []
  receive c (some line) =
      let (message_name, payload) = split_message j line in
      dispatch c.passenger message_name payload
