-- ===== src/Passenger/Wire.antt =====
-- The lines of a passenger's TCP connections: passenger/src/receiver.rs, which turns a line of the
-- server or of a driver into a message for the actor `Passenger`, and the lines that
-- passenger/src/passenger.rs writes.
use concu_ride.Prelude.{
  ℕ, String, Option, none, some, List, [], ◌∷◌, string_eq, ◌==◌, if◌then◌else◌,
}
use concu_ride.Common.Json.{Json}
use concu_ride.Common.Message.{
  bind, ok, and_then, Deserialized, err, serialize_message, split_message, deserialize_field,
  of_pair, as_pair, as_vec,
}
use concu_ride.Passenger.{
  DriverInfo, ServerMsg, DriverMsg, GatewayMsg, get_drivers, login, request_ride, recover,
  authorize_payment, confirm_payment,
}
use concu_ride.Passenger.Handlers.{RecoverResponse}

-- A message that `TcpReceiver` sends to the passenger.
pub data Inbound : Type 0 where
  drivers : List DriverInfo → Inbound
  complete_login : ℕ → Inbound
  ride_accepted : String → Inbound
  driver_arrived keep_looking : Inbound
  recover_response : RecoverResponse → Inbound
  reconnect_driver : String → Inbound

module _ (j : Json) where
  open j use {of_u64, as_u64, of_str, as_str, as_bool, of_object}

  abbrev to_option : {A : Type 0} → Deserialized A → Option A
  to_option (ok a) = some a
  to_option (err e) = none

  -- What serde derives for `DriverInfo`: its two fields are read, others are left alone.
  unfoldable pub as_driver : j.Value → Option DriverInfo
  as_driver v = and_then (to_option (deserialize_field j as_str v "socket")) (λ socket.
      and_then (to_option (deserialize_field j (as_pair j) v "position"))
        (λ position. some (record { socket = socket; position = position })))

  -- The arms of `match message_name.as_str()`.
  unfoldable pub dispatch : String → j.Value → Option Inbound
  unfolding as_driver
  dispatch message_name payload =
      if message_name == "drivers"
      then bind (deserialize_field j (as_vec j as_driver) payload "drivers_info")
          (λ drivers_info. some (drivers drivers_info))
      else if message_name == "identificador"
      then bind (deserialize_field j as_u64 payload "id") (λ id. some (complete_login id))
      else if message_name == "ok"
      then bind (deserialize_field j as_str payload "driver_socket")
          (λ driver_socket. some (ride_accepted driver_socket))
      else if message_name == "driver_arrived"
      then some driver_arrived
      else if message_name == "no"
      then some keep_looking
      else if message_name == "recover_response"
      then bind (deserialize_field j as_bool payload "picked_up") (λ picked_up.
        bind (deserialize_field j (as_pair j) payload "position") (λ position.
          bind (deserialize_field j as_bool payload "end_ride") (λ end_ride. some (
            recover_response
              (record { picked_up = picked_up; position = position; end_ride = end_ride })))))
      else if message_name == "reconnect_driver"
      then bind (deserialize_field j as_str payload "socket")
          (λ socket. some (reconnect_driver socket))
      else none

  -- `read` is the line, or `none` where it could not be read.
  unfoldable pub receive : Option j.Text → Option Inbound
  unfolding dispatch
  receive none = none
  receive (some line) =
      let (message_name, payload) = split_message j line in dispatch message_name payload

  -- The lines to the server.
  unfoldable pub encode : ServerMsg → j.Text
  encode (get_drivers id) =
      serialize_message j "get_drivers" (some (of_object (("id", of_u64 id) ∷ [])))
  encode (login name) = serialize_message j "login" (some (of_object (("name", of_str name) ∷ [])))

  -- The lines to a driver.
  unfoldable pub encode_ride : DriverMsg → j.Text
  encode_ride (request_ride id origin destination) = serialize_message j "request_ride" (
      some (
        of_object (
          ("id", of_u64 id)
          ∷ ("origin", of_pair j origin)
          ∷ ("destination", of_pair j destination)
          ∷ [])))
  encode_ride (DriverMsg.reconnect_driver position) =
      serialize_message j "reconnect_driver"
        (some (of_object (("position", of_pair j position) ∷ [])))
  encode_ride (recover id) =
      serialize_message j "recover" (some (of_object (("id_passenger", of_u64 id) ∷ [])))

  -- The lines to the gateway.
  unfoldable pub encode_payment : GatewayMsg → j.Text
  encode_payment authorize_payment = serialize_message j "AuthorizePayment" (some (of_object []))
  encode_payment (confirm_payment name) =
      serialize_message j "ConfirmPayment" (some (of_object (("name", of_str name) ∷ [])))
