-- ===== src/Driver/Wire.antt =====
-- The lines of a driver's TCP connections: driver/src/passenger_connection.rs, which turns a line
-- of a passenger into a message for the actor `Driver`, and the lines that driver/src/driver.rs
-- writes to the server and to passengers.
use concu_ride.Prelude.{ℕ, String, Option, none, some, [], ◌∷◌, string_eq, ◌==◌, if◌then◌else◌}
use concu_ride.Ride.{Position}
use concu_ride.Common.Json.{Json}
use concu_ride.Common.Message.{
  bind, serialize_message, split_message, deserialize_field, of_pair, as_pair,
}
use concu_ride.Driver.{
  Addr, ServerMsg, PassengerMsg, new_driver, busy_driver, available_driver, reconnect_driver,
  refuse, ok, driver_arrived, recover_response,
}
use concu_ride.Driver.Handlers.{RequestRide}

-- A message that `PassengerConnection` sends to the driver.
pub data Inbound : Type 0 where
  request_ride : RequestRide → Inbound
  passenger_recover : ℕ → Addr → Inbound
  reconnect_passenger : Addr → Position → Inbound

module _ (j : Json) where
  open j use {of_bool, of_u64, as_u64, of_str, of_object, null}

  -- The arms of `match message_name.as_str()`; `addr` is the connection itself.
  unfoldable pub dispatch : Addr → String → j.Value → Option Inbound
  dispatch addr message_name payload =
      if message_name == "request_ride"
      then bind (deserialize_field j as_u64 payload "id") (λ id_passenger.
        bind (deserialize_field j (as_pair j) payload "origin") (λ origin.
          bind (deserialize_field j (as_pair j) payload "destination") (λ destination. some (
            request_ride (record {
              id_passenger = id_passenger;
              origin = origin;
              destination = destination;
              addr = addr;
            })))))
      else if message_name == "recover"
      then bind (deserialize_field j as_u64 payload "id_passenger")
          (λ id_passenger. some (passenger_recover id_passenger addr))
      else if message_name == "reconnect_driver"
      then bind (deserialize_field j (as_pair j) payload "position")
          (λ position. some (reconnect_passenger addr position))
      else none

  -- `read` is the line, or `none` where it could not be read.
  unfoldable pub receive : Addr → Option j.Text → Option Inbound
  unfolding dispatch
  receive addr none = none
  receive addr (some line) =
      let (message_name, payload) = split_message j line in dispatch addr message_name payload

  -- The lines to the server.
  unfoldable pub encode : ServerMsg → j.Text
  encode (new_driver socket name position) = serialize_message j "new_driver" (
      some (
        of_object (
          ("socket", of_str socket)
          ∷ ("name", of_str name)
          ∷ ("position", of_pair j position)
          ∷ [])))
  encode (busy_driver name) =
      serialize_message j "busy_driver" (some (of_object (("name", of_str name) ∷ [])))
  encode (available_driver name position) =
      serialize_message j "available_driver"
        (some (of_object (("name", of_str name) ∷ ("position", of_pair j position) ∷ [])))
  encode (reconnect_driver id socket name) = serialize_message j "reconnect_driver" (
      some (
        of_object
          (("id_passenger", of_u64 id) ∷ ("socket", of_str socket) ∷ ("name", of_str name) ∷ [])))

  -- The lines to a passenger.
  unfoldable pub encode_answer : PassengerMsg → j.Text
  encode_answer refuse = serialize_message j "no" (some null)
  encode_answer (ok driver_socket) =
      serialize_message j "ok" (some (of_object (("driver_socket", of_str driver_socket) ∷ [])))
  encode_answer driver_arrived = serialize_message j "driver_arrived" (some null)
  encode_answer (recover_response picked_up position end_ride) =
      serialize_message j "recover_response" (
        some (
          of_object (
            ("picked_up", of_bool picked_up)
            ∷ ("position", of_pair j position)
            ∷ ("end_ride", of_bool end_ride)
            ∷ [])))
