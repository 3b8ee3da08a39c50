-- ===== src/Server/Wire.antt =====
-- The lines of a server's TCP connections: server/src/sender.rs, which turns a line into a message
-- for the actor `Server`, and the lines that server/src/server.rs writes.
use concu_ride.Prelude.{
  String, Option, none, some, [], ◌∷◌, map, string_eq, nat_eq, ◌==◌, if◌then◌else◌,
}
use concu_ride.Prelude.HashMap.{HashMap}
use concu_ride.Common.Json.{Json}
use concu_ride.Common.Message.{
  bind, serialize_message, split_message, deserialize_field, of_pair, as_pair, of_vec,
}
use concu_ride.Server.{
  Addr, DriverInfo, UpdateNetworkState, TcpOut, drivers, identificador, pong, reconnect_driver,
}
use concu_ride.Server.Registry.Requests.{Request}
use concu_ride.Server.Replication.{NewServerConnection}

-- A message that `TcpSender` sends to the server.
pub data Inbound : Type 0 where
  new_server_connection : NewServerConnection → Inbound
  request : Request → Inbound
  pong_to : Addr → Inbound

module _ (j : Json) where
  open j use {of_u64, as_u64, of_str, as_str, of_object, of_array, of_u64_map}

  -- The arms of `match message_name.as_str()`; `addr` is the connection itself.
  unfoldable pub dispatch : Addr → String → j.Value → Option Inbound
  dispatch addr message_name payload =
      if message_name == "new_replica"
      then bind (deserialize_field j as_u64 payload "id") (λ id.
        bind (deserialize_field j as_str payload "socket") (λ socket.
          some (new_server_connection (record { addr = addr; socket = socket; id = id }))))
      else if message_name == "login"
      then bind (deserialize_field j as_str payload "name")
          (λ name. some (request (Request.passenger_login (record { name = name; addr = addr }))))
      else if message_name == "get_drivers"
      then some (request (Request.get_drivers addr))
      else if message_name == "new_driver"
      then bind (deserialize_field j (as_pair j) payload "position") (λ position.
        bind (deserialize_field j as_str payload "socket") (λ socket.
          bind (deserialize_field j as_str payload "name") (λ name. some (
            request (
              Request.new_driver (record { name = name; socket = socket; position = position }))))))
      else if message_name == "busy_driver"
      then bind (deserialize_field j as_str payload "name")
          (λ name. some (request (Request.busy_driver name)))
      else if message_name == "available_driver"
      then bind (deserialize_field j (as_pair j) payload "position") (λ new_position.
        bind (deserialize_field j as_str payload "name") (λ name.
          some (
            request (Request.update_driver (record { new_position = new_position; name = name })))))
      else if message_name == "ping"
      then some (pong_to addr)
      else if message_name == "reconnect_driver"
      then bind (deserialize_field j as_u64 payload "id_passenger") (λ id_passenger.
        bind (deserialize_field j as_str payload "socket") (λ socket.
          bind (deserialize_field j as_str payload "name") (λ name. some (
            request (
              Request.reconnect_driver
                (record { id_passenger = id_passenger; socket = socket; name = name }))))))
      else none

  -- `read` is the line, or `none` where it could not be read.
  unfoldable pub receive : Addr → Option j.Text → Option Inbound
  unfolding dispatch
  receive addr none = none
  receive addr (some line) =
      let (message_name, payload) = split_message j line in dispatch addr message_name payload

  unfoldable pub driver_fields : DriverInfo → HashMap String j.Value
  driver_fields d =
      ("name", of_str d.name)
      ∷ ("socket", of_str d.socket)
      ∷ ("id", of_u64 d.id)
      ∷ ("position", of_pair j d.position)
      ∷ []

  unfoldable pub of_driver : DriverInfo → j.Value
  unfolding driver_fields
  of_driver d = of_object (driver_fields d)

  -- The values of a `HashMap<String, T>` as values of JSON.
  abbrev pub of_values : {A : Type 0} → (A → j.Value) → HashMap String A → HashMap String j.Value
  of_values to_value m = map (λ (k, a). (k, to_value a)) m

  unfoldable pub state_fields : UpdateNetworkState → HashMap String j.Value
  unfolding of_driver
  state_fields s =
      ("ids_count", of_u64 s.ids_count)
      ∷ ("drivers", of_object (of_values of_driver s.drivers))
      ∷ ("busy_drivers", of_object (of_values of_driver s.busy_drivers))
      ∷ ("passengers", of_object (of_values of_u64 s.passengers))
      ∷ ("udp_sockets_replicas", of_u64_map s.udp_sockets_replicas)
      ∷ ("disconnected_servers", of_vec j of_u64 s.disconnected_servers)
      ∷ []

  -- The lines that the handlers of the server write.
  unfoldable pub encode : TcpOut → j.Text
  unfolding of_driver state_fields
  encode (drivers drivers_info) =
      serialize_message j "drivers"
        (some (of_object (("drivers_info", of_vec j of_driver drivers_info) ∷ [])))
  encode (identificador id) =
      serialize_message j "identificador" (some (of_object (("id", of_u64 id) ∷ [])))
  encode (pong state) = serialize_message j "pong" (some (of_object (state_fields state)))
  encode (reconnect_driver socket) =
      serialize_message j "reconnect_driver" (some (of_object (("socket", of_str socket) ∷ [])))
