-- ===== src/Server/LeaderConnection.antt =====
-- The connection of a replica to the leader: server/src/server_connection.rs. The clock is an
-- argument, in milliseconds.
pub mod Silence
use concu_ride.Prelude.{
  ℕ, ◌-◌, ◌*◌, String, Option, none, some, List, [], ◌∷◌, string_eq, ◌==◌, if◌then◌else◌, ltb,
}
use concu_ride.Prelude.HashMap.{HashMap}
use concu_ride.Common.Json.{Json}
use concu_ride.Common.Tcp.{WriteHalf, Written, Handled, write_or_panic}
use concu_ride.Common.Message.{
  Deserialized, ok, err, bind, and_then, serialize_message, split_message, deserialize_field,
  as_pair, as_vec,
}
use concu_ride.Server.{Addr, DriverInfo, UpdateNetworkState}

-- `MAX_RESPONSE_TIME`, in seconds
abbrev pub max_response_time : ℕ
max_response_time = 5

-- `response_time` is the time that `elapsed` counts from.
pub record ServerConnection : Type 0 where
  pub addr : Addr
  pub write : Option WriteHalf
  pub response_time : ℕ

-- `TcpMessage`
unfoldable pub handle_tcp_message :
    {A : Type 0} → ServerConnection → List A → Written → List A × Handled ServerConnection
unfolding write_or_panic
handle_tcp_message c = write_or_panic (λ write. record c { write = write }) c.write

pub data Effect (j : Json) : Type 0 where
  start_election : Addr → Effect j
  update_network_state : Addr → UpdateNetworkState → Effect j
  to_leader : j.Text → Effect j

module _ (j : Json) where
  open j use {null, as_u64, as_str, as_object, as_u64_map}

  unfoldable pub ping : ServerConnection → ℕ → ServerConnection × List (Effect j)
  ping c now = (
    record c { response_time = now },
    (if ltb (max_response_time * 1000) (now - c.response_time)
        then start_election c.addr ∷ []
        else to_leader (serialize_message j "ping" (some null)) ∷ []),
  )

  abbrev pub to_option : {A : Type 0} → Deserialized A → Option A
  to_option (ok a) = some a
  to_option (err e) = none

  -- What serde derives for `DriverInfo`.
  unfoldable pub as_driver : j.Value → Option DriverInfo
  as_driver v = and_then (to_option (deserialize_field j as_str v "name")) (λ name.
      and_then (to_option (deserialize_field j as_str v "socket")) (λ socket.
        and_then (to_option (deserialize_field j as_u64 v "id")) (λ id.
          and_then (to_option (deserialize_field j (as_pair j) v "position")) (λ position.
            some (record { name = name; socket = socket; id = id; position = position })))))

  -- The values of a `HashMap<String, T>`.
  unfoldable pub each_value :
      {A : Type 0} → (j.Value → Option A) → HashMap String j.Value → Option (HashMap String A)
  each_value from_value [] = some []
  each_value from_value ((k, v) ∷ m) =
      let rest = each_value from_value m in
      and_then (from_value v) (λ a. and_then rest (λ others. some ((k, a) ∷ others)))

  unfoldable pub as_map : {A : Type 0} → (j.Value → Option A) → j.Value → Option (HashMap String A)
  unfolding each_value
  as_map from_value v = and_then (as_object v) (each_value from_value)

  -- The arms of `match message_name.as_str()`.
  unfoldable pub dispatch : Addr → String → j.Value → Option (Effect j)
  dispatch addr message_name payload =
      if message_name == "pong"
      then bind (deserialize_field j as_u64 payload "ids_count") (λ ids_count.
        bind (deserialize_field j (as_map as_driver) payload "drivers") (λ drivers.
          bind (deserialize_field j (as_map as_driver) payload "busy_drivers") (λ busy_drivers.
            bind (deserialize_field j (as_map as_u64) payload "passengers") (λ passengers.
              bind (deserialize_field j as_u64_map payload "udp_sockets_replicas")
                (λ udp_sockets_replicas.
                  bind (deserialize_field j (as_vec j as_u64) payload "disconnected_servers")
                    (λ disconnected_servers. some (
                      update_network_state addr (record {
                        ids_count = ids_count;
                        drivers = drivers;
                        busy_drivers = busy_drivers;
                        passengers = passengers;
                        udp_sockets_replicas = udp_sockets_replicas;
                        disconnected_servers = disconnected_servers;
                      }))))))))
      else none

  -- `read` is the line, or `none` where it could not be read.
  unfoldable pub receive :
      ServerConnection → ℕ → Option j.Text → ServerConnection × Option (Effect j)
  unfolding dispatch
  receive c now none = (record c { response_time = now }, none)
  receive c now (some line) =
      let (message_name, payload) = split_message j line in
      (record c { response_time = now }, dispatch c.addr message_name payload)
