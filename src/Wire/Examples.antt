-- ===== src/Wire/Examples.antt =====
-- Lines on their way, with trees for serde_json.
mod Conversation
mod Stream
mod Joining
mod Service
mod Reports
mod Paying
use concu_ride.Prelude.{◌≡◌, refl, some, none, [], ◌∷◌, leb, if◌then◌else◌}
use concu_ride.Prelude.HashMap.{get}
use concu_ride.Common.Json.Tree.{tree_json, tree_json-IsJson}
use concu_ride.Driver
use concu_ride.Passenger
use concu_ride.Passenger.Wire.{encode_payment}
use concu_ride.Passenger.GatewayConnection
use concu_ride.Passenger.GatewayConnection.{
  payment_authorized, request_drive, payment_deny, set_passenger,
}
use concu_ride.Gateway.Wire as GatewayWire
use concu_ride.Server
use concu_ride.Server.LeaderConnection.{ServerConnection}
use concu_ride.Wire.ToReplica.{IsMaps}
use concu_ride.Wire.Payment.{authorize_round}

abbrev free : Driver.ServerMsg
free = Driver.available_driver "ana" (5, 5)

abbrev state : Server.UpdateNetworkState
state = record {
  ids_count = 2;
  drivers =
      ("ana", record { name = "ana"; socket = "127.0.0.1:7001"; id = 1; position = (3, 4) }) ∷ [];
  busy_drivers = [];
  passengers = ("leo", 2) ∷ [];
  udp_sockets_replicas = (3, "127.0.0.1:5003") ∷ [];
  disconnected_servers = 4 ∷ [];
}

state-IsMaps : IsMaps state
unfolding get
state-IsMaps = record {
  drivers = (refl, tt);
  busy_drivers = tt;
  passengers = (refl, tt);
  udp_sockets_replicas = (refl, tt);
}

abbrev leader_connection : ServerConnection
leader_connection = record { addr = 1; write = some 2; response_time = 1000 }

abbrev connection : GatewayConnection.GatewayConnection
connection = record { passenger = none; write = some 3 }

authorize_round_example :
    (line : tree_json.Text) × (GatewayWire.handle tree_json 0
        (some (encode_payment tree_json Passenger.authorize_payment))
      ≡ some line)
    × (GatewayConnection.receive tree_json (set_passenger connection 6) (some line)
        ≡ (if leb 1 0 then payment_authorized 6 ∷ request_drive 6 ∷ [] else payment_deny 6 ∷ []))
authorize_round_example = authorize_round tree_json tree_json-IsJson connection 6 0
