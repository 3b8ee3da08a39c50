-- ===== src/Wire/Examples/Stream.antt =====
-- Connections that break down after some messages.
use concu_ride.Prelude.{none, some, List, [], ◌∷◌}
use concu_ride.Common.Json.Tree.{tree_json, tree_json-IsJson}
use concu_ride.Common.Tcp.{Written, all, failed, stopped, panicked}
use concu_ride.Common.Tcp.Runs.{run, messages}
use concu_ride.Common.Tcp.Arrivals.{texts, Arrives}
use concu_ride.Common.Tcp.Symbols.{tree_bytes, tree_bytes-IsBytes}
use concu_ride.Driver
use concu_ride.Driver.Sending as DriverSending
use concu_ride.Driver.Wire.{encode as driver_line}
use concu_ride.Gateway.Sending as GatewaySending
use concu_ride.Passenger.GatewayConnection
use concu_ride.Passenger.Sending as PassengerSending
use concu_ride.Server
use concu_ride.Server.LeaderConnection
use concu_ride.Server.Sending as ServerSending
use concu_ride.Server.Wire as ServerWire
use concu_ride.Wire.Connections.{Writes, connections_write}
use concu_ride.Wire.Examples.{free, state, state-IsMaps, leader_connection}
use concu_ride.Wire.Stream.{requests_arrive, states_arrive}
use concu_ride.Wire.ToServer.{driver_request}

abbrev driver : DriverSending.TcpSender
driver = record { write = some 4; addr = "127.0.0.1:6001" }

-- The third write fails after one symbol.
abbrev sent : List (Driver.ServerMsg × Written)
sent = (Driver.busy_driver "ana", all) ∷ (free, all) ∷ (free, failed 1) ∷ (free, all) ∷ []

requests_arrive_example :
    Arrives tree_bytes driver
      (stopped (record driver { write = none }))
      (driver_line tree_json)
      (ServerWire.receive tree_json 9)
      (λ m. some (ServerWire.request (driver_request m)))
      sent
      (run DriverSending.handle_tcp_message driver
        (messages tree_bytes (texts tree_bytes (driver_line tree_json) sent)))
requests_arrive_example =
    requests_arrive tree_bytes tree_json-IsJson tree_bytes-IsBytes driver 4 9 sent

abbrev leader : ServerSending.TcpSender
leader = record { write = some 5; addr = "127.0.0.1:6002"; server_addr = 1 }

abbrev pongs : List (Server.UpdateNetworkState × Written)
pongs = (state, all) ∷ (state, failed 0) ∷ []

states_arrive_example :
    Arrives tree_bytes leader panicked
      (λ s. ServerWire.encode tree_json (Server.pong s))
      (λ line. (LeaderConnection.receive tree_json leader_connection 3000 line).1)
      (λ s. some (LeaderConnection.update_network_state 1 s))
      pongs
      (run ServerSending.handle_tcp_message leader (
        messages tree_bytes
          (texts tree_bytes (λ s. ServerWire.encode tree_json (Server.pong s)) pongs)))
states_arrive_example =
    states_arrive tree_bytes tree_json-IsJson tree_bytes-IsBytes leader 5 leader_connection 3000
      pongs (state-IsMaps, tt)

abbrev lines : List (tree_json.Text × Written)
lines = (none, all) ∷ (none, failed 1) ∷ []

abbrev passenger : PassengerSending.TcpSender
passenger = record { write = some 4; addr = "127.0.0.1:6003" }

abbrev gateway : GatewayConnection.GatewayConnection
gateway = record { passenger = some 2; write = some 4 }

abbrev rider : DriverSending.PassengerConnection
rider = record { write = some 4; addr = "127.0.0.1:6004"; driver_addr = 3 }

abbrev client : GatewaySending.TcpConnection
client = record { write = some 4; addr = "127.0.0.1:6005" }

abbrev server : ServerSending.TcpSender
server = record leader { write = some 4 }

abbrev replica : LeaderConnection.ServerConnection
replica = record leader_connection { write = some 4 }

connections_write_example :
    Writes tree_bytes tree_bytes-IsBytes lines DriverSending.handle_tcp_message driver
      (stopped (record driver { write = none }))
    × Writes tree_bytes tree_bytes-IsBytes lines ServerSending.handle_tcp_message server panicked
    × Writes tree_bytes tree_bytes-IsBytes lines LeaderConnection.handle_tcp_message replica
        panicked
    × Writes tree_bytes tree_bytes-IsBytes lines PassengerSending.handle_tcp_message passenger
        panicked
    × Writes tree_bytes tree_bytes-IsBytes lines GatewayConnection.handle_tcp_message gateway
        panicked
    × Writes tree_bytes tree_bytes-IsBytes lines DriverSending.handle_passenger_message rider
        panicked
    × Writes tree_bytes tree_bytes-IsBytes lines GatewaySending.handle_tcp_message client panicked
connections_write_example =
    connections_write tree_bytes tree_bytes-IsBytes lines 4 driver server replica passenger gateway
      rider client (tt, (tt, tt))
