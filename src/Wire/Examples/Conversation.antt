-- ===== src/Wire/Examples/Conversation.antt =====
-- A passenger and a leader that has just started, with trees for serde_json.
use concu_ride.Prelude.{ℕ, ◌≡◌, ◌↔◌, false, some, none, List, [], ◌∷◌, Has, string_eq, nat_eq}
use concu_ride.Prelude.HashMap.{get}
use concu_ride.Common.Json.Tree.{tree_json, tree_json-IsJson}
use concu_ride.Passenger
use concu_ride.Passenger.{DriverInfo}
use concu_ride.Passenger.Handlers.{handle_complete_login}
use concu_ride.Passenger.Wire.{encode as passenger_line, drivers, complete_login, receive}
use concu_ride.Server.{to_client, TcpOut}
use concu_ride.Server as Data
use concu_ride.Server.Registry.Requests.{Request, handle}
use concu_ride.Server.Startup.{leader_server}
use concu_ride.Server.Startup.Initial.{leader_server-IsValid}
use concu_ride.Server.Wire.{encode as server_line}
use concu_ride.Server.Wire as ServerWire
use concu_ride.Wire.ToPassenger.{offer}
use concu_ride.Wire.Conversation.{offers_arrive, login_arrives}

offers_arrive_example :
    let s = leader_server 5 in
    (r : Request) × (out : TcpOut) × (offered : List DriverInfo) × (ServerWire.receive tree_json 9
        (some (passenger_line tree_json (Passenger.get_drivers 2)))
      ≡ some (ServerWire.request r))
    × (handle s r ≡ (s, to_client 9 out ∷ []))
    × (receive tree_json (some (server_line tree_json out)) ≡ some (drivers offered))
    × ((o : DriverInfo)
        → Has o offered ↔ (
            (d : Data.DriverInfo) × (offer d ≡ o)
            × (get s.drivers d.name ≡ some d)
            × (get s.busy_drivers d.name ≡ none)))
offers_arrive_example =
    offers_arrive tree_json tree_json-IsJson (leader_server 5) 9 2 (leader_server-IsValid 5).filed

abbrev leo : Passenger.Passenger
leo = record {
  name = "leo";
  info = record { id = 0; position = (3, 1); destination = (5, 5) };
  recovery = false;
  payment_authorized = false;
  payment_confirmed = false;
  server_receiver = none;
  server_sender = 3;
  connections = [];
  drivers_info = [];
  driver_socket = none;
  gateway = 4;
}

login_arrives_example :
    let s = leader_server 5 in
    (r : Request) × (out : TcpOut) × (i : ℕ) × (ServerWire.receive tree_json 9
        (some (passenger_line tree_json (Passenger.login "leo")))
      ≡ some (ServerWire.request r))
    × ((handle s r).1 ≡ to_client 9 out ∷ [])
    × (get (handle s r).0.passengers "leo" ≡ some i)
    × (get (handle s r).0.passengers_address i ≡ some 9)
    × (receive tree_json (some (server_line tree_json out)) ≡ some (complete_login i))
    × ((handle_complete_login leo i).0
        ≡ record leo { info = record { id = i; position = (3, 1); destination = (5, 5) } })
login_arrives_example = login_arrives tree_json tree_json-IsJson (leader_server 5) leo 9
