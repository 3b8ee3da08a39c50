-- ===== src/Server/Examples/Udp.antt =====
-- A replica's UDP messages and its silent leader, with trees for serde_json.
use concu_ride.Prelude.{ℕ, suc, ◌≡◌, refl, some, [], ◌∷◌, List, contains, nat_eq}
use concu_ride.Prelude.HashMap.{get}
use concu_ride.Common.Json.Tree.{Tree, tree_json, tree_json-IsJson, field}
use concu_ride.Common.Message.{deserialize_field, missing_field, err, as_vec}
use concu_ride.Server
use concu_ride.Server.{UdpWire, PendingAck}
use concu_ride.Server.Election
use concu_ride.Server.Election.{NeighborAck, check_ack}
use concu_ride.Server.Startup.{replica_server}
use concu_ride.Server.Udp.{
  handle_listen, encode, ack, send_message, to_server, listen, neighbor_ack,
}
use concu_ride.Server.Udp.Listening.{number, meaning, udp_arrives, ack_comes_back}
use concu_ride.Server.LeaderConnection.{ServerConnection}

abbrev news : UdpWire
news =
    Server.election
      (record { disconnected_leader_id = 5; server_ids = 1 ∷ 4 ∷ []; sequence_number = 3 })

udp_arrives_example :
    handle_listen tree_json (some 1) (some (encode tree_json news, "127.0.0.1:5004"))
    ≡ some (
        send_message "127.0.0.1:5004" (ack tree_json (number news) (encode tree_json news))
        ∷ to_server 1 (meaning news)
        ∷ listen
        ∷ [])
udp_arrives_example = udp_arrives tree_json tree_json-IsJson 1 "127.0.0.1:5004" news

abbrev pending : PendingAck
pending = record { neighbor_id = 4; serialized_msg = news; sequence_number = 3 }

ack_comes_back_example :
    let a : NeighborAck = record { id = 0; sequence_number = 3 } in
    let t = (Election.neighbor_ack (replica_server 2 7) a).0 in
    (handle_listen tree_json
        (some 1)
        (some (ack tree_json 3 (encode tree_json news), "127.0.0.1:5004"))
      ≡ some (to_server 1 (neighbor_ack a) ∷ listen ∷ []))
    × ((check_ack t pending).1 ≡ [])
    × ((n : ℕ)
        → contains t.disconnected_servers (suc n)
          ≡ contains (replica_server 2 7).disconnected_servers (suc n))
ack_comes_back_example =
    ack_comes_back tree_json tree_json-IsJson (replica_server 2 7) 1 "127.0.0.1:5004" pending

-- A message without ids.
abbrev empty_payload : Tree
empty_payload = tree_json.of_object []

no_ids :
    deserialize_field tree_json (as_vec tree_json tree_json.as_u64) empty_payload "server_ids"
    ≡ err (missing_field "server_ids")
unfolding deserialize_field field get
no_ids = refl

abbrev connection : ServerConnection
connection = record { addr = 1; write = some 2; response_time = 1000 }

abbrev pauses : List ℕ
pauses = 4000 ∷ 5000 ∷ 4000 ∷ []
