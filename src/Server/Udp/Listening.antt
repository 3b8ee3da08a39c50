-- ===== src/Server/Udp/Listening.antt =====
-- What a replica does with the messages of the election, and when it stops listening.
use concu_ride.Prelude.{
  ℕ, suc, String, ◌≡◌, refl, ap, ◌∙◌, inl, contains, nat_eq, arith, Option, some, List, [], ◌∷◌,
  map, string_eq,
}
use concu_ride.Prelude.HashMap.{get, Distinct}
use concu_ride.Common.Json.{Json, IsJson}
use concu_ride.Common.Message.{
  serialize_message, split_message-serialize_message, deserialize_field, DeserializationError, err,
  as_vec,
}
use concu_ride.Common.Message.Fields.{u64_field, text_field, vec_field}
use concu_ride.Server
use concu_ride.Server.{Addr, ElectionMsg, NewLeaderMsg, UdpWire}
use concu_ride.Server.Election
use concu_ride.Server.Election.{check_ack}
use concu_ride.Server.Election.Acks.{check_ack-acked}
use concu_ride.Server.Election.{NeighborAck}
use concu_ride.Server.Udp.{
  Inbound, election, new_leader, neighbor_ack, to_server, send_message, listen, encode, ack,
  election_fields, new_leader_fields, ack_fields, dispatch, handle_listen,
}

map-id : {A : Type 0} (xs : List A) → map (λ x. x) xs ≡ xs
map-id [] = refl
map-id (x ∷ xs) = ap (λ ys. x ∷ ys) (map-id xs)

abbrev pub number : UdpWire → ℕ
number (Server.election msg) = msg.sequence_number
number (Server.new_leader msg) = msg.sequence_number

abbrev pub meaning : UdpWire → Inbound
meaning (Server.election msg) = election msg
meaning (Server.new_leader msg) = new_leader msg

module _ (j : Json) (laws : IsJson j) where
  received :
      (server : Option Addr) (addr name : String) (payload : j.Value)
      → handle_listen j server (some (serialize_message j name (some payload), addr))
        ≡ dispatch j server (serialize_message j name (some payload)) addr name payload
  unfolding handle_listen
  received server addr name payload =
      ap
        (λ (r : String × j.Value).
          dispatch j server (serialize_message j name (some payload)) addr r.0 r.1)
        (split_message-serialize_message j laws name payload)

  pub election_arrives :
      (server : Addr) (addr : String) (msg : ElectionMsg)
      → handle_listen j (some server) (some (encode j (Server.election msg), addr))
        ≡ some (
            send_message addr (ack j msg.sequence_number (encode j (Server.election msg)))
            ∷ to_server server (election msg)
            ∷ listen
            ∷ [])
  unfolding encode dispatch election_fields get
  election_arrives server addr msg =
      let fields = election_fields j msg in
      let d : Distinct fields = (refl, (refl, (refl, tt))) in
      received (some server) addr "election" (j.of_object fields)
      ∙ rw
          (
            vec_field j laws fields d "server_ids" j.of_u64 j.as_u64 (λ n. n) laws.as_u64-of_u64
                msg.server_ids refl,
            map-id msg.server_ids,
            u64_field j laws fields d "disconnected_leader_id" msg.disconnected_leader_id refl,
            u64_field j laws fields d "sequence_number" msg.sequence_number refl,
          )
          refl

  pub new_leader_arrives :
      (server : Addr) (addr : String) (msg : NewLeaderMsg)
      → handle_listen j (some server) (some (encode j (Server.new_leader msg), addr))
        ≡ some (
            send_message addr (ack j msg.sequence_number (encode j (Server.new_leader msg)))
            ∷ to_server server (new_leader msg)
            ∷ listen
            ∷ [])
  unfolding encode dispatch new_leader_fields get
  new_leader_arrives server addr msg =
      let fields = new_leader_fields j msg in
      let d : Distinct fields = (refl, (refl, (refl, tt))) in
      received (some server) addr "new_leader" (j.of_object fields)
      ∙ rw
          (
            u64_field j laws fields d "leader_id" msg.leader_id refl,
            u64_field j laws fields d "id_sender" msg.id_sender refl,
            u64_field j laws fields d "sequence_number" msg.sequence_number refl,
          )
          refl

  -- The ACK of a message names its number, but as its sender always the id 0.
  pub ack_arrives :
      (server : Addr) (addr : String) (sequence_number : ℕ) (message : j.Text)
      → handle_listen j (some server) (some (ack j sequence_number message, addr))
        ≡ some (
            to_server server (neighbor_ack (record { id = 0; sequence_number = sequence_number }))
            ∷ listen
            ∷ [])
  unfolding ack dispatch ack_fields get
  ack_arrives server addr sequence_number message =
      let fields = ack_fields j sequence_number message in
      let d : Distinct fields = (refl, (refl, (refl, tt))) in
      received (some server) addr "ack" (j.of_object fields)
      ∙ rw
          (
            u64_field j laws fields d "id" 0 refl,
            text_field j laws fields d "message" message refl,
            u64_field j laws fields d "sequence_number" sequence_number refl,
          )
          refl

  -- A message of the election whose ids cannot be read ends the handler before it sends itself
  -- `Listen` again: nothing is sent, and the replica reads no UDP message any more.
  pub malformed_election_deafens :
      (server : Option Addr) (addr : String) (payload : j.Value) (e : DeserializationError)
      → deserialize_field j (as_vec j j.as_u64) payload "server_ids" ≡ err e
      → handle_listen j server (some (serialize_message j "election" (some payload), addr))
        ≡ some []
  unfolding dispatch
  malformed_election_deafens server addr payload e h =
      received server addr "election" payload ∙ rw h refl

  -- A replica acknowledges every message of the election under its number, with its text, hands it
  -- to its server as it was sent, and listens again.
  pub udp_arrives :
      (server : Addr) (addr : String) (msg : UdpWire)
      → handle_listen j (some server) (some (encode j msg, addr))
        ≡ some (
            send_message addr (ack j (number msg) (encode j msg))
            ∷ to_server server (meaning msg)
            ∷ listen
            ∷ [])
  udp_arrives server addr (Server.election msg) = election_arrives server addr msg
  udp_arrives server addr (Server.new_leader msg) = new_leader_arrives server addr msg

  -- The ACK of a message comes back to the server that sent it with the id 0. The message is then
  -- not sent again, and no server with a positive id is taken out of the disconnected ones.
  pub ack_comes_back :
      (s : Server.Server) (server : Addr) (addr : String) (pending : Server.PendingAck)
      → let a : NeighborAck = record { id = 0; sequence_number = pending.sequence_number } in
        let t = (Election.neighbor_ack s a).0 in
        (handle_listen j
            (some server)
            (some (ack j pending.sequence_number (encode j pending.serialized_msg), addr))
          ≡ some (to_server server (neighbor_ack a) ∷ listen ∷ []))
        × ((check_ack t pending).1 ≡ [])
        × ((n : ℕ)
            → contains t.disconnected_servers (suc n) ≡ contains s.disconnected_servers (suc n))
  unfolding contains
  ack_comes_back s server addr pending =
      let a : NeighborAck = record { id = 0; sequence_number = pending.sequence_number } in
      let (silent, kept) = check_ack-acked s (a ∷ []) pending (inl refl) in
      (
        ack_arrives server addr pending.sequence_number (encode j pending.serialized_msg),
        ap (λ r. r.1) silent,
        λ n. ground (arith, kept (suc n)),
      )
