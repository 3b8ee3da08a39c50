-- ===== src/Server/Udp.antt =====
-- The UDP side of a replica: server/src/udp_receiver.rs, and the texts of the messages that
-- server/src/server.rs hands to server/src/udp_sender.rs. What the socket gives is an argument.
pub mod Listening
use concu_ride.Prelude.{
  ℕ, String, Option, none, some, List, [], ◌∷◌, string_eq, ◌==◌, if◌then◌else◌,
}
use concu_ride.Prelude.HashMap.{HashMap}
use concu_ride.Common.Json.{Json}
use concu_ride.Common.Message.{
  Deserialized, ok, err, serialize_message, split_message, deserialize_field, of_vec, as_vec,
}
use concu_ride.Server
use concu_ride.Server.{Addr, ElectionMsg, NewLeaderMsg, UdpWire}
use concu_ride.Server.Election.{NeighborAck}

-- A message for the actor `Server`.
pub data Inbound : Type 0 where
  election : ElectionMsg → Inbound
  new_leader : NewLeaderMsg → Inbound
  neighbor_ack : NeighborAck → Inbound
  send_leader_id : String → Inbound

-- The sends of `UdpReceiver`, to the server and to itself, of which the last is `Listen`.
pub data Effect (j : Json) : Type 0 where
  to_server : Addr → Inbound → Effect j
  send_message : String → j.Text → Effect j
  listen : Effect j

-- `let Ok(x) = … else { error!(…); return; }`, which leaves the handler with nothing sent.
abbrev pub or_return : {A B : Type 0} → Deserialized A → (A → Option (List B)) → Option (List B)
or_return (ok a) k = k a
or_return (err e) k = some []

-- `self.server.as_ref().expect(…)`, which panics without a server.
abbrev pub with_server : {B : Type 0} → Option Addr → (Addr → List B) → Option (List B)
with_server none k = none
with_server (some server) k = some (k server)

module _ (j : Json) where
  open j use {of_u64, as_u64, of_text, as_text, of_object}

  unfoldable pub election_fields : ElectionMsg → HashMap String j.Value
  election_fields msg =
      ("disconnected_leader_id", of_u64 msg.disconnected_leader_id)
      ∷ ("server_ids", of_vec j of_u64 msg.server_ids)
      ∷ ("sequence_number", of_u64 msg.sequence_number)
      ∷ []

  unfoldable pub new_leader_fields : NewLeaderMsg → HashMap String j.Value
  new_leader_fields msg =
      ("id_sender", of_u64 msg.id_sender)
      ∷ ("leader_id", of_u64 msg.leader_id)
      ∷ ("sequence_number", of_u64 msg.sequence_number)
      ∷ []

  -- The text of a message of the election.
  unfoldable pub encode : UdpWire → j.Text
  unfolding election_fields new_leader_fields
  encode (Server.election msg) =
      serialize_message j "election" (some (of_object (election_fields msg)))
  encode (Server.new_leader msg) =
      serialize_message j "new_leader" (some (of_object (new_leader_fields msg)))

  -- The ACK of a message, which holds the message and the id 0.
  unfoldable pub ack_fields : ℕ → j.Text → HashMap String j.Value
  ack_fields sequence_number message =
      ("sequence_number", of_u64 sequence_number)
      ∷ ("message", of_text message)
      ∷ ("id", of_u64 0)
      ∷ []

  unfoldable pub ack : ℕ → j.Text → j.Text
  unfolding ack_fields
  ack sequence_number message =
      serialize_message j "ack" (some (of_object (ack_fields sequence_number message)))

  -- The arms of `match message_name.as_str()`, with the last send of the handler, `Listen`.
  unfoldable pub dispatch :
      Option Addr → j.Text → String → String → j.Value → Option (List (Effect j))
  unfolding ack
  dispatch server message addr message_name payload =
      if message_name == "election"
      then or_return (deserialize_field j (as_vec j as_u64) payload "server_ids") (λ server_ids.
        or_return (deserialize_field j as_u64 payload "disconnected_leader_id")
          (λ disconnected_leader_id.
            or_return (deserialize_field j as_u64 payload "sequence_number") (λ sequence_number.
              with_server server (λ s.
                send_message addr (ack sequence_number message)
                ∷ to_server s (
                    election (record {
                      disconnected_leader_id = disconnected_leader_id;
                      server_ids = server_ids;
                      sequence_number = sequence_number;
                    }))
                ∷ listen
                ∷ []))))
      else if message_name == "new_leader"
      then or_return (deserialize_field j as_u64 payload "leader_id") (λ leader_id.
        or_return (deserialize_field j as_u64 payload "id_sender") (λ id_sender.
          or_return (deserialize_field j as_u64 payload "sequence_number") (λ sequence_number.
            with_server server (λ s.
              send_message addr (ack sequence_number message)
              ∷ to_server s (
                  new_leader (record {
                    id_sender = id_sender;
                    leader_id = leader_id;
                    sequence_number = sequence_number;
                  }))
              ∷ listen
              ∷ []))))
      else if message_name == "ack"
      then or_return (deserialize_field j as_u64 payload "id") (λ id.
        or_return (deserialize_field j as_text payload "message") (λ acked.
          or_return (deserialize_field j as_u64 payload "sequence_number") (λ sequence_number.
            with_server server (λ s.
              to_server s (neighbor_ack (record { id = id; sequence_number = sequence_number }))
              ∷ listen
              ∷ []))))
      else if message_name == "get_leader"
      then with_server server (λ s. to_server s (send_leader_id addr) ∷ listen ∷ [])
      else some (listen ∷ [])

  -- `Listen`: `received` is the text and its sender, or `none` where the socket fails or the bytes
  -- are no text. `none` as a result is a panic.
  unfoldable pub handle_listen : Option Addr → Option (j.Text × String) → Option (List (Effect j))
  unfolding dispatch
  handle_listen server none = some (listen ∷ [])
  handle_listen server (some (message, addr)) =
      let (message_name, payload) = split_message j message in
      dispatch server message addr message_name payload
