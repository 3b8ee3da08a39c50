-- ===== src/Server/Election/Validity.antt =====
-- What the handlers of the election pass on of the ids that they are given, whatever else the state
-- is: `P` holds of the ids that messages name.
pub mod Announcing
pub mod Schedules
pub mod Reached
use concu_ride.Prelude.{
  ℕ, ◌≡◌, ◌<◌, ◌⊎◌, inl, inr, refl, Bool, true, Option, none, some, String, List, [], ◌∷◌, ◌++◌,
  contains, contains-Has, Has, All, All-Has, All-append, ◌==◌, nat_eq, nat_beq_iff, arith,
  Bool-cases, Option-cases,
}
use concu_ride.Prelude.HashMap.{contains_key}
use concu_ride.Common.{max_servers}
use concu_ride.Server.{
  Addr, ElectionMsg, UdpWire, PendingAck, SelfMsg, Server, Effect, to_self, to_udp,
  wait_for_neighbor_ack, check_if_neighbor_acked, new_leader_msg,
}
use concu_ride.Server.Neighbor.{get_neighbor_id, search_neighbor, update_neighbor}
use concu_ride.Server.Election.{
  send_if_some, start_election, wait_for_ack, check_ack, election, new_leader, max_id_from, forward,
  finish_election, pass_election, with_state,
}
use concu_ride.Server.Election.Handlers.{start_marked, ack_marked, election_marked}
use concu_ride.Server.Election.Leader.{max_id_from_greatest}

-- `update_neighbor` changes the neighbour alone.
update :
    (s : Server) (n : ℕ)
    → (m : ℕ) × (ok : Bool) × (update_neighbor s n ≡ (record s { actual_neighbor_id = m }, ok))
unfolding update_neighbor
update s n = elim (Bool-cases (contains s.disconnected_servers s.actual_neighbor_id)) [
  | inl down ↦
      let r = search_neighbor max_servers s.disconnected_servers s.id (get_neighbor_id n) in
      (r.0, r.1, rw (down, update_neighbor) refl)
  | inr up ↦ (s.actual_neighbor_id, true, rw (up, update_neighbor) refl)
]

module _ (P : ℕ → Type 0) where
  abbrev pub ValidMsg : UdpWire → Type 0
  ValidMsg (UdpWire.election msg) = All P msg.server_ids
  ValidMsg (UdpWire.new_leader msg) = P msg.leader_id

  abbrev pub ValidSelf : SelfMsg → Type 0
  ValidSelf (new_leader_msg msg) = P msg.leader_id
  ValidSelf (wait_for_neighbor_ack msg) = ValidMsg msg.serialized_msg
  ValidSelf (check_if_neighbor_acked msg) = ValidMsg msg.serialized_msg
  ValidSelf _ = Unit

  abbrev pub ValidEffect : Effect → Type 0
  ValidEffect (to_self msg) = ValidSelf msg
  ValidEffect (to_udp udp_sender message dst) = ValidMsg message
  ValidEffect _ = Unit

  -- The server keeps its id, and its leader or takes one of which `P` holds; so its messages do.
  abbrev pub Keeps : Server → Server × List Effect → Type 0
  Keeps s (t, effects) =
      (t.id ≡ s.id) × ((t.id_leader ≡ s.id_leader) ⊎ P t.id_leader) × All ValidEffect effects

  sent-Valid :
      (u : Option Addr) (message : UdpWire) (dst : String) (e : Effect)
      → ValidMsg message
      → ValidEffect e
      → All ValidEffect (send_if_some u message dst ++ e ∷ [])
  unfolding send_if_some
  sent-Valid none message dst e v w = (w, tt)
  sent-Valid (some u) message dst e v w = (v, (w, tt))

  pub start_election-Keeps : (s : Server) → P s.id → Keeps s (start_election s)
  unfolding start_election
  start_election-Keeps s own =
      let (m, ok, e) = update (start_marked s) s.actual_neighbor_id in
      rw (e, start_election)
        (elim (Bool-cases ok) [
          | inl found ↦
              rw (found, start_election)
                (refl, inl refl, sent-Valid s.udp_sender _ _ _ (own, tt) (own, tt))
          | inr alone ↦ rw (alone, start_election) (refl, inl refl, (own, tt))
        ])

  pub wait_for_ack-Keeps :
      (s : Server) (msg : PendingAck) → ValidMsg msg.serialized_msg → Keeps s (wait_for_ack s msg)
  unfolding wait_for_ack
  wait_for_ack-Keeps s msg v = (refl, inl refl, (v, tt))

  pub check_ack-Keeps :
      (s : Server) (msg : PendingAck)
      → P s.id
      → ValidMsg msg.serialized_msg
      → Keeps s (check_ack s msg)
  unfolding check_ack
  check_ack-Keeps s msg own v =
      elim (Bool-cases (contains_key s.message_received_ack msg.sequence_number)) [
        | inl acked ↦ rw (acked, check_ack) (refl, inl refl, tt)
        | inr missing ↦
            let (m, ok, e) = update (ack_marked s msg) s.actual_neighbor_id in
            rw (missing, check_ack)
              (rw (e, check_ack)
                (elim (Bool-cases ok) [
                  | inl found ↦
                      rw (found, check_ack) (refl, inl refl, sent-Valid s.udp_sender _ _ _ v v)
                  | inr alone ↦ rw (alone, check_ack) (refl, inl refl, (own, tt))
                ]))
      ]

  -- A handler that panics leaves nothing behind.
  abbrev pub KeepsIf : Server → Option (Server × List Effect) → Type 0
  KeepsIf s none = Unit
  KeepsIf s (some r) = Keeps s r

  forwarded :
      (s t v : Server) (message : UdpWire) (k : ℕ)
      → t.id ≡ s.id
      → (t.id_leader ≡ s.id_leader) ⊎ P t.id_leader
      → ValidMsg message
      → KeepsIf s (with_state t (forward v message k))
  unfolding forward with_state
  forwarded s t v message k same led valid = elim (Option-cases v.udp_sender) [
    | inl none' ↦ rw (none', forward) tt
    | inr (u, some') ↦ rw (some', forward) (same, led, (valid, (valid, tt)))
  ]

  pub election-Keeps :
      (s : Server) (msg : ElectionMsg)
      → P s.id
      → 0 < s.id
      → All P msg.server_ids
      → KeepsIf s (election s msg)
  unfolding election finish_election pass_election
  election-Keeps s msg own pos valid =
      let (m, ok, e) = update (election_marked s msg) s.actual_neighbor_id in
      let v : Server = record (election_marked s msg) { actual_neighbor_id = m } in
      rw (e, election)
        (elim (Bool-cases ok) [
          | inr alone ↦ rw (alone, election) (refl, inl refl, (own, tt))
          | inl found ↦
              rw (found, election)
                (elim (Bool-cases (contains msg.server_ids s.id)) [
                  | inl done ↦
                      let (has, greatest) =
                        max_id_from_greatest msg.server_ids s.id
                          (contains-Has msg.server_ids s.id done) in
                      let leads =
                        All-Has P (max_id_from 0 msg.server_ids) msg.server_ids valid has in
                      rw (done, election)
                        (forwarded s _ v _ s.sequence_number refl (inr leads) leads)
                  | inr more ↦
                      rw (more, election)
                        (forwarded s _ v _ s.sequence_number refl (inl refl)
                          (All-append P msg.server_ids (s.id ∷ []) valid (own, tt)))
                ])
        ])
