-- ===== src/Server/Election/Announce.antt =====
-- What `NewLeader` does, on every branch, and what an ACK changes.
use concu_ride.Prelude.{
  ℕ, ◌≡◌, ◌≢◌, ◌⊎◌, inl, inr, refl, true, false, not, ◌&&◌, none, some, List, [], ◌∷◌, ◌++◌, ◌==◌,
  nat_eq, nat_beq_iff, arith, Bool-cases, if◌then◌else◌,
}
use concu_ride.Common.{id_to_tcp_address}
use concu_ride.Server.{
  Addr, NewLeaderMsg, UdpWire, Server, Effect, to_self, start_listener, connect_to_server,
}
use concu_ride.Server.Neighbor.Search.{IsServerId}
use concu_ride.Server.Neighbor.Update.{update_neighbor_cases}
use concu_ride.Server.Election.{
  proclaim, new_leader, become_leader, pass_new_leader, seek_leader, with_state,
}
use concu_ride.Server.Election.Handlers.{Proclaims, Sends, sent, forward-some}

-- How the message goes on: not at all where it has come round to its sender.
abbrev pub Passes : Server → NewLeaderMsg → Addr → Server → List Effect → Type 0
Passes s msg u t passed =
    ((msg.id_sender ≡ s.id) × (passed ≡ []))
    ⊎ ((msg.id_sender ≢ s.id)
        × (Proclaims s passed ⊎ Sends t u (UdpWire.new_leader msg) msg.sequence_number passed))

pass_new_leader_outcome :
    (s : Server) (msg : NewLeaderMsg) (u : Addr)
    → s.udp_sender ≡ some u
    → IsServerId s.actual_neighbor_id
    → (t : Server) × (passed : List Effect) × (pass_new_leader s msg ≡ some (t, passed))
      × (t.id ≡ s.id)
      × (t.id_leader ≡ s.id_leader)
      × (t.im_leader ≡ s.im_leader)
      × (t.leader_connection ≡ s.leader_connection)
      × Passes s msg u t passed
unfolding pass_new_leader proclaim sent with_state
pass_new_leader_outcome s msg u sender h = elim (Bool-cases (msg.id_sender == s.id)) [
  | inl own ↦
      rw (own, pass_new_leader)
        (_, _, refl, refl, refl, refl, refl, inl ((nat_beq_iff msg.id_sender s.id).0 own, refl))
  | inr other ↦
      let ne : msg.id_sender ≢ s.id = λ p. ground (arith, nat_beq_iff msg.id_sender s.id) in
      let (n, c) = update_neighbor_cases s h in
      rw (other, pass_new_leader)
        (elim c [
          | inr (e, nothing) ↦
              rw (e, pass_new_leader)
                (_, _, refl, refl, refl, refl, refl, inr (ne, inl (refl, nothing)))
          | inl (e, i, up) ↦
              rw (e, pass_new_leader)
                (rw
                  (forward-some (record s { actual_neighbor_id = n }) u (UdpWire.new_leader msg)
                    msg.sequence_number sender)
                  (_, _, refl, refl, refl, refl, refl, inr (ne, inr (i, up, refl))))
        ])
]

-- A server that is not the leader and has no connection to one seeks one.
abbrev pub connects : Server → ℕ → List Effect
connects s leader_id = elim s.leader_connection [
  | some _ ↦ []
  | none ↦ if leader_id == s.id then [] else to_self connect_to_server ∷ []
]

seek-connects :
    (s t : Server) (leader_id : ℕ)
    → t.id ≡ s.id
    → t.leader_connection ≡ s.leader_connection
    → seek_leader t leader_id ≡ connects s leader_id
unfolding seek_leader
seek-connects s t leader_id e f = ground arith

pub become_first :
    (s : Server) (leader_id : ℕ)
    → (leader_id == s.id && not s.im_leader) ≡ true
    → become_leader s leader_id ≡ (
      record s { id_leader = leader_id; im_leader = true },
      start_listener (id_to_tcp_address s.id) ∷ [],
    )
unfolding become_leader
become_first s leader_id h = rw h

pub become_later :
    (s : Server) (leader_id : ℕ)
    → (leader_id == s.id && not s.im_leader) ≡ false
    → become_leader s leader_id ≡ (record s { id_leader = leader_id }, [])
unfolding become_leader
become_later s leader_id h = rw h

-- `NewLeader`, with a UDP sender and a neighbour on the ring, does not panic. It takes over the
-- leader named; a server that becomes the leader starts to listen on its own address, once; the
-- message goes on round the ring until it is back at its sender; and a server that is not the
-- leader and has no connection to one connects.
pub new_leader_outcome :
    (s : Server) (msg : NewLeaderMsg) (u : Addr)
    → s.udp_sender ≡ some u
    → IsServerId s.actual_neighbor_id
    → (t : Server) × (passed : List Effect) × (new_leader s msg
        ≡ some (
          t,
          (if msg.leader_id == s.id && not s.im_leader
                then start_listener (id_to_tcp_address s.id) ∷ []
                else [])
              ++ passed
              ++ connects s msg.leader_id,
        ))
      × (t.id_leader ≡ msg.leader_id)
      × (t.im_leader ≡ (if msg.leader_id == s.id then true else s.im_leader))
      × Passes s msg u t passed
unfolding new_leader
new_leader_outcome s msg u sender h = elim (Bool-cases (msg.leader_id == s.id && not s.im_leader)) [
  | inl first ↦
      let v : Server = record s { id_leader = msg.leader_id; im_leader = true } in
      let (t, passed, e, d, a, b, c, p) = pass_new_leader_outcome v msg u sender h in
      rw (become_first s msg.leader_id first, new_leader)
        (rw (e, new_leader)
          (rw (first, seek-connects s t msg.leader_id d c) (t, passed, refl, a, ground arith, p)))
  | inr later ↦
      let v : Server = record s { id_leader = msg.leader_id } in
      let (t, passed, e, d, a, b, c, p) = pass_new_leader_outcome v msg u sender h in
      rw (become_later s msg.leader_id later, new_leader)
        (rw (e, new_leader)
          (rw (later, seek-connects s t msg.leader_id d c) (t, passed, refl, a, ground arith, p)))
]
