-- ===== src/Server/Election/Ring/Steps.antt =====
-- One server of a ring: what it does with a message of the election, given the neighbour it finds.
use mathlib.Core.List.{append-nil}
use concu_ride.Prelude.{
  Option, ℕ, ◌≡◌, ◌≢◌, ◌⊎◌, inl, inr, refl, ap, subst, ◌∙◌, Bool, true, false, not, ◌&&◌, none,
  some, List, [], ◌∷◌, ◌++◌, contains, inc, ◌==◌, nat_eq, nat_beq_iff, arith, Bool-cases,
  if◌then◌else◌,
}
use concu_ride.Common.{max_servers, id_to_tcp_address}
use concu_ride.Server.Replication.Failover.{registry}
use concu_ride.Server.{
  UpdateNetworkState, Addr, ElectionMsg, NewLeaderMsg, UdpWire, Server, Effect, start_listener,
}
use concu_ride.Server.Neighbor.{get_address, get_neighbor_id, search_neighbor, update_neighbor}
use concu_ride.Server.Neighbor.Search.{Finds, search_neighbor-Finds}
use concu_ride.Server.Election.{
  start_election, election, new_leader, max_id_from, pass_new_leader, seek_leader, finish_election,
  pass_election, with_state,
}
use concu_ride.Server.Election.Handlers.{election_marked, start_marked, sent, forward-some}
use concu_ride.Server.Election.Announce.{become_first, become_later}
use concu_ride.Server.Election.Losses.{awaited, awaited-append}
use concu_ride.Server.Election.Sends.{sends, sends_append}

-- Of the servers `d` that it takes for disconnected, the server `id` with the neighbour `n` finds
-- the neighbour `m`.
abbrev pub Next : List ℕ → ℕ → ℕ → ℕ → Type 0
Next d id n m =
    ((contains d n ≡ false) × (n ≡ m))
    ⊎ ((contains d n ≡ true) × (search_neighbor max_servers d id (get_neighbor_id n) ≡ (m, true)))

pub Next-up : (d : List ℕ) (id n m : ℕ) → Next d id n m → contains d m ≡ false
Next-up d id n m (inl (up, e)) = subst (λ k. contains d k ≡ false) e up
Next-up d id n m (inr (down, e)) =
    let found =
      subst (λ r. Finds max_servers d id (get_neighbor_id n) r) e
        (search_neighbor-Finds max_servers d id (get_neighbor_id n)) in
    elim found [
      | inl (ok, k, lt, same, c, first) ↦ c.0
      | inr (lost, nothing) ↦ absurd (ground (arith, lost))
    ]

pub update_neighbor-Next :
    (s : Server) (m : ℕ)
    → Next s.disconnected_servers s.id s.actual_neighbor_id m
    → update_neighbor s s.actual_neighbor_id ≡ (record s { actual_neighbor_id = m }, true)
unfolding update_neighbor
update_neighbor-Next s m (inl (up, e)) =
    rw (up, update_neighbor) (ap (λ n. (record s { actual_neighbor_id = n }, true)) e)
update_neighbor-Next s m (inr (down, e)) = rw (down, update_neighbor) (rw (e, update_neighbor) refl)

-- The server after it has passed `Election` on to `m`.
abbrev pub passed : Server → ElectionMsg → ℕ → Server
passed s msg m = record s {
  disconnected_servers = s.disconnected_servers ++ msg.disconnected_leader_id ∷ [];
  leader_connection =
      if s.id_leader == msg.disconnected_leader_id then none else s.leader_connection;
  actual_neighbor_id = m;
  sequence_number = inc s.sequence_number;
}

abbrev pub extended : ElectionMsg → Server → ElectionMsg
extended msg s = record {
  disconnected_leader_id = msg.disconnected_leader_id;
  server_ids = msg.server_ids ++ s.id ∷ [];
  sequence_number = s.sequence_number;
}

pub election_passes :
    (s : Server) (msg : ElectionMsg) (u : Addr) (m : ℕ)
    → s.udp_sender ≡ some u
    → Next (s.disconnected_servers ++ msg.disconnected_leader_id ∷ []) s.id s.actual_neighbor_id m
    → contains msg.server_ids s.id ≡ false
    → election s msg
      ≡ some (
        passed s msg m,
        sent (passed s msg m) u (UdpWire.election (extended msg s)) s.sequence_number,
      )
unfolding election pass_election with_state sent
election_passes s msg u m sender next more =
    let v : Server = record (election_marked s msg) { actual_neighbor_id = m } in
    rw (update_neighbor-Next (election_marked s msg) m next, election)
      (rw (more, election) (rw (forward-some v u _ s.sequence_number sender) refl))

abbrev pub announcement : Server → ElectionMsg → NewLeaderMsg
announcement s msg = record {
  id_sender = s.id;
  leader_id = max_id_from 0 msg.server_ids;
  sequence_number = s.sequence_number;
}

pub election_finishes :
    (s : Server) (msg : ElectionMsg) (u : Addr) (m : ℕ)
    → s.udp_sender ≡ some u
    → Next (s.disconnected_servers ++ msg.disconnected_leader_id ∷ []) s.id s.actual_neighbor_id m
    → contains msg.server_ids s.id ≡ true
    → election s msg
      ≡ some (
        record (passed s msg m) { id_leader = max_id_from 0 msg.server_ids },
        sent (passed s msg m) u (UdpWire.new_leader (announcement s msg)) s.sequence_number,
      )
unfolding election finish_election with_state sent
election_finishes s msg u m sender next done =
    let v : Server = record (election_marked s msg) { actual_neighbor_id = m } in
    rw (update_neighbor-Next (election_marked s msg) m next, election)
      (rw (done, election) (rw (forward-some v u _ s.sequence_number sender) refl))

-- The server after it has started an election, with the neighbour `m`.
abbrev pub started : Server → ℕ → Server
started s m = record s {
  disconnected_servers = s.disconnected_servers ++ s.id_leader ∷ [];
  actual_neighbor_id = m;
  sequence_number = inc (inc s.sequence_number);
}

abbrev pub first_message : Server → ElectionMsg
first_message s = record {
  disconnected_leader_id = s.id_leader;
  server_ids = s.id ∷ [];
  sequence_number = s.sequence_number;
}

pub start_election_starts :
    (s : Server) (u : Addr) (m : ℕ)
    → s.udp_sender ≡ some u
    → Next (s.disconnected_servers ++ s.id_leader ∷ []) s.id s.actual_neighbor_id m
    → start_election s
      ≡ (started s m, sent (started s m) u (UdpWire.election (first_message s)) s.sequence_number)
unfolding start_election sent
start_election_starts s u m sender next =
    rw (update_neighbor-Next (start_marked s) m next, start_election)
      (rw (sender, start_election) refl)

-- What no election changes.
abbrev pub lasting : Server → Option Addr × UpdateNetworkState
lasting s = (s.udp_sender, registry s)

-- What has become of the server `s` once `NewLeader` has come.
abbrev pub IsLed : ℕ → Server → Server → Type 0
IsLed leader_id s t =
    (t.id_leader ≡ leader_id)
    × (t.im_leader ≡ (if leader_id == s.id then true else s.im_leader))
    × (lasting t ≡ lasting s)

seek-sends : (s : Server) (leader_id : ℕ) → sends (seek_leader s leader_id) ≡ []
unfolding seek_leader sends
seek-sends s leader_id = ground arith

seek-awaits : (s : Server) (leader_id : ℕ) → awaited (seek_leader s leader_id) ≡ none
unfolding seek_leader awaited
seek-awaits s leader_id = ground arith

-- Of the three parts of `NewLeader` only the second sends a message.
quiet :
    (listening effects : List Effect) (t : Server) (leader_id : ℕ)
    → sends listening ≡ []
    → sends (listening ++ effects ++ seek_leader t leader_id) ≡ sends effects
quiet listening effects t leader_id h =
    sends_append (listening ++ effects) (seek_leader t leader_id)
    ∙ ap (λ xs. sends (listening ++ effects) ++ xs) (seek-sends t leader_id)
    ∙ append-nil (sends (listening ++ effects))
    ∙ sends_append listening effects
    ∙ ap (λ xs. xs ++ sends effects) h

awaits :
    (effects : List Effect) (t : Server) (leader_id : ℕ)
    → awaited (effects ++ seek_leader t leader_id) ≡ awaited effects
awaits effects t leader_id =
    awaited-append effects (seek_leader t leader_id) (seek-awaits t leader_id)

-- `NewLeader` by how the message goes on, whichever leader the server then has.
announced :
    (s : Server) (msg : NewLeaderMsg) (effects : List Effect)
    → ((b : Bool)
        → let v : Server = record s { id_leader = msg.leader_id; im_leader = b } in
          pass_new_leader v msg ≡ some (v, effects))
    → (t : Server) × (all : List Effect) × (new_leader s msg ≡ some (t, all))
      × (sends all ≡ sends effects)
      × (awaited all ≡ awaited effects)
      × IsLed msg.leader_id s t
unfolding new_leader sends awaited
announced s msg effects passes = elim (Bool-cases (msg.leader_id == s.id && not s.im_leader)) [
  | inl first ↦
      let v : Server = record s { id_leader = msg.leader_id; im_leader = true } in
      (
        v,
        (start_listener (id_to_tcp_address s.id) ∷ []) ++ effects ++ seek_leader v msg.leader_id,
        rw (become_first s msg.leader_id first, new_leader)
            (rw (passes true, new_leader) (rw (become_first s msg.leader_id first) refl)),
        quiet (start_listener (id_to_tcp_address s.id) ∷ []) effects v msg.leader_id refl,
        awaits effects v msg.leader_id,
        (refl, ground arith, refl),
      )
  | inr later ↦
      let v : Server = record s { id_leader = msg.leader_id } in
      (
        v,
        effects ++ seek_leader v msg.leader_id,
        rw (become_later s msg.leader_id later, new_leader)
            (rw (passes s.im_leader, new_leader) (rw (become_later s msg.leader_id later) refl)),
        quiet [] effects v msg.leader_id refl,
        awaits effects v msg.leader_id,
        (refl, ground arith, refl),
      )
]

pub new_leader_passes :
    (s : Server) (msg : NewLeaderMsg) (u : Addr)
    → s.udp_sender ≡ some u
    → contains s.disconnected_servers s.actual_neighbor_id ≡ false
    → msg.id_sender ≢ s.id
    → (t : Server) × (all : List Effect) × (new_leader s msg ≡ some (t, all))
      × (sends all ≡ (get_address s.actual_neighbor_id, UdpWire.new_leader msg) ∷ [])
      × (awaited all ≡ awaited (sent s u (UdpWire.new_leader msg) msg.sequence_number))
      × IsLed msg.leader_id s t
unfolding pass_new_leader with_state sends sent
new_leader_passes s msg u sender up ne =
    let other : (msg.id_sender == s.id) ≡ false = ground (arith, nat_beq_iff msg.id_sender s.id) in
    announced s msg (sent s u (UdpWire.new_leader msg) msg.sequence_number) (λ b.
      let v : Server = record s { id_leader = msg.leader_id; im_leader = b } in
      rw (other, pass_new_leader)
        (rw (update_neighbor-Next v s.actual_neighbor_id (inl (up, refl)), pass_new_leader)
          (rw (forward-some v u (UdpWire.new_leader msg) msg.sequence_number sender) refl)))

pub new_leader_stops :
    (s : Server) (msg : NewLeaderMsg)
    → msg.id_sender ≡ s.id
    → (t : Server) × (all : List Effect) × (new_leader s msg ≡ some (t, all))
      × (sends all ≡ [])
      × (awaited all ≡ none)
      × IsLed msg.leader_id s t
unfolding pass_new_leader sends awaited
new_leader_stops s msg e =
    announced s msg [] (λ b. rw ((nat_beq_iff msg.id_sender s.id).1 e, pass_new_leader) refl)
