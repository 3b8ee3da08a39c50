-- ===== src/Wire/Joining.antt =====
-- A replica that starts, over the wire: the process of server/src/main.rs, the leader that it finds,
-- and the state that comes back.
use concu_ride.Prelude.{
  ℕ, ◌≡◌, refl, ap, ◌∙◌, String, Bool, true, false, Option, some, [], ◌∷◌, string_eq, nat_eq,
  contains, Has,
}
use concu_ride.Prelude.HashMap.{get, insert, Distinct, insert-Distinct, get-insert}
use concu_ride.Common.Json.{Json, IsJson}
use concu_ride.Common.Message.Fields.{str_field, u64_field}
use concu_ride.Server.{Addr, Server, to_self, pong_to, TcpOut}
use concu_ride.Server.LeaderConnection
use concu_ride.Server.LeaderConnection.{ServerConnection, update_network_state}
use concu_ride.Server.Neighbor.{get_address}
use concu_ride.Server.Replication
use concu_ride.Server.Replication.{
  NewServerConnection, new_server_connection, network_state, set_leader,
}
use concu_ride.Server.Replication.Failover.{take_over}
use concu_ride.Server.Replication.Joining.{new_server_connection_pongs}
use concu_ride.Server.Sending.{UdpReceiver}
use concu_ride.Server.Startup.{replica_server, find_leader}
use concu_ride.Server.Startup.Process.{
  Actors, replica_app, running, new_replica_fields, new_replica_line, udp_socket_addr, pings,
}
use concu_ride.Server.Startup.Process as Process
use concu_ride.Server.Wire as ServerWire
use concu_ride.Server.Wire.{encode as server_line}
use concu_ride.Wire.ToServer.{received}
use concu_ride.Wire.ToReplica.{IsMaps, receive-pong_line}

module _ (j : Json) (laws : IsJson j) where
  -- The leader reads from the first line of a replica its id, and the address to which the servers
  -- of the ring send.
  receive-new_replica_line :
      (addr : Addr) (id : ℕ)
      → ServerWire.receive j addr (some (new_replica_line j id))
        ≡ some (
            ServerWire.new_server_connection
              (record { addr = addr; socket = get_address id; id = id }))
  unfolding new_replica_line ServerWire.dispatch get get_address
  receive-new_replica_line addr id =
      let fields = new_replica_fields j id (udp_socket_addr id) in
      let d : Distinct fields = (refl, (refl, tt)) in
      received j laws addr "new_replica" (j.of_object fields)
      ∙ rw
          (
            u64_field j laws fields d "id" id refl,
            str_field j laws fields d "socket" (udp_socket_addr id) refl,
          )
          refl

  IsMaps-joined :
      (s : Server) (msg : NewServerConnection)
      → IsMaps (network_state s)
      → IsMaps (network_state (new_server_connection s msg).0)
  unfolding network_state new_server_connection
  IsMaps-joined s msg m = record {
    drivers = m.drivers;
    busy_drivers = m.busy_drivers;
    passengers = m.passengers;
    udp_sockets_replicas =
        insert-Distinct s.udp_sockets_replicas msg.id msg.socket m.udp_sockets_replicas;
  }

  -- What a leader `t` knows of a replica under its id: its connection, and the address to which the
  -- servers of the ring send; it is not known to be disconnected.
  abbrev pub Knows : Server → ℕ → Addr → Type 0
  Knows t id addr =
      (get t.udp_sockets_replicas id ≡ some (get_address id))
      × (get t.servers id ≡ some addr)
      × (contains t.disconnected_servers id ≡ false)

  knows :
      (s : Server) (msg : NewServerConnection)
      → Distinct s.servers
      → msg.socket ≡ get_address msg.id
      → let (t, effects) = new_server_connection s msg in
        Knows t msg.id msg.addr × Has (to_self (pong_to msg.addr)) effects
  unfolding new_server_connection
  knows s msg d e =
      let (up, kept, ponged) = new_server_connection_pongs s msg d in
      let self = (nat_eq.eq_law msg.id msg.id).1 refl in
      let here : get (insert s.servers msg.id msg.addr) msg.id ≡ some msg.addr =
        kept msg.id ∙ rw self refl in
      (
        (
          get-insert s.udp_sockets_replicas msg.id msg.socket msg.id ∙ rw self (ap some e),
          here,
          up msg.id ∙ rw self refl,
        ),
        (ponged msg.addr).1 (msg.id, here),
      )

  -- A replica that can bind its UDP socket and finds a leader sends it one line. A leader whose maps
  -- hold no key twice reads from it who the replica is, then knows it under its id, with the UDP
  -- address to which the ring sends, and sends it its state. From the line of that state, read over
  -- the connection of the replica, the replica takes over the very state of the leader, and its own
  -- UDP address in it, under the leader that it has found.
  pub replica_joins :
      (id k n now : ℕ) (actors : Actors) (bind connect : String → Bool) (leader : Server)
      (addr : Addr)
      → bind (udp_socket_addr id) ≡ true
      → find_leader connect id ≡ some k
      → Distinct leader.servers
      → IsMaps (network_state leader)
      → (s : Server) × (r : UdpReceiver) × (c : ServerConnection) × (line : j.Text)
        × (msg : NewServerConnection) × (replica_app j id actors bind connect n
            ≡ running s r c (line ∷ []) (Process.set_leader k actors.connection ∷ pings n))
        × (ServerWire.receive j addr (some line) ≡ some (ServerWire.new_server_connection msg))
        × (let (t, effects) = new_server_connection leader msg in
            let u = take_over (set_leader s k actors.connection).0 (network_state t) in
            Knows t id addr
            × Has (to_self (pong_to addr)) effects
            × ((LeaderConnection.receive j c now
                  (some (server_line j (TcpOut.pong (network_state t))))).1
                ≡ some (update_network_state actors.server (network_state t)))
            × (network_state u ≡ network_state t)
            × (get u.udp_sockets_replicas id ≡ some (get_address id))
            × (u.id_leader ≡ k)
            × (u.leader_connection ≡ some actors.connection))
  unfolding replica_app network_state set_leader Replication.update_network_state
  replica_joins id k n now actors bind connect leader addr bound found d m =
      let msg : NewServerConnection = record { addr = addr; socket = get_address id; id = id } in
      let t = (new_server_connection leader msg).0 in
      let (known, ponged) = knows leader msg d refl in
      (
        replica_server id actors.udp_sender,
        record { server = some actors.server },
        record { addr = actors.server; write = some actors.write; response_time = actors.now },
        new_replica_line j id,
        msg,
        rw (bound, replica_app) (rw (found, replica_app) refl),
        receive-new_replica_line addr id,
        (
          known,
          ponged,
          ap (λ (x : ServerConnection × Option (LeaderConnection.Effect j)). x.1)
              (receive-pong_line j laws _ now (network_state t) (IsMaps-joined leader msg m)),
          refl,
          known.0,
          refl,
          refl,
        ),
      )
