-- ===== src/Server/Election/Losses/Checks.antt =====
-- What one check does to a message that is lost, or that has arrived.
use concu_ride.Prelude.{
  ℕ, suc, ◌≡◌, ◌≢◌, ◌⊎◌, inl, inr, refl, sym, ◌∙◌, ap, subst, String, Bool, true, false, some, List,
  [], ◌∷◌, ◌++◌, without, contains-without, contains, nat_eq, nat_beq_iff, arith,
}
use concu_ride.Prelude.HashMap.{contains_key, insert, get-insert}
use concu_ride.Server.Election.Sends.{sends}
use concu_ride.Server.Election.Acks.{check_ack-acked}
use concu_ride.Server.{Addr, UdpWire, PendingAck, Server, Effect}
use concu_ride.Server.Neighbor.{get_address}
use concu_ride.Server.Neighbor.Search.{IsServerId, IsConnected}
use concu_ride.Server.Neighbor.Update.{update_neighbor_cases}
use concu_ride.Server.Election.{NeighborAck, neighbor_ack, proclaim, check_ack}
use concu_ride.Server.Election.Handlers.{ack_marked, sent}
use concu_ride.Server.Neighbor.{update_neighbor}
use concu_ride.Server.Neighbor.Update.{Updates, update_neighbor-Updates}
use concu_ride.Server.Election.Losses.{awaited, reached, acknowledged, resend}

-- The neighbour is never the server itself.
next_not_self :
    (s : Server) (n : ℕ)
    → IsServerId s.actual_neighbor_id
    → update_neighbor s s.actual_neighbor_id ≡ (record s { actual_neighbor_id = n }, true)
    → s.actual_neighbor_id ≢ s.id
    → n ≢ s.id
next_not_self s n h e ne = go (subst (Updates s) e (update_neighbor-Updates s h))
  where
    go : Updates s (record s { actual_neighbor_id = n }, true) → n ≢ s.id
    go (_, inl (_, _, _, inl same)) = λ q. ne (sym same ∙ q)
    go (_, inl (_, _, _, inr other)) = other
    go (_, inr (false_true, _)) = absurd (ground (arith, false_true))

-- The server after a check that found no ACK, with `n` as its neighbour.
abbrev pub moved : Server → PendingAck → ℕ → Server
moved s msg n = record (ack_marked s msg) { actual_neighbor_id = n }

pub check_ack_lost :
    (s : Server) (msg : PendingAck) (u : Addr)
    → s.udp_sender ≡ some u
    → IsServerId s.actual_neighbor_id
    → contains_key s.message_received_ack msg.sequence_number ≡ false
    → (n : ℕ) × let t = moved s msg n in
        ((check_ack s msg ≡ (t, sent t u msg.serialized_msg msg.sequence_number))
          × IsServerId n
          × (s.actual_neighbor_id ≢ s.id → n ≢ s.id)
          × (contains t.disconnected_servers n ≡ false))
        ⊎ ((check_ack s msg ≡ proclaim t)
            × ((k : ℕ) → IsServerId k → ¬ IsConnected t.disconnected_servers s.id k))
unfolding check_ack sent
check_ack_lost s msg u sender h missing =
    let (n, c) = update_neighbor_cases (ack_marked s msg) h in
    (
      n,
      elim c [
        | inl (e, i, up) ↦ inl (
          rw (missing, check_ack) (rw e (rw sender refl)),
          i,
          next_not_self (ack_marked s msg) n h e,
          up,
        )
        | inr (e, nothing) ↦ inr (rw (missing, check_ack) (rw e refl), nothing)
      ],
    )

abbrev pub waiting : Server → UdpWire → ℕ → PendingAck
waiting s message k = record {
  neighbor_id = s.actual_neighbor_id;
  serialized_msg = message;
  sequence_number = k;
}

-- The server once the ACK has come.
abbrev pub settled : Server → PendingAck → Server
settled s msg = record s {
  disconnected_servers = without 0 s.disconnected_servers;
  message_received_ack = insert s.message_received_ack msg.sequence_number true;
  received_neighbor_ack = false;
}

acknowledged_lem : (s : Server) (msg : PendingAck) → acknowledged s msg ≡ (settled s msg, [])
unfolding acknowledged neighbor_ack
acknowledged_lem s msg =
    let ack : NeighborAck = record { id = 0; sequence_number = msg.sequence_number } in
    (check_ack-acked s (ack ∷ []) msg (inl refl)).0

pub resend-awaited :
    (up : String → Bool) (rounds : ℕ) (s : Server) (effects : List Effect) (msg : PendingAck)
    → awaited effects ≡ some msg
    → reached up (sends effects) ≡ true
    → resend up (suc rounds) s effects ≡ some (settled s msg, effects)
unfolding resend
resend-awaited up rounds s effects msg e h =
    rw (e, resend) (rw (h, resend) (ap (λ r. some (r.0, r.1 ++ effects)) (acknowledged_lem s msg)))

pub resend-reached :
    (up : String → Bool) (rounds : ℕ) (s : Server) (u : Addr) (message : UdpWire) (k : ℕ)
    → up (get_address s.actual_neighbor_id) ≡ true
    → resend up (suc rounds) s (sent s u message k)
      ≡ some (settled s (waiting s message k), sent s u message k)
unfolding sent awaited reached sends
resend-reached up rounds s u message k h =
    resend-awaited up rounds s (sent s u message k) (waiting s message k) refl
      (rw (h, reached) refl)

pub contains_key-settled :
    (s : Server) (msg : PendingAck)
    → contains_key (settled s msg).message_received_ack msg.sequence_number ≡ true
unfolding contains_key
contains_key-settled s msg = ground (
  arith,
  get-insert s.message_received_ack msg.sequence_number true msg.sequence_number,
  nat_beq_iff msg.sequence_number msg.sequence_number,
)

pub contains-settled :
    (s : Server) (msg : PendingAck) (n : ℕ)
    → contains s.disconnected_servers n ≡ false
    → contains (settled s msg).disconnected_servers n ≡ false
contains-settled s msg n h = ground (arith, contains-without 0 n s.disconnected_servers)

pub resend-lost :
    (up : String → Bool) (rounds : ℕ) (s : Server) (u : Addr) (message : UdpWire) (k : ℕ)
    (r : Server × List Effect)
    → up (get_address s.actual_neighbor_id) ≡ false
    → check_ack s (waiting s message k) ≡ r
    → resend up (suc rounds) s (sent s u message k) ≡ resend up rounds r.0 r.1
unfolding resend sent
resend-lost up rounds s u message k r h e = rw (h, resend) (rw e refl)

pub resend-proclaim :
    (up : String → Bool) (rounds : ℕ) (s : Server)
    → resend up (suc rounds) (proclaim s).0 (proclaim s).1 ≡ some (proclaim s)
unfolding resend proclaim
resend-proclaim up rounds s = refl
