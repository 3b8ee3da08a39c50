-- ===== src/Server/Election/Losses.antt =====
-- Messages that are lost because their receiver is down: the handler `CheckIfNeighborAcked` of
-- server/src/server.rs, run until a receiver is up or none is left.
pub mod Left
pub mod Checks
pub mod Through
use concu_ride.Prelude.{
  ℕ, zero, suc, ◌+◌, ◌≤◌, ◌<◌, ◌≡◌, ◌≢◌, ◌⊎◌, inl, inr, refl, sym, ◌∙◌, ap, subst, String, Bool,
  true, false, ◌||◌, Option, none, some, List, [], ◌∷◌, ◌++◌, contains, contains-snoc, inc, ◌==◌,
  nat_eq, nat_beq_iff, arith, Bool-cases, if◌then◌else◌,
}
use concu_ride.Prelude.HashMap.{contains_key}
use concu_ride.Common.{max_servers}
use concu_ride.Server.{
  Addr, UdpWire, PendingAck, Server, Effect, to_self, to_client, to_leader_ping, to_udp,
  start_listener, update_driver_socket, pong_to, start_election, check_if_neighbor_acked,
  connect_to_server, to_client, to_leader_ping, to_udp, start_listener, new_leader_msg,
  wait_for_neighbor_ack,
}
use concu_ride.Server.Neighbor.{get_address}
use concu_ride.Server.Neighbor.Search.{IsServerId, IsConnected}
use concu_ride.Server.Neighbor.Update.{update_neighbor_cases}
use concu_ride.Server.Election.{proclaim, check_ack, neighbor_ack}
use concu_ride.Server.Election.Sends.{sends}
use concu_ride.Server.Election.Handlers.{Sends, ack_marked, sent}

-- The message whose ACK a handler waits for.
unfoldable pub awaited : List Effect → Option PendingAck
awaited [] = none
awaited (to_self (wait_for_neighbor_ack msg) ∷ effects) = some msg
awaited (_ ∷ effects) = awaited effects

pub awaited-append : (xs ys : List Effect) → awaited ys ≡ none → awaited (xs ++ ys) ≡ awaited xs
unfolding awaited
awaited-append [] ys h = h
awaited-append (to_self (wait_for_neighbor_ack msg) ∷ xs) ys h = refl
awaited-append (to_self (update_driver_socket _) ∷ xs) ys h = awaited-append xs ys h
awaited-append (to_self (pong_to _) ∷ xs) ys h = awaited-append xs ys h
awaited-append (to_self start_election ∷ xs) ys h = awaited-append xs ys h
awaited-append (to_self (new_leader_msg _) ∷ xs) ys h = awaited-append xs ys h
awaited-append (to_self (check_if_neighbor_acked _) ∷ xs) ys h = awaited-append xs ys h
awaited-append (to_self connect_to_server ∷ xs) ys h = awaited-append xs ys h
awaited-append (to_client _ _ ∷ xs) ys h = awaited-append xs ys h
awaited-append (to_leader_ping _ ∷ xs) ys h = awaited-append xs ys h
awaited-append (to_udp _ _ _ ∷ xs) ys h = awaited-append xs ys h
awaited-append (start_listener _ ∷ xs) ys h = awaited-append xs ys h

-- Whether one of the addresses is that of a server that is up.
unfoldable pub reached : (String → Bool) → List (String × UdpWire) → Bool
reached up [] = false
reached up ((dst, message) ∷ others) = up dst || reached up others

-- The server once the ACK of the message has come, which bears the id 0, and has been checked.
unfoldable pub acknowledged : Server → PendingAck → Server × List Effect
acknowledged s msg =
    let (t, effects) = neighbor_ack s (record { id = 0; sequence_number = msg.sequence_number }) in
    let (v, more) = check_ack t msg in (v, effects ++ more)

-- What becomes of what a handler has sent: `WaitForNeighborAck` hands the message that is awaited on
-- to `CheckIfNeighborAcked`, as long as it is lost; else the ACK comes before. Nothing else arrives in
-- between. The sends are those that are left to arrive.
unfoldable pub resend : (String → Bool) → ℕ → Server → List Effect → Option (Server × List Effect)
unfolding awaited reached sends acknowledged
resend up zero s effects = none
resend up (suc rounds) s effects = elim (awaited effects) [
  | none ↦ some (s, effects)
  | some msg ↦ elim (reached up (sends effects)) [
    | true ↦ let (t, more) = acknowledged s msg in some (t, more ++ effects)
    | false ↦ let (t, more) = check_ack s msg in resend up rounds t more
  ]
]

-- A server that is known to be disconnected after the checks was so before, or is down.
abbrev pub Marks : (String → Bool) → Server → Server → Type 0
Marks up s t =
    (n : ℕ)
    → contains t.disconnected_servers n ≡ true
    → (contains s.disconnected_servers n ≡ true) ⊎ (up (get_address n) ≡ false)

-- What becomes of a message: it has been sent to a server that is up, and its ACK has come; or no other server that is
-- up is left, and the server proclaims itself.
abbrev pub GetsThrough :
    (String → Bool) → Server → Addr → UdpWire → ℕ → Server → List Effect → Type 0
GetsThrough up s u message k t effects =
    Marks up s t
    × ((Sends t u message k effects
          × (t.actual_neighbor_id ≢ s.id)
          × (up (get_address t.actual_neighbor_id) ≡ true)
          × (contains_key t.message_received_ack k ≡ true))
        ⊎ ((effects
              ≡ to_self (
                  new_leader_msg (record {
                    id_sender = s.id;
                    leader_id = s.id;
                    sequence_number = s.sequence_number;
                  }))
                ∷ [])
            × ((n : ℕ)
                → IsServerId n
                → n ≢ s.id
                → (contains s.disconnected_servers n ≡ true) ⊎ (up (get_address n) ≡ false))))
