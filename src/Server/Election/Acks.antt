-- ===== src/Server/Election/Acks.antt =====
-- What acknowledgements change.
use concu_ride.Prelude.{
  ℕ, ◌≡◌, refl, true, false, not, ◌&&◌, ◌||◌, List, [], ◌∷◌, map, contains, contains-without,
  nat_eq, arith, Has, Has-contains,
}
use concu_ride.Prelude.HashMap.{contains_key, get-insert}
use concu_ride.Server.{PendingAck, Server}
use concu_ride.Server.Election.{NeighborAck, neighbor_ack, check_ack}

-- The server after some ACKs.
abbrev pub acked : Server → List NeighborAck → Server
acked s [] = s
acked s (a ∷ acks) = acked (neighbor_ack s a).0 acks

abbrev pub numbers : List NeighborAck → List ℕ
numbers = map (λ a. a.sequence_number)

abbrev pub senders : List NeighborAck → List ℕ
senders = map (λ a. a.id)

contains_key-acked :
    (s : Server) (acks : List NeighborAck) (k : ℕ)
    → contains_key (acked s acks).message_received_ack k
      ≡ (contains_key s.message_received_ack k || contains (numbers acks) k)
unfolding neighbor_ack contains contains_key
contains_key-acked s [] k = ground arith
contains_key-acked s (a ∷ acks) k = ground (
  arith,
  contains_key-acked (neighbor_ack s a).0 acks k,
  get-insert s.message_received_ack a.sequence_number true k,
)

contains-acked :
    (s : Server) (acks : List NeighborAck) (n : ℕ)
    → contains (acked s acks).disconnected_servers n
      ≡ (contains s.disconnected_servers n && not (contains (senders acks) n))
unfolding neighbor_ack contains
contains-acked s [] n = ground arith
contains-acked s (a ∷ acks) n = ground (
  arith,
  contains-acked (neighbor_ack s a).0 acks n,
  contains-without a.id n s.disconnected_servers,
)

-- After any ACKs, one of which has the number of a message, that message is not sent again and
-- nobody is marked as disconnected for it; and a server is known to be disconnected exactly if it
-- was before and none of the ACKs names it.
pub check_ack-acked :
    (s : Server) (acks : List NeighborAck) (msg : PendingAck)
    → Has msg.sequence_number (numbers acks)
    → let t = acked s acks in
      (check_ack t msg ≡ (record t { received_neighbor_ack = false }, []))
      × ((n : ℕ)
          → contains t.disconnected_servers n
            ≡ (contains s.disconnected_servers n && not (contains (senders acks) n)))
unfolding check_ack
check_ack-acked s acks msg h =
    let found : contains_key (acked s acks).message_received_ack msg.sequence_number ≡ true =
      ground (
        arith,
        contains_key-acked s acks msg.sequence_number,
        Has-contains (numbers acks) msg.sequence_number h,
      ) in
    (rw (found, check_ack) refl, contains-acked s acks)
