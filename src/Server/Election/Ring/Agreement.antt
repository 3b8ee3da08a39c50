-- ===== src/Server/Election/Ring/Agreement.antt =====
-- The whole election: one server starts it, and all of them end up with the same leader.
use concu_ride.Prelude.{
  String, Bool, ℕ, suc, ◌*◌, ◌≤◌, ◌≡◌, inl, refl, ap, ◌∙◌, some, List, [], ◌∷◌, length, Has, All,
  nat_eq, arith,
}
use concu_ride.Server.{Server}
use concu_ride.Server.Neighbor.Search.{IsServerId}
use concu_ride.Server.Election.{max_id_from}
use concu_ride.Server.Election.Leader.{max_id_from_greatest}
use concu_ride.Server.Election.Ring.Times.{start, first_time, second_time}
use concu_ride.Server.Election.Net.{and_then, deliveries}
use concu_ride.Server.Election.Ring.Steps.{IsLed}
use concu_ride.Server.Election.Ring.Finding.{IsReady}
use concu_ride.Server.Election.Ring.Round.{Chain, IsDistinct, rounds, rounds-length}

-- What an election leaves behind, among the servers `ids`.
abbrev pub Elected : (ℕ → Server) → List ℕ → (ℕ → Server) → Type 0
Elected servers ids after =
    let leader_id = max_id_from 0 ids in
    (Has leader_id ids × All (λ n. n ≤ leader_id) ids)
    × All (λ n. IsLed leader_id (servers n) (after n)) ids
    × ((n : ℕ) → ¬ Has n ids → after n ≡ servers n)

-- An election on a ring, where a message to a server that is not `up` is lost, and is checked and
-- sent again before anything else arrives, and any other is acknowledged first of all. The server
-- `i` starts it, with the servers of `ids` after it on the ring: all of them different and under the
-- ids of servers; each with a UDP sender, with no ACK yet under its next number, and with the next
-- of them, which is up, as the neighbour that it finds once it takes the old leader for
-- disconnected, after `max_servers` others at most, which are down. After two times round no message
-- is left: the largest of the ids is the leader of all of them, the server of that id and no other
-- has become a leader, each has kept its UDP sender and its registry of drivers and passengers, and
-- no server outside the ring is changed.
pub election_agrees :
    (up : String → Bool) (servers : ℕ → Server) (i : ℕ) (ids : List ℕ)
    → All IsServerId (i ∷ ids)
    → IsDistinct (i ∷ ids)
    → Chain (λ x m. IsReady up (servers i).id_leader (servers x) x m) (i ∷ ids) i
    → (after : ℕ → Server) × (and_then (start up servers i) (deliveries up (2 * length (i ∷ ids)))
        ≡ some (record { servers = after; flying = [] }))
      × Elected servers (i ∷ ids) after
election_agrees up servers i ids valid distinct ready =
    let rest = rounds ids 1 in
    let (now, n, run, begun_i, linked, same) =
      first_time up servers i ids valid distinct ready (suc rest) in
    let (after, run', led, same') =
      second_time up servers i ids valid distinct ready now n begun_i linked in
    (
      after,
      ap (λ c. and_then (start up servers i) (deliveries up c))
            (omega (arith, rounds-length ids (suc rest), rounds-length ids 1))
          ∙ run
          ∙ run',
      (max_id_from_greatest (i ∷ ids) i (inl refl), led, λ y h. same' y h ∙ same y h),
    )
