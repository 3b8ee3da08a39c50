-- ===== src/Server/Election/Validity/Schedules.antt =====
-- An election as its servers may run it: any of them starts one at any time, messages are lost,
-- doubled and overtaken, ACKs come or do not, and other handlers run in between.
use concu_ride.Prelude.{ℕ, ◌≡◌, ◌⊎◌, String, some, List, [], ◌∷◌, ◌++◌, Has, All}
use concu_ride.Server.{
  UdpWire, NewLeaderMsg, PendingAck, SelfMsg, Server, Effect, to_self, wait_for_neighbor_ack,
  check_if_neighbor_acked, new_leader_msg,
}
use concu_ride.Server.Neighbor.Search.{IsServerId}
use concu_ride.Server.Election.{start_election, wait_for_ack, check_ack, new_leader}
use concu_ride.Server.Election.Net.{put, receiver, receive}
use concu_ride.Server.Election.Sends.{sends}
use concu_ride.Server.Election.Validity.{ValidMsg, ValidSelf}

-- The messages that have been sent to servers, those that servers have sent themselves, and the ids
-- of the servers that have run a handler of the election.
pub record World : Type 0 where
  pub servers : ℕ → Server
  pub flying : List (String × UdpWire)
  pub told : List (ℕ × SelfMsg)
  pub active : List ℕ

-- What a handler of the server `n` sends itself.
unfoldable pub tells : ℕ → List Effect → List (ℕ × SelfMsg)
tells n [] = []
tells n (to_self msg ∷ effects) = (n, msg) ∷ tells n effects
tells n (_ ∷ effects) = tells n effects

-- The world after a handler of the server `n`.
unfoldable pub after : World → ℕ → Server × List Effect → World
after w n (s, effects) = record {
  servers = put w.servers n s;
  flying = sends effects ++ w.flying;
  told = tells n effects ++ w.told;
  active = n ∷ w.active;
}

-- A message may arrive more than once, and never.
pub data Step (w : World) : World → Type 0 where
  starts : (n : ℕ) → IsServerId n → Step w (after w n (start_election (w.servers n)))
  receives :
      (addr : String) (message : UdpWire) (r : Server × List Effect)
      → Has (addr, message) w.flying
      → IsServerId (receiver addr)
      → receive (w.servers (receiver addr)) message ≡ some r
      → Step w (after w (receiver addr) r)
  waits :
      (n : ℕ) (msg : PendingAck)
      → Has (n, wait_for_neighbor_ack msg) w.told
      → IsServerId n
      → Step w (after w n (wait_for_ack (w.servers n) msg))
  checks :
      (n : ℕ) (msg : PendingAck)
      → Has (n, check_if_neighbor_acked msg) w.told
      → IsServerId n
      → Step w (after w n (check_ack (w.servers n) msg))
  announces :
      (n : ℕ) (msg : NewLeaderMsg) (r : Server × List Effect)
      → Has (n, new_leader_msg msg) w.told
      → IsServerId n
      → new_leader (w.servers n) msg ≡ some r
      → Step w (after w n r)
  -- Any other handler, which changes neither the server's id nor its leader.
  otherwise :
      (n : ℕ) (s : Server)
      → s.id ≡ (w.servers n).id
      → s.id_leader ≡ (w.servers n).id_leader
      → Step w (record w { servers = put w.servers n s })

pub data Reach (w : World) : World → Type 0 where
  here : Reach w w
  next : {v u : World} → Reach w v → Step v u → Reach w u

abbrev pub Active : List ℕ → ℕ → Type 0
Active active i = Has i active

-- Every server has its id, and as its leader the one it had `before` or an active server, and every
-- message on its way names active servers.
pub record IsSound (before : ℕ → Server) (w : World) : Type 0 where
  pub ids : (n : ℕ) → (w.servers n).id ≡ n
  pub led :
      (n : ℕ)
      → ((w.servers n).id_leader ≡ (before n).id_leader) ⊎ Has (w.servers n).id_leader w.active
  pub flying : All (λ m. ValidMsg (Active w.active) m.1) w.flying
  pub told : All (λ m. ValidSelf (Active w.active) m.1) w.told
