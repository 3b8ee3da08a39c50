-- ===== src/Server/Election/Query.antt =====
-- The question which server is the leader, by which a test looks at the servers: the message
-- `get_leader` of server/src/udp_receiver.rs, and the handler `SendLeaderId` of
-- server/src/server.rs.
use concu_ride.Prelude.{
  Bool, ℕ, ◌*◌, ◌≤◌, ◌≡◌, ap, ◌∙◌, String, Option, none, some, List, [], ◌∷◌, length, Has, All,
  show,
}
use concu_ride.Server.{Addr, Server}
use concu_ride.Server.Neighbor.Search.{IsServerId}
use concu_ride.Server.Election.{max_id_from}
use concu_ride.Server.Election.Net.{and_then, deliveries}
use concu_ride.Server.Election.Ring.Steps.{IsLed}
use concu_ride.Server.Election.Ring.Finding.{IsReady}
use concu_ride.Server.Election.Ring.Round.{Chain, Chain-map, IsDistinct}
use concu_ride.Server.Election.Ring.Agreement.{election_agrees}
use concu_ride.Server.Election.Ring.Times.{start}
use concu_ride.Server.Election.Ring.Led.{Chain-All}

-- The text and the address that go to the UDP sender; `expect` wants one.
unfoldable pub send_leader_id : Server → String → Option (Addr × String × String)
send_leader_id s addr = elim s.udp_sender [
  | none ↦ none
  | some udp_sender ↦ some (udp_sender, show s.id_leader, addr)
]

-- The server `s` answers `n` to `addr`, over its UDP sender.
abbrev pub Answers : ℕ → String → Server → Server → Type 0
Answers n addr before s =
    (u : Addr) × (before.udp_sender ≡ some u) × (send_leader_id s addr ≡ some (u, show n, addr))

Answers-IsLed :
    (leader_id : ℕ) (addr : String) (s t : Server)
    → (u : Addr) × (s.udp_sender ≡ some u)
    → IsLed leader_id s t
    → Answers leader_id addr s t
unfolding send_leader_id
Answers-IsLed leader_id addr s t (u, sender) (led, im_leader, same) = (
  u,
  sender,
  rw (ap (λ l. l.0) same ∙ sender, send_leader_id) (ap (λ n. some (u, show n, addr)) led),
)

All-zip :
    (P Q R : ℕ → Type 0) (xs : List ℕ)
    → ((x : ℕ) → P x → Q x → R x)
    → All P xs
    → All Q xs
    → All R xs
All-zip P Q R [] f p q = tt
All-zip P Q R (x ∷ xs) f p q = (f x p.0 q.0, All-zip P Q R xs f p.1 q.1)

-- After an election on a ring, of which servers may be down, every server of the ring answers the
-- question for the leader, and all of them with the largest id of the ring.
query_agrees :
    (up : String → Bool) (servers : ℕ → Server) (i : ℕ) (ids : List ℕ) (addr : String)
    → All IsServerId (i ∷ ids)
    → IsDistinct (i ∷ ids)
    → Chain (λ x m. IsReady up (servers i).id_leader (servers x) x m) (i ∷ ids) i
    → (after : ℕ → Server) × (leader_id : ℕ) × (and_then
          (start up servers i)
          (deliveries up (2 * length (i ∷ ids)))
        ≡ some (record { servers = after; flying = [] }))
      × Has leader_id (i ∷ ids)
      × All (λ n. n ≤ leader_id) (i ∷ ids)
      × All (λ x. Answers leader_id addr (servers x) (after x)) (i ∷ ids)
query_agrees up servers i ids addr valid distinct ready =
    let (after, run, ((has, greatest), led, same)) =
      election_agrees up servers i ids valid distinct ready in
    let HasSender : ℕ → Type 0 = λ x. (u : Addr) × ((servers x).udp_sender ≡ some u) in
    let leader_id = max_id_from 0 (i ∷ ids) in
    (
      after,
      leader_id,
      run,
      has,
      greatest,
      All-zip HasSender (λ x. IsLed leader_id (servers x) (after x))
          (λ x. Answers leader_id addr (servers x) (after x)) (i ∷ ids)
          (λ x sender l. Answers-IsLed leader_id addr (servers x) (after x) sender l)
          (Chain-All HasSender (i ∷ ids) i (
            Chain-map (λ x m. IsReady up (servers i).id_leader (servers x) x m) (λ x m. HasSender x)
              (i ∷ ids) i (λ x m h r. r.1) ready))
          led,
    )
