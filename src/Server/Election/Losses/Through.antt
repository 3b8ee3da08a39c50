-- ===== src/Server/Election/Losses/Through.antt =====
-- A message of the election gets through, or its sender is left alone.
use concu_ride.Prelude.{
  ℕ, zero, suc, ◌≤◌, ◌≡◌, ◌≢◌, inl, inr, refl, ◌∙◌, ap, subst, String, Bool, true, false, some,
  List, contains-without, contains, contains-snoc, nat_eq, nat_beq_iff, arith, Bool-cases,
}
use concu_ride.Prelude.HashMap.{contains_key}
use concu_ride.Common.{max_servers}
use concu_ride.Server.{Addr, UdpWire, PendingAck, Server, Effect}
use concu_ride.Server.Neighbor.{get_address}
use concu_ride.Server.Neighbor.Search.{IsServerId, IsConnected}
use concu_ride.Server.Election.{proclaim}
use concu_ride.Server.Election.Handlers.{Sends, sent}
use concu_ride.Server.Election.Losses.{resend, Marks, GetsThrough}
use concu_ride.Server.Election.Losses.Left.{left, left-bounded, left-snoc}
use concu_ride.Server.Election.Losses.Checks.{
  moved, check_ack_lost, waiting, settled, resend-reached, contains_key-settled, contains-settled,
  resend-lost, resend-proclaim,
}

-- A check marks the receiver alone, which is down.
moved-Marks :
    (up : String → Bool) (s : Server) (msg : PendingAck) (n : ℕ)
    → up (get_address msg.neighbor_id) ≡ false
    → Marks up s (moved s msg n)
moved-Marks up s msg n down m h = elim (Bool-cases (contains s.disconnected_servers m)) [
  | inl before ↦ inl before
  | inr new ↦
      let same : msg.neighbor_id ≡ m =
        (nat_beq_iff msg.neighbor_id m).0
          (ground (arith, contains-snoc s.disconnected_servers m msg.neighbor_id)) in
      inr (subst (λ k. up (get_address k) ≡ false) same down)
]

-- What becomes of the message after a check is what becomes of it.
GetsThrough-moved :
    (up : String → Bool) (s : Server) (msg : PendingAck) (n : ℕ) (u : Addr) (message : UdpWire)
    (k : ℕ) (v : Server) (more : List Effect)
    → Marks up s (moved s msg n)
    → GetsThrough up (moved s msg n) u message k v more
    → GetsThrough up s u message k v more
GetsThrough-moved up s msg n u message k v more marks (later, outcome) = (
  λ m h. elim (later m h) [ inl before ↦ marks m before | inr off ↦ inr off ],
  elim outcome [
    | inl through ↦ inl through
    | inr (alone, others) ↦ inr (
      alone,
      λ m id ne. elim (others m id ne) [ inl before ↦ marks m before | inr off ↦ inr off ],
    )
  ],
)

-- With nobody left, all but the server itself are marked.
none_left : (d : List ℕ) (id n : ℕ) → ¬ IsConnected d id n → n ≢ id → contains d n ≡ true
none_left d id n h ne = elim (Bool-cases (contains d n)) [ inl e ↦ e | inr e ↦ absurd (h (e, ne)) ]

GetsThrough-proclaim :
    (up : String → Bool) (s : Server) (msg : PendingAck) (n : ℕ) (u : Addr) (message : UdpWire)
    (k : ℕ)
    → Marks up s (moved s msg n)
    → ((m : ℕ) → IsServerId m → ¬ IsConnected (moved s msg n).disconnected_servers s.id m)
    → GetsThrough up s u message k (proclaim (moved s msg n)).0 (proclaim (moved s msg n)).1
unfolding proclaim
GetsThrough-proclaim up s msg n u message k marks nothing = (
  marks,
  inr (
    refl,
    λ m id ne. marks m (none_left (moved s msg n).disconnected_servers s.id m (nothing m id) ne),
  ),
)

sent-GetsThrough :
    (up : String → Bool) (rounds : ℕ) (s : Server) (u : Addr) (message : UdpWire) (k : ℕ)
    → s.udp_sender ≡ some u
    → contains_key s.message_received_ack k ≡ false
    → s.actual_neighbor_id ≢ s.id
    → left max_servers s.disconnected_servers ≤ rounds
    → IsServerId s.actual_neighbor_id
    → contains s.disconnected_servers s.actual_neighbor_id ≡ false
    → (t : Server) × (more : List Effect) × (resend up (suc rounds) s (sent s u message k)
        ≡ some (t, more))
      × GetsThrough up s u message k t more
unfolding sent
sent-GetsThrough up zero s u message k sender missing ne bound i c =
    absurd
      (omega (arith, left-snoc max_servers s.disconnected_servers s.actual_neighbor_id i.0 i.1 c))
sent-GetsThrough up (suc rounds) s u message k sender missing ne bound i c =
    elim (Bool-cases (up (get_address s.actual_neighbor_id))) [
      | inl h ↦ (
        settled s (waiting s message k),
        sent s u message k,
        resend-reached up (suc rounds) s u message k h,
        (
          λ n before. inl (ground (arith, contains-without 0 n s.disconnected_servers)),
          inl (
            (i, contains-settled s (waiting s message k) s.actual_neighbor_id c, refl),
            ne,
            h,
            contains_key-settled s (waiting s message k),
          ),
        ),
      )
      | inr down ↦
          let msg = waiting s message k in
          let (n, found) = check_ack_lost s msg u sender i missing in
          let marks = moved-Marks up s msg n down in
          elim found [
            | inl (e, j, other, next) ↦
                let t = moved s msg n in
                let fewer : left max_servers t.disconnected_servers ≤ rounds = omega (
                  arith,
                  left-snoc max_servers s.disconnected_servers s.actual_neighbor_id i.0 i.1 c,
                ) in
                let (v, more, run, through) =
                  sent-GetsThrough up rounds t u message k sender missing (other ne) fewer j next in
                (
                  v,
                  more,
                  resend-lost up (suc rounds) s u message k _ down e ∙ run,
                  GetsThrough-moved up s msg n u message k v more marks through,
                )
            | inr (e, nothing) ↦
                let t = moved s msg n in
                (
                  (proclaim t).0,
                  (proclaim t).1,
                  resend-lost up (suc rounds) s u message k _ down e ∙ resend-proclaim up rounds t,
                  GetsThrough-proclaim up s msg n u message k marks nothing,
                )
          ]
    ]

-- A message of the election that a server has sent to its neighbour, another server, with no ACK
-- under its number so far, gets through, whichever servers are down, if nothing but its ACK arrives
-- meanwhile: after `max_servers` checks at most either the very same message has been sent to
-- another server, which is up, and its ACK is known; or the server proclaims itself, and then every
-- other server was known to be disconnected or is down. No server that is up is marked as
-- disconnected.
pub resend-GetsThrough :
    (up : String → Bool) (s : Server) (effects : List Effect) (u : Addr) (message : UdpWire) (k : ℕ)
    → s.udp_sender ≡ some u
    → contains_key s.message_received_ack k ≡ false
    → s.actual_neighbor_id ≢ s.id
    → Sends s u message k effects
    → (t : Server) × (more : List Effect) × (resend up (suc max_servers) s effects ≡ some (t, more))
      × GetsThrough up s u message k t more
unfolding sent
resend-GetsThrough up s effects u message k sender missing ne (i, c, e) =
    let (t, more, run, through) =
      sent-GetsThrough up max_servers s u message k sender missing ne
        (left-bounded max_servers s.disconnected_servers) i c in
    (t, more, ap (resend up (suc max_servers) s) e ∙ run, through)
