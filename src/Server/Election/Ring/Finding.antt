-- ===== src/Server/Election/Ring/Finding.antt =====
-- A server of a ring finds the next one that is up: the servers before it do not acknowledge its
-- message.
use concu_ride.Prelude.{
  ap, none, ℕ, zero, suc, ◌≤◌, ◌≡◌, refl, subst, ◌∙◌, sym, String, Bool, true, false, some, List,
  [], ◌∷◌, ◌++◌, contains, contains-snoc, nat_eq, arith,
}
use concu_ride.Prelude.HashMap.{contains_key}
use concu_ride.Common.{max_servers}
use concu_ride.Server.{ElectionMsg, Addr, UdpWire, PendingAck, Server, Effect}
use concu_ride.Server.Neighbor.{get_address}
use concu_ride.Server.Election.{check_ack, election}
use concu_ride.Server.Election.Handlers.{sent, ack_marked}
use concu_ride.Server.Election.Losses.{awaited, reached, resend}
use concu_ride.Server.Election.Sends.{sends}
use concu_ride.Server.Election.Losses.Checks.{
  moved, settled, contains-settled, waiting, resend-reached, resend-lost, resend-awaited,
}
use concu_ride.Server.Election.Ring.Steps.{
  lasting, passed, extended, election_passes, Next, Next-up, update_neighbor-Next,
}

-- With the servers `d` taken for disconnected and a message sent to `n`, the server `id` tries `k`
-- servers that are down, and then `m`, which is up.
abbrev pub Tries : (String → Bool) → ℕ → List ℕ → ℕ → ℕ → ℕ → Type 0
Tries up zero d id n m = (n ≡ m) × (up (get_address m) ≡ true)
Tries up (suc k) d id n m =
    (up (get_address n) ≡ false)
    × (next : ℕ) × Next (d ++ n ∷ []) id n next
    × Tries up k (d ++ n ∷ []) id next m

-- What is left of the server `s` in `t`, which has found the neighbour `m`.
abbrev pub IsKept : (String → Bool) → Server → Server → ℕ → Type 0
IsKept up s t m =
    (t.id ≡ s.id)
    × (lasting t ≡ lasting s)
    × (t.im_leader ≡ s.im_leader)
    × (t.actual_neighbor_id ≡ m)
    × (up (get_address m) ≡ true)
    × (contains t.disconnected_servers m ≡ false)
    × (contains s.disconnected_servers m ≡ false)

check_ack-Next :
    (s : Server) (msg : PendingAck) (u : Addr) (n : ℕ)
    → s.udp_sender ≡ some u
    → contains_key s.message_received_ack msg.sequence_number ≡ false
    → Next (s.disconnected_servers ++ msg.neighbor_id ∷ []) s.id s.actual_neighbor_id n
    → check_ack s msg
      ≡ (moved s msg n, sent (moved s msg n) u msg.serialized_msg msg.sequence_number)
unfolding check_ack sent
check_ack-Next s msg u n sender missing next =
    rw (missing, check_ack) (rw (update_neighbor-Next (ack_marked s msg) n next) (rw sender refl))

pub resend-Tries :
    (up : String → Bool) (j rounds : ℕ) (s : Server) (u : Addr) (message : UdpWire) (k m : ℕ)
    → s.udp_sender ≡ some u
    → contains_key s.message_received_ack k ≡ false
    → contains s.disconnected_servers s.actual_neighbor_id ≡ false
    → Tries up j s.disconnected_servers s.id s.actual_neighbor_id m
    → j ≤ rounds
    → (t : Server) × (resend up (suc rounds) s (sent s u message k) ≡ some (t, sent t u message k))
      × IsKept up s t m
unfolding sent
resend-Tries up zero rounds s u message k m sender missing c (e, h) enough = (
  settled s (waiting s message k),
  resend-reached up rounds s u message k (subst (λ n. up (get_address n) ≡ true) (sym e) h),
  (
    refl,
    refl,
    refl,
    e,
    h,
    contains-settled s (waiting s message k) m
        (subst (λ n. contains s.disconnected_servers n ≡ false) e c),
    subst (λ n. contains s.disconnected_servers n ≡ false) e c,
  ),
)
resend-Tries up (suc j) zero s u message k m sender missing c tries enough = absurd (omega arith)
resend-Tries up (suc j) (suc rounds) s u message k m sender missing c (h, n, next, tries) enough =
    let v = moved s (waiting s message k) n in
    let (t, run, (e, f, g, near, up_m, fresh, before)) =
      resend-Tries up j rounds v u message k m sender missing
        (Next-up v.disconnected_servers s.id s.actual_neighbor_id n next) tries (omega arith) in
    (
      t,
      resend-lost up (suc rounds) s u message k _ h
            (check_ack-Next s (waiting s message k) u n sender missing next)
          ∙ run,
      (
        e,
        f,
        g,
        near,
        up_m,
        fresh,
        ground (arith, contains-snoc s.disconnected_servers m s.actual_neighbor_id),
      ),
    )

-- The server `id` finds `m`, whichever servers before it are down.
abbrev pub Reaches : (String → Bool) → List ℕ → ℕ → ℕ → ℕ → Type 0
Reaches up d id n m =
    (first : ℕ) × Next d id n first × (k : ℕ) × (k ≤ max_servers) × Tries up k d id first m

-- Where the receiver is up, or no ACK is awaited, nothing is sent again.
pub resend-up :
    (up : String → Bool) (rounds : ℕ) (s : Server) (effects : List Effect) (dst : String)
    (message : UdpWire) (msg : PendingAck)
    → sends effects ≡ (dst, message) ∷ []
    → awaited effects ≡ some msg
    → up dst ≡ true
    → resend up (suc rounds) s effects ≡ some (settled s msg, effects)
unfolding reached
resend-up up rounds s effects dst message msg e w h =
    resend-awaited up rounds s effects msg w (rw e (rw (h, reached) refl))

pub resend-quiet :
    (up : String → Bool) (rounds : ℕ) (s : Server) (effects : List Effect)
    → awaited effects ≡ none
    → resend up (suc rounds) s effects ≡ some (s, effects)
unfolding resend
resend-quiet up rounds s effects h = rw (h, resend) refl

-- The server `x`, with no ACK yet under its next number, that will find the neighbour `m`, which is
-- up, once it takes `d` for disconnected.
abbrev pub IsReady : (String → Bool) → ℕ → Server → ℕ → ℕ → Type 0
IsReady up d s x m =
    (s.id ≡ x)
    × ((u : Addr) × (s.udp_sender ≡ some u))
    × (contains_key s.message_received_ack s.sequence_number ≡ false)
    × Reaches up (s.disconnected_servers ++ d ∷ []) s.id s.actual_neighbor_id m

-- The server `x` with the neighbour `m`; `before` is the server before the election.
abbrev pub IsLinked : (String → Bool) → Server → Server → ℕ → ℕ → Type 0
IsLinked up before s x m =
    (s.id ≡ x)
    × ((u : Addr) × (s.udp_sender ≡ some u))
    × (s.actual_neighbor_id ≡ m)
    × (contains s.disconnected_servers m ≡ false)
    × (s.im_leader ≡ before.im_leader)
    × (lasting s ≡ lasting before)
    × (up (get_address m) ≡ true)

-- `Election` at a server that is ready and not yet in the message, which it hands on to `m`.
pub election_handed_on :
    (up : String → Bool) (s : Server) (x m : ℕ) (msg : ElectionMsg)
    → IsReady up msg.disconnected_leader_id s x m
    → contains msg.server_ids s.id ≡ false
    → (t : Server) × (effects : List Effect) × (v : Server) × (more : List Effect) × (election s msg
        ≡ some (t, effects))
      × (resend up (suc max_servers) t effects ≡ some (v, more))
      × (sends more ≡ (get_address m, UdpWire.election (extended msg s)) ∷ [])
      × IsLinked up s v x m
unfolding sends sent
election_handed_on up s x m msg (e, (u, sender), missing, (first, next, j, few, tries)) fresh =
    let t = passed s msg first in
    let k = s.sequence_number in
    let message = UdpWire.election (extended msg s) in
    let (v, again, (same_id, same, same_im, near, up_m, apart, before)) =
      resend-Tries up j max_servers t u message k m sender missing
        (Next-up t.disconnected_servers s.id s.actual_neighbor_id first next) tries few in
    (
      t,
      sent t u message k,
      v,
      sent v u message k,
      election_passes s msg u first sender next fresh,
      again,
      ap (λ n. (get_address n, message) ∷ []) near,
      (same_id ∙ e, (u, ap (λ l. l.0) same ∙ sender), near, apart, same_im, same, up_m),
    )
