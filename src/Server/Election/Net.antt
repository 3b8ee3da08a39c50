-- ===== src/Server/Election/Net.antt =====
-- Servers that send one another the messages of the election, some of them down: each handler is the
-- one of server/src/server.rs, and a message goes to the server whose UDP address it names, or, if
-- that is down, is sent again.
use concu_ride.Prelude.{
  Bool, ℕ, zero, suc, ◌≡◌, ◌≢◌, inl, inr, refl, sym, subst, String, Option, none, some, List, [],
  ◌∷◌, ◌++◌, ap, ◌∙◌, ◌==◌, nat_eq, nat_beq_iff, string_eq, if◌then◌else◌, arith, Bool-cases,
}
use concu_ride.Common.{max_servers}
use concu_ride.Server.Election.Sends.{sends}
use concu_ride.Server.Election.Losses.{resend}
use concu_ride.Server.{Server, UdpWire, Effect}
use concu_ride.Server.Neighbor.{get_address}
use concu_ride.Server.Neighbor.Search.{IsServerId}
use concu_ride.Server.Election.{election, new_leader}

pub record Net : Type 0 where
  pub servers : ℕ → Server
  pub flying : List (String × UdpWire)

-- The network after one server has changed.
unfoldable pub put : (ℕ → Server) → ℕ → Server → ℕ → Server
put servers n s m = if m == n then s else servers m

-- The server that listens on an address.
unfoldable pub receiver : String → ℕ
unfolding get_address
receiver addr =
    if addr == get_address 1
    then 1
    else if addr == get_address 2
    then 2
    else if addr == get_address 3
    then 3
    else if addr == get_address 4
    then 4
    else if addr == get_address 5
    then 5
    else 0

unfoldable pub receive : Server → UdpWire → Option (Server × List Effect)
receive s (UdpWire.election msg) = election s msg
receive s (UdpWire.new_leader msg) = new_leader s msg

placed : (ℕ → Server) → ℕ → List (String × UdpWire) → Option (Server × List Effect) → Option Net
placed servers n others none = none
placed servers n others (some (s, effects)) =
    some (record { servers = put servers n s; flying = others ++ sends effects })

-- What a handler leaves behind, once no message of it is lost to a server that is not `up`: `none`
-- where it panics.
unfoldable pub settle :
    (String → Bool)
    → (ℕ → Server)
    → ℕ
    → List (String × UdpWire)
    → Option (Server × List Effect)
    → Option Net
unfolding placed
settle up servers n others none = none
settle up servers n others (some (s, effects)) =
    placed servers n others (resend up (suc max_servers) s effects)

arrive : (String → Bool) → (ℕ → Server) → List (String × UdpWire) → Option Net
unfolding receiver receive settle
arrive up servers [] = some (record { servers = servers; flying = [] })
arrive up servers ((addr, message) ∷ others) =
    settle up servers (receiver addr) others (receive (servers (receiver addr)) message)

-- The first message arrives.
unfoldable pub deliver : (String → Bool) → Net → Option Net
unfolding arrive
deliver up net = arrive up net.servers net.flying

unfoldable pub and_then : Option Net → (Net → Option Net) → Option Net
and_then none k = none
and_then (some net) k = k net

unfoldable pub deliveries : (String → Bool) → ℕ → Net → Option Net
unfolding deliver and_then
deliveries up zero net = some net
deliveries up (suc n) net = and_then (deliver up net) (deliveries up n)

pub receiver-get_address : (n : ℕ) → IsServerId n → receiver (get_address n) ≡ n
unfolding receiver get_address concu_ride.Prelude.show
receiver-get_address zero h = absurd (omega arith)
receiver-get_address (suc zero) h = refl
receiver-get_address (suc (suc zero)) h = refl
receiver-get_address (suc (suc (suc zero))) h = refl
receiver-get_address (suc (suc (suc (suc zero)))) h = refl
receiver-get_address (suc (suc (suc (suc (suc zero))))) h = refl
receiver-get_address (suc (suc (suc (suc (suc (suc n)))))) h = absurd (omega arith)

pub put_same : (servers : ℕ → Server) (n : ℕ) (s : Server) → put servers n s n ≡ s
unfolding put
put_same servers n s = ground (arith, nat_beq_iff n n)

pub put_other :
    (servers : ℕ → Server) (n : ℕ) (s : Server) (m : ℕ) → m ≢ n → put servers n s m ≡ servers m
unfolding put
put_other servers n s m h = ground (arith, nat_beq_iff m n)

-- What holds of the changed server and of all the others.
pub put-holds :
    (P : ℕ → Server → Type 0) (servers : ℕ → Server) (n : ℕ) (s : Server)
    → P n s
    → ((m : ℕ) → P m (servers m))
    → (m : ℕ) → P m (put servers n s m)
put-holds P servers n s this others m = elim (Bool-cases (m == n)) [
  | inl e ↦
      subst (λ k. P k (put servers n s k)) (sym ((nat_beq_iff m n).0 e))
        (subst (P n) (sym (put_same servers n s)) this)
  | inr e ↦
      let ne : m ≢ n = λ q. absurd (ground (arith, nat_beq_iff m n)) in
      subst (P m) (sym (put_other servers n s m ne)) (others m)
]

-- What a handler leaves behind, if it does not panic.
pub settle-some :
    (up : String → Bool) (servers : ℕ → Server) (n : ℕ) (r : Option (Server × List Effect))
    (s t : Server) (effects more : List Effect)
    → r ≡ some (s, effects)
    → resend up (suc max_servers) s effects ≡ some (t, more)
    → settle up servers n [] r ≡ some (record { servers = put servers n t; flying = sends more })
unfolding settle placed
settle-some up servers n r s t effects more h again =
    ap (settle up servers n []) h ∙ ap (placed servers n []) again

-- One message on its way to a server that handles it.
pub deliveries-suc :
    (up : String → Bool) (k : ℕ) (servers : ℕ → Server) (n : ℕ) (message : UdpWire) (s t : Server)
    (effects more : List Effect)
    → IsServerId n
    → receive (servers n) message ≡ some (s, effects)
    → resend up (suc max_servers) s effects ≡ some (t, more)
    → deliveries up (suc k) (record { servers = servers; flying = (get_address n, message) ∷ [] })
      ≡ deliveries up k (record { servers = put servers n t; flying = sends more })
unfolding deliveries arrive and_then
deliveries-suc up k servers n message s t effects more i h again =
    ap (λ m. and_then (settle up servers m [] (receive (servers m) message)) (deliveries up k))
      (receiver-get_address n i)
    ∙ ap (λ r. and_then r (deliveries up k))
        (settle-some up servers n (receive (servers n) message) s t effects more h again)
