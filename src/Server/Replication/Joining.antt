-- ===== src/Server/Replication/Joining.antt =====
-- A replica that connects to the leader.
use concu_ride.Prelude.{
  ℕ, ◌≡◌, ◌↔◌, false, some, List, [], ◌∷◌, map, contains, contains-without, ◌==◌, nat_eq, Has,
  arith, inl, inr, if◌then◌else◌, ap,
}
use concu_ride.Prelude.HashMap.{
  get, insert, values, Distinct, insert-Distinct, get-insert, get-values, values-get,
}
use concu_ride.Server.{Addr, Server, Effect, to_self, pong_to}
use concu_ride.Server.Replication.{NewServerConnection, new_server_connection}

ponged : List Addr → List Effect
ponged = map (λ addr. to_self (pong_to addr))

pong_to_inj : (a b : Addr) → to_self (pong_to a) ≡ to_self (pong_to b) → a ≡ b
pong_to_inj a b e = cc

Has-ponged : (a : Addr) (addrs : List Addr) → Has (to_self (pong_to a)) (ponged addrs) ↔ Has a addrs
unfolding ponged
Has-ponged a [] = (λ h. h, λ h. h)
Has-ponged a (b ∷ addrs) = (
  λ h. elim h [ inl e ↦ inl (pong_to_inj b a e) | inr m ↦ inr ((Has-ponged a addrs).0 m) ],
  λ h. elim h [
    | inl e ↦ inl (ap (λ c. to_self (pong_to c)) e)
    | inr m ↦ inr ((Has-ponged a addrs).1 m)
  ],
)

-- With no id twice among the connections of the servers, a replica that connects to the leader is
-- from then on not known to be disconnected, which changes for no other server; its connection is
-- kept under its id; and the leader sends its state to a connection exactly if it is one that it
-- keeps, the new one included.
pub new_server_connection_pongs :
    (s : Server) (msg : NewServerConnection)
    → Distinct s.servers
    → let (t, effects) = new_server_connection s msg in
      ((n : ℕ)
        → contains t.disconnected_servers n
          ≡ (if msg.id == n then false else contains s.disconnected_servers n))
      × ((n : ℕ) → get t.servers n ≡ (if msg.id == n then some msg.addr else get s.servers n))
      × ((a : Addr) → Has (to_self (pong_to a)) effects ↔ ((n : ℕ) × (get t.servers n ≡ some a)))
unfolding new_server_connection ponged
new_server_connection_pongs s msg d = (
  λ n. ground (arith, contains-without msg.id n s.disconnected_servers, nat_eq.eq_law msg.id n),
  get-insert s.servers msg.id msg.addr,
  λ a. (
    λ h.
        values-get (insert s.servers msg.id msg.addr) a
          (insert-Distinct s.servers msg.id msg.addr d)
          ((Has-ponged a (values (insert s.servers msg.id msg.addr))).0 h),
    λ (n, e).
        (Has-ponged a (values (insert s.servers msg.id msg.addr))).1
          (get-values (insert s.servers msg.id msg.addr) n a e),
  ),
)
