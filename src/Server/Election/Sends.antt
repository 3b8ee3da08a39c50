-- ===== src/Server/Election/Sends.antt =====
-- The messages that a handler sends over UDP.
use concu_ride.Prelude.{◌≡◌, refl, ap, String, List, [], ◌∷◌, ◌++◌}
use concu_ride.Server.{UdpWire, Effect, to_self, to_client, to_leader_ping, to_udp, start_listener}

-- The messages among the sends of a handler.
unfoldable pub sends : List Effect → List (String × UdpWire)
sends [] = []
sends (to_udp u message dst ∷ effects) = (dst, message) ∷ sends effects
sends (_ ∷ effects) = sends effects

pub sends_append : (xs ys : List Effect) → sends (xs ++ ys) ≡ sends xs ++ sends ys
unfolding sends
sends_append [] ys = refl
sends_append (to_self _ ∷ xs) ys = sends_append xs ys
sends_append (to_client _ _ ∷ xs) ys = sends_append xs ys
sends_append (to_leader_ping _ ∷ xs) ys = sends_append xs ys
sends_append (to_udp _ message dst ∷ xs) ys = ap (λ m. (dst, message) ∷ m) (sends_append xs ys)
sends_append (start_listener _ ∷ xs) ys = sends_append xs ys
