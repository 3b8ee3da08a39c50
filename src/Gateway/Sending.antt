-- ===== src/Gateway/Sending.antt =====
-- What a connection of the gateway sends, and how its process starts: `TcpMessage` of
-- gateway/src/connection.rs, and gateway/src/main.rs.
use concu_ride.Prelude.{String, Bool, true, false, Option, none, some, List, [], ◌∷◌}
use concu_ride.Common.Tcp.{WriteHalf, Written, Handled, write_or_panic}
use concu_ride.Gateway.{Addr, Gateway, new_connection}

-- `addr` is the address of the socket.
pub record TcpConnection : Type 0 where
  pub write : Option WriteHalf
  pub addr : String

-- `TcpMessage`
unfoldable pub handle_tcp_message :
    {A : Type 0} → TcpConnection → List A → Written → List A × Handled TcpConnection
unfolding write_or_panic
handle_tcp_message c = write_or_panic (λ write. record c { write = write }) c.write

abbrev pub new_gateway : Gateway
new_gateway = record { connections = []; passengers = []; ids_count = 0 }

-- The loop that accepts clients, by the write half and the address of each: `start` starts the
-- actor of the connection, which the gateway is told of.
accept_clients : (TcpConnection → Addr) → Gateway → List (WriteHalf × String) → Gateway
accept_clients start g [] = g
accept_clients start g ((write_half, addr) ∷ accepted) =
    accept_clients start
      (new_connection g (start (record { write = some write_half; addr = addr }))) accepted

-- The gateway after the clients, or `none` where its address cannot be bound.
unfoldable pub gateway_main :
    (TcpConnection → Addr) → Bool → List (WriteHalf × String) → Option Gateway
unfolding accept_clients
gateway_main start true accepted = some (accept_clients start new_gateway accepted)
gateway_main start false accepted = none
