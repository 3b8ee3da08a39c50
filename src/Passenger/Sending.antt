-- ===== src/Passenger/Sending.antt =====
-- What the passenger's connections to the server and to a driver send: passenger/src/sender.rs, and
-- `new_connection` of passenger/src/functions.rs.
use concu_ride.Prelude.{String, Option, none, some, List}
use concu_ride.Common.Tcp.{WriteHalf, Written, Handled, write_or_panic}
use concu_ride.Passenger.{Addr}

-- `addr` is the address of the socket.
pub record TcpSender : Type 0 where
  pub write : Option WriteHalf
  pub addr : String

-- `TcpMessage`
unfoldable pub handle_tcp_message :
    {A : Type 0} → TcpSender → List A → Written → List A × Handled TcpSender
unfolding write_or_panic
handle_tcp_message c = write_or_panic (λ write. record c { write = write }) c.write

pub record TcpReceiver : Type 0 where
  pub addr : String
  pub client_addr : Addr

-- What `new_connection` starts once `connect` has given a stream: its write half and the address of
-- its own end.
unfoldable pub new_connection :
    (String → Option (WriteHalf × String)) → String → Addr → Option (TcpReceiver × TcpSender)
new_connection connect driver_socket client_addr = elim (connect driver_socket) [
  | none ↦ none
  | some (write_half, local_addr) ↦ some (
    record { addr = local_addr; client_addr = client_addr },
    record { write = some write_half; addr = local_addr },
  )
]
