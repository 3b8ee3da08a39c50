-- ===== src/Driver/Sending.antt =====
-- What the driver's connections send: driver/src/sender.rs, to the server, and the connection to a
-- passenger of driver/src/passenger_connection.rs, whose messages are those of
-- driver/src/models/passenger.rs.
use concu_ride.Prelude.{String, Option, none, some, List, [], ◌∷◌, ◌++◌, map}
use concu_ride.Common.Json.{Json}
use concu_ride.Common.Tcp.{
  Bytes, WriteHalf, Written, all, failed, Handled, running, stopped, panicked, take, write_or_panic,
}
use concu_ride.Driver.{Addr}

-- `addr` is the address of the socket.
pub record TcpSender : Type 0 where
  pub write : Option WriteHalf
  pub addr : String

-- `write_all`: the write half comes back, or is lost with the connection, which stops the actor.
write_or_stop :
    {A : Type 0} → TcpSender → Option WriteHalf → List A → Written → List A × Handled TcpSender
write_or_stop c none message w = ([], panicked)
write_or_stop c (some write) message all = (message, running (record c { write = some write }))
write_or_stop c (some write) message (failed n) =
    (take n message, stopped (record c { write = none }))

-- `TcpMessage`
unfoldable pub handle_tcp_message :
    {A : Type 0} → TcpSender → List A → Written → List A × Handled TcpSender
unfolding write_or_stop
handle_tcp_message c = write_or_stop c c.write

pub record PassengerConnection : Type 0 where
  pub write : Option WriteHalf
  pub addr : String
  pub driver_addr : Addr

-- `PassengerConnectionMessage::new`
unfoldable pub passenger_message : {j : Json} → (b : Bytes j) → j.Text → List b.Byte
passenger_message b t = b.as_bytes t ++ b.newline ∷ []

unfoldable pub handle_passenger_message :
    {A : Type 0} → PassengerConnection → List A → Written → List A × Handled PassengerConnection
unfolding write_or_panic
handle_passenger_message c = write_or_panic (λ write. record c { write = write }) c.write

-- The loop of driver/src/main.rs that accepts passengers, by the write half and the address of
-- each: `start` starts the actor and gives the address that `NewConnection` tells the driver.
unfoldable pub accept_passengers :
    (PassengerConnection → Addr) → Addr → List (WriteHalf × String) → List Addr
accept_passengers start client accepted =
    map
      (λ (write_half, addr).
        start (record { write = some write_half; addr = addr; driver_addr = client }))
      accepted
