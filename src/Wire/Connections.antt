-- ===== src/Wire/Connections.antt =====
-- The actors that own the write half of a connection: seven of them, in the four processes.
use concu_ride.Prelude.{refl, none, some, List, All}
use concu_ride.Common.Json.{Json}
use concu_ride.Common.Tcp.{Bytes, IsBytes, IsLine, Written, Handled, stopped, panicked, WriteHalf}
use concu_ride.Common.Tcp.Runs.{Writer, IsWriter, run, messages, Reads, run-Reads}
use concu_ride.Driver.Sending as DriverSending
use concu_ride.Gateway.Sending as GatewaySending
use concu_ride.Passenger.GatewayConnection
use concu_ride.Passenger.Sending as PassengerSending
use concu_ride.Server.LeaderConnection
use concu_ride.Server.Sending as ServerSending

module _ {A : Type 0} (write : WriteHalf) where
  pub driver_sender-IsWriter :
      (c : DriverSending.TcpSender)
      → IsWriter {A = A} DriverSending.handle_tcp_message
          (record c { write = some write })
          (stopped (record c { write = none }))
  unfolding DriverSending.handle_tcp_message
  driver_sender-IsWriter c = record {
    goes_on = λ message. refl;
    ends = λ message n. refl;
    over = tt;
  }

  pub server_sender-IsWriter :
      (c : ServerSending.TcpSender)
      → IsWriter {A = A} ServerSending.handle_tcp_message (record c { write = some write }) panicked
  unfolding ServerSending.handle_tcp_message
  server_sender-IsWriter c = record {
    goes_on = λ message. refl;
    ends = λ message n. refl;
    over = tt;
  }

  pub leader_connection-IsWriter :
      (c : LeaderConnection.ServerConnection)
      → IsWriter {A = A} LeaderConnection.handle_tcp_message
          (record c { write = some write })
          panicked
  unfolding LeaderConnection.handle_tcp_message
  leader_connection-IsWriter c = record {
    goes_on = λ message. refl;
    ends = λ message n. refl;
    over = tt;
  }

  pub passenger_sender-IsWriter :
      (c : PassengerSending.TcpSender)
      → IsWriter {A = A} PassengerSending.handle_tcp_message
          (record c { write = some write })
          panicked
  unfolding PassengerSending.handle_tcp_message
  passenger_sender-IsWriter c = record {
    goes_on = λ message. refl;
    ends = λ message n. refl;
    over = tt;
  }

  pub gateway_connection-IsWriter :
      (c : GatewayConnection.GatewayConnection)
      → IsWriter {A = A} GatewayConnection.handle_tcp_message
          (record c { write = some write })
          panicked
  unfolding GatewayConnection.handle_tcp_message
  gateway_connection-IsWriter c = record {
    goes_on = λ message. refl;
    ends = λ message n. refl;
    over = tt;
  }

  pub passenger_connection-IsWriter :
      (c : DriverSending.PassengerConnection)
      → IsWriter {A = A} DriverSending.handle_passenger_message
          (record c { write = some write })
          panicked
  unfolding DriverSending.handle_passenger_message
  passenger_connection-IsWriter c = record {
    goes_on = λ message. refl;
    ends = λ message n. refl;
    over = tt;
  }

  pub client_connection-IsWriter :
      (c : GatewaySending.TcpConnection)
      → IsWriter {A = A} GatewaySending.handle_tcp_message
          (record c { write = some write })
          panicked
  unfolding GatewaySending.handle_tcp_message
  client_connection-IsWriter c = record {
    goes_on = λ message. refl;
    ends = λ message n. refl;
    over = tt;
  }

module _ {j : Json} (b : Bytes j) (laws : IsBytes b) (ts : List (j.Text × Written)) where
  -- The other end reads the texts up to the first write that fails, where the actor ends.
  abbrev pub Writes : {S : Type 0} → Writer S b.Byte → S → Handled S → Type 0
  Writes handle s end = Reads b s end ts (run handle s (messages b ts))

  -- Of each of the seven connections that has its write half, the other end reads the texts that
  -- were written as a whole, in order, up to the first write that fails. There the driver's
  -- connection to the server stops itself, with no write half, and each of the others panics.
  -- Without such a write the connection is as it was: the `expect` that wants the write half does
  -- not panic.
  pub connections_write :
      (write : WriteHalf) (driver : DriverSending.TcpSender) (server : ServerSending.TcpSender)
      (leader : LeaderConnection.ServerConnection) (passenger : PassengerSending.TcpSender)
      (gateway : GatewayConnection.GatewayConnection) (rider : DriverSending.PassengerConnection)
      (client : GatewaySending.TcpConnection)
      → All (λ (t : j.Text × Written). IsLine b t.0) ts
      → Writes DriverSending.handle_tcp_message
          (record driver { write = some write })
          (stopped (record driver { write = none }))
        × Writes ServerSending.handle_tcp_message (record server { write = some write }) panicked
        × Writes LeaderConnection.handle_tcp_message (record leader { write = some write }) panicked
        × Writes PassengerSending.handle_tcp_message
            (record passenger { write = some write })
            panicked
        × Writes GatewayConnection.handle_tcp_message
            (record gateway { write = some write })
            panicked
        × Writes DriverSending.handle_passenger_message
            (record rider { write = some write })
            panicked
        × Writes GatewaySending.handle_tcp_message (record client { write = some write }) panicked
  connections_write write driver server leader passenger gateway rider client line = (
    run-Reads b laws _ _ _ ts (driver_sender-IsWriter write driver) line,
    run-Reads b laws _ _ _ ts (server_sender-IsWriter write server) line,
    run-Reads b laws _ _ _ ts (leader_connection-IsWriter write leader) line,
    run-Reads b laws _ _ _ ts (passenger_sender-IsWriter write passenger) line,
    run-Reads b laws _ _ _ ts (gateway_connection-IsWriter write gateway) line,
    run-Reads b laws _ _ _ ts (passenger_connection-IsWriter write rider) line,
    run-Reads b laws _ _ _ ts (client_connection-IsWriter write client) line,
  )
