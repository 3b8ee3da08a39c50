-- ===== src/Wire/Stream.antt =====
-- Many messages over one connection: from the actor that owns the write half, over the bytes of the
-- socket, to the actor that reads the lines.
use concu_ride.Prelude.{ℕ, ap, Option, none, some, List, All, All-always, All-map}
use concu_ride.Common.Json.{Json, IsJson}
use concu_ride.Common.Message.{serialize_message}
use concu_ride.Common.Tcp.{Bytes, IsBytes, IsLine, Written, stopped, panicked, WriteHalf}
use concu_ride.Common.Tcp.Runs.{run, delivered, messages}
use concu_ride.Common.Tcp.Arrivals.{texts, Arrives, run-Arrives}
use concu_ride.Driver
use concu_ride.Driver.Sending as DriverSending
use concu_ride.Driver.Wire.{encode as driver_line}
use concu_ride.Server
use concu_ride.Server.{Addr, UpdateNetworkState}
use concu_ride.Server.LeaderConnection
use concu_ride.Server.LeaderConnection.{ServerConnection, update_network_state}
use concu_ride.Server.Sending as ServerSending
use concu_ride.Server.Wire.{request, receive}
use concu_ride.Server.Wire.{encode as server_line}
use concu_ride.Wire.Connections.{driver_sender-IsWriter, server_sender-IsWriter}
use concu_ride.Wire.ToServer.{driver_request, receive-driver_line}
use concu_ride.Wire.ToReplica.{IsMaps, receive-pong_line}

module _ {j : Json} (b : Bytes j) (laws : IsJson j) (byte_laws : IsBytes b) where
  driver_line-IsLine : (m : Driver.ServerMsg) → IsLine b (driver_line j m)
  unfolding driver_line serialize_message
  driver_line-IsLine (Driver.new_driver socket name position) = byte_laws.to_string-IsLine _
  driver_line-IsLine (Driver.busy_driver name) = byte_laws.to_string-IsLine _
  driver_line-IsLine (Driver.available_driver name position) = byte_laws.to_string-IsLine _
  driver_line-IsLine (Driver.reconnect_driver id socket name) = byte_laws.to_string-IsLine _

  server_line-IsLine : (s : UpdateNetworkState) → IsLine b (server_line j (Server.pong s))
  unfolding server_line serialize_message
  server_line-IsLine s = byte_laws.to_string-IsLine _

  -- From the messages that a driver's connection is given, in order, the server reads the requests
  -- that the driver means, in order, up to the first write that fails. There the connection stops,
  -- with no write half; without one it is as it was, and has not panicked.
  pub requests_arrive :
      (c : DriverSending.TcpSender) (write : WriteHalf) (addr : Addr)
      (ms : List (Driver.ServerMsg × Written))
      → Arrives b
          (record c { write = some write })
          (stopped (record c { write = none }))
          (driver_line j)
          (receive j addr)
          (λ m. some (request (driver_request m)))
          ms
          (run DriverSending.handle_tcp_message
            (record c { write = some write })
            (messages b (texts b (driver_line j) ms)))
  requests_arrive c write addr ms =
      run-Arrives b DriverSending.handle_tcp_message _ _ (driver_line j) (receive j addr)
        (λ m. some (request (driver_request m))) ms byte_laws (driver_sender-IsWriter write c)
        driver_line-IsLine (All-always _ (delivered ms) (receive-driver_line j laws addr))

  -- From the states that the leader's connection is given, in order, a replica takes over each, in
  -- order, up to the first write that fails. There the connection panics; without one it is as it
  -- was.
  pub states_arrive :
      (c : ServerSending.TcpSender) (write : WriteHalf) (replica : ServerConnection) (now : ℕ)
      (ms : List (UpdateNetworkState × Written))
      → All IsMaps (delivered ms)
      → Arrives b
          (record c { write = some write })
          panicked
          (λ s. server_line j (Server.pong s))
          (λ line. (LeaderConnection.receive j replica now line).1)
          (λ s. some (update_network_state replica.addr s))
          ms
          (run ServerSending.handle_tcp_message
            (record c { write = some write })
            (messages b (texts b (λ s. server_line j (Server.pong s)) ms)))
  states_arrive c write replica now ms maps =
      run-Arrives b ServerSending.handle_tcp_message _ _ (λ s. server_line j (Server.pong s))
        (λ line. (LeaderConnection.receive j replica now line).1)
        (λ s. some (update_network_state replica.addr s)) ms byte_laws
        (server_sender-IsWriter write c) server_line-IsLine
        (All-map _ _ (delivered ms)
          (λ s m.
            ap (λ (r : ServerConnection × Option (LeaderConnection.Effect j)). r.1)
              (receive-pong_line j laws replica now s m))
          maps)
