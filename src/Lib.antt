-- ===== src/Lib.antt =====
-- ConcuRide: the verification library of the ride-hailing simulation.
--
-- The program is four processes of actors that exchange JSON lines over TCP and, between servers,
-- UDP. Servers (server/) keep the registry of drivers and passengers: one is the leader, the
-- others are replicas that copy its state and elect a new leader on a ring when it is down.
-- Drivers (driver/) register with the leader and serve rides. Passengers (passenger/) ask the
-- leader for drivers, choose one, have the payment authorised by the gateway (gateway/), and
-- travel. The crate common/ is shared.
--
-- A handler of an actor is a function from the actor's state and the message to the new state and
-- the list of its sends, in order. An actor's address is a number that names it. A handler that
-- may panic returns an `Option`. What the outside answers (whether an address accepts a
-- connection, whether a connection is up, the draw of the random number generator, the clock) is an
-- argument. A line is a text of JSON: its texts and values are those of any library that reads back
-- what it writes.
--
-- Which file models which part:
--   Prelude              Boolean tests, lists, `u64` as it wraps, and `HashMap` as entries
--   Common               common/src/constants.rs and utils.rs
--   Common/Connection    common/src/connection.rs: `connect_to_server_leader`
--   Common/Json          serde_json as a parameter, a record of operations and their laws; Tree is
--                        an instance for concrete runs
--   Common/Tcp           common/src/tcp_message.rs, the handler of `TcpMessage`, and bytes as a
--                        parameter, of which Symbols is an instance; Runs and Arrivals are about
--                        what the other end reads of many messages
--   Common/Message       common/src/serialize.rs and deserialize.rs; Fields holds the lemmas
--   Server               server/src/models and the fields of `Server` in server/src/server.rs
--   Server/Registry      server/src/server.rs: the handlers of drivers and passengers. Directory
--                        is their specification, Requests the dispatch, Refinement, Filing,
--                        Invariant, Availability and Showing hold the proofs
--   Server/Replication   server/src/server.rs: `NewServerConnection`, `Ping`, `Pong`,
--                        `UpdateNetworkState`, `SetLeader`; Failover and Joining hold the proofs
--   Server/Neighbor      server/src/server.rs: `get_neighbor_id`, `update_neighbor`
--   Server/Election      server/src/server.rs: `StartElection`, `CheckIfNeighborAcked`,
--                        `Election`, `NewLeader`, `NeighborAck`, `ConnectToServer`; Sends, Net and Ring are
--                        about a whole election, Losses about servers that are down, Validity about any
--                        interleaving of several, Succession about the new leader, Query about
--                        `SendLeaderId`
--   Server/Startup       server/src/main.rs: the initial states and the search for the leader;
--                        Process is about the two processes and server/src/connection_listener.rs
--   Server/Sending       the handlers of server/src/sender.rs, udp_sender.rs and udp_receiver.rs that
--                        write to a socket
--   Server/Wire          server/src/sender.rs, and the lines that server/src/server.rs writes
--   Server/LeaderConnection
--                        server/src/server_connection.rs; Silence is about its clock
--   Server/Udp           server/src/udp_receiver.rs; Listening holds the proofs
--   Ride                 `move_to` of passenger/src/passenger.rs and driver/src/driver.rs; Arrival
--                        is about repeated moves, Loop about handlers that send themselves the
--                        same message until they arrive
--   Passenger            passenger/src/models and the fields of `Passenger`
--   Passenger/Select     `select_driver`, and `distance` of passenger/src/functions.rs
--   Passenger/Handlers   the handlers of passenger/src/passenger.rs; Search is about `Drivers`, Travel
--                        about `Traveling`, Restart about `Recover`
--   Passenger/File       the file of `save_state`, as `Recover` reads it
--   Passenger/Wire       passenger/src/receiver.rs, and the lines that the passenger writes
--   Passenger/GatewayConnection
--                        passenger/src/gateway_connection.rs
--   Passenger/Sending    passenger/src/sender.rs, and `new_connection` of passenger/src/functions.rs
--   Passenger/Startup    passenger/src/main.rs
--   Passenger/Mailbox    the actor with its mailbox
--   Driver, Driver/Handlers
--                        driver/src/driver.rs and driver/src/models/messages.rs; Phases and Ride
--                        are about the legs of a ride, Restart about `Recovery`
--   Driver/File          the file of `save_state`, as `Recovery` reads it
--   Driver/Wire          driver/src/passenger_connection.rs, and the lines that the driver writes
--   Driver/Mailbox       the actor with its mailbox: Pending, Handling, Riding, Invariant and Safety
--                        hold the proofs
--   Driver/Sending       driver/src/sender.rs, and the handler of driver/src/passenger_connection.rs
--                        that writes to the passenger
--   Driver/Startup       driver/src/main.rs
--   Recovery             the messages between a passenger that has been down and its driver
--   Gateway              gateway/src/gateway.rs, functions.rs and the answers of connection.rs
--   Gateway/Wire         gateway/src/connection.rs: the stream handler
--   Gateway/Sending      gateway/src/main.rs, and the handler of gateway/src/connection.rs that writes
--   Wire                 lines from the actor that writes them to the one that reads them, by the
--                        process that reads; Payment, Conversation and Joining are about both
--                        directions, Service about a whole ride, Reports about what the server knows of a
--                        driver, Paying about a passenger with the gateway, Connections and Stream about many
--                        messages over one socket
--   Examples (of a part) concrete runs, to which the theorems are applied
--
-- Bounds. Numbers of type `u64` and `usize` are natural numbers; increments and decrements of
-- counters and coordinates wrap at 2 ^ 64, as in a release build. `update_neighbor` runs on the
-- five rounds that its counter allows. `select_driver` is recursive in the source; here it has as
-- many rounds as the range needs to pass `MAX_RANGE`. A ride, and the search for a driver that
-- answers, is a loop on a number of messages, `none` where the actor still sends itself the message
-- after them.
--
-- An election on a ring is run with its messages alone, in the order in which they are sent. The ACK
-- of a message comes before anything else, and a message to a server that is down is sent again, on
-- `max_servers` + 1 rounds of fuel, one more than the servers that it may be sent to. Over
-- interleavings a message may arrive at any later step, more than once or never.
--
-- Not modelled: the syntax of JSON and the bytes of a text, which are parameters; the opening of
-- files, logging, pauses, the command line and the start of actors, which are I/O; the handler `Stop` of the server,
-- which ends the actor in a test, and what the driver's receiver drops; the address of a socket that
-- is open, which the program expects to be known; the type `f64`, which is a parameter of the
-- choice of a driver. A failed `try_send` is only logged by the program, so an effect is what the
-- handler tries to send. Where an actor is modelled with its mailbox, the messages for which there
-- is no room are lost. The order in which the values of a `HashMap` are listed, which Rust leaves
-- open, is that of the entries of the model, so that two answers with the same drivers may differ in
-- their order where the theorems say that they are equal.
pub mod Prelude
pub mod Common
pub mod Server
pub mod Ride
pub mod Passenger
pub mod Driver
pub mod Recovery
pub mod Gateway
pub mod Wire
