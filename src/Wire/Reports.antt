-- ===== src/Wire/Reports.antt =====
-- A driver with its mailbox, the server, and the lines from the one to the other: the requests
-- that the handlers of driver/src/driver.rs send to the server, which reads them in order, among
-- the requests of others (server/src/server.rs). The connection is up all the time.
pub mod Plain
pub mod Follows
pub mod Offers
use concu_ride.Prelude.{String, ◌≢◌, Bool, true, Option, List, [], ◌∷◌, ◌++◌}
use concu_ride.Driver.{Addr, Driver, Effect, ServerMsg, to_self, to_server, to_passenger, save}
use concu_ride.Driver.Mailbox.{Outside, Msg, outside, Net, handle, State, after}
use concu_ride.Server.{Server}
use concu_ride.Server.Registry.Showing.{Foreign}
use concu_ride.Server.Registry.Requests as Requests
use concu_ride.Server.Registry.Requests.{Request}
use concu_ride.Wire.ToServer.{driver_request}

-- What a handler sends to the server.
unfoldable pub reports : List Effect → List ServerMsg
reports [] = []
reports (to_server _ msg ∷ effects) = msg ∷ reports effects
reports (to_self _ ∷ effects) = reports effects
reports (to_passenger _ _ ∷ effects) = reports effects
reports (save _ ∷ effects) = reports effects

-- `line` holds the requests that the server has not read yet, the oldest first.
pub record World : Type 0 where
  pub actor : State
  pub line : List ServerMsg
  pub server : Server

-- The world after a message of the driver's mailbox.
unfoldable pub reported :
    Driver → List Msg → List Bool → List ServerMsg → Server → Driver × List Effect → World
unfolding reports
reported d rest room line server r = record {
  actor = after d rest room r;
  line = line ++ reports r.1;
  server = server;
}

pub data Step : World → World → Type 0 where
  handles :
      (d : Driver) (msg : Msg) (rest : List Msg) (leader : Option (Addr × Addr)) (room : List Bool)
      (line : List ServerMsg) (server : Server)
      → Step
          (record {
            actor = record { driver = d; mailbox = msg ∷ rest };
            line = line;
            server = server;
          })
          (reported d rest room line server
            (handle d msg (record { connected = true; leader = leader })))
  arrives :
      (d : Driver) (mailbox : List Msg) (msg : Outside) (line : List ServerMsg) (server : Server)
      → Step
          (record {
            actor = record { driver = d; mailbox = mailbox };
            line = line;
            server = server;
          })
          (record {
            actor = record { driver = d; mailbox = mailbox ++ outside msg ∷ [] };
            line = line;
            server = server;
          })
  reads :
      (actor : State) (msg : ServerMsg) (line : List ServerMsg) (server : Server)
      → Step
          (record { actor = actor; line = msg ∷ line; server = server })
          (record {
            actor = actor;
            line = line;
            server = (Requests.handle server (driver_request msg)).0;
          })
  others :
      (actor : State) (line : List ServerMsg) (server : Server) (request : Request)
      → Foreign actor.driver.name request
      → Step
          (record { actor = actor; line = line; server = server })
          (record { actor = actor; line = line; server = (Requests.handle server request).0 })

pub data Steps (w : World) : World → Type 0 where
  here : Steps w w
  next : {u v : World} → Steps w u → Step u v → Steps w v
