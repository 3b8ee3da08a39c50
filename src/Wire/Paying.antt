-- ===== src/Wire/Paying.antt =====
-- A passenger with its mailbox, the gateway, and the lines between them, in order: what the handlers
-- of passenger/src/passenger.rs send to the gateway, what gateway/src/connection.rs answers, and
-- what passenger/src/gateway_connection.rs makes of it. Drivers and the server send the passenger
-- what they like.
pub mod Asking
pub mod Safety
use concu_ride.Prelude.{ℕ, ◌≡◌, Bool, Option, none, some, List, [], ◌∷◌, ◌++◌, map, kept}
use concu_ride.Passenger.{Addr, Passenger, Effect, GatewayMsg, authorize_payment, confirm_payment}
use concu_ride.Passenger.Select.{F64}
use concu_ride.Passenger.Wire.{Inbound}
use concu_ride.Passenger.GatewayConnection as GatewayConnection
use concu_ride.Passenger.GatewayConnection.{decide}
use concu_ride.Passenger.Startup.{Outcome, no_server, no_gateway, failed, running}
use concu_ride.Passenger.Mailbox.{Msg, process, inbound, payment, Net, handle, sent, asks}
use concu_ride.Gateway.{
  TcpOut, identificador, payment_authorization_status, pago_confirmado, Line, authorize_payment_msg,
  confirm_payment_msg, answer,
}

-- What the gateway reads of a line of the passenger.
abbrev pub line_of : GatewayMsg → Line
line_of authorize_payment = authorize_payment_msg
line_of (confirm_payment name) = confirm_payment_msg (some name)

abbrev pub listed {ℓ} : {A : Type ℓ} → Option A → List A
listed (some a) = a ∷ []
listed none = []

-- What the connection to the gateway sends the passenger for a line.
abbrev pub told : Addr → TcpOut → List Msg
told addr (payment_authorization_status is_authorized) =
    map payment (decide (some addr) is_authorized)
told addr (identificador _) = []
told addr pago_confirmado = []

-- `asked` and `answers` are the lines to and from the gateway that have not been read yet.
pub record World : Type 0 where
  pub passenger : Passenger
  pub mailbox : List Msg
  pub asked : List GatewayMsg
  pub answers : List TcpOut

-- The passenger that the process starts, if it does, with the messages that it is sent then.
unfoldable pub started : Outcome → Option World
started (running p msgs) =
    some (record { passenger = p; mailbox = map process msgs; asked = []; answers = [] })
started no_server = none
started no_gateway = none
started failed = none

module _ (f : F64) where
  pub data Step : World → World → Type 0 where
    handles :
        (w : World) (msg : Msg) (rest : List Msg) (net : Net) (room : List Bool)
        (r : Passenger × List Effect)
        → w.mailbox ≡ msg ∷ rest
        → handle f w.passenger msg net ≡ some r
        → Step w (record w {
          passenger = r.0;
          mailbox = rest ++ kept room (sent r.1);
          asked = w.asked ++ asks r.1;
        })
    arrives :
        (w : World) (msg : Inbound) → Step w (record w { mailbox = w.mailbox ++ inbound msg ∷ [] })
    answered :
        (w : World) (draw : ℕ) (msg : GatewayMsg) (rest : List GatewayMsg)
        → w.asked ≡ msg ∷ rest
        → Step w
            (record w { asked = rest; answers = w.answers ++ listed (answer draw (line_of msg)) })
    tells :
        (w : World) (addr : Addr) (out : TcpOut) (rest : List TcpOut) (room : List Bool)
        → w.answers ≡ out ∷ rest
        → Step w (record w { mailbox = w.mailbox ++ kept room (told addr out); answers = rest })

  pub data Steps (w : World) : World → Type 0 where
    here : Steps w w
    next : {v u : World} → Steps w v → Step v u → Steps w u

  pub steps-trans : {u v w : World} → Steps u v → Steps v w → Steps u w
  steps-trans a here = a
  steps-trans a (next b step) = next (steps-trans a b) step
