-- ===== src/Gateway.antt =====
-- The payment gateway: gateway/src/gateway.rs, gateway/src/functions.rs, and the messages of
-- gateway/src/connection.rs. The draw of the random number generator is an argument.
pub mod Wire
pub mod Sending
use concu_ride.Prelude.{
  ℕ, String, ◌≡◌, Bool, Option, none, some, List, [], ◌∷◌, ◌++◌, string_eq, leb, inc, arith,
}
use concu_ride.Prelude.HashMap.{HashMap, get, insert, get-insert}

abbrev pub Addr : Type 0
Addr = ℕ

pub record Gateway : Type 0 where
  pub connections : List Addr
  pub passengers : HashMap String ℕ
  pub ids_count : ℕ

pub data TcpOut : Type 0 where
  identificador : ℕ → TcpOut
  payment_authorization_status : Bool → TcpOut
  pago_confirmado : TcpOut

pub record PassengerLogin : Type 0 where
  pub name : String
  pub addr : Addr

-- The new state and the message that goes to the passenger.
unfoldable pub passenger_login : Gateway → PassengerLogin → Gateway × TcpOut
passenger_login g msg = elim (get g.passengers msg.name) [
  | some value ↦ (g, identificador value)
  | none ↦
      let id = inc g.ids_count in
      (record g { ids_count = id; passengers = insert g.passengers msg.name id }, identificador id)
]

unfoldable pub new_connection : Gateway → Addr → Gateway
new_connection g addr = record g { connections = g.connections ++ addr ∷ [] }

-- `rng.gen_range(0..=10) >= 1`, with what `gen_range` draws.
unfoldable pub authorize_payment : ℕ → Bool
authorize_payment draw = leb 1 draw

-- A line that the passenger sends, by its name; `name` is the field of `ConfirmPayment`, if it can
-- be read.
pub data Line : Type 0 where
  authorize_payment_msg : Line
  confirm_payment_msg : Option String → Line
  invalid : Line

-- The answer to a line, if there is one.
unfoldable pub answer : ℕ → Line → Option TcpOut
unfolding authorize_payment
answer draw authorize_payment_msg = some (payment_authorization_status (authorize_payment draw))
answer draw (confirm_payment_msg (some name)) = some pago_confirmado
answer draw (confirm_payment_msg none) = none
answer draw invalid = none

-- A login twice in a row, of the same name over any two connections, gives the same id both
-- times, and the second changes nothing.
pub passenger_login_twice :
    (g : Gateway) (name : String) (a b : Addr)
    → let (h, first) = passenger_login g (record { name = name; addr = a }) in
      passenger_login h (record { name = name; addr = b }) ≡ (h, first)
unfolding passenger_login
passenger_login_twice g name a b =
    ground (arith, get-insert g.passengers name (inc g.ids_count) name, string_eq.eq_law name name)
