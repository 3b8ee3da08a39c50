-- ===== src/Passenger/Handlers/Restart.antt =====
-- A passenger that goes down and is started again: `Recover` with the file that `save_state` has
-- written.
use concu_ride.Prelude.{
  String, ◌≡◌, refl, ap, ◌∙◌, false, not, Option, none, some, [], ◌∷◌, if◌then◌else◌,
}
use concu_ride.Passenger.{Addr, Passenger, login_msg, get_drivers_msg, to_self}
use concu_ride.Passenger.File.{written}
use concu_ride.Passenger.Handlers.{status, or_keep_some, restore, ask_driver, handle_recover}

-- The new process with the id, the driver and the authorisation of the old one.
abbrev pub resumed : Passenger → Passenger → Passenger
resumed e p = record e {
  info = record { id = p.info.id; position = e.info.position; destination = e.info.destination };
  driver_socket = p.driver_socket;
  payment_authorized = p.payment_authorized;
}

or_keep_some-none : {A : Type 0} (new old : Option A) → old ≡ none → or_keep_some new old ≡ new
or_keep_some-none none old e = e
or_keep_some-none (some x) old e = refl

restore-written :
    (p e : Passenger) → e.driver_socket ≡ none → restore e (written (status p)) ≡ resumed e p
unfolding restore
restore-written p e a = λ i. record (resumed e p) {
  driver_socket = or_keep_some-none p.driver_socket e.driver_socket a i;
}

-- A new process, which has no driver and no confirmed payment yet, takes up the id, the driver and
-- the authorisation of the file and logs in. It asks for drivers where the payment was not
-- authorised, and asks the driver of the file, if there is one that answers, otherwise. Whether the
-- payment was confirmed makes no difference: the file does not tell.
pub handle_recover-written :
    (p e : Passenger) (connect : String → Option Addr)
    → e.driver_socket ≡ none
    → e.payment_confirmed ≡ false
    → handle_recover e (written (status p)) connect ≡ (
      resumed e p,
      to_self (login_msg e.name)
          ∷ (if not p.payment_authorized
              then to_self get_drivers_msg ∷ []
              else ask_driver (resumed e p) connect),
    )
unfolding handle_recover
handle_recover-written p e connect a b =
    ap
      (λ (x : Passenger). (
        x,
        to_self (login_msg x.name)
            ∷ (if x.payment_confirmed
                then []
                else if not x.payment_authorized
                then to_self get_drivers_msg ∷ []
                else ask_driver x connect),
      ))
      (restore-written p e a)
    ∙ rw b refl
