-- ===== src/Wire/Paying/Asking.antt =====
-- A passenger asks for its payment to be authorised only with a connection to a driver, which it
-- then keeps.
use concu_ride.Prelude.{
  ◌≡◌, ◌⊎◌, inl, inr, refl, Option, none, some, List, [], ◌∷◌, All, Bool-cases, Option-cases,
  String,
}
use concu_ride.Ride.{step_towards}
use concu_ride.Ride.Loop.{same_position}
use concu_ride.Passenger.{
  Addr, DriverInfo, Passenger, ServerMsg, SelfMsg, Effect, GatewayMsg, authorize_payment,
  confirm_payment, get_drivers, login, get_drivers_msg, login_msg, reconnect, drivers, traveling,
}
use concu_ride.Passenger.Select.{F64, select_driver}
use concu_ride.Passenger.Handlers.{
  set_receiver, handle_get_drivers, handle_login, handle_drivers, handle_traveling, move_to,
  handle_driver_arrived, handle_complete_login, handle_ride_accepted, handle_keep_looking,
  handle_recover_response, handle_reconnect, handle_reconnect_driver, handle_recover, restore,
  ask_driver, ask_server, server_connected, put_first, SavedStatus, RecoverResponse,
}
use concu_ride.Passenger.Wire.{
  Inbound, complete_login, ride_accepted, driver_arrived, keep_looking, recover_response,
}
use concu_ride.Passenger.Wire as Wire
use concu_ride.Passenger.Startup.{Message, set_receiver_msg, recover_msg}
use concu_ride.Passenger.Startup as Startup
use concu_ride.Passenger.Mailbox.{Net, handle_process, handle_inbound, handle_own, asks}

-- The passenger has a connection to a driver.
abbrev pub Connected : Passenger → Type 0
Connected p = (driver : Addr) × (rest : List Addr) × (p.connections ≡ driver ∷ rest)

-- A line that does not ask for an authorisation.
abbrev pub Other : GatewayMsg → Type 0
Other authorize_payment = ⊥
Other (confirm_payment _) = Unit

-- After a handler the passenger has a connection, or it has those it had, and has not asked.
abbrev pub Asking : Passenger → Passenger × List Effect → Type 0
Asking p r = Connected r.0 ⊎ ((r.0.connections ≡ p.connections) × All Other (asks r.1))

-- Unless it has panicked.
abbrev pub AskingIf : Passenger → Option (Passenger × List Effect) → Type 0
AskingIf p none = Unit
AskingIf p (some r) = Asking p r

put_first-Connected :
    (addr : Addr) (connections : List Addr)
    → (driver : Addr) × (rest : List Addr) × (put_first addr connections ≡ driver ∷ rest)
put_first-Connected addr [] = (addr, [], refl)
put_first-Connected addr (_ ∷ rest) = (addr, rest, refl)

module _ (p : Passenger) (net : Net) where
  asks-ask_server : (msg : ServerMsg) → All Other (asks (ask_server p msg net.connected))
  unfolding ask_server asks
  asks-ask_server msg = elim (Bool-cases (server_connected p net.connected)) [
    | inl e ↦ rw (e, ask_server) tt
    | inr e ↦ rw (e, ask_server) tt
  ]

  get_drivers-Asking : Asking p (handle_get_drivers p net.connected)
  unfolding handle_get_drivers
  get_drivers-Asking = inr (refl, asks-ask_server (get_drivers p.info.id))

  login-Asking : (name : String) → Asking p (handle_login p name net.connected)
  unfolding handle_login
  login-Asking name = inr (refl, asks-ask_server (login name))

  drivers-Asking :
      (f : F64) (offered : List DriverInfo) → Asking p (handle_drivers f p offered net.connect)
  unfolding handle_drivers asks
  drivers-Asking f offered = elim (Option-cases (select_driver f p.info.position offered 5).0) [
    | inl chosen ↦ rw (chosen, handle_drivers) (inr (refl, tt))
    | inr (driver, chosen) ↦ elim (Option-cases (net.connect driver.socket)) [
      | inl down ↦ rw (chosen, handle_drivers) (rw (down, handle_drivers) (inr (refl, tt)))
      | inr (addr, up) ↦
          rw (chosen, handle_drivers)
            (rw (up, handle_drivers) (inl (put_first-Connected addr p.connections)))
    ]
  ]

  reconnect_driver-Asking :
      (socket : String) → Asking p (handle_reconnect_driver p socket net.connect)
  unfolding handle_reconnect_driver asks
  reconnect_driver-Asking socket = elim (Option-cases (net.connect socket)) [
    | inl down ↦ rw (down, handle_reconnect_driver) (inr (refl, tt))
    | inr (addr, up) ↦
        rw (up, handle_reconnect_driver) (inl (put_first-Connected addr p.connections))
  ]

  reconnect-Asking : (msg : ServerMsg) → Asking p (handle_reconnect p msg net.leader)
  unfolding handle_reconnect asks
  reconnect-Asking msg = elim (Option-cases net.leader) [
    | inl e ↦ rw (e, handle_reconnect) (inr (refl, tt))
    | inr (_, e) ↦ rw (e, handle_reconnect) (inr (refl, tt))
  ]

  traveling-Asking : Asking p (handle_traveling p)
  unfolding handle_traveling move_to asks
  traveling-Asking =
      elim (Bool-cases
        (same_position (step_towards p.info.position p.info.destination) p.info.destination)) [
          | inl e ↦ rw (e, handle_traveling) (inr (refl, (tt, tt)))
          | inr e ↦ rw (e, handle_traveling) (inr (refl, tt))
        ]

  recover_response-Asking : (msg : RecoverResponse) → Asking p (handle_recover_response p msg)
  unfolding handle_recover_response asks
  recover_response-Asking msg = elim (Bool-cases msg.end_ride) [
    | inl e ↦ rw (e, handle_recover_response) (inr (refl, (tt, tt)))
    | inr e ↦ elim (Bool-cases msg.picked_up) [
      | inl k ↦ rw (e, k, handle_recover_response) (inr (refl, tt))
      | inr k ↦ rw (e, k, handle_recover_response) (inr (refl, tt))
    ]
  ]

  asks-ask_driver : (q : Passenger) → All Other (asks (ask_driver q net.connect))
  unfolding ask_driver asks
  asks-ask_driver q = elim (Option-cases q.driver_socket) [
    | inl e ↦ rw (e, ask_driver) tt
    | inr (socket, e) ↦ elim (Option-cases (net.connect socket)) [
      | inl down ↦ rw (e, ask_driver) (rw (down, ask_driver) tt)
      | inr (_, up) ↦ rw (e, ask_driver) (rw (up, ask_driver) tt)
    ]
  ]

  recover-Asking : (saved : SavedStatus) → Asking p (handle_recover p saved net.connect)
  unfolding handle_recover restore asks
  recover-Asking saved =
      let q = restore p saved in
      inr (
        refl,
        elim (Bool-cases q.payment_confirmed) [
          | inl e ↦ rw e tt
          | inr e ↦ elim (Bool-cases q.payment_authorized) [
            | inl k ↦ rw (e, k) (asks-ask_driver q)
            | inr k ↦ rw (e, k) tt
          ]
        ],
      )

  pub process-Asking : (msg : Message) → Asking p (handle_process p msg net)
  unfolding handle_process set_receiver asks
  process-Asking (set_receiver_msg receiver) = inr (refl, tt)
  process-Asking (recover_msg saved) = recover-Asking saved
  process-Asking (Startup.login_msg name) = login-Asking name
  process-Asking Startup.get_drivers_msg = get_drivers-Asking

  pub inbound-Asking : (f : F64) (msg : Inbound) → Asking p (handle_inbound f p msg net)
  unfolding handle_inbound handle_complete_login handle_ride_accepted handle_driver_arrived
      handle_keep_looking asks
  inbound-Asking f (Wire.drivers offered) = drivers-Asking f offered
  inbound-Asking f (complete_login id) = inr (refl, tt)
  inbound-Asking f (ride_accepted socket) = inr (refl, tt)
  inbound-Asking f driver_arrived = inr (refl, tt)
  inbound-Asking f keep_looking = inr (refl, tt)
  inbound-Asking f (recover_response msg) = recover_response-Asking msg
  inbound-Asking f (Wire.reconnect_driver socket) = reconnect_driver-Asking socket

  pub own-Asking : (f : F64) (msg : SelfMsg) → Asking p (handle_own f p msg net)
  unfolding handle_own
  own-Asking f get_drivers_msg = get_drivers-Asking
  own-Asking f (login_msg name) = login-Asking name
  own-Asking f (reconnect msg) = reconnect-Asking msg
  own-Asking f (drivers offered) = drivers-Asking f offered
  own-Asking f traveling = traveling-Asking
