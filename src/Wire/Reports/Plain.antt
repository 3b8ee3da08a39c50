-- ===== src/Wire/Reports/Plain.antt =====
-- What one message makes a driver report to the server while the connection is up.
use concu_ride.Prelude.{
  ℕ, ◌≡◌, inl, inr, refl, sym, subst, Bool, true, false, Option, some, List, [], ◌∷◌, ◌++◌, All,
  Bool-cases, Option-cases, String, ◌==◌, nat_eq,
}
use concu_ride.Ride.{step_towards, Position}
use concu_ride.Ride.Loop.{same_position}
use concu_ride.Driver.{
  Addr, Driver, ServerMsg, Effect, new_driver, busy_driver, available_driver, reconnect_driver,
  reconnect, start_ride, pick_up_passenger, ride_to_destination, end_ride, driver_arrived, refuse,
  ok, to_self, to_passenger, save,
}
use concu_ride.Driver.Wire.{request_ride, passenger_recover, reconnect_passenger}
use concu_ride.Driver.Handlers.{
  RequestRide, accept, status, handle_request_ride, handle_pick_up_passenger,
  handle_ride_to_destination, handle_end_ride, handle_passenger_recover, handle_new_connection,
  handle_start_ride, handle_reconnect_passenger, ask_server,
}
use concu_ride.Driver.Handlers.Phases.{
  ask_server_up, tell_passenger_once, pick_up_far, pick_up_near, pick_up_nowhere, ride_far,
  ride_near, ride_nowhere,
}
use concu_ride.Driver.Mailbox.{
  inbound, new_connection, Msg, process, outside, own, handle, handle_outside, handle_own, sent,
}
use concu_ride.Wire.Reports.{reports}

-- A message that is sent while the connection is up, to a driver that has started.
abbrev pub Plain : Msg → Type 0
Plain (process _) = ⊥
Plain (outside _) = Unit
Plain (own (reconnect _)) = ⊥
Plain (own start_ride) = Unit
Plain (own pick_up_passenger) = Unit
Plain (own ride_to_destination) = Unit
Plain (own (end_ride _)) = Unit

-- Reports by which a driver of that name, available or not, becomes so or not in turn.
abbrev pub Alternates : String → Bool → List ServerMsg → Bool → Type 0
Alternates name a [] b = a ≡ b
Alternates name a (busy_driver n ∷ rest) b = (a ≡ true) × (n ≡ name) × Alternates name false rest b
Alternates name a (available_driver n _ ∷ rest) b =
    (a ≡ false) × (n ≡ name) × Alternates name true rest b
Alternates name a (new_driver _ _ _ ∷ rest) b = ⊥
Alternates name a (reconnect_driver _ _ _ ∷ rest) b = ⊥

pub Alternates-append :
    (name : String) (a b c : Bool) (first second : List ServerMsg)
    → Alternates name a first b
    → Alternates name b second c
    → Alternates name a (first ++ second) c
Alternates-append name a b c [] second h k = subst (λ x. Alternates name x second c) (sym h) k
Alternates-append name a b c (busy_driver _ ∷ first) second (h, n, rest) k =
    (h, n, Alternates-append name false b c first second rest k)
Alternates-append name a b c (available_driver _ _ ∷ first) second (h, n, rest) k =
    (h, n, Alternates-append name true b c first second rest k)
Alternates-append name a b c (new_driver _ _ _ ∷ first) second h k = absurd h
Alternates-append name a b c (reconnect_driver _ _ _ ∷ first) second h k = absurd h

-- What a message leaves: the driver has its name and its connection, sends itself plain messages
-- only, and reports what has become of it.
abbrev pub Reported : Driver → Addr → Driver × List Effect → Type 0
Reported d receiver r =
    (r.0.server_receiver ≡ some receiver)
    × (r.0.name ≡ d.name)
    × All Plain (sent r.1)
    × Alternates d.name d.is_available (reports r.1) r.0.is_available

-- A message that ends a ride is handled while the driver is busy only.
abbrev pub Timely : Driver → Msg → Type 0
Timely d (own (end_ride _)) = d.is_available ≡ false
Timely d _ = Unit

module _ (d : Driver) (receiver : Addr) (up : d.server_receiver ≡ some receiver) where
  request-Reported : (msg : RequestRide) → Reported d receiver (handle_request_ride d msg true)
  unfolding handle_request_ride sent reports
  request-Reported msg = elim (Bool-cases d.is_available) [
    | inl free ↦
        let e = accept d msg in
        let there : handle_request_ride d msg true ≡ (
          e,
          to_passenger msg.addr (ok d.driver_socket)
              ∷ save (status e)
              ∷ (ask_server e (busy_driver d.name) true ++ to_self start_ride ∷ []),
        ) =
          rw (free, handle_request_ride) in
        let once = ask_server_up e (busy_driver d.name) receiver up in
        subst (Reported d receiver) (sym there) (
          subst
            (λ asked. Reported d receiver (
              e,
              to_passenger msg.addr (ok d.driver_socket)
                  ∷ save (status e)
                  ∷ (asked ++ to_self start_ride ∷ []),
            ))
            (sym once) (up, refl, (tt, tt), (free, refl, refl)))
    | inr busy ↦
        let there : handle_request_ride d msg true ≡ (d, to_passenger msg.addr refuse ∷ []) =
          rw (busy, handle_request_ride) in
        subst (Reported d receiver) (sym there) (up, refl, tt, refl)
  ]

  recover-Reported :
      (id : ℕ) (addr : Addr) → Reported d receiver (handle_passenger_recover d id addr)
  unfolding handle_passenger_recover sent reports
  recover-Reported id addr = elim (Bool-cases (d.id_current_passenger == id)) [
    | inl e ↦ rw (e, handle_passenger_recover) (up, refl, tt, refl)
    | inr e ↦ rw (e, handle_passenger_recover) (up, refl, tt, refl)
  ]

  end-Reported :
      (dst : Position) → d.is_available ≡ false → Reported d receiver (handle_end_ride d dst true)
  unfolding handle_end_ride sent reports
  end-Reported dst busy =
      let e : Driver = record d { position = dst } in
      let free : Driver = record e { is_available = true; passenger_picked_up = false } in
      subst (λ asked. Reported d receiver (free, asked ++ save (status free) ∷ []))
        (sym (ask_server_up e (available_driver e.name e.position) receiver up))
        (up, refl, tt, (busy, refl, refl))

  pick_up-Reported : Reported d receiver (handle_pick_up_passenger d)
  unfolding sent reports
  pick_up-Reported = elim (Option-cases d.passenger_position) [
    | inl i ↦ subst (Reported d receiver) (sym (pick_up_nowhere d i)) (up, refl, tt, refl)
    | inr (target, i) ↦ elim (Bool-cases (same_position (step_towards d.position target) target)) [
      | inl near ↦
          let e : Driver = record d {
            position = step_towards d.position target;
            passenger_picked_up = true;
          } in
          subst (Reported d receiver) (sym (pick_up_near target d i near))
            (elim (tell_passenger_once d driver_arrived) [
              | inl none_told ↦
                  subst (λ told. Reported d receiver (e, told ++ to_self ride_to_destination ∷ []))
                    (sym none_told) (up, refl, (tt, tt), refl)
              | inr (_, told_one) ↦
                  subst (λ told. Reported d receiver (e, told ++ to_self ride_to_destination ∷ []))
                    (sym told_one) (up, refl, (tt, tt), refl)
            ])
      | inr far ↦
          subst (Reported d receiver) (sym (pick_up_far target d i far)) (up, refl, (tt, tt), refl)
    ]
  ]

  ride-Reported : Reported d receiver (handle_ride_to_destination d)
  unfolding sent reports
  ride-Reported = elim (Option-cases d.destination) [
    | inl i ↦ subst (Reported d receiver) (sym (ride_nowhere d i)) (up, refl, tt, refl)
    | inr (target, i) ↦ elim (Bool-cases (same_position (step_towards d.position target) target)) [
      | inl near ↦
          subst (Reported d receiver) (sym (ride_near target d i near)) (up, refl, (tt, tt), refl)
      | inr far ↦
          subst (Reported d receiver) (sym (ride_far target d i far)) (up, refl, (tt, tt), refl)
    ]
  ]

  pub handle-Reported :
      (msg : Msg) (leader : Option (Addr × Addr))
      → Plain msg
      → Timely d msg
      → Reported d receiver (handle d msg (record { connected = true; leader = leader }))
  unfolding handle handle_outside handle_own handle_start_ride handle_new_connection
      handle_reconnect_passenger sent reports
  handle-Reported (process _) leader p t = absurd p
  handle-Reported (outside (inbound (request_ride msg))) leader p t = request-Reported msg
  handle-Reported (outside (inbound (passenger_recover id addr))) leader p t =
      recover-Reported id addr
  handle-Reported (outside (inbound (reconnect_passenger addr position))) leader p t =
      (up, refl, tt, refl)
  handle-Reported (outside (new_connection addr)) leader p t = (up, refl, tt, refl)
  handle-Reported (own (reconnect _)) leader p t = absurd p
  handle-Reported (own start_ride) leader p t = (up, refl, (tt, tt), refl)
  handle-Reported (own pick_up_passenger) leader p t = pick_up-Reported
  handle-Reported (own ride_to_destination) leader p t = ride-Reported
  handle-Reported (own (end_ride dst)) leader p t = end-Reported dst t
