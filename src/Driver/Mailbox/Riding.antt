-- ===== src/Driver/Mailbox/Riding.antt =====
-- What a message of its ride does to a driver that is busy.
use concu_ride.Prelude.{
  ◌≡◌, ◌⊎◌, inl, inr, refl, sym, subst, ap, ◌∙◌, true, false, nat_eq, some, List, [], ◌∷◌, ◌++◌,
  Bool-cases, Option-cases,
}
use concu_ride.Ride.{Position, step_towards}
use concu_ride.Ride.Loop.{same_position, same_position-eq}
use concu_ride.Driver.{
  Driver, PassengerMsg, Effect, available_driver, reconnect, start_ride, pick_up_passenger,
  ride_to_destination, end_ride, driver_arrived, to_self, save,
}
use concu_ride.Driver.Handlers.{
  handle_pick_up_passenger, handle_ride_to_destination, handle_end_ride, handle_start_ride,
  tell_passenger, status,
}
use concu_ride.Driver.Handlers.Phases.{
  tell_passenger_once, pick_up_far, pick_up_near, pick_up_nowhere, ride_far, ride_near,
  ride_nowhere,
}
use concu_ride.Driver.Mailbox.{Msg, process, outside, own, Net, handle_own, handle, sent}
use concu_ride.Driver.Mailbox.Pending.{Fits, Quiet, One}
use concu_ride.Driver.Mailbox.Handling.{SameRide, Over, asked-Quiet}

-- What a message of the ride leaves of a driver `d` that is busy.
abbrev pub Onward : Driver → Driver × List Effect → Type 0
Onward d r =
    ((r.0.is_available ≡ false) × SameRide d r.0 × One d.destination (sent r.1))
    ⊎ (Over d r.0 × Quiet (sent r.1))

module _ (d : Driver) (net : Net) where
  -- What goes to the passenger is not sent to the driver itself.
  sent-tell_passenger :
      (s : Driver) (msg : PassengerMsg) (after : List Effect)
      → sent (tell_passenger s msg ++ after) ≡ sent after
  unfolding sent
  sent-tell_passenger s msg after = elim (tell_passenger_once s msg) [
    | inl e ↦ ap (λ told. sent (told ++ after)) e
    | inr (_, e) ↦ ap (λ told. sent (told ++ after)) e
  ]

  pick_up-Onward : d.is_available ≡ false → Onward d (handle_pick_up_passenger d)
  unfolding sent
  pick_up-Onward busy = elim (Option-cases d.passenger_position) [
    | inl i ↦ subst (Onward d) (sym (pick_up_nowhere d i)) (inl (busy, (refl, refl), tt))
    | inr (target, i) ↦ elim (Bool-cases (same_position (step_towards d.position target) target)) [
      | inl near ↦ subst (Onward d) (sym (pick_up_near target d i near)) (
          inl (
            busy,
            (refl, refl),
            subst (One d.destination)
                (sym (sent-tell_passenger d driver_arrived (to_self ride_to_destination ∷ [])))
                (inr (tt, tt)),
          ))
      | inr far ↦
          subst (Onward d) (sym (pick_up_far target d i far))
            (inl (busy, (refl, refl), inr (tt, tt)))
    ]
  ]

  ride-Onward : d.is_available ≡ false → Onward d (handle_ride_to_destination d)
  unfolding sent
  ride-Onward busy = elim (Option-cases d.destination) [
    | inl i ↦ subst (Onward d) (sym (ride_nowhere d i)) (inl (busy, (refl, refl), tt))
    | inr (target, i) ↦ elim (Bool-cases (same_position (step_towards d.position target) target)) [
      | inl near ↦
          subst (Onward d) (sym (ride_near target d i near))
            (inl (busy, (refl, refl), inr (i ∙ ap some (sym (same_position-eq _ target near)), tt)))
      | inr far ↦
          subst (Onward d) (sym (ride_far target d i far)) (inl (busy, (refl, refl), inr (tt, tt)))
    ]
  ]

  end-Onward :
      (dst : Position) → d.destination ≡ some dst → Onward d (handle_end_ride d dst net.connected)
  unfolding handle_end_ride sent
  end-Onward dst there =
      let e : Driver = record d { position = dst } in
      let free : Driver = record e { is_available = true; passenger_picked_up = false } in
      inr (
        (refl, there, refl),
        asked-Quiet e (available_driver e.name e.position) net.connected (save (status free) ∷ [])
            tt,
      )

  -- A message of the ride of a busy driver takes it further, or ends it at its destination.
  pub Fits-Onward :
      (msg : Msg) → Fits d.destination msg → d.is_available ≡ false → Onward d (handle d msg net)
  unfolding handle handle_own handle_start_ride sent
  Fits-Onward (own start_ride) f busy = inl (busy, (refl, refl), inr (tt, tt))
  Fits-Onward (own pick_up_passenger) f busy = pick_up-Onward busy
  Fits-Onward (own ride_to_destination) f busy = ride-Onward busy
  Fits-Onward (own (end_ride dst)) f busy = end-Onward dst f
  Fits-Onward (own (reconnect _)) f busy = absurd f
  Fits-Onward (outside _) f busy = absurd f
  Fits-Onward (process _) f busy = absurd f
