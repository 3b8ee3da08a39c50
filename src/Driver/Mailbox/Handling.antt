-- ===== src/Driver/Mailbox/Handling.antt =====
-- What one message does to the ride of a driver.
use concu_ride.Prelude.{
  ℕ, String, ◌≡◌, ◌⊎◌, inl, inr, refl, sym, subst, ◌∙◌, Bool, true, false, ◌==◌, nat_eq, some, List,
  [], ◌∷◌, ◌++◌, Bool-cases, Option-cases,
}
use concu_ride.Driver.{
  Addr, Driver, ServerMsg, Effect, refuse, busy_driver, reconnect_driver, reconnect, start_ride,
  pick_up_passenger, ride_to_destination, end_ride, to_self, to_server, to_passenger,
}
use concu_ride.Driver.Wire.{request_ride, passenger_recover, reconnect_passenger}
use concu_ride.Driver.Startup.{set_receiver_msg, recovery_msg, register_msg}
use concu_ride.Driver.Handlers.{
  handle_reconnect, handle_register, handle_request_ride, handle_passenger_recover, handle_recovery,
  set_receiver, handle_new_connection, handle_reconnect_passenger, ask_server, SavedStatus, restore,
  RequestRide, accept,
}
use concu_ride.Driver.Handlers.Phases.{ask_server_once}
use concu_ride.Driver.Mailbox.{
  inbound, new_connection, Msg, process, outside, own, Net, handle_process, handle_outside,
  handle_own, handle, sent,
}
use concu_ride.Driver.Mailbox.Pending.{Idle, Quiet, One}

-- The ride of `d` is that of `e`.
abbrev pub SameRide : Driver → Driver → Type 0
SameRide d e = (e.destination ≡ d.destination) × (e.id_current_passenger ≡ d.id_current_passenger)

-- The ride of `d` is over for `e`.
abbrev pub Over : Driver → Driver → Type 0
Over d e =
    (e.is_available ≡ true)
    × (d.destination ≡ some e.position)
    × (e.id_current_passenger ≡ d.id_current_passenger)

-- What a message leaves of a driver that is free.
abbrev pub Free : Driver × List Effect → Type 0
Free r =
    ((r.0.is_available ≡ true) × Quiet (sent r.1))
    ⊎ ((r.0.is_available ≡ false) × One r.0.destination (sent r.1))

-- What a message that is none of the ride leaves of a driver `d` that is busy.
abbrev pub Undisturbed : Driver → Driver × List Effect → Type 0
Undisturbed d r = (r.0.is_available ≡ false) × SameRide d r.0 × Quiet (sent r.1)

sent-ask_server :
    (d : Driver) (msg : ServerMsg) (connected : Bool) (P : List Effect → Type 0)
    → P (to_server d.server_sender msg ∷ [])
    → P (to_server d.server_sender msg ∷ to_self (reconnect msg) ∷ [])
    → P (ask_server d msg connected)
sent-ask_server d msg connected P once twice = elim (ask_server_once d msg connected) [
  | inl e ↦ subst P (sym e) once
  | inr e ↦ subst P (sym e) twice
]

pub asked-Quiet :
    (d : Driver) (msg : ServerMsg) (connected : Bool) (after : List Effect)
    → Quiet (sent after)
    → Quiet (sent (ask_server d msg connected ++ after))
unfolding sent
asked-Quiet d msg connected after q =
    sent-ask_server d msg connected (λ a. Quiet (sent (a ++ after))) q (tt, q)

module _ (d : Driver) (net : Net) where
  request-Free :
      (msg : RequestRide) → d.is_available ≡ true → Free (handle_request_ride d msg net.connected)
  unfolding handle_request_ride sent
  request-Free msg free =
      let e = accept d msg in
      rw (free, handle_request_ride)
        (inr (
          refl,
          sent-ask_server e (busy_driver e.name) net.connected
              (λ a. One e.destination (sent (a ++ to_self start_ride ∷ []))) (inr (tt, tt))
              (inl (tt, inr (tt, tt))),
        ))

  refused :
      (msg : RequestRide)
      → d.is_available ≡ false
      → handle_request_ride d msg net.connected ≡ (d, to_passenger msg.addr refuse ∷ [])
  unfolding handle_request_ride
  refused msg busy = rw (busy, handle_request_ride)

  recover-Same :
      (id : ℕ) (addr : Addr)
      → let r = handle_passenger_recover d id addr in
        (r.0.is_available ≡ d.is_available) × SameRide d r.0 × Quiet (sent r.1)
  unfolding handle_passenger_recover sent
  recover-Same id addr = elim (Bool-cases (d.id_current_passenger == id)) [
    | inl e ↦ rw (e, handle_passenger_recover) (refl, (refl, refl), tt)
    | inr e ↦ rw (e, handle_passenger_recover) (refl, (refl, refl), tt)
  ]

  reconnect-Same :
      (msg : ServerMsg)
      → let r = handle_reconnect d msg net.leader in
        (r.0.is_available ≡ d.is_available) × SameRide d r.0 × Quiet (sent r.1)
  unfolding handle_reconnect sent
  reconnect-Same msg = elim (Option-cases net.leader) [
    | inl e ↦ rw (e, handle_reconnect) (refl, (refl, refl), tt)
    | inr (_, e) ↦ rw (e, handle_reconnect) (refl, (refl, refl), tt)
  ]

  -- A message of another kind than a ride, but for a request, changes nothing of the ride.
  other-Same :
      (msg : Msg)
      → Idle msg
      → ((request : RequestRide) × (msg ≡ outside (inbound (request_ride request))))
        ⊎ let r = handle d msg net in
          (r.0.is_available ≡ d.is_available) × SameRide d r.0 × Quiet (sent r.1)
  unfolding handle handle_process handle_outside handle_own sent set_receiver handle_register
      handle_new_connection handle_reconnect_passenger
  other-Same (process (set_receiver_msg receiver)) i = inr (refl, (refl, refl), tt)
  other-Same (process (register_msg msg)) i =
      inr (refl, (refl, refl), asked-Quiet d _ net.connected _ tt)
  other-Same (process (recovery_msg _ _)) i = absurd i
  other-Same (outside (inbound (request_ride msg))) i = inl (msg, refl)
  other-Same (outside (inbound (passenger_recover id addr))) i = inr (recover-Same id addr)
  other-Same (outside (inbound (reconnect_passenger addr position))) i =
      inr (refl, (refl, refl), tt)
  other-Same (outside (new_connection addr)) i = inr (refl, (refl, refl), tt)
  other-Same (own (reconnect msg)) i = inr (reconnect-Same msg)
  other-Same (own start_ride) i = absurd i
  other-Same (own pick_up_passenger) i = absurd i
  other-Same (own ride_to_destination) i = absurd i
  other-Same (own (end_ride _)) i = absurd i

  pub Idle-Free : (msg : Msg) → Idle msg → d.is_available ≡ true → Free (handle d msg net)
  unfolding handle handle_outside
  Idle-Free msg i free = elim (other-Same msg i) [
    | inl (request, e) ↦ subst (λ m. Free (handle d m net)) (sym e) (request-Free request free)
    | inr (same, _, q) ↦ inl (same ∙ free, q)
  ]

  pub Idle-Undisturbed :
      (msg : Msg) → Idle msg → d.is_available ≡ false → Undisturbed d (handle d msg net)
  unfolding handle handle_outside sent
  Idle-Undisturbed msg i busy = elim (other-Same msg i) [
    | inl (request, e) ↦
        subst (λ m. Undisturbed d (handle d m net)) (sym e)
          (subst (Undisturbed d) (sym (refused request busy)) (busy, (refl, refl), tt))
    | inr (same, ride, q) ↦ (same ∙ busy, ride, q)
  ]

  pub recovery-Free :
      (saved : SavedStatus) (socket : String)
      → Free (handle d (process (recovery_msg saved socket)) net)
  unfolding handle handle_process handle_recovery sent
  recovery-Free saved socket =
      let e = restore d saved in
      elim (Bool-cases e.is_available) [
        | inl free ↦
            let there : handle_recovery d saved socket ≡ (e, []) = rw (free, handle_recovery) in
            subst Free (sym there) (inl (free, tt))
        | inr busy ↦ elim (Bool-cases e.passenger_picked_up) [
          | inl on ↦
              let there : handle_recovery d saved socket ≡ (
                e,
                to_server e.server_sender (reconnect_driver e.id_current_passenger socket e.name)
                    ∷ to_self ride_to_destination
                    ∷ [],
              ) =
                rw (busy, on, handle_recovery) in
              subst Free (sym there) (inr (busy, inr (tt, tt)))
          | inr off ↦
              let there : handle_recovery d saved socket ≡ (
                e,
                to_server e.server_sender (reconnect_driver e.id_current_passenger socket e.name)
                    ∷ to_self pick_up_passenger
                    ∷ [],
              ) =
                rw (busy, off, handle_recovery) in
              subst Free (sym there) (inr (busy, inr (tt, tt)))
        ]
      ]
