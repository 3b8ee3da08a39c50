-- ===== src/Driver/Mailbox/Safety.antt =====
-- A driver has one ride at a time, whatever messages it is sent.
use concu_ride.Prelude.{
  ◌≤◌, String, ◌≡◌, ◌⊎◌, inl, inr, refl, sym, subst, ◌∙◌, Bool, true, false, Option, none, some,
  List, [], ◌∷◌, ◌++◌, map, Option-cases, if◌then◌else◌, kept,
}
use concu_ride.Common.Json.{Json}
use concu_ride.Driver.{Addr}
use concu_ride.Driver.File.{read_file}
use concu_ride.Driver.Startup.{
  register_msg, Message, Args, app, socket_to_bind, recovery_messages, new_driver,
}
use concu_ride.Driver.Handlers.{Register}
use concu_ride.Driver.Mailbox.{process, State, Steps, here, next, started}
use concu_ride.Driver.Mailbox.Pending.{pending, Quiet, Starting}
use concu_ride.Driver.Mailbox.Invariant.{IsSound, Kept, Step-Goes, Steps-Sound, Sound-pending}
use concu_ride.Driver.Mailbox.Handling.{Over}

-- The actor that is not started is sound.
StartSound : Option State → Type 0
StartSound none = Unit
StartSound (some s) = IsSound s

-- Messages of the process that leave the mailbox before recovery, or with none of a ride.
abbrev Begins : Register → Option (List Message) → Type 0
Begins msg none = Unit
Begins msg (some recovery) =
    let msgs = map process (recovery ++ register_msg msg ∷ []) in Starting msgs ⊎ Quiet msgs

module _ (j : Json) where
  messages-Begins :
      (recovery : Bool) (file : Option j.Text) (socket : String) (msg : Register)
      → Begins msg (recovery_messages j recovery file socket)
  unfolding recovery_messages
  messages-Begins true (some text) socket msg = elim (Option-cases (read_file j text)) [
    | inl e ↦ rw e tt
    | inr (saved, e) ↦ rw e (inl (tt, tt))
  ]
  messages-Begins true none socket msg = inr (tt, tt)
  messages-Begins false file socket msg = inr (tt, tt)

  app-Sound :
      (args : Args) (sender : Option Addr) (receiver : Addr) (bind : String → Option String)
      (file : Option j.Text)
      → StartSound (started (app j args sender receiver bind file))
  unfolding app started new_driver StartSound
  app-Sound args none receiver bind file = tt
  app-Sound args (some sender) receiver bind file =
      elim (Option-cases (socket_to_bind j args.recovery file)) [
        | inl e ↦ rw (e, app) tt
        | inr (address, e) ↦ elim (Option-cases (bind address)) [
          | inl down ↦ rw (e, down, app) tt
          | inr (socket, up) ↦ elim (Option-cases (recovery_messages j args.recovery file socket)) [
            | inl none_read ↦ rw (e, up, app) (rw (none_read, app) tt)
            | inr (recovery, read) ↦
                let msg : Register = record {
                  socket = socket;
                  name = args.name;
                  position = args.position;
                } in
                rw (e, up, app)
                  (rw (read, app)
                    (inl (
                      refl,
                      elim (subst (Begins msg) read
                          (messages-Begins args.recovery file socket msg)) [
                            | inl s ↦ inl s
                            | inr q ↦ inr (tt, q)
                          ],
                    )))
          ]
        ]
      ]

  started-Sound :
      (args : Args) (sender : Option Addr) (receiver : Addr) (bind : String → Option String)
      (file : Option j.Text) (s : State)
      → started (app j args sender receiver bind file) ≡ some s
      → IsSound s
  unfolding StartSound
  started-Sound args sender receiver bind file s e =
      subst StartSound e (app-Sound args sender receiver bind file)

pub steps-trans : {s t u : State} → Steps s t → Steps t u → Steps s u
steps-trans a here = a
steps-trans a (next b step) = next (steps-trans a b) step

-- The ride goes on, or it has ended at its destination on the way.
abbrev pub Rides : State → State → Type 0
Rides s t = Kept s.driver t.driver ⊎ ((u : State) × Steps s u × Steps u t × Over s.driver u.driver)

Steps-Rides : (s t : State) → IsSound s → s.driver.is_available ≡ false → Steps s t → Rides s t
Steps-Rides s t sound busy here = inl (busy, (refl, refl))
Steps-Rides s t sound busy (next {t = u} steps step) =
    let going = (Step-Goes u t step (Steps-Sound s u steps sound)).1 in
    elim (Steps-Rides s u sound busy steps) [
      | inr (v, first, second, over) ↦ inr (v, first, next second step, over)
      | inl (still, same) ↦ elim (going still) [
        | inl (kept, more) ↦ inl (kept, (more.0 ∙ same.0, more.1 ∙ same.1))
        | inr (free, there, id) ↦
            inr (t, next steps step, here, (free, sym same.0 ∙ there, id ∙ same.1))
      ]
    ]

-- From its start on, whatever its passengers send it and whichever of its own messages are lost
-- because its mailbox is full, a driver that is busy keeps its passenger and its destination until
-- it is available again, at that destination; and its mailbox holds no message of a ride while it
-- is available, and at most one while it is busy.
pub ride_kept :
    (j : Json) (args : Args) (sender : Option Addr) (receiver : Addr)
    (bind : String → Option String) (file : Option j.Text) (start s t : State)
    → started (app j args sender receiver bind file) ≡ some start
    → Steps start s
    → s.driver.is_available ≡ false
    → Steps s t
    → Rides s t × (pending t.mailbox ≤ (if t.driver.is_available then 0 else 1))
ride_kept j args sender receiver bind file start s t e before busy steps =
    let sound =
      Steps-Sound start s before (started-Sound j args sender receiver bind file start e) in
    (Steps-Rides s t sound busy steps, Sound-pending t (Steps-Sound s t steps sound))
