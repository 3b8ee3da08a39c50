-- ===== src/Wire/Paying/Safety.antt =====
-- A passenger requests a ride only with a connection to a driver.
use concu_ride.Prelude.{
  ℕ, ◌≡◌, ◌⊎◌, inl, inr, refl, sym, subst, ◌∙◌, Option, none, some, List, [], ◌∷◌, map, All,
  All-append, List-cases, kept, kept-All, arith,
}
use concu_ride.Common.Json.{Json}
use concu_ride.Passenger.{
  Addr, Passenger, Effect, GatewayMsg, authorize_payment, confirm_payment, to_driver, request_ride,
  to_self, to_server, to_gateway, save, add_permit,
}
use concu_ride.Passenger.Select.{F64}
use concu_ride.Passenger.Handlers.{
  handle_request_drive, handle_payment_authorized, handle_payment_deny,
}
use concu_ride.Passenger.GatewayConnection.{payment_authorized, request_drive, payment_deny}
use concu_ride.Passenger.Startup.{
  Args, app, Message, Outcome, no_server, no_gateway, failed, running,
}
use concu_ride.Passenger.Mailbox.{
  Msg, process, inbound, payment, own, Net, handle, handle_process, handle_inbound, handle_own,
  sent, asks,
}
use concu_ride.Gateway.{
  TcpOut, identificador, payment_authorization_status, pago_confirmado, answer,
}
use concu_ride.Wire.Paying.{
  World, line_of, listed, told, started, Step, handles, arrives, answered, tells, Steps, here, next,
}
use concu_ride.Wire.Paying.Asking.{
  Connected, Other, Asking, AskingIf, process-Asking, inbound-Asking, own-Asking,
}

-- A message that does not let the passenger request the ride.
abbrev pub Harmless : Msg → Type 0
Harmless (process _) = Unit
Harmless (inbound _) = Unit
Harmless (own _) = Unit
Harmless (payment (payment_authorized _)) = Unit
Harmless (payment (payment_deny _)) = Unit
Harmless (payment (request_drive _)) = ⊥

request_first :
    (p : Passenger) (driver : Addr) (rest : List Addr)
    → p.connections ≡ driver ∷ rest
    → handle_request_drive p
      ≡ some (p, to_driver driver (request_ride p.info.id p.info.position p.info.destination) ∷ [])
unfolding handle_request_drive
request_first p driver rest e = ground arith

module _ (p : Passenger) (net : Net) where
  request_drive-Asking : AskingIf p (handle_request_drive p)
  unfolding handle_request_drive asks
  request_drive-Asking = elim (List-cases p.connections) [
    | inl e ↦ rw (e, handle_request_drive) tt
    | inr (driver, rest, e) ↦
        subst (AskingIf p) (sym (request_first p driver rest e)) (inl (driver, rest, e))
  ]

  handle-AskingIf : (f : F64) (msg : Msg) → AskingIf p (handle f p msg net)
  unfolding handle handle_payment_authorized handle_payment_deny asks
  handle-AskingIf f (process msg) = process-Asking p net msg
  handle-AskingIf f (inbound msg) = inbound-Asking p net f msg
  handle-AskingIf f (payment (payment_authorized _)) = inr (refl, tt)
  handle-AskingIf f (payment (request_drive _)) = request_drive-Asking
  handle-AskingIf f (payment (payment_deny _)) = inr (refl, tt)
  handle-AskingIf f (own msg) = own-Asking p net f msg

pub handle-Asking :
    (f : F64) (p : Passenger) (msg : Msg) (net : Net) (r : Passenger × List Effect)
    → handle f p msg net ≡ some r
    → Asking p r
handle-Asking f p msg net r e = subst (AskingIf p) e (handle-AskingIf p net f msg)

-- With a connection no message makes the passenger panic; and without one only the message to
-- request the ride does.
pub handle-Connected :
    (f : F64) (p : Passenger) (msg : Msg) (net : Net)
    → Connected p ⊎ Harmless msg
    → (r : Passenger × List Effect) × (handle f p msg net ≡ some r)
unfolding handle
handle-Connected f p (process msg) net h = (handle_process p msg net, refl)
handle-Connected f p (inbound msg) net h = (handle_inbound f p msg net, refl)
handle-Connected f p (own msg) net h = (handle_own f p msg net, refl)
handle-Connected f p (payment (payment_authorized _)) net h = (handle_payment_authorized p, refl)
handle-Connected f p (payment (payment_deny _)) net h = (handle_payment_deny p, refl)
handle-Connected f p (payment (request_drive _)) net (inr h) = absurd h
handle-Connected f p (payment (request_drive addr)) net (inl (driver, rest, e)) =
    (_, request_first p driver rest e)

-- A line of the gateway that does not answer for an authorisation.
abbrev Still : TcpOut → Type 0
Still (payment_authorization_status _) = ⊥
Still (identificador _) = Unit
Still pago_confirmado = Unit

-- The passenger has a connection to a driver, or nothing on its way lets it request a ride.
abbrev IsReady : World → Type 0
IsReady w =
    Connected w.passenger ⊎ (All Harmless w.mailbox × All Other w.asked × All Still w.answers)

sent-Harmless : (effects : List Effect) → All Harmless (sent effects)
unfolding sent
sent-Harmless [] = tt
sent-Harmless (to_self msg ∷ effects) = (tt, sent-Harmless effects)
sent-Harmless (to_server _ _ ∷ effects) = sent-Harmless effects
sent-Harmless (to_gateway _ _ ∷ effects) = sent-Harmless effects
sent-Harmless (to_driver _ _ ∷ effects) = sent-Harmless effects
sent-Harmless (save _ ∷ effects) = sent-Harmless effects
sent-Harmless (add_permit ∷ effects) = sent-Harmless effects

answer-Still :
    (draw : ℕ) (msg : GatewayMsg) → Other msg → All Still (listed (answer draw (line_of msg)))
unfolding answer
answer-Still draw authorize_payment o = absurd o
answer-Still draw (confirm_payment name) o = (tt, tt)

told-Harmless : (addr : Addr) (out : TcpOut) → Still out → All Harmless (told addr out)
told-Harmless addr (payment_authorization_status _) s = absurd s
told-Harmless addr (identificador _) s = tt
told-Harmless addr pago_confirmado s = tt

module _ (f : F64) where
  Step-IsReady : (w v : World) → Step f w v → IsReady w → IsReady v
  Step-IsReady w v (handles _ msg rest net room r box e) ready =
      elim (handle-Asking f w.passenger msg net r e) [
        | inl connected ↦ inl connected
        | inr (same, others) ↦ elim ready [
          | inl (driver, more, first) ↦ inl (driver, more, same ∙ first)
          | inr (calm, asked, still) ↦ inr (
            All-append Harmless rest (kept room (sent r.1)) (subst (All Harmless) box calm).1
                (kept-All Harmless room (sent r.1) (sent-Harmless r.1)),
            All-append Other w.asked (asks r.1) asked others,
            still,
          )
        ]
      ]
  Step-IsReady w v (arrives _ msg) (inl connected) = inl connected
  Step-IsReady w v (arrives _ msg) (inr (calm, asked, still)) =
      inr (All-append Harmless w.mailbox (inbound msg ∷ []) calm (tt, tt), asked, still)
  Step-IsReady w v (answered _ draw msg rest e) (inl connected) = inl connected
  Step-IsReady w v (answered _ draw msg rest e) (inr (calm, asked, still)) =
      let others = subst (All Other) e asked in
      inr (
        calm,
        others.1,
        All-append Still w.answers (listed (answer draw (line_of msg))) still
            (answer-Still draw msg others.0),
      )
  Step-IsReady w v (tells _ addr out rest room e) (inl connected) = inl connected
  Step-IsReady w v (tells _ addr out rest room e) (inr (calm, asked, still)) =
      let stills = subst (All Still) e still in
      inr (
        All-append Harmless w.mailbox (kept room (told addr out)) calm
            (kept-All Harmless room (told addr out) (told-Harmless addr out stills.0)),
        asked,
        stills.1,
      )

  Steps-IsReady : (w v : World) → Steps f w v → IsReady w → IsReady v
  Steps-IsReady w v here ready = ready
  Steps-IsReady w v (next {v = u} steps step) ready =
      Step-IsReady u v step (Steps-IsReady w u steps ready)

StartReady : Option World → Type 0
StartReady none = Unit
StartReady (some w) = IsReady w

process-Harmless : (msgs : List Message) → All Harmless (map process msgs)
process-Harmless [] = tt
process-Harmless (_ ∷ msgs) = (tt, process-Harmless msgs)

started-Ready : (o : Outcome) → StartReady (started o)
unfolding started StartReady
started-Ready (running p msgs) = inr (process-Harmless msgs, tt, tt)
started-Ready no_server = tt
started-Ready no_gateway = tt
started-Ready failed = tt

-- From its start on, whatever drivers and the server send it, whatever the gateway draws, and
-- whichever of the messages to it are lost because its mailbox is full, a passenger never requests
-- a ride without a connection to a driver, on which it would panic: the next message in its mailbox
-- is handled, whatever the network answers.
pub never_panics :
    (j : Json) (f : F64) (args : Args) (sender gateway : Option Addr) (receiver : Addr)
    (file : Option j.Text) (start w : World) (msg : Msg) (rest : List Msg) (net : Net)
    → started (app j args sender gateway receiver file) ≡ some start
    → Steps f start w
    → w.mailbox ≡ msg ∷ rest
    → (r : Passenger × List Effect) × (handle f w.passenger msg net ≡ some r)
unfolding StartReady
never_panics j f args sender gateway receiver file start w msg rest net e steps box =
    let ready =
      Steps-IsReady f start w steps
        (subst StartReady e (started-Ready (app j args sender gateway receiver file))) in
    handle-Connected f w.passenger msg net (elim ready [
      | inl connected ↦ inl connected
      | inr (calm, _, _) ↦ inr (subst (All Harmless) box calm).0
    ])
