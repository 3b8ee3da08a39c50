-- ===== src/Wire/Conversation.antt =====
-- A passenger and the server in conversation: a line, the server's handler, and the line back.
use concu_ride.Prelude.{
  ℕ, ◌≡◌, ◌↔◌, refl, ap, ◌∙◌, some, none, List, [], ◌∷◌, map, Has, inl, inr, string_eq, nat_eq,
}
use concu_ride.Prelude.HashMap.{get}
use concu_ride.Common.Json.{Json, IsJson}
use concu_ride.Passenger
use concu_ride.Passenger.{Passenger, DriverInfo}
use concu_ride.Passenger.Handlers.{handle_complete_login}
use concu_ride.Passenger.Wire.{encode as passenger_line, drivers, complete_login, receive}
use concu_ride.Server.{Server, Addr, to_client, TcpOut, identificador}
use concu_ride.Server as Data
use concu_ride.Server.Registry.Requests.{Request, handle}
use concu_ride.Server.Registry.Filing.{IsFiled}
use concu_ride.Server.Registry.Availability.{get_drivers_lists, passenger_login_answer}
use concu_ride.Server.Wire.{encode as server_line}
use concu_ride.Server.Wire as ServerWire
use concu_ride.Wire.ToServer.{receive-passenger_line}
use concu_ride.Wire.ToPassenger.{offer, receive-drivers_line, receive-identificador_line}

Has-map :
    {A B : Type 0} (f : A → B) (xs : List A) (b : B)
    → Has b (map f xs) ↔ ((a : A) × (f a ≡ b) × Has a xs)
Has-map f [] b = (λ h. absurd h, λ (a, e, h). absurd h)
Has-map f (x ∷ xs) b = (
  λ h. elim h [
    | inl e ↦ (x, e, inl refl)
    | inr m ↦ let (a, e, k) = (Has-map f xs b).0 m in (a, e, inr k)
  ],
  λ (a, e, h). elim h [ inl p ↦ inl (ap f p ∙ e) | inr k ↦ inr ((Has-map f xs b).1 (a, e, k)) ],
)

module _ (j : Json) (laws : IsJson j) where
  -- A passenger that asks a server with a well filed registry for drivers is offered, over the
  -- wire, exactly the available drivers, none of which is busy, each with its socket and place.
  pub offers_arrive :
      (s : Server) (addr : Addr) (id : ℕ)
      → IsFiled s
      → (r : Request) × (out : TcpOut) × (offered : List DriverInfo) × (ServerWire.receive j addr
            (some (passenger_line j (Passenger.get_drivers id)))
          ≡ some (ServerWire.request r))
        × (handle s r ≡ (s, to_client addr out ∷ []))
        × (receive j (some (server_line j out)) ≡ some (drivers offered))
        × ((o : DriverInfo)
            → Has o offered ↔ (
                (d : Data.DriverInfo) × (offer d ≡ o)
                × (get s.drivers d.name ≡ some d)
                × (get s.busy_drivers d.name ≡ none)))
  unfolding handle
  offers_arrive s addr id f =
      let (listed, e, holds) = get_drivers_lists s addr f in
      (
        Request.get_drivers addr,
        Data.drivers listed,
        map offer listed,
        receive-passenger_line j laws addr (Passenger.get_drivers id),
        e,
        receive-drivers_line j laws listed,
        λ o. (
          λ h.
              let (d, p, k) = (Has-map offer listed o).0 h in
              let (free, idle) = (holds d).0 k in (d, p, free, idle),
          λ (d, p, free, idle). (Has-map offer listed o).1 (d, p, (holds d).1 (free, idle)),
        ),
      )

  -- A passenger that logs in is told, over the wire, the id under which the server then knows its
  -- name and its connection, and takes it for its own, with nothing else of it changed.
  pub login_arrives :
      (s : Server) (p : Passenger) (addr : Addr)
      → (r : Request) × (out : TcpOut) × (i : ℕ) × (ServerWire.receive j addr
            (some (passenger_line j (Passenger.login p.name)))
          ≡ some (ServerWire.request r))
        × ((handle s r).1 ≡ to_client addr out ∷ [])
        × (get (handle s r).0.passengers p.name ≡ some i)
        × (get (handle s r).0.passengers_address i ≡ some addr)
        × (receive j (some (server_line j out)) ≡ some (complete_login i))
        × ((handle_complete_login p i).0 ≡ record p {
          info = record { id = i; position = p.info.position; destination = p.info.destination };
        })
  unfolding handle handle_complete_login
  login_arrives s p addr =
      let (i, e, known, reached) =
        passenger_login_answer s (record { name = p.name; addr = addr }) in
      (
        Request.passenger_login (record { name = p.name; addr = addr }),
        identificador i,
        i,
        receive-passenger_line j laws addr (Passenger.login p.name),
        e,
        known,
        reached,
        receive-identificador_line j laws i,
        refl,
      )
