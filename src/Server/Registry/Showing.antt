-- ===== src/Server/Registry/Showing.antt =====
-- Whether the server has a driver for available or for busy, and what the requests of the driver
-- and of others do to it.
use concu_ride.Prelude.{
  String, ◌≡◌, ◌≢◌, Bool, true, false, none, some, arith, string_eq, ◌==◌, if◌then◌else◌,
  Bool-cases, Option-cases, inl, inr, refl, ap, ◌∙◌,
}
use concu_ride.Prelude.HashMap.{
  HashMap, modify, get, get-insert, get-remove, get-modify, insert, remove,
}
use concu_ride.Server.{Position, DriverInfo, Server, UpdateDriverSocket}
use concu_ride.Server.Registry.{
  new_driver, get_drivers, passenger_login, update_driver, busy_driver, reconnect_driver,
  update_socket, set_socket, NewDriver, enrol_driver, UpdateDriver,
}
use concu_ride.Server.Registry.Requests.{Request, handle}

-- A request that does not report the driver of that name as busy or available.
abbrev pub Foreign : String → Request → Type 0
Foreign name (Request.busy_driver other) = other ≢ name
Foreign name (Request.update_driver msg) = msg.name ≢ name
Foreign name (Request.new_driver _) = Unit
Foreign name (Request.get_drivers _) = Unit
Foreign name (Request.passenger_login _) = Unit
Foreign name (Request.reconnect_driver _) = Unit
Foreign name (Request.update_driver_socket _) = Unit

-- The server shows the driver as available, or as busy.
abbrev pub Shows : String → Server → Bool → Type 0
Shows name s true =
    (d : DriverInfo) × (get s.drivers name ≡ some d) × (get s.busy_drivers name ≡ none)
Shows name s false =
    (d : DriverInfo) × (get s.busy_drivers name ≡ some d) × (get s.drivers name ≡ none)

module _ (name : String) (s : Server) where
  pub busy_driver-Shows : Shows name s true → Shows name (busy_driver s name).0 false
  unfolding busy_driver
  busy_driver-Shows (d, free, off) =
      rw (free, busy_driver)
        (
          d,
          ground (arith, get-insert s.busy_drivers name d name, string_eq.eq_law name name),
          ground (arith, get-remove s.drivers name name, string_eq.eq_law name name),
        )

  pub update_driver-Shows :
      (position : Position)
      → Shows name s false
      → Shows name (update_driver s (record { new_position = position; name = name })).0 true
  unfolding update_driver
  update_driver-Shows position (d, busy, off) =
      let e : DriverInfo = record d { position = position } in
      rw (busy, update_driver)
        (
          e,
          ground (arith, get-insert s.drivers name e name, string_eq.eq_law name name),
          ground (arith, get-remove s.busy_drivers name name, string_eq.eq_law name name),
        )

  -- The entries of the driver are the same.
  abbrev Same : Server → Type 0
  Same t =
      (get t.drivers name ≡ get s.drivers name)
      × (get t.busy_drivers name ≡ get s.busy_drivers name)

  Same-Shows : (b : Bool) (t : Server) → Same t → Shows name s b → Shows name t b
  Same-Shows true t (there, other) (d, e, off) = (d, there ∙ e, other ∙ off)
  Same-Shows false t (there, other) (d, e, off) = (d, other ∙ e, there ∙ off)

  enrolled_other :
      (b : Bool) (other : String)
      → get s.drivers other ≡ none
      → get s.busy_drivers other ≡ none
      → Shows name s b
      → other ≢ name
  enrolled_other true other e k (d, free, _) h = absurd (cc (ap (λ n. get s.drivers n) h, e, free))
  enrolled_other false other e k (d, busy, _) h =
      absurd (cc (ap (λ n. get s.busy_drivers n) h, k, busy))

  apart :
      {A : Type 0} (other : String) (x y : A) → other ≢ name → (if other == name then x else y) ≡ y
  apart other x y h = ground (arith, string_eq.eq_law other name, h)

  new_driver-Shows :
      (b : Bool) (msg : NewDriver) → Shows name s b → Shows name (new_driver s msg).0 b
  unfolding new_driver enrol_driver
  new_driver-Shows b msg shows = elim (Option-cases (get s.drivers msg.name)) [
    | inr (_, e) ↦ rw (e, new_driver) shows
    | inl e ↦ elim (Option-cases (get s.busy_drivers msg.name)) [
      | inr (_, k) ↦ rw (e, k, new_driver) shows
      | inl k ↦
          let other = enrolled_other b msg.name e k shows in
          rw (e, k, new_driver)
            (Same-Shows b (enrol_driver s msg)
              (get-insert s.drivers msg.name _ name ∙ apart msg.name _ _ other, refl) shows)
    ]
  ]

  entry_renewed :
      (m : HashMap String DriverInfo) (msg : UpdateDriverSocket) (d : DriverInfo)
      → get m name ≡ some d
      → (e : DriverInfo) × (get (modify m msg.name (set_socket msg.socket)) name ≡ some e)
  entry_renewed m msg d h = elim (Bool-cases (msg.name == name)) [
    | inl same ↦ (
      set_socket msg.socket d,
      ground (arith, get-modify m msg.name (set_socket msg.socket) name),
    )
    | inr other ↦ (d, ground (arith, get-modify m msg.name (set_socket msg.socket) name))
  ]

  no_entry :
      (m : HashMap String DriverInfo) (msg : UpdateDriverSocket)
      → get m name ≡ none
      → get (modify m msg.name (set_socket msg.socket)) name ≡ none
  no_entry m msg h = ground (arith, get-modify m msg.name (set_socket msg.socket) name)

  update_socket-Shows :
      (b : Bool) (msg : UpdateDriverSocket) → Shows name s b → Shows name (update_socket s msg).0 b
  unfolding update_socket
  update_socket-Shows true msg (d, free, off) =
      let (e, there) = entry_renewed s.drivers msg d free in
      (e, there, no_entry s.busy_drivers msg off)
  update_socket-Shows false msg (d, busy, off) =
      let (e, there) = entry_renewed s.busy_drivers msg d busy in
      (e, there, no_entry s.drivers msg off)

  update_driver-Foreign :
      (b : Bool) (msg : UpdateDriver)
      → msg.name ≢ name
      → Shows name s b
      → Shows name (update_driver s msg).0 b
  unfolding update_driver
  update_driver-Foreign b msg other shows = elim (Option-cases (get s.busy_drivers msg.name)) [
    | inl e ↦ rw (e, update_driver) shows
    | inr (d, e) ↦
        rw (e, update_driver)
          (Same-Shows b
            (record s {
              busy_drivers = remove s.busy_drivers msg.name;
              drivers = insert s.drivers msg.name (record d { position = msg.new_position });
            })
            (
              ground (
                arith,
                other,
                string_eq.eq_law msg.name name,
                get-insert s.drivers msg.name (record d { position = msg.new_position }) name,
              ),
              ground (
                arith,
                other,
                string_eq.eq_law msg.name name,
                get-remove s.busy_drivers msg.name name,
              ),
            )
            shows)
  ]

  busy_driver-Foreign :
      (b : Bool) (msg : String) → msg ≢ name → Shows name s b → Shows name (busy_driver s msg).0 b
  unfolding busy_driver
  busy_driver-Foreign b msg other shows = elim (Option-cases (get s.drivers msg)) [
    | inl e ↦ rw (e, busy_driver) shows
    | inr (d, e) ↦
        rw (e, busy_driver)
          (Same-Shows b
            (record s {
              drivers = remove s.drivers msg;
              busy_drivers = insert s.busy_drivers msg d;
            })
            (
              ground (arith, other, string_eq.eq_law msg name, get-remove s.drivers msg name),
              ground
                  (arith, other, string_eq.eq_law msg name, get-insert s.busy_drivers msg d name),
            )
            shows)
  ]

  -- What others ask for leaves the driver available, or busy, as it was.
  pub foreign-Shows :
      (b : Bool) (r : Request) → Foreign name r → Shows name s b → Shows name (handle s r).0 b
  unfolding handle get_drivers passenger_login reconnect_driver
  foreign-Shows b (Request.new_driver msg) f shows = new_driver-Shows b msg shows
  foreign-Shows b (Request.get_drivers addr) f shows = shows
  foreign-Shows b (Request.passenger_login msg) f shows =
      Same-Shows b (passenger_login s msg).0 (ground arith, ground arith) shows
  foreign-Shows b (Request.update_driver msg) f shows = update_driver-Foreign b msg f shows
  foreign-Shows b (Request.busy_driver other) f shows = busy_driver-Foreign b other f shows
  foreign-Shows b (Request.reconnect_driver msg) f shows =
      Same-Shows b (reconnect_driver s msg).0 (ground arith, ground arith) shows
  foreign-Shows b (Request.update_driver_socket msg) f shows = update_socket-Shows b msg shows
