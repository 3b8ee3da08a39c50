-- ===== src/Server/Registry/Filing.antt =====
-- How the drivers are filed in the two maps, `drivers` and `busy_drivers`.
use concu_ride.Prelude.{String, ◌≡◌, ◌⊎◌, inl, inr, refl, Option, none, some, arith, string_eq, inc}
use concu_ride.Prelude.HashMap.{
  HashMap, get, insert, remove, modify, get-insert, get-remove, get-modify, Distinct,
  insert-Distinct, remove-Distinct, modify-Distinct,
}
use concu_ride.Server.{DriverInfo, UpdateDriverSocket, Server}
use concu_ride.Server.Registry.{
  NewDriver, UpdateDriver, new_driver, passenger_login, update_driver, busy_driver, update_socket,
  set_socket, get_drivers, reconnect_driver, enrol_driver,
}
use concu_ride.Server.Registry.Requests.{Request, handle}
use concu_ride.Server.Registry.Refinement.{IsDisjoint}

-- A driver's entry holds the name that it is filed under.
abbrev pub IsNamed : HashMap String DriverInfo → Type 0
IsNamed m = (n : String) (d : DriverInfo) → get m n ≡ some d → d.name ≡ n

-- No driver is both available and busy, and entries stand under their own names and once.
pub record IsFiled (s : Server) : Type 0 where
  pub disjoint : IsDisjoint s
  pub named : IsNamed s.drivers
  pub busy_named : IsNamed s.busy_drivers
  pub distinct : Distinct s.drivers
  pub busy_distinct : Distinct s.busy_drivers

enrol_driver-IsFiled :
    (s : Server) (msg : NewDriver)
    → IsFiled s
    → get s.busy_drivers msg.name ≡ none
    → IsFiled (enrol_driver s msg)
unfolding enrol_driver
enrol_driver-IsFiled s msg v e =
    let info : DriverInfo = record {
      name = msg.name;
      socket = msg.socket;
      id = inc s.ids_count;
      position = msg.position;
    } in
    record {
      disjoint = λ n.
          ground (
            arith,
            v.disjoint n,
            string_eq.eq_law msg.name n,
            get-insert s.drivers msg.name info n,
          );
      named = λ n d h.
          ground
            (arith, v.named n d, string_eq.eq_law msg.name n, get-insert s.drivers msg.name info n);
      busy_named = v.busy_named;
      distinct = insert-Distinct s.drivers msg.name info v.distinct;
      busy_distinct = v.busy_distinct;
    }

new_driver-IsFiled : (s : Server) (msg : NewDriver) → IsFiled s → IsFiled (new_driver s msg).0
unfolding new_driver
new_driver-IsFiled s msg v = go (get s.drivers msg.name) (get s.busy_drivers msg.name) refl refl
  where
    go :
        (o p : Option DriverInfo)
        → get s.drivers msg.name ≡ o
        → get s.busy_drivers msg.name ≡ p
        → IsFiled (new_driver s msg).0
    go (some d) p e f = rw (e, new_driver) v
    go none (some d) e f = rw (e, new_driver) (rw (f, new_driver) v)
    go none none e f = rw (e, new_driver) (rw (f, new_driver) (enrol_driver-IsFiled s msg v f))

-- An entry of one map, under its name, goes over to the other.
module _ (m w : HashMap String DriverInfo) (name : String) (d : DriverInfo)
    (disjoint : (n : String) → (get m n ≡ none) ⊎ (get w n ≡ none)) (named : IsNamed m)
    (target_named : IsNamed w) (same : d.name ≡ name) (absent : get w name ≡ none) where
  move-disjoint : (n : String) → (get (remove m name) n ≡ none) ⊎ (get (insert w name d) n ≡ none)
  move-disjoint n =
      ground
        (arith, disjoint n, string_eq.eq_law name n, get-remove m name n, get-insert w name d n)

  remove-IsNamed : IsNamed (remove m name)
  remove-IsNamed n c h = ground (arith, named n c, get-remove m name n)

  insert-IsNamed : IsNamed (insert w name d)
  insert-IsNamed n c h =
      ground (arith, target_named n c, string_eq.eq_law name n, get-insert w name d n)

swap_sides : {A B : Type 0} → A ⊎ B → B ⊎ A
swap_sides (inl a) = inr a
swap_sides (inr b) = inl b

busy_driver-IsFiled : (s : Server) (name : String) → IsFiled s → IsFiled (busy_driver s name).0
unfolding busy_driver
busy_driver-IsFiled s name v = go (get s.drivers name) refl
  where
    go : (o : Option DriverInfo) → get s.drivers name ≡ o → IsFiled (busy_driver s name).0
    go none e = rw (e, busy_driver) v
    go (some d) e =
        let same = v.named name d e in
        let absent : get s.busy_drivers name ≡ none = ground (arith, v.disjoint name) in
        rw (e, busy_driver)
          (record {
            disjoint =
                move-disjoint s.drivers s.busy_drivers name d v.disjoint v.named v.busy_named same
                  absent;
            named =
                remove-IsNamed s.drivers s.busy_drivers name d v.disjoint v.named v.busy_named same
                  absent;
            busy_named =
                insert-IsNamed s.drivers s.busy_drivers name d v.disjoint v.named v.busy_named same
                  absent;
            distinct = remove-Distinct s.drivers name v.distinct;
            busy_distinct = insert-Distinct s.busy_drivers name d v.busy_distinct;
          })

update_driver-IsFiled :
    (s : Server) (msg : UpdateDriver) → IsFiled s → IsFiled (update_driver s msg).0
unfolding update_driver
update_driver-IsFiled s msg v = go (get s.busy_drivers msg.name) refl
  where
    go : (o : Option DriverInfo) → get s.busy_drivers msg.name ≡ o → IsFiled (update_driver s msg).0
    go none e = rw (e, update_driver) v
    go (some d) e =
        let c : DriverInfo = record d { position = msg.new_position } in
        let same = v.busy_named msg.name d e in
        let absent : get s.drivers msg.name ≡ none = ground (arith, v.disjoint msg.name) in
        let other = λ (n : String). swap_sides (v.disjoint n) in
        rw (e, update_driver)
          (record {
            disjoint = λ n. swap_sides (
                move-disjoint s.busy_drivers s.drivers msg.name c other v.busy_named v.named same
                  absent n);
            named =
                insert-IsNamed s.busy_drivers s.drivers msg.name c other v.busy_named v.named same
                  absent;
            busy_named =
                remove-IsNamed s.busy_drivers s.drivers msg.name c other v.busy_named v.named same
                  absent;
            distinct = insert-Distinct s.drivers msg.name c v.distinct;
            busy_distinct = remove-Distinct s.busy_drivers msg.name v.busy_distinct;
          })

modify-IsNamed :
    (m : HashMap String DriverInfo) (name socket : String)
    → IsNamed m
    → IsNamed (modify m name (set_socket socket))
unfolding set_socket
modify-IsNamed m name socket v n c h = go (get m n) refl
  where
    go : (o : Option DriverInfo) → get m n ≡ o → c.name ≡ n
    go none e = ground (arith, get-modify m name (set_socket socket) n)
    go (some d) e = ground (arith, v n d e, get-modify m name (set_socket socket) n)

update_socket-IsFiled :
    (s : Server) (msg : UpdateDriverSocket) → IsFiled s → IsFiled (update_socket s msg).0
unfolding update_socket
update_socket-IsFiled s msg v = record {
  disjoint = λ n. ground (
    arith,
    v.disjoint n,
    get-modify s.drivers msg.name (set_socket msg.socket) n,
    get-modify s.busy_drivers msg.name (set_socket msg.socket) n,
  );
  named = modify-IsNamed s.drivers msg.name msg.socket v.named;
  busy_named = modify-IsNamed s.busy_drivers msg.name msg.socket v.busy_named;
  distinct = modify-Distinct s.drivers msg.name (set_socket msg.socket) v.distinct;
  busy_distinct = modify-Distinct s.busy_drivers msg.name (set_socket msg.socket) v.busy_distinct;
}

keep-IsFiled :
    (s t : Server) → t.drivers ≡ s.drivers → t.busy_drivers ≡ s.busy_drivers → IsFiled s → IsFiled t
keep-IsFiled s t p q v = record {
  disjoint = λ n. ground (arith, v.disjoint n);
  named = rw p v.named;
  busy_named = rw q v.busy_named;
  distinct = rw p v.distinct;
  busy_distinct = rw q v.busy_distinct;
}

-- Every request keeps the drivers filed.
pub handle-IsFiled : (s : Server) (r : Request) → IsFiled s → IsFiled (handle s r).0
unfolding handle get_drivers passenger_login reconnect_driver
handle-IsFiled s (Request.new_driver msg) v = new_driver-IsFiled s msg v
handle-IsFiled s (Request.get_drivers addr) v = v
handle-IsFiled s (Request.passenger_login msg) v =
    keep-IsFiled s (passenger_login s msg).0 (ground arith) (ground arith) v
handle-IsFiled s (Request.update_driver msg) v = update_driver-IsFiled s msg v
handle-IsFiled s (Request.busy_driver name) v = busy_driver-IsFiled s name v
handle-IsFiled s (Request.reconnect_driver msg) v =
    keep-IsFiled s (reconnect_driver s msg).0 (ground arith) (ground arith) v
handle-IsFiled s (Request.update_driver_socket msg) v = update_socket-IsFiled s msg v
