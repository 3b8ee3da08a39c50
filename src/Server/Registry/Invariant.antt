-- ===== src/Server/Registry/Invariant.antt =====
-- What holds of the registry between two requests, and after any sequence of them.
use concu_ride.Prelude.{
  ℕ, ◌+◌, ◌≤◌, ◌<◌, ◌≡◌, refl, ap, ◌∙◌, sym, subst, some, List, [], ◌∷◌, length, arith, u64_mod,
  inc_lem,
}
use concu_ride.Server.{Server}
use concu_ride.Server.Registry.Directory.{
  Member, driver, passenger, Directory, IsUnique, enrol-IsUnique, same_member_iff,
}
use concu_ride.Server.Registry.Requests.{
  Request, handle, run, directory, id_in, spec_step, spec_run,
}
use concu_ride.Server.Registry.Refinement.{directory-handle}
use concu_ride.Server.Registry.Filing.{IsFiled, handle-IsFiled}

pub record IsValid (s : Server) : Type 0 where
  pub filed : IsFiled s
  pub unique : IsUnique (directory s)

spec_step-IsUnique :
    (d : Directory) (r : Request) → d.count + 1 < u64_mod → IsUnique d → IsUnique (spec_step d r)
spec_step-IsUnique d (Request.new_driver msg) room u = enrol-IsUnique d (driver msg.name) room u
spec_step-IsUnique d (Request.passenger_login msg) room u =
    enrol-IsUnique d (passenger msg.name) room u
spec_step-IsUnique d (Request.get_drivers addr) room u = u
spec_step-IsUnique d (Request.update_driver msg) room u = u
spec_step-IsUnique d (Request.busy_driver name) room u = u
spec_step-IsUnique d (Request.reconnect_driver msg) room u = u
spec_step-IsUnique d (Request.update_driver_socket msg) room u = u

-- Every request keeps the registry valid, while the counter of ids has room: no driver is both
-- available and busy, entries stand under their own names and once, and ids are unique and at
-- most the counter.
handle-IsValid :
    (s : Server) (r : Request) → s.ids_count + 1 < u64_mod → IsValid s → IsValid (handle s r).0
handle-IsValid s r room v = record {
  filed = handle-IsFiled s r v.filed;
  unique =
      subst IsUnique (sym (directory-handle s r v.filed.disjoint))
        (spec_step-IsUnique (directory s) r room v.unique);
}

-- One request gives one id at most.
spec_step-count :
    (d : Directory) (r : Request) → d.count + 1 < u64_mod → (spec_step d r).count ≤ d.count + 1
spec_step-count d (Request.new_driver msg) room = ground (arith, inc_lem d.count room)
spec_step-count d (Request.passenger_login msg) room = ground (arith, inc_lem d.count room)
spec_step-count d (Request.get_drivers addr) room = omega arith
spec_step-count d (Request.update_driver msg) room = omega arith
spec_step-count d (Request.busy_driver name) room = omega arith
spec_step-count d (Request.reconnect_driver msg) room = omega arith
spec_step-count d (Request.update_driver_socket msg) room = omega arith

ids_count-handle-le :
    (s : Server) (r : Request)
    → s.ids_count + 1 < u64_mod
    → IsValid s
    → (handle s r).0.ids_count ≤ s.ids_count + 1
ids_count-handle-le s r room v =
    subst (λ (d : Directory). d.count ≤ s.ids_count + 1)
      (sym (directory-handle s r v.filed.disjoint)) (spec_step-count (directory s) r room)

-- From a valid registry any sequence of requests that leaves the counter of ids below 2 ^ 64 keeps
-- the registry valid, and is a run of the directory.
pub run-refines :
    (s : Server) (rs : List Request)
    → s.ids_count + length rs < u64_mod
    → IsValid s
    → IsValid (run s rs) × (directory (run s rs) ≡ spec_run (directory s) rs)
unfolding run
run-refines s [] room v = (v, refl)
run-refines s (r ∷ rs) room v =
    let one : s.ids_count + 1 < u64_mod = omega arith in
    let (ok, path) =
      run-refines (handle s r).0 rs (omega (arith, ids_count-handle-le s r one v))
        (handle-IsValid s r one v) in
    (ok, path ∙ ap (λ d. spec_run d rs) (directory-handle s r v.filed.disjoint))

spec_step-keeps :
    (d : Directory) (r : Request) (m : Member) (i : ℕ)
    → d.id_of m ≡ some i
    → (spec_step d r).id_of m ≡ some i
spec_step-keeps d (Request.new_driver msg) m i h =
    ground (arith, same_member_iff (driver msg.name) m)
spec_step-keeps d (Request.passenger_login msg) m i h =
    ground (arith, same_member_iff (passenger msg.name) m)
spec_step-keeps d (Request.get_drivers addr) m i h = h
spec_step-keeps d (Request.update_driver msg) m i h = h
spec_step-keeps d (Request.busy_driver name) m i h = h
spec_step-keeps d (Request.reconnect_driver msg) m i h = h
spec_step-keeps d (Request.update_driver_socket msg) m i h = h

spec_run-keeps :
    (d : Directory) (rs : List Request) (m : Member) (i : ℕ)
    → d.id_of m ≡ some i
    → (spec_run d rs).id_of m ≡ some i
spec_run-keeps d [] m i h = h
spec_run-keeps d (r ∷ rs) m i h = spec_run-keeps (spec_step d r) rs m i (spec_step-keeps d r m i h)

-- From a valid registry a driver or passenger keeps the id once given through any sequence of
-- requests that leaves the counter of ids below 2 ^ 64.
pub id_in-run :
    (s : Server) (rs : List Request) (m : Member) (i : ℕ)
    → s.ids_count + length rs < u64_mod
    → IsValid s
    → id_in s m ≡ some i
    → id_in (run s rs) m ≡ some i
id_in-run s rs m i room v h =
    subst (λ (d : Directory). d.id_of m ≡ some i) (sym (run-refines s rs room v).1)
      (spec_run-keeps (directory s) rs m i h)
