-- ===== src/Wire/Reports/Follows.antt =====
-- The server follows a driver: what it shows of it is what the driver has reported.
use concu_ride.Prelude.{
  ◌≡◌, inl, inr, refl, sym, subst, ◌∙◌, String, Bool, true, false, some, List, [], ◌∷◌, map, All,
  All-append, kept, kept-All,
}
use concu_ride.Driver.{
  Addr, Driver, ServerMsg, new_driver, busy_driver, available_driver, reconnect_driver, end_ride,
  reconnect, start_ride, pick_up_passenger, ride_to_destination,
}
use concu_ride.Driver.Mailbox.{Msg, process, outside, own, State, after, sent, handle}
use concu_ride.Driver.Mailbox as Mailbox
use concu_ride.Driver.Mailbox.Invariant.{IsSound, Step-Goes}
use concu_ride.Server.{Server}
use concu_ride.Server.Registry.Requests.{Request, run}
use concu_ride.Server.Registry.Requests as Requests
use concu_ride.Server.Registry.Showing.{
  Foreign, Shows, busy_driver-Shows, update_driver-Shows, foreign-Shows,
}
use concu_ride.Wire.ToServer.{driver_request}
use concu_ride.Wire.Reports.{
  reports, World, reported, Step, handles, arrives, reads, others, Steps, here, next,
}
use concu_ride.Wire.Reports.Plain.{Plain, Alternates, Alternates-append, Timely, handle-Reported}

module _ (name : String) where
  -- The server reads the driver's next report.
  read-Shows :
      (a b : Bool) (msg : ServerMsg) (line : List ServerMsg) (s : Server)
      → Shows name s a
      → Alternates name a (msg ∷ line) b
      → (c : Bool) × Shows name (Requests.handle s (driver_request msg)).0 c
        × Alternates name c line b
  unfolding Requests.handle
  read-Shows a b (busy_driver n) line s shows (h, k, rest) = (
    false,
    subst (λ m. Shows name (Requests.handle s (Request.busy_driver m)).0 false) (sym k)
        (busy_driver-Shows name s (subst (Shows name s) h shows)),
    rest,
  )
  read-Shows a b (available_driver n position) line s shows (h, k, rest) = (
    true,
    subst
        (λ m.
          Shows name
            (Requests.handle s
              (Request.update_driver (record { new_position = position; name = m }))).0
            true)
        (sym k) (update_driver-Shows name s position (subst (Shows name s) h shows)),
    rest,
  )
  read-Shows a b (new_driver _ _ _) line s shows h = absurd h
  read-Shows a b (reconnect_driver _ _ _) line s shows h = absurd h

  -- When it has read them all, it shows what they end with.
  read_all-Shows :
      (a b : Bool) (line : List ServerMsg) (s : Server)
      → Shows name s a
      → Alternates name a line b
      → Shows name (run s (map driver_request line)) b
  unfolding run
  read_all-Shows a b [] s shows h = subst (Shows name s) h shows
  read_all-Shows a b (msg ∷ line) s shows h =
      let (c, later, rest) = read-Shows a b msg line s shows h in
      read_all-Shows c b line (Requests.handle s (driver_request msg)).0 later rest

  -- The driver has its name, its connection and plain messages only, and what is on its way to
  -- the server makes up the difference between the two.
  record IsFollowed (receiver : Addr) (w : World) : Type 0 where
    sound : IsSound w.actor
    named : w.actor.driver.name ≡ name
    up : w.actor.driver.server_receiver ≡ some receiver
    plain : All Plain w.actor.mailbox
    shown : Bool
    shows : Shows name w.server shown
    reported : Alternates name shown w.line w.actor.driver.is_available

sound-Timely :
    (d : Driver) (msg : Msg) (rest : List Msg)
    → IsSound (record { driver = d; mailbox = msg ∷ rest })
    → Timely d msg
sound-Timely d (own (end_ride dst)) rest (inl (free, inl s)) = absurd s
sound-Timely d (own (end_ride dst)) rest (inl (free, inr q)) = absurd q.0
sound-Timely d (own (end_ride dst)) rest (inr (busy, one)) = busy
sound-Timely d (own start_ride) rest s = tt
sound-Timely d (own pick_up_passenger) rest s = tt
sound-Timely d (own ride_to_destination) rest s = tt
sound-Timely d (own (reconnect _)) rest s = tt
sound-Timely d (outside _) rest s = tt
sound-Timely d (process _) rest s = tt

module _ (name : String) (receiver : Addr) where
  Step-IsFollowed :
      (w v : World) → Step w v → IsFollowed name receiver w → IsFollowed name receiver v
  unfolding reported after
  Step-IsFollowed w v (handles d msg rest leader room line server) f =
      let r = handle d msg (record { connected = true; leader = leader }) in
      let (up, same, plain, told) =
        handle-Reported d receiver f.up msg leader f.plain.0 (sound-Timely d msg rest f.sound) in
      record {
        sound =
            (Step-Goes w.actor v.actor
              (Mailbox.handles d msg rest (record { connected = true; leader = leader }) room)
              f.sound).0;
        named = same ∙ f.named;
        up = up;
        plain =
            All-append Plain rest (kept room (sent r.1)) f.plain.1
              (kept-All Plain room (sent r.1) plain);
        shown = f.shown;
        shows = f.shows;
        reported =
            Alternates-append name f.shown d.is_available r.0.is_available line (reports r.1)
              f.reported
              (subst (λ n. Alternates n d.is_available (reports r.1) r.0.is_available) f.named
                told);
      }
  Step-IsFollowed w v (arrives d mailbox msg line server) f = record {
    sound = (Step-Goes w.actor v.actor (Mailbox.arrives d mailbox msg) f.sound).0;
    named = f.named;
    up = f.up;
    plain = All-append Plain mailbox (outside msg ∷ []) f.plain (tt, tt);
    shown = f.shown;
    shows = f.shows;
    reported = f.reported;
  }
  Step-IsFollowed w v (reads actor msg line server) f =
      let (shown, shows, rest) =
        read-Shows name f.shown actor.driver.is_available msg line server f.shows f.reported in
      record {
        sound = f.sound;
        named = f.named;
        up = f.up;
        plain = f.plain;
        shown = shown;
        shows = shows;
        reported = rest;
      }
  Step-IsFollowed w v (others actor line server request foreign) f = record {
    sound = f.sound;
    named = f.named;
    up = f.up;
    plain = f.plain;
    shown = f.shown;
    shows =
        foreign-Shows name server f.shown request (subst (λ n. Foreign n request) f.named foreign)
          f.shows;
    reported = f.reported;
  }

  Steps-IsFollowed :
      (w v : World) → Steps w v → IsFollowed name receiver w → IsFollowed name receiver v
  Steps-IsFollowed w v here f = f
  Steps-IsFollowed w v (next {u = u} steps step) f =
      Step-IsFollowed u v step (Steps-IsFollowed w u steps f)

-- From a driver that waits, available and connected to the server, which shows it as available:
-- whatever passengers send the driver and others ask the server, in any order, when the server has
-- read what is on its way to it, it shows the driver as available exactly if it is, and as busy
-- exactly if it is.
pub server_follows :
    (d : Driver) (receiver : Addr) (s : Server) (v : World)
    → d.is_available ≡ true
    → d.server_receiver ≡ some receiver
    → Shows d.name s true
    → Steps (record { actor = record { driver = d; mailbox = [] }; line = []; server = s }) v
    → Shows d.name (run v.server (map driver_request v.line)) v.actor.driver.is_available
server_follows d receiver s v free up shows steps =
    let w : World = record { actor = record { driver = d; mailbox = [] }; line = []; server = s } in
    let f = Steps-IsFollowed d.name receiver w v steps (record {
      sound = inl (free, inr tt);
      named = refl;
      up = up;
      plain = tt;
      shown = true;
      shows = shows;
      reported = sym free;
    }) in
    read_all-Shows d.name f.shown v.actor.driver.is_available v.line v.server f.shows f.reported
