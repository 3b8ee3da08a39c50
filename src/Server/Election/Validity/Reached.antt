-- ===== src/Server/Election/Validity/Reached.antt =====
-- What holds in every world that the servers can reach.
use concu_ride.Prelude.{
  ℕ, ◌≡◌, ◌⊎◌, inl, inr, refl, sym, subst, ◌∙◌, ◌<◌, String, Option, some, List, [], ◌∷◌, Has, All,
  All-Has, All-map, All-append,
}
use concu_ride.Server.{
  UdpWire, SelfMsg, Server, Effect, to_self, to_client, to_leader_ping, to_udp, start_listener,
  wait_for_neighbor_ack, check_if_neighbor_acked, new_leader_msg, update_driver_socket, pong_to,
  connect_to_server,
}
use concu_ride.Server.Neighbor.Search.{IsServerId}
use concu_ride.Server.Election.Net.{put, put-holds, receiver, receive}
use concu_ride.Server.Election.Sends.{sends}
use concu_ride.Server.Election.Validity.{
  ValidMsg, ValidSelf, ValidEffect, Keeps, KeepsIf, start_election-Keeps, wait_for_ack-Keeps,
  check_ack-Keeps, election-Keeps,
}
use concu_ride.Server.Election.Validity.Announcing.{new_leader-Keeps}
use concu_ride.Server.Election.Validity.Schedules.{
  World, tells, after, Step, starts, receives, waits, checks, announces, otherwise, Reach, here,
  next, Active, IsSound,
}

module _ (P Q : ℕ → Type 0) (mono : (i : ℕ) → P i → Q i) where
  ValidMsg-mono : (m : UdpWire) → ValidMsg P m → ValidMsg Q m
  ValidMsg-mono (UdpWire.election msg) v = All-map P Q msg.server_ids mono v
  ValidMsg-mono (UdpWire.new_leader msg) v = mono msg.leader_id v

  ValidSelf-mono : (m : SelfMsg) → ValidSelf P m → ValidSelf Q m
  ValidSelf-mono (new_leader_msg msg) v = mono msg.leader_id v
  ValidSelf-mono (wait_for_neighbor_ack msg) v = ValidMsg-mono msg.serialized_msg v
  ValidSelf-mono (check_if_neighbor_acked msg) v = ValidMsg-mono msg.serialized_msg v
  ValidSelf-mono (update_driver_socket msg) v = tt
  ValidSelf-mono (pong_to addr) v = tt
  ValidSelf-mono SelfMsg.start_election v = tt
  ValidSelf-mono connect_to_server v = tt

module _ (P : ℕ → Type 0) where
  sends-Valid :
      (effects : List Effect)
      → All (ValidEffect P) effects
      → All (λ (m : String × UdpWire). ValidMsg P m.1) (sends effects)
  unfolding sends
  sends-Valid [] v = tt
  sends-Valid (to_udp u message dst ∷ effects) v = (v.0, sends-Valid effects v.1)
  sends-Valid (to_self _ ∷ effects) v = sends-Valid effects v.1
  sends-Valid (to_client _ _ ∷ effects) v = sends-Valid effects v.1
  sends-Valid (to_leader_ping _ ∷ effects) v = sends-Valid effects v.1
  sends-Valid (start_listener _ ∷ effects) v = sends-Valid effects v.1

  tells-Valid :
      (n : ℕ) (effects : List Effect)
      → All (ValidEffect P) effects
      → All (λ (m : ℕ × SelfMsg). ValidSelf P m.1) (tells n effects)
  unfolding tells
  tells-Valid n [] v = tt
  tells-Valid n (to_self msg ∷ effects) v = (v.0, tells-Valid n effects v.1)
  tells-Valid n (to_udp _ _ _ ∷ effects) v = tells-Valid n effects v.1
  tells-Valid n (to_client _ _ ∷ effects) v = tells-Valid n effects v.1
  tells-Valid n (to_leader_ping _ ∷ effects) v = tells-Valid n effects v.1
  tells-Valid n (start_listener _ ∷ effects) v = tells-Valid n effects v.1

module _ (before : ℕ → Server) (w : World) (sound : IsSound before w) (n : ℕ) where
  abbrev Now : ℕ → Type 0
  Now = Active (n ∷ w.active)

  longer : (i : ℕ) → Has i w.active → Now i
  longer i h = inr h

  own : Now (w.servers n).id
  own = inl (sym (sound.ids n))

  Led : ℕ → Server → Type 0
  Led m s = (s.id_leader ≡ (before m).id_leader) ⊎ Now s.id_leader

  still-Led : (m : ℕ) → Led m (w.servers m)
  unfolding Led
  still-Led m = elim (sound.led m) [ inl old ↦ inl old | inr new ↦ inr (inr new) ]

  Led-after : (s : Server) → (s.id_leader ≡ (w.servers n).id_leader) ⊎ Now s.id_leader → Led n s
  unfolding Led
  Led-after s (inr new) = inr new
  Led-after s (inl same) = elim (still-Led n) [
    | inl old ↦ inl (same ∙ old)
    | inr new ↦ inr (subst Now (sym same) new)
  ]

  after-IsSound :
      (r : Server × List Effect) → Keeps Now (w.servers n) r → IsSound before (after w n r)
  unfolding after Led
  after-IsSound (s, effects) (same, led, valid) = record {
    ids = put-holds (λ m v. v.id ≡ m) w.servers n s (same ∙ sound.ids n) sound.ids;
    led = put-holds Led w.servers n s (Led-after s led) still-Led;
    flying =
        All-append (λ (m : String × UdpWire). ValidMsg Now m.1) (sends effects) w.flying
          (sends-Valid Now effects valid)
          (All-map _ _ w.flying (λ m v. ValidMsg-mono (Active w.active) Now longer m.1 v)
            sound.flying);
    told =
        All-append (λ (m : ℕ × SelfMsg). ValidSelf Now m.1) (tells n effects) w.told
          (tells-Valid Now n effects valid)
          (All-map _ _ w.told (λ m v. ValidSelf-mono (Active w.active) Now longer m.1 v)
            sound.told);
  }

  -- Of a handler that may panic: only its result counts.
  from_result :
      (o : Option (Server × List Effect)) (r : Server × List Effect)
      → KeepsIf Now (w.servers n) o
      → o ≡ some r
      → Keeps Now (w.servers n) r
  from_result o r k e = subst (KeepsIf Now (w.servers n)) e k

  positive : IsServerId n → 0 < (w.servers n).id
  positive i = rw (sound.ids n) i.0

  received :
      (message : UdpWire)
      → IsServerId n
      → ValidMsg (Active w.active) message
      → KeepsIf Now (w.servers n) (receive (w.servers n) message)
  unfolding receive
  received (UdpWire.election msg) i v =
      election-Keeps Now (w.servers n) msg own (positive i)
        (ValidMsg-mono (Active w.active) Now longer (UdpWire.election msg) v)
  received (UdpWire.new_leader msg) i v =
      new_leader-Keeps Now (w.servers n) msg own (longer msg.leader_id v)

  same-IsSound :
      (s : Server)
      → s.id ≡ (w.servers n).id
      → s.id_leader ≡ (w.servers n).id_leader
      → IsSound before (record w { servers = put w.servers n s })
  same-IsSound s same led = record {
    ids = put-holds (λ m v. v.id ≡ m) w.servers n s (same ∙ sound.ids n) sound.ids;
    led =
        put-holds (λ m v. (v.id_leader ≡ (before m).id_leader) ⊎ Has v.id_leader w.active) w.servers
          n s (subst (λ l. (l ≡ (before n).id_leader) ⊎ Has l w.active) (sym led) (sound.led n))
          sound.led;
    flying = sound.flying;
    told = sound.told;
  }

told_to :
    (before : ℕ → Server) (w : World)
    → IsSound before w
    → (n : ℕ) (msg : SelfMsg) → Has (n, msg) w.told
    → ValidSelf (Active (n ∷ w.active)) msg
told_to before w sound n msg h =
    ValidSelf-mono (Active w.active) (Active (n ∷ w.active)) (λ i k. inr k) msg
      (All-Has (λ (m : ℕ × SelfMsg). ValidSelf (Active w.active) m.1) (n, msg) w.told sound.told h)

Step-IsSound : (before : ℕ → Server) (w v : World) → Step w v → IsSound before w → IsSound before v
Step-IsSound before w _ (starts n i) sound =
    after-IsSound before w sound n _
      (start_election-Keeps (Now before w sound n) (w.servers n) (own before w sound n))
Step-IsSound before w _ (receives addr message r h i e) sound =
    let n = receiver addr in
    let valid =
      All-Has (λ (m : String × UdpWire). ValidMsg (Active w.active) m.1) (addr, message) w.flying
        sound.flying h in
    after-IsSound before w sound n r
      (from_result before w sound n _ r (received before w sound n message i valid) e)
Step-IsSound before w _ (waits n msg h i) sound = after-IsSound before w sound n _ (
    wait_for_ack-Keeps (Now before w sound n) (w.servers n) msg
      (told_to before w sound n (wait_for_neighbor_ack msg) h))
Step-IsSound before w _ (checks n msg h i) sound = after-IsSound before w sound n _ (
    check_ack-Keeps (Now before w sound n) (w.servers n) msg (own before w sound n)
      (told_to before w sound n (check_if_neighbor_acked msg) h))
Step-IsSound before w _ (announces n msg r h i e) sound = after-IsSound before w sound n r (
    from_result before w sound n _ r
      (new_leader-Keeps (Now before w sound n) (w.servers n) msg (own before w sound n)
        (told_to before w sound n (new_leader_msg msg) h))
      e)
Step-IsSound before w _ (otherwise n s same led) sound = same-IsSound before w sound n s same led

-- The servers, each under its id, with no message on its way.
abbrev pub at_rest : (ℕ → Server) → World
at_rest servers = record { servers = servers; flying = []; told = []; active = [] }

Reach-IsSound :
    (before : ℕ → Server) (v : World)
    → ((n : ℕ) → (before n).id ≡ n)
    → Reach (at_rest before) v
    → IsSound before v
Reach-IsSound before _ ids here = record { ids = ids; led = λ n. inl refl; flying = tt; told = tt }
Reach-IsSound before _ ids (next {v} {u} r s) =
    Step-IsSound before v u s (Reach-IsSound before v ids r)

-- Whatever elections the servers run, at the same time or not, with any messages lost, doubled or
-- overtaken: a server's leader is always the one it had before, or a server that has run a handler
-- of the election; and so are the ids that any message on its way names.
pub leader_was_active :
    (before : ℕ → Server) (v : World)
    → ((n : ℕ) → (before n).id ≡ n)
    → Reach (at_rest before) v
    → ((n : ℕ)
        → ((v.servers n).id_leader ≡ (before n).id_leader) ⊎ Has (v.servers n).id_leader v.active)
      × All (λ m. ValidMsg (λ i. Has i v.active) m.1) v.flying
leader_was_active before v ids r =
    let sound = Reach-IsSound before v ids r in (sound.led, sound.flying)
