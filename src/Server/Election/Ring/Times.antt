-- ===== src/Server/Election/Ring/Times.antt =====
-- The two times that a message of an election goes round the ring.
use concu_ride.Prelude.{
  String, Bool, Option, ℕ, suc, ◌≡◌, inl, inr, refl, ap, ap₂, sym, subst, ◌∙◌, false, some, List,
  [], ◌∷◌, ◌++◌, contains, contains-snoc, Has, All, nat_eq, nat_beq_iff, arith,
}
use concu_ride.Common.{max_servers}
use concu_ride.Server.Election.Sends.{sends}
use concu_ride.Server.Election.Losses.Checks.{settled, waiting, resend-reached}
use concu_ride.Server.Election.Ring.Led.{IsLed-before, All-IsLed}
use concu_ride.Server.Election.Ring.Finding.{IsReady, IsLinked, resend-Tries, resend-quiet}
use concu_ride.Server.{ElectionMsg, NewLeaderMsg, UdpWire, Server}
use concu_ride.Server.Neighbor.Search.{IsServerId}
use concu_ride.Server.Election.{start_election, max_id_from}
use concu_ride.Server.Election.Handlers.{sent}
use concu_ride.Server.Election.Net.{
  Net, put, receive, settle, settle-some, and_then, deliveries, put_same, put_other, deliveries-suc,
}
use concu_ride.Server.Election.Ring.Steps.{
  Next-up, passed, election_finishes, announcement, IsLed, new_leader_stops, started, first_message,
  start_election_starts,
}
use concu_ride.Server.Election.Ring.Round.{
  first_or, Chain, IsDistinct, rounds, Chain-map, carrying, listing, put_others, pass_round,
  announce_round,
}

-- The network once the server `i` has started an election.
abbrev pub start : (String → Bool) → (ℕ → Server) → ℕ → Option Net
start up servers i = settle up servers i [] (some (start_election (servers i)))

module _ (up : String → Bool) (servers : ℕ → Server) (i : ℕ) (ids : List ℕ)
    (valid : All IsServerId (i ∷ ids)) (distinct : IsDistinct (i ∷ ids))
    (ready : Chain (λ x m. IsReady up (servers i).id_leader (servers x) x m) (i ∷ ids) i) where
  abbrev next : ℕ
  next = first_or ids i

  -- The server `i` has found its neighbour, and will find it again.
  abbrev pub HasBegun : Server → Type 0
  HasBegun s =
      IsLinked up (servers i) s i next
      × (contains (s.disconnected_servers ++ (servers i).id_leader ∷ []) next ≡ false)

  begins :
      (s : Server) × (settle up servers i [] (some (start_election (servers i)))
        ≡ some (
            carrying
              (put servers i s)
              next
              (listing (first_message (servers i)) (i ∷ []) (servers i).sequence_number)))
      × HasBegun s
  unfolding sends sent
  begins =
      let ((e, (u, sender), missing, (first, finds, j, few, tries)), others) = ready in
      let s = servers i in
      let t = started s first in
      let message = UdpWire.election (first_message s) in
      let (v, again, (same_id, same, same_im, near, up_m, apart, before)) =
        resend-Tries up j max_servers t u message s.sequence_number next sender missing
          (Next-up t.disconnected_servers s.id s.actual_neighbor_id first finds) tries few in
      (
        v,
        settle-some up servers i _ t v (sent t u message s.sequence_number)
              (sent v u message s.sequence_number)
              (ap some (start_election_starts s u first sender finds)) again
            ∙ ap₂
                (λ n z. some (
                  carrying (put servers i v) n
                    (listing (first_message s) (z ∷ []) s.sequence_number)))
                near e,
        (
          (same_id ∙ e, (u, ap (λ l. l.0) same ∙ sender), near, apart, same_im, same, up_m),
          ground (
            arith,
            contains-snoc s.disconnected_servers next s.id_leader,
            contains-snoc v.disconnected_servers next s.id_leader,
          ),
        ),
      )

  -- The first time round: the message comes back to `i` with all the ids.
  pub first_time :
      (k : ℕ)
      → (after : ℕ → Server) × (n : ℕ) × (and_then
            (start up servers i)
            (deliveries up (rounds ids k))
          ≡ deliveries up k (carrying after i (listing (first_message (servers i)) (i ∷ ids) n)))
        × HasBegun (after i)
        × Chain (λ x m. IsLinked up (servers x) (after x) x m) ids i
        × ((y : ℕ) → ¬ Has y (i ∷ ids) → after y ≡ servers y)
  unfolding and_then
  first_time k =
      let ((e, sender, missing, finds), others) = ready in
      let s = servers i in
      let (begun, starts, has_begun) = begins in
      let put_i = put servers i begun in
      let same : (y : ℕ) → Has y ids → put_i y ≡ servers y =
        λ y h. put_others servers i begun ids y distinct.0 h in
      let message : ElectionMsg = record (first_message s) { server_ids = i ∷ [] } in
      let (after, n, run, linked, rest) =
        pass_round up put_i k ids i message valid.1 distinct.1
          (λ y h old. elim old [
            | inl a ↦ distinct.0 (subst (λ z. Has z ids) (sym a) h)
            | inr b ↦ absurd b
          ])
          (Chain-map _ _ ids i
            (λ y z h r. subst (λ v. IsReady up s.id_leader v y z) (sym (same y h)) r) others) in
      (
        after,
        n,
        ap (λ r. and_then r (deliveries up (rounds ids k))) starts ∙ run,
        subst HasBegun (sym (rest i distinct.0 ∙ put_same servers i begun)) has_begun,
        Chain-map _ _ ids i (λ y z h r. subst (λ v. IsLinked up v (after y) y z) (same y h) r)
            linked,
        λ y h. rest y (λ g. h (inr g)) ∙ put_other servers i begun y (λ p. h (inl (sym p))),
      )

  -- The second time round: `i` names the leader, and all the ids take it over.
  module _ (now : ℕ → Server) (n : ℕ) (begun : HasBegun (now i))
      (linked : Chain (λ x m. IsLinked up (servers x) (now x) x m) ids i) where
    abbrev returned : ElectionMsg
    returned = record {
      disconnected_leader_id = (servers i).id_leader;
      server_ids = i ∷ ids;
      sequence_number = n;
    }

    abbrev decided : Server
    decided = record (passed (now i) returned next) { id_leader = max_id_from 0 (i ∷ ids) }

    abbrev news : NewLeaderMsg
    news = announcement (now i) returned

    -- The server `i` once the ACK of its message has come.
    abbrev confirmed : Server
    confirmed = settled decided (waiting decided (UdpWire.new_leader news) (now i).sequence_number)

    decides :
        (j : ℕ)
        → deliveries up (suc j) (carrying now i (UdpWire.election returned))
          ≡ deliveries up j (carrying (put now i confirmed) next (UdpWire.new_leader news))
    unfolding sends sent receive contains
    decides j =
        let ((e, (u, sender), near, apart, b, w, up_m), free) = begun in
        let k = (now i).sequence_number in
        deliveries-suc up j now i (UdpWire.election returned) decided confirmed
          (sent decided u (UdpWire.new_leader news) k) (sent decided u (UdpWire.new_leader news) k)
          valid.0
          (election_finishes (now i) returned u next sender
            (inl (
              subst
                  (λ m.
                    contains ((now i).disconnected_servers ++ (servers i).id_leader ∷ []) m ≡ false)
                  (sym near) free,
              near,
            ))
            (ground (arith, nat_beq_iff i (now i).id, e)))
          (resend-reached up max_servers decided u (UdpWire.new_leader news) k up_m)

    pub second_time :
        (after : ℕ → Server) × (deliveries up
            (suc (rounds ids 1))
            (carrying now i (UdpWire.election returned))
          ≡ some (record { servers = after; flying = [] }))
        × All (λ x. IsLed (max_id_from 0 (i ∷ ids)) (servers x) (after x)) (i ∷ ids)
        × ((y : ℕ) → ¬ Has y (i ∷ ids) → after y ≡ now y)
    unfolding receive deliveries
    second_time =
        let ((e, sender, missing, finds), others) = ready in
        let leader_id = max_id_from 0 (i ∷ ids) in
        let put_i = put now i confirmed in
        let same : (y : ℕ) → Has y ids → put_i y ≡ now y =
          λ y h. put_others now i confirmed ids y distinct.0 h in
        let (after, run, led, rest) =
          announce_round up put_i 1 ids i news valid.1 distinct.1
            (λ h. distinct.0 (subst (λ z. Has z ids) begun.0.0 h))
            (Chain-map (λ x m. IsLinked up (servers x) (now x) x m) _ ids i
              (λ y z h r.
                subst (λ v. IsLinked up v v y z) (sym (same y h))
                  (r.0, r.1, r.2, r.3, refl, refl, r.6))
              linked) in
        let after_i : after i ≡ confirmed = rest i distinct.0 ∙ put_same now i confirmed in
        let (t, effects, handled, quiet, silent, led_i) = new_leader_stops confirmed news refl in
        (
          put after i t,
          decides (rounds ids 1)
              ∙ run
              ∙ deliveries-suc up 0 after i (UdpWire.new_leader news) t t effects effects valid.0
                  (ap (λ v. receive v (UdpWire.new_leader news)) after_i ∙ handled)
                  (resend-quiet up max_servers t effects silent)
              ∙ ap (λ f. some (record { servers = put after i t; flying = f })) quiet,
          (
            subst (λ v. IsLed leader_id (servers i) v) (sym (put_same after i t))
                (IsLed-before leader_id i (servers i) confirmed t e begun.0.0 begun.0.4 begun.0.5
                  led_i),
            All-IsLed up servers now after i (servers i).id_leader leader_id i t ids distinct.0
                others linked
                (Chain-map _ _ ids i
                  (λ y z h r. subst (λ v. IsLed leader_id v (after y)) (same y h) r) led),
          ),
          λ y h.
              put_other after i t y (λ p. h (inl (sym p)))
              ∙ rest y (λ g. h (inr g))
              ∙ put_other now i confirmed y (λ p. h (inl (sym p))),
        )
