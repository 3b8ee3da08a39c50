-- ===== src/Server/Election/Ring/Round.antt =====
-- A message of the election on its way along servers that are one another's neighbours.
use mathlib.Core.List.{append-nil, append_assoc}
use concu_ride.Prelude.{
  String, Bool, ℕ, suc, ◌+◌, ◌≡◌, ◌≢◌, ◌⊎◌, inl, inr, refl, ap, sym, subst, ◌∙◌, false, List, [],
  ◌∷◌, ◌++◌, contains, length, Has, All, nat_eq, nat_beq_iff, arith,
}
use concu_ride.Common.{max_servers}
use concu_ride.Server.Election.Losses.{awaited}
use concu_ride.Server.Election.Losses.Checks.{settled, waiting}
use concu_ride.Server.Election.Handlers.{sent}
use concu_ride.Server.Election.Sends.{sends}
use concu_ride.Server.Election.Ring.Finding.{IsReady, IsLinked, election_handed_on, resend-up}
use concu_ride.Server.{ElectionMsg, NewLeaderMsg, UdpWire, Server}
use concu_ride.Server.Neighbor.{get_address}
use concu_ride.Server.Neighbor.Search.{IsServerId}
use concu_ride.Server.Election.Net.{
  Net, put, receive, deliveries, put_same, put_other, deliveries-suc,
}
use concu_ride.Server.Election.Ring.Steps.{extended, IsLed, new_leader_passes}

-- The neighbour of the server before the ids `xs`, where `last` follows them.
abbrev pub first_or : List ℕ → ℕ → ℕ
first_or [] last = last
first_or (x ∷ xs) last = x

-- Each of the ids and the id that follows it.
abbrev pub Chain : (ℕ → ℕ → Type 0) → List ℕ → ℕ → Type 0
Chain P [] last = Unit
Chain P (x ∷ xs) last = P x (first_or xs last) × Chain P xs last

abbrev pub IsDistinct : List ℕ → Type 0
IsDistinct [] = Unit
IsDistinct (x ∷ xs) = (¬ Has x xs) × IsDistinct xs

-- The deliveries that the ids take, and `k` more.
abbrev pub rounds : List ℕ → ℕ → ℕ
rounds [] k = k
rounds (x ∷ xs) k = suc (rounds xs k)

pub rounds-length : (xs : List ℕ) (k : ℕ) → rounds xs k ≡ length xs + k
rounds-length [] k = omega arith
rounds-length (x ∷ xs) k = omega (arith, rounds-length xs k)

pub Chain-map :
    (P Q : ℕ → ℕ → Type 0) (xs : List ℕ) (last : ℕ)
    → ((x m : ℕ) → Has x xs → P x m → Q x m)
    → Chain P xs last
    → Chain Q xs last
Chain-map P Q [] last f c = tt
Chain-map P Q (x ∷ xs) last f c =
    (f x (first_or xs last) (inl refl) c.0, Chain-map P Q xs last (λ y m h. f y m (inr h)) c.1)

pub absent : (xs : List ℕ) (a : ℕ) → ¬ Has a xs → contains xs a ≡ false
unfolding contains
absent [] a h = refl
absent (x ∷ xs) a h =
    let other : x ≢ a = λ e. h (inl e) in
    ground (arith, nat_beq_iff x a, absent xs a (λ k. h (inr k)))

Has-snoc : (xs : List ℕ) (a b : ℕ) → Has a (xs ++ b ∷ []) → Has a xs ⊎ (b ≡ a)
Has-snoc [] a b (inl e) = inr e
Has-snoc [] a b (inr h) = absurd h
Has-snoc (x ∷ xs) a b (inl e) = inl (inl e)
Has-snoc (x ∷ xs) a b (inr h) = elim (Has-snoc xs a b h) [ inl k ↦ inl (inr k) | inr e ↦ inr e ]

-- One message on its way to the server `n`.
abbrev pub carrying : (ℕ → Server) → ℕ → UdpWire → Net
carrying servers n message = record { servers = servers; flying = (get_address n, message) ∷ [] }

abbrev pub listing : ElectionMsg → List ℕ → ℕ → UdpWire
listing msg ids n = UdpWire.election (record {
  disconnected_leader_id = msg.disconnected_leader_id;
  server_ids = ids;
  sequence_number = n;
})

pub put_others :
    (servers : ℕ → Server) (x : ℕ) (s : Server) (xs : List ℕ) (y : ℕ)
    → ¬ Has x xs
    → Has y xs
    → put servers x s y ≡ servers y
put_others servers x s xs y h k = put_other servers x s y (λ p. h (subst (λ z. Has z xs) p k))

-- `Election` goes along the ids, each of which adds itself to the message, and leaves every other
-- server as it is.
pub pass_round :
    (up : String → Bool) (servers : ℕ → Server) (k : ℕ) (xs : List ℕ) (last : ℕ) (msg : ElectionMsg)
    → All IsServerId xs
    → IsDistinct xs
    → ((x : ℕ) → Has x xs → ¬ Has x msg.server_ids)
    → Chain (λ x m. IsReady up msg.disconnected_leader_id (servers x) x m) xs last
    → (after : ℕ → Server) × (n : ℕ) × (deliveries up
          (rounds xs k)
          (carrying servers (first_or xs last) (UdpWire.election msg))
        ≡ deliveries up k (carrying after last (listing msg (msg.server_ids ++ xs) n)))
      × Chain (λ x m. IsLinked up (servers x) (after x) x m) xs last
      × ((y : ℕ) → ¬ Has y xs → after y ≡ servers y)
unfolding receive
pass_round up servers k [] last msg i d new ready = (
  servers,
  msg.sequence_number,
  ap (λ ids. deliveries up k (carrying servers last (listing msg ids msg.sequence_number)))
      (sym (append-nil msg.server_ids)),
  tt,
  λ y h. refl,
)
pass_round up servers k (x ∷ xs) last msg i d new (r, others) =
    let s = servers x in
    let fresh : contains msg.server_ids s.id ≡ false =
      subst (λ z. contains msg.server_ids z ≡ false) (sym r.0)
        (absent msg.server_ids x (new x (inl refl))) in
    let (t, effects, v, more, handled, again, sent_on, link) =
      election_handed_on up s x (first_or xs last) msg r fresh in
    let after_x = put servers x v in
    let same : (y : ℕ) → Has y xs → after_x y ≡ servers y =
      λ y h. put_others servers x v xs y d.0 h in
    let (after, n, run, linked, rest) =
      pass_round up after_x k xs last (extended msg s) i.1 d.1
        (λ y h old. elim (Has-snoc msg.server_ids y s.id old) [
          | inl a ↦ new y (inr h) a
          | inr b ↦ d.0 (subst (λ z. Has z xs) (sym b ∙ r.0) h)
        ])
        (Chain-map _ _ xs last
          (λ y z h q. subst (λ w. IsReady up msg.disconnected_leader_id w y z) (sym (same y h)) q)
          others) in
    (
      after,
      n,
      deliveries-suc up (rounds xs k) servers x (UdpWire.election msg) t v effects more i.0 handled
            again
          ∙ ap (λ f. deliveries up (rounds xs k) (record { servers = after_x; flying = f })) sent_on
          ∙ run
          ∙ ap (λ ids. deliveries up k (carrying after last (listing msg ids n)))
              (append_assoc msg.server_ids (s.id ∷ []) xs ∙ ap (λ z. msg.server_ids ++ z ∷ xs) r.0),
      (
        subst (λ w. IsLinked up s w x (first_or xs last)) (sym (rest x d.0 ∙ put_same servers x v))
            link,
        Chain-map _ _ xs last (λ y z h q. subst (λ v. IsLinked up v (after y) y z) (same y h) q)
            linked,
      ),
      λ y h. rest y (λ g. h (inr g)) ∙ put_other servers x v y (λ p. h (inl (sym p))),
    )

-- `NewLeader` goes along the ids, each of which takes over the leader that it names, and leaves
-- every other server as it is.
pub announce_round :
    (up : String → Bool) (servers : ℕ → Server) (k : ℕ) (xs : List ℕ) (last : ℕ)
    (msg : NewLeaderMsg)
    → All IsServerId xs
    → IsDistinct xs
    → ¬ Has msg.id_sender xs
    → Chain (λ x m. IsLinked up (servers x) (servers x) x m) xs last
    → (after : ℕ → Server) × (deliveries up
          (rounds xs k)
          (carrying servers (first_or xs last) (UdpWire.new_leader msg))
        ≡ deliveries up k (carrying after last (UdpWire.new_leader msg)))
      × Chain (λ x m. IsLed msg.leader_id (servers x) (after x)) xs last
      × ((y : ℕ) → ¬ Has y xs → after y ≡ servers y)
unfolding receive awaited sent
announce_round up servers k [] last msg i d away linked = (servers, refl, tt, λ y h. refl)
announce_round up servers k (x ∷ xs) last msg i d away
      ((e, (u, sender), near, apart, b, w, up_m), others) =
    let s = servers x in
    let m = first_or xs last in
    let (t, effects, handled, sent_on, awaits, led) =
      new_leader_passes s msg u sender
        (subst (λ n. contains s.disconnected_servers n ≡ false) (sym near) apart)
        (λ p. away (inl (sym (p ∙ e)))) in
    let sent_near : sends effects ≡ (get_address m, UdpWire.new_leader msg) ∷ [] =
      sent_on ∙ ap (λ n. (get_address n, UdpWire.new_leader msg) ∷ []) near in
    let forwarded = waiting s (UdpWire.new_leader msg) msg.sequence_number in
    let v = settled t forwarded in
    let after_x = put servers x v in
    let same : (y : ℕ) → Has y xs → after_x y ≡ servers y =
      λ y h. put_others servers x v xs y d.0 h in
    let (after, run, all_led, rest) =
      announce_round up after_x k xs last msg i.1 d.1 (λ h. away (inr h))
        (Chain-map _ _ xs last (λ y z h r. subst (λ v. IsLinked up v v y z) (sym (same y h)) r)
          others) in
    (
      after,
      deliveries-suc up (rounds xs k) servers x (UdpWire.new_leader msg) t v effects effects i.0
            handled
            (resend-up up max_servers t effects (get_address m) (UdpWire.new_leader msg) forwarded
              sent_near awaits up_m)
          ∙ ap (λ f. deliveries up (rounds xs k) (record { servers = after_x; flying = f }))
              sent_near
          ∙ run,
      (
        subst (λ v. IsLed msg.leader_id s v) (sym (rest x d.0 ∙ put_same servers x v)) led,
        Chain-map _ _ xs last (λ y z h r. subst (λ v. IsLed msg.leader_id v (after y)) (same y h) r)
            all_led,
      ),
      λ y h. rest y (λ g. h (inr g)) ∙ put_other servers x v y (λ p. h (inl (sym p))),
    )
