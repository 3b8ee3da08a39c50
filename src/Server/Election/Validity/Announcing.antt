-- ===== src/Server/Election/Validity/Announcing.antt =====
-- What `NewLeader` passes on of the leader that it names, part by part.
use concu_ride.Prelude.{
  ℕ, ◌≡◌, ◌⊎◌, inl, inr, refl, subst, ◌∙◌, not, ◌&&◌, Option, List, ◌++◌, All, All-append, ◌==◌,
  nat_eq, Bool-cases, Option-cases,
}
use concu_ride.Server.{NewLeaderMsg, Server, Effect}
use concu_ride.Server.Election.{new_leader, become_leader, pass_new_leader, seek_leader}
use concu_ride.Server.Election.Validity.{update, ValidEffect, KeepsIf, forwarded}

module _ (P : ℕ → Type 0) where
  pass_new_leader-Keeps :
      (s : Server) (msg : NewLeaderMsg)
      → P s.id
      → P msg.leader_id
      → KeepsIf P s (pass_new_leader s msg)
  unfolding pass_new_leader
  pass_new_leader-Keeps s msg own leads =
      let (m, ok, e) = update s s.actual_neighbor_id in
      let v : Server = record s { actual_neighbor_id = m } in
      elim (Bool-cases (msg.id_sender == s.id)) [
        | inl back ↦ rw (back, pass_new_leader) (refl, inl refl, tt)
        | inr other ↦
            rw (other, pass_new_leader)
              (rw (e, pass_new_leader)
                (elim (Bool-cases ok) [
                  | inl found ↦
                      rw (found, pass_new_leader)
                        (forwarded P s v v _ msg.sequence_number refl (inl refl) leads)
                  | inr alone ↦ rw (alone, pass_new_leader) (refl, inl refl, (own, tt))
                ]))
      ]

  -- The server that has taken over the leader, and the messages of the first part.
  become_leader-Valid :
      (s : Server) (leader_id : ℕ)
      → ((become_leader s leader_id).0.id ≡ s.id)
        × ((become_leader s leader_id).0.id_leader ≡ leader_id)
        × All (ValidEffect P) (become_leader s leader_id).1
  unfolding become_leader
  become_leader-Valid s leader_id = elim (Bool-cases (leader_id == s.id && not s.im_leader)) [
    | inl first ↦ rw (first, become_leader) (refl, refl, (tt, tt))
    | inr later ↦ rw (later, become_leader) (refl, refl, tt)
  ]

  seek_leader-Valid : (s : Server) (leader_id : ℕ) → All (ValidEffect P) (seek_leader s leader_id)
  unfolding seek_leader
  seek_leader-Valid s leader_id = elim (Option-cases s.leader_connection) [
    | inr (c, connected) ↦ rw (connected, seek_leader) tt
    | inl alone ↦
        rw (alone, seek_leader)
          (elim (Bool-cases (leader_id == s.id)) [
            | inl own ↦ rw own tt
            | inr other ↦ rw other (tt, tt)
          ])
  ]

  led_on : (a b : ℕ) → (a ≡ b) ⊎ P a → P b → P a
  led_on a b (inl e) p = rw e p
  led_on a b (inr q) p = q

  pub new_leader-Keeps :
      (s : Server) (msg : NewLeaderMsg) → P s.id → P msg.leader_id → KeepsIf P s (new_leader s msg)
  unfolding new_leader
  new_leader-Keeps s msg own leads =
      let (t, listening) = become_leader s msg.leader_id in
      let (same, led, valid) = become_leader-Valid s msg.leader_id in
      let kept = pass_new_leader-Keeps t msg (rw same own) leads in
      elim (Option-cases (pass_new_leader t msg)) [
        | inl panics ↦ rw (panics, new_leader) tt
        | inr ((u, passed), e) ↦
            let (id, leader, sent) =
              subst (λ (r : Option (Server × List Effect)). KeepsIf P t r) e kept in
            rw (e, new_leader)
              (
                id ∙ same,
                inr (led_on u.id_leader t.id_leader leader (rw led leads)),
                All-append (ValidEffect P) (listening ++ passed) (seek_leader u msg.leader_id)
                    (All-append (ValidEffect P) listening passed valid sent)
                    (seek_leader-Valid u msg.leader_id),
              )
      ]
