-- ===== src/Server/Neighbor/Update.antt =====
-- `update_neighbor` keeps a neighbour that is up and else finds the next one on the ring.
use concu_ride.Prelude.{
  ℕ, zero, suc, ◌≡◌, ◌≢◌, ◌⊎◌, inl, inr, refl, subst, sym, ◌∙◌, Bool, true, false, contains, nat_eq,
  Bool-cases,
}
use concu_ride.Common.{max_servers}
use concu_ride.Server.{Server}
use concu_ride.Server.Neighbor.{get_neighbor_id, update_neighbor}
use concu_ride.Server.Neighbor.Search.{
  IsServerId, IsConnected, hop, get_neighbor_id-IsServerId, Finds, search_neighbor-Finds,
  ring_covers,
}

hop-IsServerId : (k n : ℕ) → IsServerId n → IsServerId (hop k n)
hop-IsServerId zero n h = h
hop-IsServerId (suc k) n h = hop-IsServerId k (get_neighbor_id n) (get_neighbor_id-IsServerId n h)

-- What `update_neighbor` promises: on success a neighbour that is a server id and not known to be
-- disconnected, the old one or one that is not the server itself; on failure every other server
-- is known to be disconnected.
abbrev pub Updates : Server → Server × Bool → Type 0
Updates s (t, ok) =
    (t ≡ record s { actual_neighbor_id = t.actual_neighbor_id })
    × (((ok ≡ true)
          × IsServerId t.actual_neighbor_id
          × (contains s.disconnected_servers t.actual_neighbor_id ≡ false)
          × ((t.actual_neighbor_id ≡ s.actual_neighbor_id) ⊎ (t.actual_neighbor_id ≢ s.id)))
        ⊎ ((ok ≡ false) × ((n : ℕ) → IsServerId n → ¬ IsConnected s.disconnected_servers s.id n)))

searched :
    (s : Server) (r : ℕ × Bool)
    → IsServerId s.actual_neighbor_id
    → Finds max_servers s.disconnected_servers s.id (get_neighbor_id s.actual_neighbor_id) r
    → Updates s (record s { actual_neighbor_id = r.0 }, r.1)
searched s r h (inl (ok, k, lt, e, c, first)) = (
  refl,
  inl (
    ok,
    subst IsServerId (sym e) (
        hop-IsServerId k (get_neighbor_id s.actual_neighbor_id)
          (get_neighbor_id-IsServerId s.actual_neighbor_id h)),
    c.0,
    inr c.1,
  ),
)
searched s r h (inr (ok, nothing)) = (
  refl,
  inr (
    ok,
    λ n i.
        let (k, lt, e) = ring_covers s.actual_neighbor_id n h i in
        subst (λ m. ¬ IsConnected s.disconnected_servers s.id m) e (nothing k lt),
  ),
)

-- From a neighbour that is a server id `update_neighbor` changes no other field, and its answer
-- is right: on success the neighbour is a server id, not known to be disconnected, and the old
-- one or not the server itself; on failure no other server of the ring is left.
pub update_neighbor-Updates :
    (s : Server)
    → IsServerId s.actual_neighbor_id
    → Updates s (update_neighbor s s.actual_neighbor_id)
unfolding update_neighbor
update_neighbor-Updates s h =
    elim (Bool-cases (contains s.disconnected_servers s.actual_neighbor_id)) [
      | inl e ↦
          rw (e, update_neighbor)
            (searched s _ h (
              search_neighbor-Finds max_servers s.disconnected_servers s.id
                (get_neighbor_id s.actual_neighbor_id)))
      | inr e ↦ rw (e, update_neighbor) (refl, inl (refl, h, e, inl refl))
    ]

-- The same as an equation for the result, for the handlers that go on from it.
pub update_neighbor_cases :
    (s : Server)
    → IsServerId s.actual_neighbor_id
    → (n : ℕ) × (((update_neighbor s s.actual_neighbor_id
            ≡ (record s { actual_neighbor_id = n }, true))
          × IsServerId n
          × (contains s.disconnected_servers n ≡ false))
        ⊎ ((update_neighbor s s.actual_neighbor_id ≡ (record s { actual_neighbor_id = n }, false))
            × ((k : ℕ) → IsServerId k → ¬ IsConnected s.disconnected_servers s.id k)))
update_neighbor_cases s h =
    go (update_neighbor s s.actual_neighbor_id) refl (update_neighbor-Updates s h)
  where
    go :
        (r : Server × Bool)
        → update_neighbor s s.actual_neighbor_id ≡ r
        → Updates s r
        → (n : ℕ) × (((update_neighbor s s.actual_neighbor_id
                ≡ (record s { actual_neighbor_id = n }, true))
              × IsServerId n
              × (contains s.disconnected_servers n ≡ false))
            ⊎ ((update_neighbor s s.actual_neighbor_id
                  ≡ (record s { actual_neighbor_id = n }, false))
                × ((k : ℕ) → IsServerId k → ¬ IsConnected s.disconnected_servers s.id k)))
    go (t, ok) e (p, inl (q, i, c, _)) = (t.actual_neighbor_id, inl (e ∙ (λ j. (p j, q j)), i, c))
    go (t, ok) e (p, inr (q, nothing)) =
        (t.actual_neighbor_id, inr (e ∙ (λ j. (p j, q j)), nothing))
