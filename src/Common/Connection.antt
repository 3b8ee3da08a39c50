-- ===== src/Common/Connection.antt =====
-- common/src/connection.rs: the search for the leader, from the highest id down.
use concu_ride.Prelude.{
  ℕ, zero, suc, ◌-◌, ◌≤◌, ◌<◌, String, ◌≡◌, ◌⊎◌, inl, inr, refl, Option, none, some, Bool, true,
  false, arith, Bool-cases,
}
use concu_ride.Common.{max_servers, id_to_tcp_address}

module _ (connect : String → Bool) where
  -- The loop over `(1..MAX_SERVERS).rev()`, here over the ids from `id` down.
  try_down : ℕ → Option ℕ
  try_down zero = none
  try_down (suc id) = elim (connect (id_to_tcp_address (suc id))) [
    | true ↦ some (suc id)
    | false ↦ try_down id
  ]

  -- The id of the server that the connection is to; `connect` says whether an address answers.
  unfoldable pub connect_to_server_leader : Option ℕ
  unfolding try_down
  connect_to_server_leader = elim (connect (id_to_tcp_address max_servers)) [
    | true ↦ some max_servers
    | false ↦ try_down (max_servers - 1)
  ]

  -- The highest id up to `top` whose address answers, if there is one.
  abbrev pub IsHighest : ℕ → Option ℕ → Type 0
  IsHighest top r =
      ((id : ℕ) × (r ≡ some id)
        × (1 ≤ id)
        × (id ≤ top)
        × (connect (id_to_tcp_address id) ≡ true)
        × ((n : ℕ) → id < n → n ≤ top → connect (id_to_tcp_address n) ≡ false))
      ⊎ ((r ≡ none) × ((n : ℕ) → 1 ≤ n → n ≤ top → connect (id_to_tcp_address n) ≡ false))

  extend :
      (top : ℕ) (r : Option ℕ)
      → connect (id_to_tcp_address (suc top)) ≡ false
      → IsHighest top r
      → IsHighest (suc top) r
  extend top r down (inl (id, e, low, high, up, rest)) =
      inl (id, e, low, omega arith, up, λ n a b. ground (arith, rest n))
  extend top r down (inr (e, rest)) = inr (e, λ n a b. ground (arith, rest n))

  try_down-IsHighest : (top : ℕ) → IsHighest top (try_down top)
  unfolding try_down
  try_down-IsHighest zero = inr (refl, λ n a b. absurd (omega arith))
  try_down-IsHighest (suc id) = elim (Bool-cases (connect (id_to_tcp_address (suc id)))) [
    | inl up ↦
        rw (up, try_down)
          (inl (suc id, refl, omega arith, omega arith, up, λ n a b. absurd (omega arith)))
    | inr down ↦ rw (down, try_down) (extend id _ down (try_down-IsHighest id))
  ]

  -- A client connects to the server of the highest id, from 1 to `max_servers`, whose address
  -- answers, and fails only if none does.
  pub connect_to_server_leader-IsHighest : IsHighest max_servers connect_to_server_leader
  unfolding connect_to_server_leader
  connect_to_server_leader-IsHighest = try_down-IsHighest max_servers
