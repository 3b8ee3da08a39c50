-- ===== src/Server/Election/Connect.antt =====
-- How often a server tries to connect to the new leader.
use concu_ride.Prelude.{
  String, ℕ, zero, suc, ◌+◌, ◌≤◌, ◌<◌, ◌≡◌, ◌⊎◌, inl, inr, refl, subst, Bool, true, false, some,
  if◌then◌else◌, [], arith, Bool-cases,
}
use concu_ride.Common.{id_to_tcp_address}
use concu_ride.Server.{Addr, Server}
use concu_ride.Server.Election.{retry, create_tcp_connection, connect_to_leader}

shift : (m n : ℕ) → m + 1 + n ≡ m + suc n
shift m n = omega arith

module _ (connect : ℕ → Bool) where
  -- The attempts from `count` to `last` fail up to one that succeeds, or all of them.
  abbrev pub Tries : ℕ → ℕ → Bool → Type 0
  Tries count last r =
      ((r ≡ true)
        × (k : ℕ) × (count ≤ k)
        × (k ≤ last)
        × (connect k ≡ true)
        × ((j : ℕ) → count ≤ j → j < k → connect j ≡ false))
      ⊎ ((r ≡ false) × ((j : ℕ) → count ≤ j → j ≤ last → connect j ≡ false))

  Tries-suc :
      (count last : ℕ) (r : Bool)
      → connect count ≡ false
      → Tries (count + 1) last r
      → Tries count last r
  Tries-suc count last r down (inl (e, k, low, high, up, first)) =
      inl (e, k, omega arith, high, up, λ j a b. ground (arith, first j))
  Tries-suc count last r down (inr (e, rest)) = inr (e, λ j a b. ground (arith, rest j))

  retry-Tries : (rounds count : ℕ) → Tries count (count + rounds) (retry connect rounds count)
  unfolding retry
  retry-Tries zero count = elim (Bool-cases (connect count)) [
    | inl up ↦
        rw up (inl (refl, count, omega arith, omega arith, up, λ j a b. absurd (omega arith)))
    | inr down ↦ rw down (inr (refl, λ j a b. ground arith))
  ]
  retry-Tries (suc rounds) count = elim (Bool-cases (connect count)) [
    | inl up ↦
        rw (up, retry)
          (inl (refl, count, omega arith, omega arith, up, λ j a b. absurd (omega arith)))
    | inr down ↦
        rw (down, retry)
          (Tries-suc count (count + suc rounds) _ down (
            subst (λ last. Tries (count + 1) last (retry connect rounds (count + 1)))
              (shift count rounds) (retry-Tries rounds (count + 1))))
  ]

-- `ConnectToServer` tries the address of the leader six times at most, up to the first attempt that
-- succeeds. Then it keeps the connection and ends the election; after six failures it changes
-- nothing.
pub connect_to_leader-Tries :
    (s : Server) (connect : String → ℕ → Bool) (connection : Addr)
    → let leader = id_to_tcp_address s.id_leader in
      let up = create_tcp_connection connect leader in
      let t : Server = record s {
        leader_connection = some connection;
        election_on_course = false;
      } in
      Tries (connect leader) 0 5 up
      × (connect_to_leader s connect connection ≡ (if up then (t, []) else (s, [])))
unfolding create_tcp_connection connect_to_leader
connect_to_leader-Tries s connect connection =
    (retry-Tries (connect (id_to_tcp_address s.id_leader)) 5 0, ground arith)
