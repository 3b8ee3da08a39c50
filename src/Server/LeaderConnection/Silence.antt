-- ===== src/Server/LeaderConnection/Silence.antt =====
-- Whether a replica ever finds out by the clock that the leader is silent.
use concu_ride.Prelude.{ℕ, ◌+◌, Bool, true, false, ◌||◌, List, [], ◌∷◌}
use concu_ride.Common.Json.{Json}
use concu_ride.Server.LeaderConnection.{ServerConnection, Effect, start_election, ping}

-- Whether an election is started.
abbrev pub elects : {j : Json} → List (Effect j) → Bool
elects [] = false
elects (start_election _ ∷ _) = true
elects (_ ∷ effects) = elects effects

module _ (j : Json) where
  -- `Ping` after each of the pauses, in milliseconds, with no line of the leader in between.
  abbrev pub silent : ServerConnection → List ℕ → Bool
  silent c [] = false
  silent c (pause ∷ pauses) =
      let (d, effects) = ping j c (c.response_time + pause) in elects effects || silent d pauses
