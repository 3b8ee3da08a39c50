-- ===== src/Ride.antt =====
-- The moves of a ride: `move_to` of passenger/src/passenger.rs and of driver/src/driver.rs, which
-- have the same body. Coordinates are `u64` and wrap.
pub mod Arrival
pub mod Loop
use concu_ride.Prelude.{ℕ, zero, suc, ◌<◌, if◌then◌else◌, ltb, inc, dec, u64_mod}

abbrev pub Position : Type 0
Position = ℕ × ℕ

-- One `match` of `move_to`.
unfoldable pub step_coordinate : ℕ → ℕ → ℕ
unfolding inc dec
step_coordinate x destination = if ltb x destination then inc x else dec x

unfoldable pub step_towards : Position → Position → Position
step_towards position destination =
    (step_coordinate position.0 destination.0, step_coordinate position.1 destination.1)

-- The place after `n` moves.
abbrev pub walk : ℕ → Position → Position → Position
walk zero position destination = position
walk (suc n) position destination = walk n (step_towards position destination) destination

abbrev pub IsPosition : Position → Type 0
IsPosition p = (p.0 < u64_mod) × (p.1 < u64_mod)
