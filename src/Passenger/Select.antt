-- ===== src/Passenger/Select.antt =====
-- The choice of a driver: `distance` of passenger/src/functions.rs and `Passenger::select_driver`
-- of passenger/src/passenger.rs. Rust's `f64` is a parameter.
pub mod Rings
use concu_ride.Prelude.{
  ℕ, zero, suc, ◌+◌, ◌-◌, ◌/◌, Option, none, some, List, [], ◌∷◌, true, false, ltb,
}
use concu_ride.Ride.{Position}
use concu_ride.Passenger.{DriverInfo}

-- The operations of `f64` that `distance` uses: `as f64`, `-`, `powi(2)`, `+`, `f64::sqrt` and
-- `as u64`.
pub record F64 : Type 1 where
  pub Float : Type 0
  pub of_u64 : ℕ → Float
  pub sub : Float → Float → Float
  pub powi_2 : Float → Float
  pub add : Float → Float → Float
  pub sqrt : Float → Float
  pub to_u64 : Float → ℕ

abbrev pub max_range : ℕ
max_range = 1000

module _ (f : F64) where
  open f use {of_u64, sub, powi_2, add, sqrt, to_u64}

  unfoldable pub distance : Position → Position → ℕ
  distance p q =
      to_u64 (
        sqrt
          (add (powi_2 (sub (of_u64 p.0) (of_u64 q.0))) (powi_2 (sub (of_u64 p.1) (of_u64 q.1)))))

  -- The `for` loop: the first driver in range, taken out of the list.
  unfoldable pub take_in_range :
      Position → ℕ → List DriverInfo → Option (DriverInfo × List DriverInfo)
  take_in_range position range [] = none
  take_in_range position range (driver ∷ rest) =
      elim (ltb (distance position driver.position) range) [
        | true ↦ some (driver, rest)
        | false ↦ elim (take_in_range position range rest) [
          | none ↦ none
          | some (found, others) ↦ some (found, driver ∷ others)
        ]
      ]

  -- The recursion on a growing range, by the number of wider ranges still to try.
  unfoldable pub select_within :
      ℕ → Position → ℕ → List DriverInfo → Option DriverInfo × List DriverInfo
  select_within zero position range drivers_info =
      elim (take_in_range position range drivers_info) [
        | some (driver, rest) ↦ (some driver, rest)
        | none ↦ (none, drivers_info)
      ]
  select_within (suc wider) position range drivers_info =
      elim (take_in_range position range drivers_info) [
        | some (driver, rest) ↦ (some driver, rest)
        | none ↦ elim (ltb max_range range) [
          | true ↦ (none, drivers_info)
          | false ↦ select_within wider position (range + 10) drivers_info
        ]
      ]

  -- How often the range grows: until it is above `max_range`.
  abbrev pub widenings : ℕ → ℕ
  widenings range = (max_range + 10 - range) / 10

  -- The choice, and the drivers that are left.
  unfoldable pub select_driver :
      Position → List DriverInfo → ℕ → Option DriverInfo × List DriverInfo
  unfolding select_within take_in_range
  select_driver position drivers_info range =
      select_within (widenings range) position range drivers_info
