-- ===== src/Passenger/Examples.antt =====
-- A passenger and its drivers, on which the theorems are applied, with a concrete `F64`.
mod Restart
use concu_ride.Prelude.{
  ℕ, zero, suc, ◌+◌, ◌*◌, ◌≡◌, refl, none, some, List, [], ◌∷◌, true, false, arith, leb, ltb,
  if◌then◌else◌,
}
use concu_ride.Ride.{Position}
use concu_ride.Ride.Arrival.{gap, Reaches}
use concu_ride.Passenger.{DriverInfo, Passenger}
use concu_ride.Passenger.Select.{F64, max_range, take_in_range, select_driver, distance}
use concu_ride.Passenger.Select.Rings.{Selects, select_driver-Selects}
use concu_ride.Passenger.Handlers.{with_position}
use concu_ride.Prelude.{String, Option, ◌==◌, string_eq}
use concu_ride.Passenger.{Addr}
use concu_ride.Passenger.Handlers.Travel.{travel, ride_over, travel_ends, travel_never_ends}

-- The root, rounded down, of a number below 10000.
abbrev root_to : ℕ → ℕ → ℕ
root_to zero n = 0
root_to (suc k) n = let r = root_to k n in if leb (suc r * suc r) n then suc r else r

-- Numbers as they are, and distances between them for differences, which are only squared.
abbrev pub exact : F64
exact = record {
  Float = ℕ;
  of_u64 = λ n. n;
  sub = gap;
  powi_2 = λ n. n * n;
  add = λ m n. m + n;
  sqrt = root_to 100;
  to_u64 = λ n. n;
}

abbrev pub near_one : DriverInfo
near_one = record { socket = "127.0.0.1:7001"; position = (6, 8) }

abbrev far_one : DriverInfo
far_one = record { socket = "127.0.0.1:7002"; position = (30, 40) }

abbrev offered : List DriverInfo
offered = far_one ∷ near_one ∷ []

nearest : select_driver exact (0, 0) offered 5 ≡ (some near_one, far_one ∷ [])
unfolding select_driver take_in_range distance
nearest = refl

select_driver-Selects_example :
    Selects exact (0, 0) 5 offered (select_driver exact (0, 0) offered 5)
select_driver-Selects_example = select_driver-Selects exact (0, 0) offered 5

abbrev leo : Position → Passenger
leo destination = record {
  name = "leo";
  info = record { id = 2; position = (1, 1); destination = destination };
  recovery = false;
  payment_authorized = true;
  payment_confirmed = false;
  server_receiver = none;
  server_sender = 3;
  connections = [];
  drivers_info = offered;
  driver_socket = some "127.0.0.1:7001";
  gateway = 4;
}

travel_never_ends_example : travel 200 (leo (1, 2)) ≡ none
travel_never_ends_example = travel_never_ends 200 (leo (1, 2)) (omega arith)

-- Only the far driver answers.
abbrev connect : String → Option Addr
connect socket = if socket == "127.0.0.1:7002" then some 8 else none
