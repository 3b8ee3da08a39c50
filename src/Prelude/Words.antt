-- ===== src/Prelude/Words.antt =====
-- `u64` arithmetic as it wraps, and the decimal text of a number.
use Prim.Native.Nat.{ℕ, zero, suc, ◌+◌, ◌-◌, ◌/◌, ◌%◌, ◌^◌, ◌<◌}
use Prim.Native.String.{String, ◌++◌}
use mathlib.Core.Path.{◌≡◌, refl}
use native.Mathlib.Omega.{arith}
use concu_ride.Prelude.Tests.{ltb, if◌then◌else◌}

abbrev pub u64_mod : ℕ
u64_mod = 2 ^ 64

-- `x += 1` and `x -= 1` on a `u64`.
unfoldable pub inc : ℕ → ℕ
inc x = (x + 1) % u64_mod

unfoldable pub dec : ℕ → ℕ
dec x = (x + u64_mod - 1) % u64_mod

pub inc_lem : (x : ℕ) → x + 1 < u64_mod → inc x ≡ x + 1
unfolding inc
inc_lem x h = omega arith

digit : ℕ → String
digit zero = "0"
digit (suc zero) = "1"
digit (suc (suc zero)) = "2"
digit (suc (suc (suc zero))) = "3"
digit (suc (suc (suc (suc zero)))) = "4"
digit (suc (suc (suc (suc (suc zero))))) = "5"
digit (suc (suc (suc (suc (suc (suc zero)))))) = "6"
digit (suc (suc (suc (suc (suc (suc (suc zero))))))) = "7"
digit (suc (suc (suc (suc (suc (suc (suc (suc zero)))))))) = "8"
digit _ = "9"

-- On fuel, the number of digits at most.
show_digits : ℕ → ℕ → String
show_digits zero n = ""
show_digits (suc f) n =
    let rest = show_digits f (n / 10) ++ digit (n % 10) in if ltb n 10 then digit n else rest

-- The `Display` text of a `u64`, which has at most 20 digits.
unfoldable pub show : ℕ → String
unfolding show_digits digit
show n = show_digits 20 n

show_port : show 10005 ≡ "10005"
unfolding show
show_port = refl
