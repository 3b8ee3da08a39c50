-- ===== src/Ride/Arrival.antt =====
-- When a walk arrives, and when it never does.
use Prim.Native.Nat.add
use concu_ride.Prelude.{
  ℕ, zero, suc, ◌+◌, ◌-◌, ◌*◌, ◌/◌, ◌%◌, ◌≤◌, ◌<◌, ◌≡◌, ◌≢◌, refl, ap, sym, subst, ◌∙◌, arith,
  u64_mod,
}
use concu_ride.Ride.{Position, step_coordinate, step_towards, walk, IsPosition}

-- One coordinate on its own.
abbrev walk_coordinate : ℕ → ℕ → ℕ → ℕ
walk_coordinate zero x d = x
walk_coordinate (suc n) x d = walk_coordinate n (step_coordinate x d) d

walk_parts :
    (n : ℕ) (p d : Position) → walk n p d ≡ (walk_coordinate n p.0 d.0, walk_coordinate n p.1 d.1)
unfolding step_towards
walk_parts zero p d = refl
walk_parts (suc n) p d = walk_parts n (step_towards p d) d

-- How far a coordinate is from its destination.
abbrev pub gap : ℕ → ℕ → ℕ
gap x d = (x - d) + (d - x)

step_closer :
    (x d n : ℕ)
    → x < u64_mod
    → d < u64_mod
    → gap x d ≡ suc n
    → (gap (step_coordinate x d) d ≡ n) × (step_coordinate x d < u64_mod)
unfolding step_coordinate
step_closer x d n hx hd e = ground arith

walk-gap : (n x d : ℕ) → x < u64_mod → d < u64_mod → gap x d ≡ n → walk_coordinate n x d ≡ d
walk-gap zero x d hx hd e = omega arith
walk-gap (suc n) x d hx hd e =
    let (e', hx') = step_closer x d n hx hd e in walk-gap n (step_coordinate x d) d hx' hd e'

-- At the destination a coordinate steps off and back.
step_off_and_back : (d : ℕ) → 0 < d → d < u64_mod → step_coordinate (step_coordinate d d) d ≡ d
unfolding step_coordinate
step_off_and_back d pos hd = ground arith

abbrev double : ℕ → ℕ
double zero = zero
double (suc k) = suc (suc (double k))

double_lem : (k : ℕ) → double k ≡ 2 * k
double_lem zero = omega arith
double_lem (suc k) = omega (arith, double_lem k)

walk-stay : (k d : ℕ) → 0 < d → d < u64_mod → walk_coordinate (double k) d d ≡ d
walk-stay zero d pos hd = refl
walk-stay (suc k) d pos hd =
    subst (λ x. walk_coordinate (double k) x d ≡ d) (sym (step_off_and_back d pos hd))
      (walk-stay k d pos hd)

walk-add : (m n x d : ℕ) → walk_coordinate (m + n) x d ≡ walk_coordinate n (walk_coordinate m x d) d
walk-add zero n x d = rw add.zero
walk-add (suc m) n x d = rw add.suc (walk-add m n (step_coordinate x d) d)

-- A coordinate is at its destination after as many moves as it was away, and every second move
-- from then on.
walk-coordinate_arrives :
    (n x d : ℕ)
    → x < u64_mod
    → d < u64_mod
    → 0 < d
    → gap x d ≤ n
    → n % 2 ≡ gap x d % 2
    → walk_coordinate n x d ≡ d
walk-coordinate_arrives n x d hx hd pos far even =
    let k = (n - gap x d) / 2 in
    let split : n ≡ gap x d + double k = omega (arith, double_lem k) in
    rw (split, walk-add (gap x d) (double k) x d, walk-gap (gap x d) x d hx hd refl)
      (walk-stay k d pos hd)

-- `n` moves lead from `p` to `d`: the coordinates of `d` are positive, and each coordinate is at
-- most `n` away, by a number of the parity of `n`.
pub record Reaches (n : ℕ) (p d : Position) : Type 0 where
  pub start : IsPosition p
  pub target : IsPosition d
  pub positive_x : 0 < d.0
  pub positive_y : 0 < d.1
  pub far_x : gap p.0 d.0 ≤ n
  pub far_y : gap p.1 d.1 ≤ n
  pub parity_x : n % 2 ≡ gap p.0 d.0 % 2
  pub parity_y : n % 2 ≡ gap p.1 d.1 % 2

pub walk_arrives : (n : ℕ) (p d : Position) → Reaches n p d → walk n p d ≡ d
walk_arrives n p d r = walk_parts n p d ∙ (λ i. (
  walk-coordinate_arrives n p.0 d.0 r.start.0 r.target.0 r.positive_x r.far_x r.parity_x i,
  walk-coordinate_arrives n p.1 d.1 r.start.1 r.target.1 r.positive_y r.far_y r.parity_y i,
))

-- A move changes the parity of each coordinate, also where it wraps.
step-parity : (x d : ℕ) → (step_coordinate x d + x) % 2 ≡ 1
unfolding step_coordinate
step-parity x d = ground arith

walk-parity : (n : ℕ) (p d : Position) → ((walk n p d).0 + (walk n p d).1) % 2 ≡ (p.0 + p.1) % 2
unfolding step_towards
walk-parity zero p d = refl
walk-parity (suc n) p d =
    omega (arith, walk-parity n (step_towards p d) d, step-parity p.0 d.0, step-parity p.1 d.1)

-- A walk never arrives, after any number of moves, at a destination whose coordinates have a sum
-- of the other parity than those of the start.
pub walk_never_arrives :
    (n : ℕ) (p d : Position) → (p.0 + p.1) % 2 ≢ (d.0 + d.1) % 2 → walk n p d ≢ d
walk_never_arrives n p d odd e =
    odd (sym (walk-parity n p d) ∙ ap (λ (q : Position). (q.0 + q.1) % 2) e)
