-- ===== src/Server/Election/Leader.antt =====
-- The loop of `Election` that picks the leader.
use concu_ride.Prelude.{
  ℕ, ◌≤◌, ◌≡◌, ◌⊎◌, inl, inr, refl, subst, List, [], ◌∷◌, Has, All, All-Has, arith, ltb,
  if◌then◌else◌,
}
use concu_ride.Server.Election.{max_id_from}

All-le_mono : (m n : ℕ) (ids : List ℕ) → m ≤ n → All (λ i. i ≤ m) ids → All (λ i. i ≤ n) ids
All-le_mono m n [] h a = tt
All-le_mono m n (i ∷ ids) h a = (omega arith, All-le_mono m n ids h a.1)

from_le : (leader_id : ℕ) (ids : List ℕ) → leader_id ≤ max_id_from leader_id ids
unfolding max_id_from
from_le leader_id [] = omega arith
from_le leader_id (id ∷ ids) =
    ground (arith, from_le (if ltb leader_id id then id else leader_id) ids)

from_bound : (leader_id : ℕ) (ids : List ℕ) → All (λ i. i ≤ max_id_from leader_id ids) ids
unfolding max_id_from
from_bound leader_id [] = tt
from_bound leader_id (id ∷ ids) =
    let next = if ltb leader_id id then id else leader_id in
    (ground (arith, from_le next ids), from_bound next ids)

from_Has :
    (leader_id : ℕ) (ids : List ℕ)
    → (max_id_from leader_id ids ≡ leader_id) ⊎ Has (max_id_from leader_id ids) ids
unfolding max_id_from
from_Has leader_id [] = inl refl
from_Has leader_id (id ∷ ids) =
    ground (arith, from_Has (if ltb leader_id id then id else leader_id) ids)

-- The leader of an election over some ids is one of them, and the largest.
pub max_id_from_greatest :
    (ids : List ℕ) (i : ℕ)
    → Has i ids
    → Has (max_id_from 0 ids) ids × All (λ j. j ≤ max_id_from 0 ids) ids
max_id_from_greatest ids i h = (go (from_Has 0 ids), from_bound 0 ids)
  where
    bound : i ≤ max_id_from 0 ids
    bound = All-Has (λ j. j ≤ max_id_from 0 ids) i ids (from_bound 0 ids) h

    go : (max_id_from 0 ids ≡ 0) ⊎ Has (max_id_from 0 ids) ids → Has (max_id_from 0 ids) ids
    go (inl e) = subst (λ j. Has j ids) (omega (arith, bound, e)) h
    go (inr m) = m
