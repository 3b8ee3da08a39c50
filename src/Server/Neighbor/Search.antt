-- ===== src/Server/Neighbor/Search.antt =====
-- What the search for the next neighbour finds.
use concu_ride.Prelude.{
  ℕ, zero, suc, ◌+◌, ◌-◌, ◌%◌, ◌≤◌, ◌<◌, ◌≡◌, ◌≢◌, ◌⊎◌, inl, inr, refl, Bool, true, false, ◌&&◌,
  List, contains, ◌==◌, nat_eq, nat_beq_iff, arith, inc, Bool-cases,
}
use concu_ride.Common.{max_servers}
use concu_ride.Server.Neighbor.{get_neighbor_id, is_candidate, search_neighbor}

-- The ids of servers.
abbrev pub IsServerId : ℕ → Type 0
IsServerId n = (1 ≤ n) × (n ≤ max_servers)

-- A server that may be sent a message: another one, not known to be disconnected.
abbrev pub IsConnected : List ℕ → ℕ → ℕ → Type 0
IsConnected disconnected id n = (contains disconnected n ≡ false) × (n ≢ id)

-- `n` rounds of `get_neighbor_id`.
abbrev pub hop : ℕ → ℕ → ℕ
hop zero id = id
hop (suc n) id = hop n (get_neighbor_id id)

pub get_neighbor_id-IsServerId : (id : ℕ) → IsServerId id → IsServerId (get_neighbor_id id)
unfolding get_neighbor_id inc
get_neighbor_id-IsServerId id h = ground arith

candidate-IsConnected : (d : List ℕ) (id n : ℕ) → is_candidate d id n ≡ true → IsConnected d id n
candidate-IsConnected d id n h = ground (arith, nat_beq_iff n id)

not_candidate : (d : List ℕ) (id n : ℕ) → is_candidate d id n ≡ false → ¬ IsConnected d id n
not_candidate d id n h = ground (arith, nat_beq_iff n id)

-- `r` is the first candidate of the rounds from `n`, or there is none.
abbrev pub Finds : ℕ → List ℕ → ℕ → ℕ → ℕ × Bool → Type 0
Finds rounds d id n r =
    ((r.1 ≡ true)
      × (k : ℕ) × (k < rounds)
      × (r.0 ≡ hop k n)
      × IsConnected d id r.0
      × ((j : ℕ) → j < k → ¬ IsConnected d id (hop j n)))
    ⊎ ((r.1 ≡ false) × ((j : ℕ) → j < rounds → ¬ IsConnected d id (hop j n)))

skip :
    (d : List ℕ) (id n k : ℕ)
    → ¬ IsConnected d id n
    → ((j : ℕ) → j < k → ¬ IsConnected d id (hop j (get_neighbor_id n)))
    → (j : ℕ) → j < suc k
    → ¬ IsConnected d id (hop j n)
skip d id n k h rest zero lt = h
skip d id n k h rest (suc j) lt = rest j (omega arith)

Finds-suc :
    (rounds : ℕ) (d : List ℕ) (id n : ℕ) (r : ℕ × Bool)
    → ¬ IsConnected d id n
    → Finds rounds d id (get_neighbor_id n) r
    → Finds (suc rounds) d id n r
Finds-suc rounds d id n r h (inl (ok, k, lt, e, c, first)) =
    inl (ok, suc k, omega arith, e, c, skip d id n k h first)
Finds-suc rounds d id n r h (inr (ok, nothing)) = inr (ok, skip d id n rounds h nothing)

pub search_neighbor-Finds :
    (rounds : ℕ) (d : List ℕ) (id n : ℕ) → Finds rounds d id n (search_neighbor rounds d id n)
unfolding search_neighbor
search_neighbor-Finds zero d id n = inr (refl, λ j h. elim h [ ])
search_neighbor-Finds (suc rounds) d id n = elim (Bool-cases (is_candidate d id n)) [
  | inl e ↦
      rw (e, search_neighbor)
        (inl (refl, 0, omega arith, refl, candidate-IsConnected d id n e, λ j h. elim h [ ]))
  | inr e ↦
      rw (e, search_neighbor)
        (Finds-suc rounds d id n _ (not_candidate d id n e)
          (search_neighbor-Finds rounds d id (get_neighbor_id n)))
]

-- A property of the five ids, by evaluation.
abbrev all_ids : (ℕ → Bool) → Bool
all_ids p = p 1 && (p 2 && (p 3 && (p 4 && p 5)))

all_ids_sound : (p : ℕ → Bool) (n : ℕ) → all_ids p ≡ true → IsServerId n → p n ≡ true
all_ids_sound p zero h i = absurd (omega arith)
all_ids_sound p (suc zero) h i = ground arith
all_ids_sound p (suc (suc zero)) h i = ground arith
all_ids_sound p (suc (suc (suc zero))) h i = ground arith
all_ids_sound p (suc (suc (suc (suc zero)))) h i = ground arith
all_ids_sound p (suc (suc (suc (suc (suc zero))))) h i = ground arith
all_ids_sound p (suc (suc (suc (suc (suc (suc n)))))) h i = absurd (omega arith)

-- How many hops lead from the neighbour of `a` to `n`.
abbrev distance_to : ℕ → ℕ → ℕ
distance_to a n = (n + 9 - a) % 5

abbrev reaches : ℕ → ℕ → Bool
reaches a n = hop (distance_to a n) (get_neighbor_id a) == n

ring_table : all_ids (λ a. all_ids (reaches a)) ≡ true
unfolding get_neighbor_id
ring_table = refl

pub ring_covers :
    (a n : ℕ)
    → IsServerId a
    → IsServerId n
    → (k : ℕ) × (k < max_servers) × (hop k (get_neighbor_id a) ≡ n)
ring_covers a n ha hn = (
  distance_to a n,
  omega arith,
  (nat_beq_iff _ n).0
      (all_ids_sound (reaches a) n (all_ids_sound (λ b. all_ids (reaches b)) a ring_table ha) hn),
)
