-- ===== src/Server/Startup/Initial.antt =====
-- What holds of a server that has just started.
use concu_ride.Prelude.{
  ℕ, zero, suc, ◌≤◌, ◌<◌, ◌≡◌, ◌≢◌, ◌⊎◌, inl, inr, refl, sym, subst, String, Bool, true, false,
  Option, none, some, Bool-cases, ◌==◌, if◌then◌else◌, List, length, arith, u64_mod, nat_beq_iff,
  nat_eq,
}
use concu_ride.Prelude.HashMap.{get}
use concu_ride.Common.{max_servers, id_to_tcp_address}
use concu_ride.Server.Registry.Directory.{Member, driver, passenger}
use concu_ride.Server.Registry.Requests.{Request, run, directory, id_in, spec_run}
use concu_ride.Server.Registry.Invariant.{IsValid, run-refines}
use concu_ride.Server.Startup.{leader_server, try_others, find_leader}

nobody : (id : ℕ) (m : Member) (i : ℕ) → id_in (leader_server id) m ≡ some i → ⊥
unfolding leader_server get
nobody id (driver n) i h = cc
nobody id (passenger n) i h = cc

pub leader_server-IsValid : (id : ℕ) → IsValid (leader_server id)
unfolding leader_server get
leader_server-IsValid id = record {
  filed = record {
    disjoint = λ n. inl refl;
    named = λ n d h. cc;
    busy_named = λ n d h. cc;
    distinct = tt;
    busy_distinct = tt;
  };
  unique = record {
    in_range = λ m i h. absurd (nobody id m i h);
    injective = λ m n i h g. absurd (nobody id m i h);
  };
}

-- From its start a leader that serves fewer than 2 ^ 64 requests of drivers and passengers, in
-- any order, has a valid registry, and its ids are those of the specification.
pub run-leader_server :
    (id : ℕ) (rs : List Request)
    → length rs < u64_mod
    → IsValid (run (leader_server id) rs)
      × (directory (run (leader_server id) rs) ≡ spec_run (directory (leader_server id)) rs)
run-leader_server id rs h =
    run-refines (leader_server id) rs (unfold leader_server in omega arith)
      (leader_server-IsValid id)

-- The highest id up to `top`, other than `id`, whose address answers, if there is one.
abbrev pub IsHighestOther : (String → Bool) → ℕ → ℕ → Option ℕ → Type 0
IsHighestOther connect id top r =
    ((k : ℕ) × (r ≡ some k)
      × (1 ≤ k)
      × (k ≤ top)
      × (k ≢ id)
      × (connect (id_to_tcp_address k) ≡ true)
      × ((n : ℕ) → k < n → n ≤ top → n ≢ id → connect (id_to_tcp_address n) ≡ false))
    ⊎ ((r ≡ none) × ((n : ℕ) → 1 ≤ n → n ≤ top → n ≢ id → connect (id_to_tcp_address n) ≡ false))

at_most : (n top : ℕ) → n ≤ suc top → (n ≤ top) ⊎ (n ≡ suc top)
at_most n top h = grind arith

extend :
    (connect : String → Bool) (id top : ℕ) (r : Option ℕ)
    → (suc top ≢ id → connect (id_to_tcp_address (suc top)) ≡ false)
    → IsHighestOther connect id top r
    → IsHighestOther connect id (suc top) r
extend connect id top r down (inl (k, e, low, high, other, up, rest)) = inl (
  k,
  e,
  low,
  omega arith,
  other,
  up,
  λ n a b c. elim (at_most n top b) [
    | inl le ↦ rest n a le c
    | inr same ↦ subst (λ m. m ≢ id → connect (id_to_tcp_address m) ≡ false) (sym same) down c
  ],
)
extend connect id top r down (inr (e, rest)) = inr (
  e,
  λ n a b c. elim (at_most n top b) [
    | inl le ↦ rest n a le c
    | inr same ↦ subst (λ m. m ≢ id → connect (id_to_tcp_address m) ≡ false) (sym same) down c
  ],
)

try_others-IsHighestOther :
    (connect : String → Bool) (id top : ℕ)
    → IsHighestOther connect id top (try_others connect id top)
unfolding try_others
try_others-IsHighestOther connect id zero = inr (refl, λ n a b c. absurd (omega arith))
try_others-IsHighestOther connect id (suc top) = elim (Bool-cases (suc top == id)) [
  | inl own ↦
      rw (own, try_others)
        (extend connect id top _ (λ ne. absurd (ne ((nat_beq_iff (suc top) id).0 own)))
          (try_others-IsHighestOther connect id top))
  | inr other ↦ elim (Bool-cases (connect (id_to_tcp_address (suc top)))) [
    | inl up ↦
        rw (other, try_others)
          (rw (up, try_others)
            (inl (
              suc top,
              refl,
              omega arith,
              omega arith,
              ground (arith, nat_beq_iff (suc top) id),
              up,
              λ n a b c. absurd (omega arith),
            )))
    | inr down ↦
        rw (other, try_others)
          (rw (down, try_others)
            (extend connect id top _ (λ ne. down) (try_others-IsHighestOther connect id top)))
  ]
]

-- A replica first tries server 1, or server 2 if it is server 1 itself. If that answers, it takes 1
-- for the leader's id; else it takes the highest other server whose address answers; and it finds
-- none only if no other server answers.
pub find_leader-IsHighestOther :
    (connect : String → Bool) (id : ℕ)
    → let first = if id == 1 then id_to_tcp_address 2 else id_to_tcp_address 1 in
      ((connect first ≡ true) × (find_leader connect id ≡ some 1))
      ⊎ ((connect first ≡ false) × IsHighestOther connect id max_servers (find_leader connect id))
unfolding find_leader
find_leader-IsHighestOther connect id =
    elim (Bool-cases (connect (if id == 1 then id_to_tcp_address 2 else id_to_tcp_address 1))) [
      | inl up ↦ inl (up, rw (up, find_leader) refl)
      | inr down ↦
          inr (down, rw (down, find_leader) (try_others-IsHighestOther connect id max_servers))
    ]

try_others-ne :
    (connect : String → Bool) (id n k : ℕ)
    → try_others connect id n ≡ some k
    → (k ≢ id) × (connect (id_to_tcp_address k) ≡ true)
unfolding try_others
try_others-ne connect id zero k h = cc
try_others-ne connect id (suc n) k h =
    ground (arith, try_others-ne connect id n k, nat_beq_iff (suc n) id)

-- A replica other than server 1 takes for its leader another server than itself, whose address
-- answers.
find_leader-ne :
    (connect : String → Bool) (id k : ℕ)
    → id ≢ 1
    → find_leader connect id ≡ some k
    → (k ≢ id) × (connect (id_to_tcp_address k) ≡ true)
unfolding find_leader
find_leader-ne connect id k ne h =
    ground (arith, try_others-ne connect id max_servers k, nat_beq_iff id 1)

-- Server 1, started as a replica while server 2 answers, takes itself for the leader.
find_leader_own :
    (connect : String → Bool)
    → connect (id_to_tcp_address 2) ≡ true
    → find_leader connect 1 ≡ some 1
unfolding find_leader
find_leader_own connect h = ground arith
