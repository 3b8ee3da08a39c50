-- ===== src/Passenger/Select/Rings.antt =====
-- Which driver is chosen: the first one of the nearest ring that has any.
use concu_ride.Prelude.{
  ℕ, zero, suc, ◌+◌, ◌-◌, ◌*◌, ◌≤◌, ◌<◌, ◌≡◌, ◌⊎◌, inl, inr, refl, Option, none, some, List, [],
  ◌∷◌, ◌++◌, All, false, ltb, arith, if◌then◌else◌, Bool-cases,
}
use concu_ride.Ride.{Position}
use concu_ride.Passenger.{DriverInfo}
use concu_ride.Passenger.Select.{
  F64, max_range, distance, take_in_range, select_within, widenings, select_driver,
}

module _ (f : F64) (position : Position) where
  -- The distance to a driver.
  abbrev pub away : DriverInfo → ℕ
  away driver = distance f position driver.position

  -- The list is split at its first driver in range.
  abbrev pub Takes : ℕ → List DriverInfo → Option (DriverInfo × List DriverInfo) → Type 0
  Takes range drivers r =
      ((r ≡ none) × All (λ d. range ≤ away d) drivers)
      ⊎ ((before : List DriverInfo) × (driver : DriverInfo) × (after : List DriverInfo) × (drivers
            ≡ before ++ driver ∷ after)
          × (r ≡ some (driver, before ++ after))
          × (away driver < range)
          × All (λ d. range ≤ away d) before)

  Takes-cons :
      (range : ℕ) (d : DriverInfo) (ds : List DriverInfo)
      → ltb (away d) range ≡ false
      → (r : Option (DriverInfo × List DriverInfo)) → take_in_range f position range ds ≡ r
      → Takes range ds r
      → Takes range (d ∷ ds) (take_in_range f position range (d ∷ ds))
  unfolding take_in_range
  Takes-cons range d ds far r e (inl (p, a)) =
      rw (far, take_in_range)
        (rw (e, take_in_range) (rw (p, take_in_range) (inl (refl, (ground arith, a)))))
  Takes-cons range d ds far r e (inr (before, x, after, s, p, near, a)) =
      rw (far, take_in_range)
        (rw (e, take_in_range)
          (rw (p, take_in_range) (inr (d ∷ before, x, after, rw s, refl, near, (ground arith, a)))))

  take_in_range-Takes :
      (range : ℕ) (drivers : List DriverInfo)
      → Takes range drivers (take_in_range f position range drivers)
  unfolding take_in_range
  take_in_range-Takes range [] = inl (refl, tt)
  take_in_range-Takes range (d ∷ ds) = elim (Bool-cases (ltb (away d) range)) [
    | inl near ↦ rw (near, take_in_range) (inr ([], d, ds, refl, refl, ground arith, tt))
    | inr far ↦ Takes-cons range d ds far _ refl (take_in_range-Takes range ds)
  ]

  -- The choice over the ranges `range`, `range + 10`, …: the first driver in the first of them
  -- that holds one, or none, where all drivers lie beyond a last range above `max_range`.
  abbrev pub Selects : ℕ → List DriverInfo → Option DriverInfo × List DriverInfo → Type 0
  Selects range drivers r =
      ((before : List DriverInfo) × (driver : DriverInfo) × (after : List DriverInfo) × (k : ℕ)
        × (ring : ℕ) × (drivers ≡ before ++ driver ∷ after)
        × (r ≡ (some driver, before ++ after))
        × (ring ≡ range + 10 * k)
        × (away driver < ring)
        × All (λ d. ring ≤ away d) before
        × ((k ≡ 0) ⊎ ((ring ≤ max_range + 10) × All (λ d. ring - 10 ≤ away d) drivers)))
      ⊎ ((last : ℕ) × (r ≡ (none, drivers)) × (max_range < last) × All (λ d. last ≤ away d) drivers)

  All-at :
      (m n : ℕ) (ds : List DriverInfo) → m ≡ n → All (λ d. m ≤ away d) ds → All (λ d. n ≤ away d) ds
  All-at m n [] e a = tt
  All-at m n (d ∷ ds) e a = (omega arith, All-at m n ds e a.1)

  Selects-wider :
      (range : ℕ) (drivers : List DriverInfo) (r : Option DriverInfo × List DriverInfo)
      → range ≤ max_range
      → All (λ d. range ≤ away d) drivers
      → Selects (range + 10) drivers r
      → Selects range drivers r
  Selects-wider range drivers r low far (inr nothing) = inr nothing
  Selects-wider range drivers r low far (inl (before, d, after, k, ring, s, e, n, near, a, inl z)) =
      inl (
        before,
        d,
        after,
        suc k,
        ring,
        s,
        e,
        omega arith,
        near,
        a,
        inr (omega arith, All-at range (ring - 10) drivers (omega arith) far),
      )
  Selects-wider range drivers r low far (inl (before, d, after, k, ring, s, e, n, near, a, inr z)) =
      inl (before, d, after, suc k, ring, s, e, omega arith, near, a, inr z)

  Takes-Selects :
      (range : ℕ) (drivers before after : List DriverInfo) (d : DriverInfo)
      → drivers ≡ before ++ d ∷ after
      → away d < range
      → All (λ d. range ≤ away d) before
      → Selects range drivers (some d, before ++ after)
  Takes-Selects range drivers before after d s near a =
      inl (before, d, after, 0, range, s, refl, omega arith, near, a, inl refl)

  select_within-Selects :
      (wider range : ℕ) (drivers : List DriverInfo)
      → max_range < range + 10 * wider
      → Selects range drivers (select_within f wider position range drivers)
  unfolding select_within
  select_within-Selects zero range drivers h = elim (take_in_range-Takes range drivers) [
    | inl (e, far) ↦ rw (e, select_within) (inr (range, refl, omega arith, far))
    | inr (before, d, after, s, e, near, a) ↦
        rw (e, select_within) (Takes-Selects range drivers before after d s near a)
  ]
  select_within-Selects (suc wider) range drivers h = elim (take_in_range-Takes range drivers) [
    | inr (before, d, after, s, e, near, a) ↦
        rw (e, select_within) (Takes-Selects range drivers before after d s near a)
    | inl (e, far) ↦
        rw (e, select_within)
          (elim (Bool-cases (ltb max_range range)) [
            | inl high ↦ rw (high, select_within) (inr (range, refl, ground arith, far))
            | inr low ↦
                rw (low, select_within)
                  (Selects-wider range drivers _ (ground arith) far
                    (select_within-Selects wider (range + 10) drivers (omega arith)))
          ])
  ]

  -- From any first range the choice ends. A chosen driver is taken out of the list; it lies in
  -- the ring, the drivers before it in the list do not, and no driver at all lies in an earlier
  -- ring, none of which goes beyond 1010. Where none is chosen the list is as it was, and all
  -- drivers lie beyond a range above 1000.
  pub select_driver-Selects :
      (drivers : List DriverInfo) (range : ℕ)
      → Selects range drivers (select_driver f position drivers range)
  unfolding select_driver
  select_driver-Selects drivers range =
      select_within-Selects (widenings f range) range drivers (omega arith)

  -- The recursion of the source: no round is lost to the bound on the number of rounds.
  select_driver_lem :
      (drivers : List DriverInfo) (range : ℕ)
      → select_driver f position drivers range ≡ elim (take_in_range f position range drivers) [
        | some (driver, rest) ↦ (some driver, rest)
        | none ↦
            if ltb max_range range
            then (none, drivers)
            else select_driver f position drivers (range + 10)
      ]
  unfolding select_driver select_within
  select_driver_lem drivers range = elim (Bool-cases (ltb max_range range)) [
    | inl high ↦
        let last : widenings f range ≡ 0 = ground arith in rw (last, select_within) (ground arith)
    | inr low ↦
        let more : widenings f range ≡ suc (widenings f (range + 10)) = ground arith in
        rw (more, select_within) (ground arith)
  ]
