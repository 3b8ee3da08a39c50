-- ===== src/Ride/Loop.antt =====
-- A handler that moves an actor one step and sends the same message to the actor again until it
-- has arrived: `Traveling` of the passenger, `PickUpPassenger` and `RideToDestination` of the
-- driver.
use concu_ride.Prelude.{
  ℕ, zero, suc, ◌≡◌, ◌≢◌, inl, inr, refl, sym, subst, ap, ◌∙◌, Bool, true, false, not, ◌&&◌, ◌==◌,
  nat_eq, nat_beq_iff, Option, none, some, arith, Bool-cases,
}
use concu_ride.Ride.{Position, step_towards, walk}

abbrev pub same_position : Position → Position → Bool
same_position p q = p.0 == q.0 && p.1 == q.1

pub same_position-eq : (p q : Position) → same_position p q ≡ true → p ≡ q
same_position-eq p q h =
    let e : (p.0 ≡ q.0) × (p.1 ≡ q.1) = ground (arith, nat_beq_iff p.0 q.0, nat_beq_iff p.1 q.1) in
    (λ i. (e.0 i, e.1 i))

pub same_position_refl : (p q : Position) → p ≡ q → same_position p q ≡ true
same_position_refl p q h = ground (
  arith,
  nat_beq_iff p.0 q.0,
  nat_beq_iff p.1 q.1,
  ap (λ (x : Position). x.0) h,
  ap (λ (x : Position). x.1) h,
)

-- The message is handled, again for each time that it is sent: the state and the effects of the
-- last time, or `none` if it is sent once more after `fuel` times.
unfoldable pub loop : {S E : Type 0} → (S → S × E) → (E → Bool) → ℕ → S → Option (S × E)
loop handle resends zero s = none
loop handle resends (suc fuel) s =
    let (t, effects) = handle s in
    elim (resends effects) [ true ↦ loop handle resends fuel t | false ↦ some (t, effects) ]

-- What such a handler has in common, for a destination `target` and the states `Inv`.
pub record IsWalk {S E : Type 0} (handle : S → S × E) (resends : E → Bool) (place : S → Position)
    (put : S → Position → S) (target : Position) (Inv : S → Type 0) : Type 0 where
  pub again :
      (s : S)
      → Inv s
      → resends (handle s).1 ≡ not (same_position (step_towards (place s) target) target)
  pub moves :
      (s : S)
      → Inv s
      → resends (handle s).1 ≡ true
      → (handle s).0 ≡ put s (step_towards (place s) target)
  pub keeps : (s : S) (p : Position) → Inv s → Inv (put s p)
  pub place-put : (s : S) (p : Position) → place (put s p) ≡ p
  pub put-place : (s : S) → put s (place s) ≡ s
  pub put-put : (s : S) (p q : Position) → put (put s p) q ≡ put s q

module _ {S E : Type 0} (handle : S → S × E) (resends : E → Bool) (place : S → Position)
    (put : S → Position → S) (target : Position) (Inv : S → Type 0)
    (w : IsWalk handle resends place put target Inv) where
  loop_again :
      (fuel : ℕ) (s : S)
      → Inv s
      → resends (handle s).1 ≡ true
      → loop handle resends (suc fuel) s
        ≡ loop handle resends fuel (put s (step_towards (place s) target))
  unfolding loop
  loop_again fuel s i e = rw (e, loop) (ap (loop handle resends fuel) (w.moves s i e))

  loop_last :
      (fuel : ℕ) (s : S)
      → resends (handle s).1 ≡ false
      → loop handle resends (suc fuel) s ≡ some (handle s)
  unfolding loop
  loop_last fuel s e = rw (e, loop)

  -- Where no walk arrives the message is sent for ever.
  pub loop_never :
      (fuel : ℕ) (s : S)
      → Inv s
      → ((n : ℕ) → walk n (place s) target ≢ target)
      → loop handle resends fuel s ≡ none
  unfolding loop
  loop_never zero s i h = refl
  loop_never (suc fuel) s i h = elim (Bool-cases (resends (handle s).1)) [
    | inl e ↦
        let next = put s (step_towards (place s) target) in
        loop_again fuel s i e
        ∙ loop_never fuel next (w.keeps s _ i)
            (λ n. subst (λ p. walk n p target ≢ target) (sym (w.place-put s _)) (h (suc n)))
    | inr e ↦ absurd (
        h 1 (same_position-eq (step_towards (place s) target) target (ground (arith, w.again s i))))
  ]

  -- How the loop ends: by the handler, one step before the destination, with only the place
  -- changed up to there.
  abbrev pub Ends : S → Option (S × E) → Type 0
  Ends s r = (p : Position) × (step_towards p target ≡ target) × (r ≡ some (handle (put s p)))

  Ends-now :
      (fuel : ℕ) (s : S)
      → Inv s
      → resends (handle s).1 ≡ false
      → Ends s (loop handle resends (suc fuel) s)
  Ends-now fuel s i e = (
    place s,
    same_position-eq (step_towards (place s) target) target (ground (arith, w.again s i)),
    loop_last fuel s e ∙ ap (λ t. some (handle t)) (sym (w.put-place s)),
  )

  pub loop-Ends :
      (n : ℕ) (s : S)
      → Inv s
      → walk (suc n) (place s) target ≡ target
      → Ends s (loop handle resends (suc n) s)
  loop-Ends zero s i h =
      Ends-now zero s i
        (w.again s i ∙ ap not (same_position_refl (step_towards (place s) target) target h))
  loop-Ends (suc n) s i h = elim (Bool-cases (resends (handle s).1)) [
    | inr e ↦ Ends-now (suc n) s i e
    | inl e ↦
        let next = put s (step_towards (place s) target) in
        let (p, a, b) =
          loop-Ends n next (w.keeps s _ i)
            (subst (λ q. walk (suc n) q target ≡ target) (sym (w.place-put s _)) h) in
        (p, a, loop_again (suc n) s i e ∙ b ∙ ap (λ t. some (handle t)) (w.put-put s _ p))
  ]
