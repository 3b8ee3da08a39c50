-- ===== src/Prelude/Lists.antt =====
-- Lists: length over the native numbers, `contains`, `retain`, and predicates by recursion.
use Prim.Native.Nat.{ℕ, suc}
use mathlib.Core.Path.{◌≡◌}
use mathlib.Core.Logic.{◌⊎◌, inl, inr}
use mathlib.Core.Bool.{Bool, true, false, ◌||◌}
use mathlib.Core.List.{List, [], ◌∷◌, ◌++◌}
use native.Mathlib.Omega.{arith}
use concu_ride.Prelude.Tests.{Bool-cases, Eq, ◌==◌, if◌then◌else◌}

module _ {ℓ} {A : Type ℓ} where
  abbrev pub length : List A → ℕ
  length [] = 0
  length (x ∷ xs) = suc (length xs)

module _ {A : Type 0} where
  -- The value stands in the list.
  abbrev pub Has : A → List A → Type 0
  Has a [] = ⊥
  Has a (x ∷ xs) = (x ≡ a) ⊎ Has a xs

  -- Every value of the list has the property.
  abbrev pub All : (A → Type 0) → List A → Type 0
  All P [] = Unit
  All P (x ∷ xs) = P x × All P xs

  -- What always holds, holds of every value.
  pub All-always : (P : A → Type 0) (xs : List A) → ((x : A) → P x) → All P xs
  All-always P [] h = tt
  All-always P (x ∷ xs) h = (h x, All-always P xs h)

  pub All-map : (P Q : A → Type 0) (xs : List A) → ((x : A) → P x → Q x) → All P xs → All Q xs
  All-map P Q [] h a = tt
  All-map P Q (x ∷ xs) h a = (h x a.0, All-map P Q xs h a.1)

  pub All-append : (P : A → Type 0) (xs ys : List A) → All P xs → All P ys → All P (xs ++ ys)
  All-append P [] ys a b = b
  All-append P (x ∷ xs) ys a b = (a.0, All-append P xs ys a.1 b)

  pub All-Has : (P : A → Type 0) (a : A) (xs : List A) → All P xs → Has a xs → P a
  All-Has P a [] h m = absurd m
  All-Has P a (x ∷ xs) h (inl e) = subst_at e h.0
    where
      subst_at : x ≡ a → P x → P a
      subst_at e p = rw e at p
  All-Has P a (x ∷ xs) h (inr m) = All-Has P a xs h.1 m

module _ {A : Type 0} where
  -- `try_send` fails where the mailbox is full, and the message is lost: `room` says, in order,
  -- for which messages there is room.
  unfoldable pub kept : List Bool → List A → List A
  kept [] msgs = []
  kept (_ ∷ _) [] = []
  kept (true ∷ room) (msg ∷ msgs) = msg ∷ kept room msgs
  kept (false ∷ room) (_ ∷ msgs) = kept room msgs

  pub kept-All :
      (P : A → Type 0) (room : List Bool) (msgs : List A) → All P msgs → All P (kept room msgs)
  unfolding kept
  kept-All P [] msgs a = tt
  kept-All P (r ∷ room) [] a = tt
  kept-All P (true ∷ room) (msg ∷ msgs) a = (a.0, kept-All P room msgs a.1)
  kept-All P (false ∷ room) (msg ∷ msgs) a = kept-All P room msgs a.1

module _ {A : Type 0} ⦃e : Eq A⦄ where
  -- `Vec::contains`.
  unfoldable pub contains : List A → A → Bool
  contains [] a = false
  contains (x ∷ xs) a = x == a || contains xs a

  -- `retain(|x| x != a)`.
  unfoldable pub without : A → List A → List A
  without a [] = []
  without a (x ∷ xs) = let rest = without a xs in if x == a then rest else x ∷ rest

  pub contains-without :
      (a b : A) (xs : List A)
      → contains (without a xs) b ≡ (if a == b then false else contains xs b)
  unfolding contains without
  contains-without a b [] = ground arith
  contains-without a b (x ∷ xs) =
      ground (arith, e.eq_law a b, e.eq_law x a, e.eq_law x b, contains-without a b xs)

  pub contains-snoc :
      (xs : List A) (a b : A) → contains (xs ++ b ∷ []) a ≡ (contains xs a || b == a)
  unfolding contains
  contains-snoc [] a b = ground arith
  contains-snoc (x ∷ xs) a b = ground (arith, contains-snoc xs a b)

  pub contains-Has : (xs : List A) (a : A) → contains xs a ≡ true → Has a xs
  unfolding contains
  contains-Has [] a h = absurd (cc)
  contains-Has (x ∷ xs) a h = elim (Bool-cases (x == a)) [
    | inl here ↦ inl ((e.eq_law x a).0 here)
    | inr other ↦ inr (contains-Has xs a (ground arith))
  ]

  pub Has-contains : (xs : List A) (a : A) → Has a xs → contains xs a ≡ true
  unfolding contains
  Has-contains [] a h = absurd h
  Has-contains (x ∷ xs) a h = ground (arith, e.eq_law x a, Has-contains xs a)
