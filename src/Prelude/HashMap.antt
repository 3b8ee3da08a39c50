-- ===== src/Prelude/HashMap.antt =====
-- `std::collections::HashMap` as a list of entries. Iteration follows the list: the order that
-- the standard library leaves open is one fixed here, and the laws do not depend on it.
use mathlib.Core.Path.{◌≡◌, refl, ap}
use mathlib.Core.Logic.{inl, inr}
use mathlib.Core.Bool.{Bool, true, false}
use mathlib.Core.Option
use mathlib.Core.Option.{Option, none, some}
use mathlib.Core.List.{List, [], ◌∷◌}
use native.Mathlib.Omega.{arith}
use concu_ride.Prelude.Tests.{Eq, ◌==◌, if◌then◌else◌}
use concu_ride.Prelude.Lists.{Has}

abbrev pub HashMap {ℓ κ} : Type ℓ → Type κ → Type (ℓ ⊔ κ)
HashMap K V = List (K × V)

module _ {ℓ κ} {K : Type ℓ} {V : Type κ} where
  -- `values().cloned().collect()`
  unfoldable pub values : HashMap K V → List V
  values [] = []
  values ((j, w) ∷ m) = w ∷ values m

module _ {ℓ κ} {K : Type ℓ} {V : Type κ} ⦃e : Eq K⦄ where
  unfoldable pub get : HashMap K V → K → Option V
  get [] k = none
  get ((j, v) ∷ m) k = if j == k then some v else get m k

  unfoldable pub insert : HashMap K V → K → V → HashMap K V
  insert [] k v = (k, v) ∷ []
  insert ((j, w) ∷ m) k v = if j == k then (k, v) ∷ m else (j, w) ∷ insert m k v

  unfoldable pub remove : HashMap K V → K → HashMap K V
  remove [] k = []
  remove ((j, w) ∷ m) k = let rest = remove m k in if j == k then rest else (j, w) ∷ rest

  unfoldable pub contains_key : HashMap K V → K → Bool
  unfolding get
  contains_key m k = elim (get m k) [ none ↦ false | some _ ↦ true ]

  -- `if let Some(v) = m.get_mut(k) { *v = f(v) }`
  unfoldable pub modify : HashMap K V → K → (V → V) → HashMap K V
  modify [] k f = []
  modify ((j, v) ∷ m) k f = if j == k then (j, f v) ∷ m else (j, v) ∷ modify m k f

  pub get-insert :
      (m : HashMap K V) (k : K) (v : V) (j : K)
      → get (insert m k v) j ≡ (if k == j then some v else get m j)
  unfolding get insert
  get-insert [] k v j = refl
  get-insert ((i, w) ∷ m) k v j =
      ground (arith, e.eq_law k j, e.eq_law i k, e.eq_law i j, get-insert m k v j)

  pub get-remove :
      (m : HashMap K V) (k j : K) → get (remove m k) j ≡ (if k == j then none else get m j)
  unfolding get remove
  get-remove [] k j = ground arith
  get-remove ((i, w) ∷ m) k j =
      ground (arith, e.eq_law k j, e.eq_law i k, e.eq_law i j, get-remove m k j)

  pub get-modify :
      (m : HashMap K V) (k : K) (f : V → V) (j : K)
      → get (modify m k f) j ≡ (if k == j then Option.map f (get m j) else get m j)
  unfolding get modify
  get-modify [] k f j = ground arith
  get-modify ((i, w) ∷ m) k f j =
      ground (arith, e.eq_law k j, e.eq_law i k, e.eq_law i j, get-modify m k f j)

module _ {K V : Type 0} ⦃e : Eq K⦄ where
  -- No key stands twice, which `HashMap` gives for nothing.
  abbrev pub Distinct : HashMap K V → Type 0
  Distinct [] = Unit
  Distinct ((k, v) ∷ m) = (get m k ≡ none) × Distinct m

  pub insert-Distinct : (m : HashMap K V) (k : K) (v : V) → Distinct m → Distinct (insert m k v)
  unfolding insert get
  insert-Distinct [] k v d = (refl, tt)
  insert-Distinct ((i, w) ∷ m) k v d =
      ground (arith, e.eq_law i k, e.eq_law k i, insert-Distinct m k v d.1, get-insert m k v i)

  pub remove-Distinct : (m : HashMap K V) (k : K) → Distinct m → Distinct (remove m k)
  unfolding remove
  remove-Distinct [] k d = tt
  remove-Distinct ((i, w) ∷ m) k d = ground (arith, remove-Distinct m k d.1, get-remove m k i)

  pub modify-Distinct : (m : HashMap K V) (k : K) (f : V → V) → Distinct m → Distinct (modify m k f)
  unfolding modify
  modify-Distinct [] k f d = tt
  modify-Distinct ((i, w) ∷ m) k f d = ground (arith, modify-Distinct m k f d.1, get-modify m k f i)

  -- What a key holds is among the values.
  pub get-values : (m : HashMap K V) (k : K) (v : V) → get m k ≡ some v → Has v (values m)
  unfolding get values
  get-values [] k v h = cc
  get-values ((i, w) ∷ m) k v h = ground (arith, get-values m k v)

  -- And a value is held by some key.
  pub values-get :
      (m : HashMap K V) (v : V) → Distinct m → Has v (values m) → (k : K) × (get m k ≡ some v)
  unfolding get values
  values-get [] v d h = absurd h
  values-get ((i, w) ∷ m) v d (inl p) = (i, rw ((e.eq_law i i).1 refl) (ap some p))
  values-get ((i, w) ∷ m) v d (inr h) =
      let (k, q) = values-get m v d.1 h in (k, ground (arith, e.eq_law i k))
