-- ===== src/Server/Election/Losses/Left.antt =====
-- How many servers are not known to be disconnected: fewer with every check that finds no ACK.
use concu_ride.Prelude.{
  ℕ, zero, suc, ◌≤◌, ◌<◌, ◌≡◌, ◌≢◌, inl, inr, subst, false, List, [], ◌∷◌, ◌++◌, contains,
  contains-snoc, ◌==◌, nat_eq, nat_beq_iff, arith, Bool-cases, if◌then◌else◌,
}

-- The servers from 1 to `k` that are not known to be disconnected.
unfoldable pub left : ℕ → List ℕ → ℕ
left zero disconnected = 0
left (suc k) disconnected =
    let rest = left k disconnected in if contains disconnected (suc k) then rest else suc rest

pub left-bounded : (k : ℕ) (d : List ℕ) → left k d ≤ k
unfolding left
left-bounded zero d = omega arith
left-bounded (suc k) d = ground (arith, left-bounded k d)

left-snoc-le : (k : ℕ) (d : List ℕ) (n : ℕ) → left k (d ++ n ∷ []) ≤ left k d
unfolding left
left-snoc-le zero d n = omega arith
left-snoc-le (suc k) d n = ground (arith, left-snoc-le k d n, contains-snoc d (suc k) n)

pub left-snoc :
    (k : ℕ) (d : List ℕ) (n : ℕ)
    → 1 ≤ n
    → n ≤ k
    → contains d n ≡ false
    → left k (d ++ n ∷ []) < left k d
unfolding left
left-snoc zero d n a b h = absurd (omega arith)
left-snoc (suc k) d n a b h = elim (Bool-cases (n == suc k)) [
  | inl e ↦
      let up : contains d (suc k) ≡ false =
        subst (λ m. contains d m ≡ false) ((nat_beq_iff n (suc k)).0 e) h in
      ground (arith, left-snoc-le k d n, contains-snoc d (suc k) n)
  | inr e ↦
      let ne : n ≢ suc k = λ q. absurd (ground (arith, nat_beq_iff n (suc k))) in
      let below : n ≤ k = omega arith in
      ground (arith, left-snoc k d n a below h, contains-snoc d (suc k) n)
]
