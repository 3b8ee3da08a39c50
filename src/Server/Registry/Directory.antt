-- ===== src/Server/Registry/Directory.antt =====
-- The specification of the registry: a directory gives each member, a driver or a passenger, at
-- most one id, and counts the ids given.
use concu_ride.Prelude.{
  ℕ, ◌+◌, ◌≤◌, ◌<◌, String, ◌≡◌, refl, Bool, true, false, Option, none, some, arith, ◌==◌,
  string_eq, if◌then◌else◌, u64_mod, inc, inc_lem,
}

pub data Member : Type 0 where
  driver : String → Member
  passenger : String → Member

abbrev pub same_member : Member → Member → Bool
same_member (driver a) (driver b) = a == b
same_member (passenger a) (passenger b) = a == b
same_member (driver a) (passenger b) = false
same_member (passenger a) (driver b) = false

pub same_member_iff :
    (a b : Member) → (same_member a b ≡ true → a ≡ b) × (a ≡ b → same_member a b ≡ true)
same_member_iff (driver a) (driver b) = ground (arith, string_eq.eq_law a b)
same_member_iff (passenger a) (passenger b) = ground (arith, string_eq.eq_law a b)
same_member_iff (driver a) (passenger b) = ground arith
same_member_iff (passenger a) (driver b) = ground arith

pub record Directory : Type 0 where
  pub count : ℕ
  pub id_of : Member → Option ℕ

-- A new member gets the next id; a known one keeps its own.
abbrev pub enrol : Directory → Member → Directory
enrol d m = elim (d.id_of m) [
  | some _ ↦ d
  | none ↦ record {
    count = inc d.count;
    id_of = λ n. if same_member m n then some (inc d.count) else d.id_of n;
  }
]

-- Ids are between 1 and the counter, and no two members share one.
pub record IsUnique (d : Directory) : Type 0 where
  pub in_range : (m : Member) (i : ℕ) → d.id_of m ≡ some i → (1 ≤ i) × (i ≤ d.count)
  pub injective : (m n : Member) (i : ℕ) → d.id_of m ≡ some i → d.id_of n ≡ some i → m ≡ n

module _ (d : Directory) (m : Member) (room : d.count + 1 < u64_mod) (u : IsUnique d) where
  new-IsUnique :
      d.id_of m ≡ none
      → IsUnique (record {
        count = inc d.count;
        id_of = λ n. if same_member m n then some (inc d.count) else d.id_of n;
      })
  new-IsUnique e = record {
    in_range = λ n i h. ground (arith, u.in_range n i, inc_lem d.count room);
    injective = λ n k i h g. ground (
      arith,
      u.in_range n i,
      u.in_range k i,
      u.injective n k i,
      inc_lem d.count room,
      same_member_iff m n,
      same_member_iff m k,
    );
  }

  pub enrol-IsUnique : IsUnique (enrol d m)
  enrol-IsUnique = go (d.id_of m) refl
    where
      go : (o : Option ℕ) → d.id_of m ≡ o → IsUnique (enrol d m)
      go none e = rw (e, enrol) (new-IsUnique e)
      go (some i) e = rw (e, enrol) u

pub Directory-path :
    (c d : Directory) → c.count ≡ d.count → ((m : Member) → c.id_of m ≡ d.id_of m) → c ≡ d
Directory-path c d p q = λ i. record { count = p i; id_of = λ m. q m i }
