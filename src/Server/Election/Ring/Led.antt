-- ===== src/Server/Election/Ring/Led.antt =====
-- Servers that have taken over a leader, compared with what they were before the election.
use concu_ride.Prelude.{
  String, Bool, ℕ, ◌≡◌, inl, inr, refl, ap₂, sym, subst, ◌∙◌, true, List, [], ◌∷◌, Has, All, ◌==◌,
  nat_eq, if◌then◌else◌,
}
use concu_ride.Server.Election.Ring.Finding.{IsReady, IsLinked}
use concu_ride.Server.{Server}
use concu_ride.Server.Election.Net.{put}
use concu_ride.Server.Election.Ring.Steps.{lasting, IsLed}
use concu_ride.Server.Election.Ring.Round.{first_or, Chain, put_others}

pub Chain-All : (P : ℕ → Type 0) (xs : List ℕ) (last : ℕ) → Chain (λ x m. P x) xs last → All P xs
Chain-All P [] last c = tt
Chain-All P (x ∷ xs) last c = (c.0, Chain-All P xs last c.1)

Chain-zip :
    (P Q R : ℕ → ℕ → Type 0) (xs : List ℕ) (last : ℕ)
    → ((x m : ℕ) → Has x xs → P x m → Q x m → R x m)
    → Chain P xs last
    → Chain Q xs last
    → Chain R xs last
Chain-zip P Q R [] last f c d = tt
Chain-zip P Q R (x ∷ xs) last f c d = (
  f x (first_or xs last) (inl refl) c.0 d.0,
  Chain-zip P Q R xs last (λ y m h. f y m (inr h)) c.1 d.1,
)

-- `IsLed` does not depend on what the first time round has changed.
pub IsLed-before :
    (leader_id x : ℕ) (s v t : Server)
    → s.id ≡ x
    → v.id ≡ x
    → v.im_leader ≡ s.im_leader
    → lasting v ≡ lasting s
    → IsLed leader_id v t
    → IsLed leader_id s t
IsLed-before leader_id x s v t e f same sender led = (
  led.0,
  led.1 ∙ ap₂ (λ n b. if leader_id == n then true else b) (f ∙ sym e) same,
  led.2 ∙ sender,
)

pub All-IsLed :
    (up : String → Bool) (servers now after : ℕ → Server) (i d leader_id last : ℕ) (t : Server)
    (ids : List ℕ)
    → ¬ Has i ids
    → Chain (λ x m. IsReady up d (servers x) x m) ids last
    → Chain (λ x m. IsLinked up (servers x) (now x) x m) ids last
    → Chain (λ x m. IsLed leader_id (now x) (after x)) ids last
    → All (λ x. IsLed leader_id (servers x) (put after i t x)) ids
All-IsLed up servers now after i d leader_id last t ids away ready linked led =
    let Both : ℕ → ℕ → Type 0 =
      λ x m. IsLinked up (servers x) (now x) x m × IsLed leader_id (now x) (after x) in
    let Led : ℕ → Type 0 = λ x. IsLed leader_id (servers x) (put after i t x) in
    Chain-All Led ids last (
      Chain-zip (λ x m. IsReady up d (servers x) x m) Both (λ x m. Led x) ids last
        (λ x m h r q.
          subst (λ v. IsLed leader_id (servers x) v) (sym (put_others after i t ids x away h))
            (IsLed-before leader_id x (servers x) (now x) (after x) r.0 q.0.0 q.0.4 q.0.5 q.1))
        ready
        (Chain-zip (λ x m. IsLinked up (servers x) (now x) x m)
          (λ x m. IsLed leader_id (now x) (after x)) Both ids last (λ x m h q g. (q, g)) linked
          led))
