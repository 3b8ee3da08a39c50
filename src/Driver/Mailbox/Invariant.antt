-- ===== src/Driver/Mailbox/Invariant.antt =====
-- What every message, and every one that arrives, leaves of a driver's ride.
use concu_ride.Prelude.{
  ◌≤◌, ◌≡◌, ◌⊎◌, inl, inr, refl, sym, subst, Bool, true, false, List, [], ◌∷◌, All-append,
  if◌then◌else◌, arith, kept, kept-All,
}
use concu_ride.Driver.{Driver, Effect}
use concu_ride.Driver.Startup.{set_receiver_msg, recovery_msg, register_msg}
use concu_ride.Driver.Handlers.{set_receiver}
use concu_ride.Driver.Mailbox.{
  Msg, process, outside, own, Net, handle, handle_process, sent, State, after, Step, handles,
  arrives, Steps, here, next,
}
use concu_ride.Driver.Mailbox.Pending.{
  pending, Idle, Quiet, One, Starting, kept-One, One-Quiet, Quiet-then-One, Starting-Quiet,
  pending-Quiet, pending-Starting, pending-One,
}
use concu_ride.Driver.Mailbox.Handling.{
  SameRide, Over, Free, Undisturbed, Idle-Free, Idle-Undisturbed, recovery-Free,
}
use concu_ride.Driver.Mailbox.Riding.{Onward, Fits-Onward}

-- A driver that is free has no message of a ride, and one that is busy one at most, to the
-- destination of its ride.
abbrev pub IsSound : State → Type 0
IsSound s =
    ((s.driver.is_available ≡ true) × (Starting s.mailbox ⊎ Quiet s.mailbox))
    ⊎ ((s.driver.is_available ≡ false) × One s.driver.destination s.mailbox)

abbrev pub Kept : Driver → Driver → Type 0
Kept d e = (e.is_available ≡ false) × SameRide d e

-- What a step leaves of a ride, if there is one.
abbrev Goes : Driver → State → Type 0
Goes d t = IsSound t × ((d.is_available ≡ false) → Kept d t.driver ⊎ Over d t.driver)

not_free : {b : Bool} {A : Type 0} → b ≡ true → b ≡ false → A
not_free h k = absurd (cc (h, k))

module _ (d : Driver) (rest : List Msg) (room : List Bool) where
  later : (effects : List Effect) → Quiet (sent effects) → Quiet (kept room (sent effects))
  later effects q = kept-All Idle room (sent effects) q

  Free-Sound : (r : Driver × List Effect) → Quiet rest → Free r → IsSound (after d rest room r)
  unfolding after
  Free-Sound r q (inl (free, s)) =
      inl (free, inr (All-append Idle rest (kept room (sent r.1)) q (later r.1 s)))
  Free-Sound r q (inr (busy, one)) = inr (
    busy,
    Quiet-then-One r.0.destination rest (kept room (sent r.1)) q
        (kept-One r.0.destination room (sent r.1) one),
  )

  Undisturbed-Goes :
      (r : Driver × List Effect)
      → One d.destination rest
      → Undisturbed d r
      → Goes d (after d rest room r)
  unfolding after
  Undisturbed-Goes r one (busy, same, q) = (
    inr (
      busy,
      One-Quiet r.0.destination rest (kept room (sent r.1))
          (subst (λ there. One there rest) (sym same.0) one) (later r.1 q),
    ),
    λ _. inl (busy, same),
  )

  Onward-Goes : (r : Driver × List Effect) → Quiet rest → Onward d r → Goes d (after d rest room r)
  unfolding after
  Onward-Goes r q (inl (busy, same, one)) = (
    inr (
      busy,
      Quiet-then-One r.0.destination rest (kept room (sent r.1)) q (
          kept-One r.0.destination room (sent r.1)
            (subst (λ there. One there (sent r.1)) (sym same.0) one)),
    ),
    λ _. inl (busy, same),
  )
  Onward-Goes r q (inr (over, s)) = (
    inl (over.0, inr (All-append Idle rest (kept room (sent r.1)) q (later r.1 s))),
    λ _. inr over,
  )

free-Goes : (d : Driver) (t : State) → d.is_available ≡ true → IsSound t → Goes d t
free-Goes d t free sound = (sound, λ busy. not_free free busy)

Starting-Sound :
    (d : Driver) (msg : Msg) (rest : List Msg) (net : Net) (room : List Bool)
    → d.is_available ≡ true
    → Starting (msg ∷ rest)
    → IsSound (after d rest room (handle d msg net))
unfolding handle handle_process after sent set_receiver
Starting-Sound d (process (set_receiver_msg receiver)) rest net room free s =
    inl (free, inl (Starting-Quiet rest (kept room []) s (kept-All Idle room [] tt)))
Starting-Sound d (process (recovery_msg saved socket)) rest net room free s =
    Free-Sound d rest room (handle d (process (recovery_msg saved socket)) net) s
      (recovery-Free d net saved socket)
Starting-Sound d (process (register_msg _)) rest net room free s = absurd s
Starting-Sound d (outside _) rest net room free s = absurd s
Starting-Sound d (own _) rest net room free s = absurd s

handles-Goes :
    (d : Driver) (msg : Msg) (rest : List Msg) (net : Net) (room : List Bool)
    → IsSound (record { driver = d; mailbox = msg ∷ rest })
    → Goes d (after d rest room (handle d msg net))
handles-Goes d msg rest net room (inl (free, inl s)) =
    free-Goes d (after d rest room (handle d msg net)) free
      (Starting-Sound d msg rest net room free s)
handles-Goes d msg rest net room (inl (free, inr (idle, q))) =
    free-Goes d (after d rest room (handle d msg net)) free
      (Free-Sound d rest room (handle d msg net) q (Idle-Free d net msg idle free))
handles-Goes d msg rest net room (inr (busy, inl (idle, one))) =
    Undisturbed-Goes d rest room (handle d msg net) one (Idle-Undisturbed d net msg idle busy)
handles-Goes d msg rest net room (inr (busy, inr (fits, q))) =
    Onward-Goes d rest room (handle d msg net) q (Fits-Onward d net msg fits busy)

pub Step-Goes : (s t : State) → Step s t → IsSound s → Goes s.driver t
Step-Goes s t (handles d msg rest net room) sound = handles-Goes d msg rest net room sound
Step-Goes s t (arrives d mailbox msg) (inl (free, inl q)) =
    free-Goes d t free (inl (free, inl (Starting-Quiet mailbox (outside msg ∷ []) q (tt, tt))))
Step-Goes s t (arrives d mailbox msg) (inl (free, inr q)) =
    free-Goes d t free (inl (free, inr (All-append Idle mailbox (outside msg ∷ []) q (tt, tt))))
Step-Goes s t (arrives d mailbox msg) (inr (busy, one)) = (
  inr (busy, One-Quiet d.destination mailbox (outside msg ∷ []) one (tt, tt)),
  λ _. inl (busy, (refl, refl)),
)

pub Steps-Sound : (s t : State) → Steps s t → IsSound s → IsSound t
Steps-Sound s t here sound = sound
Steps-Sound s t (next {t = u} steps step) sound =
    (Step-Goes u t step (Steps-Sound s u steps sound)).0

-- A driver that is free has no message of a ride in its mailbox, and one that is busy one at most.
pub Sound-pending :
    (s : State) → IsSound s → pending s.mailbox ≤ (if s.driver.is_available then 0 else 1)
Sound-pending s (inl (free, inl q)) = rw free (omega (arith, pending-Starting s.mailbox q))
Sound-pending s (inl (free, inr q)) = rw free (omega (arith, pending-Quiet s.mailbox q))
Sound-pending s (inr (busy, one)) = rw busy (pending-One s.driver.destination s.mailbox one)
