-- ===== src/Driver/Mailbox/Pending.antt =====
-- The messages of a ride in a driver's mailbox.
use concu_ride.Prelude.{
  ℕ, suc, ◌≤◌, ◌≡◌, refl, ◌⊎◌, inl, inr, Bool, true, false, Option, some, List, [], ◌∷◌, ◌++◌, All,
  All-append, arith, kept, kept-All,
}
use concu_ride.Ride.{Position}
use concu_ride.Driver.{reconnect, start_ride, pick_up_passenger, ride_to_destination, end_ride}
use concu_ride.Driver.Startup.{set_receiver_msg, recovery_msg, register_msg}
use concu_ride.Driver.Mailbox.{Msg, process, outside, own}

-- How many messages of a ride the list holds.
unfoldable pub pending : List Msg → ℕ
pending [] = 0
pending (own start_ride ∷ rest) = suc (pending rest)
pending (own pick_up_passenger ∷ rest) = suc (pending rest)
pending (own ride_to_destination ∷ rest) = suc (pending rest)
pending (own (end_ride _) ∷ rest) = suc (pending rest)
pending (own (reconnect _) ∷ rest) = pending rest
pending (outside _ ∷ rest) = pending rest
pending (process _ ∷ rest) = pending rest

-- A message of a ride to the destination.
abbrev pub Fits : Option Position → Msg → Type 0
Fits destination (own start_ride) = Unit
Fits destination (own pick_up_passenger) = Unit
Fits destination (own ride_to_destination) = Unit
Fits destination (own (end_ride dst)) = destination ≡ some dst
Fits destination (own (reconnect _)) = ⊥
Fits destination (outside _) = ⊥
Fits destination (process _) = ⊥

-- Any other message, but the one that the process sends for recovery.
abbrev pub Idle : Msg → Type 0
Idle (own start_ride) = ⊥
Idle (own pick_up_passenger) = ⊥
Idle (own ride_to_destination) = ⊥
Idle (own (end_ride _)) = ⊥
Idle (own (reconnect _)) = Unit
Idle (outside _) = Unit
Idle (process (set_receiver_msg _)) = Unit
Idle (process (recovery_msg _ _)) = ⊥
Idle (process (register_msg _)) = Unit

abbrev pub Quiet : List Msg → Type 0
Quiet = All Idle

-- At most one message of a ride.
abbrev pub One : Option Position → List Msg → Type 0
One destination [] = Unit
One destination (msg ∷ rest) =
    (Idle msg × One destination rest) ⊎ (Fits destination msg × Quiet rest)

-- The mailbox before the message for recovery.
abbrev pub Starting : List Msg → Type 0
Starting (process (set_receiver_msg _) ∷ rest) = Starting rest
Starting (process (recovery_msg _ _) ∷ rest) = Quiet rest
Starting _ = ⊥

module _ (destination : Option Position) where
  pub Quiet-One : (msgs : List Msg) → Quiet msgs → One destination msgs
  Quiet-One [] q = tt
  Quiet-One (msg ∷ msgs) q = inl (q.0, Quiet-One msgs q.1)

  pub kept-One :
      (room : List Bool) (msgs : List Msg) → One destination msgs → One destination (kept room msgs)
  unfolding kept
  kept-One [] msgs o = tt
  kept-One (r ∷ room) [] o = tt
  kept-One (true ∷ room) (msg ∷ msgs) (inl (i, o)) = inl (i, kept-One room msgs o)
  kept-One (true ∷ room) (msg ∷ msgs) (inr (f, q)) = inr (f, kept-All Idle room msgs q)
  kept-One (false ∷ room) (msg ∷ msgs) (inl (i, o)) = kept-One room msgs o
  kept-One (false ∷ room) (msg ∷ msgs) (inr (f, q)) =
      Quiet-One (kept room msgs) (kept-All Idle room msgs q)

  pub One-Quiet :
      (msgs more : List Msg) → One destination msgs → Quiet more → One destination (msgs ++ more)
  One-Quiet [] more o q = Quiet-One more q
  One-Quiet (msg ∷ msgs) more (inl (i, o)) q = inl (i, One-Quiet msgs more o q)
  One-Quiet (msg ∷ msgs) more (inr (f, r)) q = inr (f, All-append Idle msgs more r q)

  pub Quiet-then-One :
      (msgs more : List Msg) → Quiet msgs → One destination more → One destination (msgs ++ more)
  Quiet-then-One [] more q o = o
  Quiet-then-One (msg ∷ msgs) more q o = inl (q.0, Quiet-then-One msgs more q.1 o)

pub Starting-Quiet : (msgs more : List Msg) → Starting msgs → Quiet more → Starting (msgs ++ more)
Starting-Quiet [] more s q = absurd s
Starting-Quiet (process (set_receiver_msg _) ∷ msgs) more s q = Starting-Quiet msgs more s q
Starting-Quiet (process (recovery_msg _ _) ∷ msgs) more s q = All-append Idle msgs more s q
Starting-Quiet (process (register_msg _) ∷ msgs) more s q = absurd s
Starting-Quiet (outside _ ∷ msgs) more s q = absurd s
Starting-Quiet (own _ ∷ msgs) more s q = absurd s

pub pending-Quiet : (msgs : List Msg) → Quiet msgs → pending msgs ≡ 0
unfolding pending
pending-Quiet [] q = refl
pending-Quiet (own start_ride ∷ msgs) q = absurd q.0
pending-Quiet (own pick_up_passenger ∷ msgs) q = absurd q.0
pending-Quiet (own ride_to_destination ∷ msgs) q = absurd q.0
pending-Quiet (own (end_ride _) ∷ msgs) q = absurd q.0
pending-Quiet (own (reconnect _) ∷ msgs) q = pending-Quiet msgs q.1
pending-Quiet (outside _ ∷ msgs) q = pending-Quiet msgs q.1
pending-Quiet (process _ ∷ msgs) q = pending-Quiet msgs q.1

pub pending-Starting : (msgs : List Msg) → Starting msgs → pending msgs ≡ 0
unfolding pending
pending-Starting [] s = refl
pending-Starting (process (set_receiver_msg _) ∷ msgs) s = pending-Starting msgs s
pending-Starting (process (recovery_msg _ _) ∷ msgs) s = pending-Quiet msgs s
pending-Starting (process (register_msg _) ∷ msgs) s = absurd s
pending-Starting (outside _ ∷ msgs) s = absurd s
pending-Starting (own _ ∷ msgs) s = absurd s

-- No more than one message of a ride.
pub pending-One :
    (destination : Option Position) (msgs : List Msg) → One destination msgs → pending msgs ≤ 1
unfolding pending
pending-One destination [] o = omega arith
pending-One destination (own start_ride ∷ msgs) (inr (f, q)) = omega (arith, pending-Quiet msgs q)
pending-One destination (own pick_up_passenger ∷ msgs) (inr (f, q)) =
    omega (arith, pending-Quiet msgs q)
pending-One destination (own ride_to_destination ∷ msgs) (inr (f, q)) =
    omega (arith, pending-Quiet msgs q)
pending-One destination (own (end_ride _) ∷ msgs) (inr (f, q)) = omega (arith, pending-Quiet msgs q)
pending-One destination (own start_ride ∷ msgs) (inl (i, o)) = absurd i
pending-One destination (own pick_up_passenger ∷ msgs) (inl (i, o)) = absurd i
pending-One destination (own ride_to_destination ∷ msgs) (inl (i, o)) = absurd i
pending-One destination (own (end_ride _) ∷ msgs) (inl (i, o)) = absurd i
pending-One destination (own (reconnect _) ∷ msgs) (inl (i, o)) = pending-One destination msgs o
pending-One destination (own (reconnect _) ∷ msgs) (inr (f, q)) = absurd f
pending-One destination (outside _ ∷ msgs) (inl (i, o)) = pending-One destination msgs o
pending-One destination (outside _ ∷ msgs) (inr (f, q)) = absurd f
pending-One destination (process _ ∷ msgs) (inl (i, o)) = pending-One destination msgs o
pending-One destination (process _ ∷ msgs) (inr (f, q)) = absurd f
