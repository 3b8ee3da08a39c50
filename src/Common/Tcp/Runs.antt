-- ===== src/Common/Tcp/Runs.antt =====
-- A connection over many messages: what the other end reads of them.
use mathlib.Core.List.{append_assoc}
use concu_ride.Prelude.{
  ℕ, ◌≡◌, refl, ap, sym, subst, ◌∙◌, Bool, true, false, some, List, [], ◌∷◌, ◌++◌, map, All,
}
use concu_ride.Common.Json.{Json}
use concu_ride.Common.Tcp.{
  Bytes, IsBytes, IsLine, tcp_message, Written, all, failed, Handled, running, stopped, panicked,
  take,
}

-- The handler of an actor `S` that writes messages.
abbrev pub Writer : Type 0 → Type 0 → Type 0
Writer S A = S → List A → Written → List A × Handled S

abbrev pub IsOver : {S : Type 0} → Handled S → Type 0
IsOver (running s) = ⊥
IsOver (stopped s) = Unit
IsOver panicked = Unit

-- The interface of the handlers: the actor `s` has its write half. A write that succeeds leaves the
-- actor as it is, and one that fails ends it as `end`.
pub record IsWriter {S A : Type 0} (handle : Writer S A) (s : S) (end : Handled S) : Type 0 where
  pub goes_on : (message : List A) → handle s message all ≡ (message, running s)
  pub ends : (message : List A) (n : ℕ) → handle s message (failed n) ≡ (take n message, end)
  pub over : IsOver end

module _ {S A : Type 0} (handle : Writer S A) where
  -- The bytes so far, and those of the rest of the run if the actor goes on.
  next : (S → List A × Handled S) → List A × Handled S → List A × Handled S
  next k (out, running s) = (out ++ (k s).0, (k s).1)
  next k (out, stopped s) = (out, stopped s)
  next k (out, panicked) = (out, panicked)

  -- The messages one by one, each with what becomes of its write.
  unfoldable pub run : S → List (List A × Written) → List A × Handled S
  unfolding next
  run s [] = ([], running s)
  run s ((message, w) ∷ messages) = next (λ t. run t messages) (handle s message w)

  -- A message after which the actor has ended is the last.
  next_over :
      (k : S → List A × Handled S) (out : List A) (after : Handled S)
      → IsOver after
      → next k (out, after) ≡ (out, after)
  unfolding next
  next_over k out (running s) h = absurd h
  next_over k out (stopped s) h = refl
  next_over k out panicked h = refl

-- The texts that were written as a whole before a write failed.
abbrev pub delivered {ℓ} : {T : Type ℓ} → List (T × Written) → List T
delivered [] = []
delivered ((t, all) ∷ ts) = t ∷ delivered ts
delivered ((t, failed n) ∷ ts) = []

abbrev pub all_written {ℓ} : {T : Type ℓ} → List (T × Written) → Bool
all_written [] = true
all_written ((t, all) ∷ ts) = all_written ts
all_written ((t, failed n) ∷ ts) = false

module _ {j : Json} (b : Bytes j) where
  -- The part of the first message that could not be written as a whole.
  abbrev pub torn : List (j.Text × Written) → List b.Byte
  torn [] = []
  torn ((t, all) ∷ ts) = torn ts
  torn ((t, failed n) ∷ ts) = take n (tcp_message b t)

  abbrev pub messages : List (j.Text × Written) → List (List b.Byte × Written)
  messages ts = map (λ (t, w). (tcp_message b t, w)) ts

  -- The actor `s` after the texts `ts`, of which the other end reads the lines: those that were
  -- written as a whole, in order, and then what it makes of the torn one. The actor ends at the
  -- first write that fails, and else is as it was.
  abbrev pub Reads :
      {S : Type 0} → S → Handled S → List (j.Text × Written) → List b.Byte × Handled S → Type 0
  Reads s end ts (out, after) =
      (b.lines out ≡ map some (delivered ts) ++ b.lines (torn ts))
      × (all_written ts ≡ true → after ≡ running s)
      × (all_written ts ≡ false → after ≡ end)

  module _ (laws : IsBytes b) where
    Reads-line :
        {S : Type 0} (s : S) (end : Handled S) (t : j.Text) (ts : List (j.Text × Written))
        (r : List b.Byte × Handled S)
        → IsLine b t
        → Reads s end ts r
        → Reads s end ((t, all) ∷ ts) (tcp_message b t ++ r.0, r.1)
    unfolding tcp_message
    Reads-line s end t ts r line (read, goes_on, over) = (
      ap b.lines (append_assoc (b.as_bytes t) (b.newline ∷ []) r.0)
          ∙ laws.lines-line t r.0 line
          ∙ ap (λ ls. some t ∷ ls) read,
      goes_on,
      over,
    )

    pub run-Reads :
        {S : Type 0} (handle : Writer S b.Byte) (s : S) (end : Handled S)
        (ts : List (j.Text × Written))
        → IsWriter handle s end
        → All (λ (t : j.Text × Written). IsLine b t.0) ts
        → Reads s end ts (run handle s (messages ts))
    unfolding run next
    run-Reads handle s end [] writer lines = (refl, (λ h. refl), (λ h. absurd (cc)))
    run-Reads {S} handle s end ((t, all) ∷ ts) writer (line, lines) =
        let k : S → List b.Byte × Handled S = λ v. run handle v (messages ts) in
        subst (λ (r : List b.Byte × Handled S). Reads s end ((t, all) ∷ ts) r)
          (sym (ap (next handle k) (writer.goes_on (tcp_message b t))))
          (Reads-line s end t ts (k s) line (run-Reads handle s end ts writer lines))
    run-Reads {S} handle s end ((t, failed n) ∷ ts) writer (line, lines) =
        let k : S → List b.Byte × Handled S = λ v. run handle v (messages ts) in
        subst (λ (r : List b.Byte × Handled S). Reads s end ((t, failed n) ∷ ts) r)
          (sym (
            ap (next handle k) (writer.ends (tcp_message b t) n)
            ∙ next_over handle k _ end writer.over))
          (refl, (λ h. absurd (cc)), (λ h. refl))
