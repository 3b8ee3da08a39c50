-- ===== src/Common/Tcp/Arrivals.antt =====
-- A run of a connection whose messages have a meaning that the reader of a line finds.
use mathlib.Core.List.{map-append}
use concu_ride.Prelude.{
  ◌≡◌, refl, ap, ap₂, ◌∙◌, true, false, Option, some, List, [], ◌∷◌, ◌++◌, map, All,
}
use concu_ride.Common.Json.{Json}
use concu_ride.Common.Tcp.{Bytes, IsBytes, IsLine, Written, all, failed, Handled, running}
use concu_ride.Common.Tcp.Runs.{
  Writer, IsWriter, run, delivered, all_written, torn, messages, run-Reads,
}

-- What is delivered does not depend on how it is encoded.
delivered-encoded :
    {M T : Type 0} (encode : M → T) (ms : List (M × Written))
    → delivered (map (λ (m, w). (encode m, w)) ms) ≡ map encode (delivered ms)
delivered-encoded encode [] = refl
delivered-encoded encode ((m, all) ∷ ms) = ap (λ ts. encode m ∷ ts) (delivered-encoded encode ms)
delivered-encoded encode ((m, failed n) ∷ ms) = refl

all_written-encoded :
    {M T : Type 0} (encode : M → T) (ms : List (M × Written))
    → all_written (map (λ (m, w). (encode m, w)) ms) ≡ all_written ms
all_written-encoded encode [] = refl
all_written-encoded encode ((m, all) ∷ ms) = all_written-encoded encode ms
all_written-encoded encode ((m, failed n) ∷ ms) = refl

map-decoded :
    {M D T : Type 0} (encode : M → T) (decode : Option T → D) (meaning : M → D) (ms : List M)
    → All (λ m. decode (some (encode m)) ≡ meaning m) ms
    → map decode (map some (map encode ms)) ≡ map meaning ms
map-decoded encode decode meaning [] law = refl
map-decoded encode decode meaning (m ∷ ms) (e, law) =
    ap₂ (λ d ds. d ∷ ds) e (map-decoded encode decode meaning ms law)

module _ {j : Json} (b : Bytes j) where
  -- The messages as texts.
  abbrev pub texts : {M : Type 0} → (M → j.Text) → List (M × Written) → List (j.Text × Written)
  texts encode ms = map (λ (m, w). (encode m, w)) ms

  encoded-IsLine :
      {M : Type 0} (encode : M → j.Text) (ms : List (M × Written))
      → ((m : M) → IsLine b (encode m))
      → All (λ (t : j.Text × Written). IsLine b t.0) (texts encode ms)
  encoded-IsLine encode [] line = tt
  encoded-IsLine encode ((m, w) ∷ ms) line = (line m, encoded-IsLine encode ms line)

  -- What the reader at the other end makes of the bytes: the meaning of each message that was
  -- written as a whole, in order, and then what it makes of the torn one.
  abbrev pub Arrives :
      {S M D : Type 0}
      → S
      → Handled S
      → (M → j.Text)
      → (Option j.Text → D)
      → (M → D)
      → List (M × Written)
      → List b.Byte × Handled S
      → Type 0
  Arrives s end encode decode meaning ms (out, after) =
      (map decode (b.lines out)
        ≡ map meaning (delivered ms) ++ map decode (b.lines (torn b (texts encode ms))))
      × (all_written ms ≡ true → after ≡ running s)
      × (all_written ms ≡ false → after ≡ end)

  pub run-Arrives :
      {S M D : Type 0} (handle : Writer S b.Byte) (s : S) (end : Handled S) (encode : M → j.Text)
      (decode : Option j.Text → D) (meaning : M → D) (ms : List (M × Written))
      → IsBytes b
      → IsWriter handle s end
      → ((m : M) → IsLine b (encode m))
      → All (λ m. decode (some (encode m)) ≡ meaning m) (delivered ms)
      → Arrives s end encode decode meaning ms (run handle s (messages b (texts encode ms)))
  run-Arrives handle s end encode decode meaning ms laws writer line law =
      let ts = texts encode ms in
      let (read, goes_on, over) =
        run-Reads b laws handle s end ts writer (encoded-IsLine encode ms line) in
      let same = all_written-encoded encode ms in
      (
        ap (map decode)
              (read ∙ ap (λ us. map some us ++ b.lines (torn b ts)) (delivered-encoded encode ms))
            ∙ map-append decode _ _
            ∙ ap (λ ds. ds ++ map decode (b.lines (torn b ts)))
                (map-decoded encode decode meaning (delivered ms) law),
        λ h. goes_on (same ∙ h),
        λ h. over (same ∙ h),
      )
