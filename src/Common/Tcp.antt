-- ===== src/Common/Tcp.antt =====
-- The lines of TCP: common/src/tcp_message.rs, and the handler by which each actor that owns a
-- connection writes such a message to its socket. Bytes, and the lines that tokio reads from them,
-- are a parameter with the laws that the program relies on.
pub mod Symbols
pub mod Runs
pub mod Arrivals
use concu_ride.Prelude.{ℕ, zero, suc, ◌≡◌, ◌≢◌, Option, none, some, List, [], ◌∷◌, ◌++◌, All}
use concu_ride.Common.Json.{Json}

pub record Bytes (j : Json) : Type 1 where
  pub Byte : Type 0
  pub newline : Byte
  pub carriage_return : Byte
  -- `as_bytes`
  pub as_bytes : j.Text → List Byte
  -- `LinesStream` over `BufReader::lines`: an item is `none` where it is an error.
  pub lines : List Byte → List (Option j.Text)

-- The text of a line: the reader takes a carriage return before the newline for a part of it.
abbrev pub IsLine : {j : Json} → (b : Bytes j) → j.Text → Type 0
IsLine b t = All (λ c. (c ≢ b.newline) × (c ≢ b.carriage_return)) (b.as_bytes t)

pub record IsBytes {j : Json} (b : Bytes j) : Type 0 where
  -- serde_json escapes both in the compact form that `to_string` gives.
  pub to_string-IsLine : (v : j.Value) → IsLine b (j.to_string v)
  pub empty_lem : b.as_bytes j.empty ≡ []
  pub lines-nil : b.lines [] ≡ []
  pub lines-line :
      (t : j.Text) (rest : List b.Byte)
      → IsLine b t
      → b.lines (b.as_bytes t ++ b.newline ∷ rest) ≡ some t ∷ b.lines rest

-- `TcpMessage::new`: the bytes of a text and a newline.
unfoldable pub tcp_message : {j : Json} → (b : Bytes j) → j.Text → List b.Byte
tcp_message b t = b.as_bytes t ++ b.newline ∷ []

-- The write half of a socket, by a number that names it.
abbrev pub WriteHalf : Type 0
WriteHalf = ℕ

-- What becomes of `write_all`: it may fail after some of the bytes.
pub data Written : Type 0 where
  all : Written
  failed : ℕ → Written

-- An actor after a message: it goes on, has stopped itself, or has panicked.
pub data Handled (S : Type 0) : Type 0 where
  running : S → Handled S
  stopped : S → Handled S
  panicked : Handled S

abbrev pub take {ℓ} : {A : Type ℓ} → ℕ → List A → List A
take n [] = []
take zero (x ∷ xs) = []
take (suc n) (x ∷ xs) = x ∷ take n xs

-- The handler of `TcpMessage` as all but the driver's connection to the server have it: the write
-- half is taken, both `expect`s panic, and it is put back.
unfoldable pub write_or_panic :
    {S A : Type 0}
    → (Option WriteHalf → S)
    → Option WriteHalf
    → List A
    → Written
    → List A × Handled S
write_or_panic put none message w = ([], panicked)
write_or_panic put (some write) message all = (message, running (put (some write)))
write_or_panic put (some write) message (failed n) = (take n message, panicked)
