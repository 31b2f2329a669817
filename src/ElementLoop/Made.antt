-- ===== src/ElementLoop/Made.antt =====
-- Elements that are assembled one after the other.
use sicapwap.Prelude.{ℕ, ◌≡◌, refl, none, List, [], ◌∷◌}
use sicapwap.Exec.{Exec, ok}
use sicapwap.Message.{Message}
use sicapwap.Message.Written.{written}
use sicapwap.Message.Reads.{grants, grants_assoc}
use sicapwap.Fragment.Control.{filled}
use sicapwap.WtpProtocol.Assemble.{assemble_array}

-- With `n` allocations the run writes these bytes, with some more behind them.
abbrev pub MakesOne : Exec Message → ℕ → List ℕ × ℕ → Type 0
MakesOne act n part = (k : ℕ) → act (grants n k) ≡ ok (written none part.0 part.1, k)

-- The runs, the parts that they make, and how many allocations that takes.
pub data Makes : List (Exec Message) → List (List ℕ × ℕ) → ℕ → Type 0 where
  none_left : Makes [] [] 0
  and_one :
      {act : Exec Message} {acts : List (Exec Message)} {bytes : List ℕ} {spare : ℕ}
      {parts : List (List ℕ × ℕ)} {m : ℕ} (n : ℕ)
      → MakesOne act n (bytes, spare)
      → Makes acts parts m
      → Makes (act ∷ acts) ((bytes, spare) ∷ parts) (grants n m)

pub assemble_array-Makes :
    {acts : List (Exec Message)} {parts : List (List ℕ × ℕ)} {n : ℕ} (k : ℕ)
    → Makes acts parts n
    → assemble_array (λ a. a) acts (grants n k) ≡ ok (filled parts, k)
unfolding assemble_array
assemble_array-Makes k none_left = refl
assemble_array-Makes k (and_one {act} {acts} {bytes} {spare} {parts} {m} n one more) =
    rw (grants_assoc n m k, one (grants m k), assemble_array-Makes k more)
