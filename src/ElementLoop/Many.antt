-- ===== src/ElementLoop/Many.antt =====
-- Elements of one type, one for each value, in front of others.
use sicapwap.Prelude.{ℕ, ◌≡◌, refl, ap, ◌∙◌, List, [], ◌∷◌, ◌++◌, map, append_assoc}
use sicapwap.Exec.{Exec}
use sicapwap.Message.{Message}
use sicapwap.Message.Reads.{grants}
use sicapwap.Element.RoundTrip.{element_bytes}
use sicapwap.Fragment.Control.{joined}
use sicapwap.WtpProtocol.Joined.{grants_each}
use sicapwap.ElementLoop.Taken.{Piece, pieces_bytes, pieces_cost, changed, AreTaken, IsTakenAt}

module _ {ℓ} {V : Type ℓ} {A : Type 0} (type : ℕ) (body : A → List ℕ) (cost : ℕ)
    (change : A → V → V) where
  abbrev pub piece : A → Piece V
  piece a = record { type = type; body = body a; cost = cost; change = change a }

  abbrev pub many : List A → List (Piece V) → List (Piece V)
  many [] tail = tail
  many (a ∷ rest) tail = piece a ∷ many rest tail

  abbrev pub changed_by : List A → V → V
  changed_by [] v = v
  changed_by (a ∷ rest) v = changed_by rest (change a v)

  pub changed-many :
      (values : List A) (tail : List (Piece V)) (v : V)
      → changed (many values tail) v ≡ changed tail (changed_by values v)
  changed-many [] tail v = refl
  changed-many (a ∷ rest) tail v = changed-many rest tail (change a v)

  pub cost-many :
      (values : List A) (tail : List (Piece V))
      → pieces_cost (many values tail) ≡ grants_each cost values (pieces_cost tail)
  cost-many [] tail = refl
  cost-many (a ∷ rest) tail = ap (grants cost) (cost-many rest tail)

  -- The bytes are those of the elements that are copied to one message.
  pub bytes-many :
      (values : List A) (tail : List (Piece V))
      → joined (map (λ a. (element_bytes type (body a), 2)) values) ++ pieces_bytes tail
        ≡ pieces_bytes (many values tail)
  bytes-many [] tail = refl
  bytes-many (a ∷ rest) tail =
      append_assoc (element_bytes type (body a))
        (joined (map (λ a. (element_bytes type (body a), 2)) rest)) (pieces_bytes tail)
      ∙ ap (λ b. element_bytes type (body a) ++ b) (bytes-many rest tail)

  -- They are taken if each is, while what holds of the values that are left and of the state stays.
  pub AreTaken-many :
      (one : ℕ → ℕ → V → Message → Exec (V × Message)) (Holds : List A → V → Type 0)
      → ((a : A) (rest : List A) (v : V)
          → Holds (a ∷ rest) v
          → IsTakenAt one v (piece a) × Holds rest (change a v))
      → (values : List A) (tail : List (Piece V)) (v : V) → Holds values v
      → AreTaken one (changed_by values v) tail
      → AreTaken one v (many values tail)
  AreTaken-many one Holds step [] tail v holds more = more
  AreTaken-many one Holds step (a ∷ rest) tail v holds more =
      let (take, next) = step a rest v holds in
      (take, AreTaken-many one Holds step rest tail (change a v) next more)
