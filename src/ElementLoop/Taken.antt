-- ===== src/ElementLoop/Taken.antt =====
-- Elements that the handler takes, one after the other.
use sicapwap.Prelude.{
  ℕ, zero, suc, ◌+◌, ◌-◌, ◌%◌, ◌<◌, ◌≤◌, ◌≡◌, ◌∙◌, Option, List, [], ◌∷◌, ◌++◌, All, arith, length,
  length-append, append-nil, append_assoc, lt→ltb, ltb_irrefl,
}
use sicapwap.Exec.{Exec, ok}
use sicapwap.Message.{Message, be16}
use sicapwap.Message.Reading.{reading}
use sicapwap.Message.Reads.{grants, grants_assoc, Reads}
use sicapwap.Element.RoundTrip.{element_bytes, parse_format_msg_elem-assembled}
use sicapwap.ElementLoop.{parse_elements}

-- An element, the allocations that its parser makes, and what it does to the values.
pub record Piece {ℓ} (V : Type ℓ) : Type ℓ where
  pub type : ℕ
  pub body : List ℕ
  pub cost : ℕ
  pub change : V → V

module _ {ℓ} {V : Type ℓ} where
  abbrev pub pieces_bytes : List (Piece V) → List ℕ
  pieces_bytes [] = []
  pieces_bytes (p ∷ ps) = element_bytes p.type p.body ++ pieces_bytes ps

  abbrev pub pieces_cost : List (Piece V) → ℕ
  pieces_cost [] = 0
  pieces_cost (p ∷ ps) = grants p.cost (pieces_cost ps)

  abbrev pub changed : List (Piece V) → V → V
  changed [] v = v
  changed (p ∷ ps) v = changed ps (p.change v)

module _ {ℓ} {V : Type ℓ} (one : ℕ → ℕ → V → Message → Exec (V × Message)) where
  -- The handler reads the body, with these values so far.
  pub record IsTakenAt (v : V) (p : Piece V) : Type ℓ where
    pub type_fits : p.type < 65536
    pub length_fits : length p.body < 65536
    pub takes : Reads p.cost (λ m. one p.type (length p.body) v m) p.body (p.change v)

  -- It reads all of them, from these values on.
  abbrev pub AreTaken : V → List (Piece V) → Type ℓ
  AreTaken v [] = Unit
  AreTaken v (p ∷ ps) = IsTakenAt v p × AreTaken (p.change v) ps

  -- The handler reads the body, whatever the values are so far.
  pub record IsTaken (p : Piece V) : Type ℓ where
    pub type_fits : p.type < 65536
    pub length_fits : length p.body < 65536
    pub takes : (v : V) → Reads p.cost (λ m. one p.type (length p.body) v m) p.body (p.change v)

  pub AreTaken-All : (v : V) (ps : List (Piece V)) → All IsTaken ps → AreTaken v ps
  AreTaken-All v [] taken = tt
  AreTaken-All v (p ∷ ps) (take, taken) = (
    record { type_fits = take.type_fits; length_fits = take.length_fits; takes = take.takes v },
    AreTaken-All (p.change v) ps taken,
  )

  pub parse_elements-taken :
      (start len : ℕ) (d : Option ℕ) (front rest : List ℕ) (ps : List (Piece V)) (v : V)
      (fuel k : ℕ)
      → AreTaken v ps
      → length ps < fuel
      → start ≤ length front
      → length front - start + length (pieces_bytes ps) ≡ len
      → parse_elements one fuel start len v
          (reading d front (pieces_bytes ps ++ rest))
          (grants (pieces_cost ps) k)
        ≡ ok ((changed ps v, reading d (front ++ pieces_bytes ps) rest), k)
  unfolding parse_elements
  parse_elements-taken start len d front rest ps v zero k taken enough inside fills =
      absurd (omega arith)
  parse_elements-taken start len d front rest [] v (suc fuel) k taken enough inside fills =
      let at_end : length front - start ≡ len = omega arith in
      rw (parse_elements, at_end, ltb_irrefl len, append-nil front)
  parse_elements-taken start len d front rest (p ∷ ps) v (suc fuel) k (take, taken) enough inside
        fills =
      let head : List ℕ = be16 p.type ++ be16 (length p.body) in
      let more : List ℕ = pieces_bytes ps in
      let sizes : length (pieces_bytes (p ∷ ps)) ≡ 4 + length p.body + length more =
        omega (arith, length-append p.body more) in
      let within : length front - start < len = omega arith in
      let whole_type : p.type % 65536 ≡ p.type = omega (arith, take.type_fits) in
      let whole_len : length p.body % 65536 ≡ length p.body = omega (arith, take.length_fits) in
      rw
        (
          parse_elements,
          lt→ltb (length front - start) len within,
          append_assoc p.body more rest,
          parse_format_msg_elem-assembled d front p.body (more ++ rest) p.type,
          whole_type,
          whole_len,
          grants_assoc p.cost (pieces_cost ps) k,
          take.takes.run d (front ++ head) (more ++ rest) (grants (pieces_cost ps) k),
          append_assoc front head p.body,
        )
        (parse_elements-taken start len d (front ++ (head ++ p.body)) rest ps (p.change v) fuel k
            taken (omega arith) (omega (arith, length-append front (head ++ p.body)))
            (omega (arith, length-append front (head ++ p.body)))
          ∙ rw (append_assoc front (head ++ p.body) more))
