-- ===== src/Fragment/Pieces.antt =====
-- The bytes of a message, cut into pieces of one size, and how many pieces there are.
use sicapwap.Prelude.{
  ℕ, zero, suc, ◌+◌, ◌-◌, ◌*◌, ◌/◌, ◌%◌, ◌<◌, ◌≤◌, ◌≡◌, refl, ap, ◌∙◌, sym, List, [], ◌∷◌, ◌++◌,
  arith, length, take, drop, length-take, length-drop, length-append, min, le→leb, ne→==, ◌==◌,
  Bool-cases, inl, inr, drop-drop, take-append-drop,
}
use native.Mathlib.Nat.{div-add-mod, mod-lt}
use sicapwap.Exec.{ok}
use sicapwap.Message.{read_at}
use sicapwap.Fragment.{fragments_num}

-- A cut that stays within the first part.
take-drop-append :
    (n i : ℕ) (xs ys : List ℕ) → i + n ≤ length xs → take n (drop i (xs ++ ys)) ≡ take n (drop i xs)
take-drop-append zero i xs ys h = refl
take-drop-append (suc n) zero [] ys h = absurd (omega arith)
take-drop-append (suc n) zero (x ∷ xs) ys h =
    ap (λ r. x ∷ r) (take-drop-append n zero xs ys (omega arith))
take-drop-append (suc n) (suc i) [] ys h = absurd (omega arith)
take-drop-append (suc n) (suc i) (x ∷ xs) ys h = take-drop-append (suc n) i xs ys (omega arith)

pub read_at-append_within :
    (n i : ℕ) (xs ys : List ℕ) (k : ℕ)
    → i + n ≤ length xs
    → read_at (xs ++ ys) i n k ≡ ok (take n (drop i xs), k)
unfolding read_at
read_at-append_within n i xs ys k h = rw (
  le→leb (i + n) (length (xs ++ ys)) (omega (arith, length-append xs ys)),
  take-drop-append n i xs ys h,
)

-- Piece `i` of `unit` bytes; the last may be shorter.
abbrev pub piece : ℕ → ℕ → List ℕ → List ℕ
piece unit i bytes = take unit (drop (i * unit) bytes)

pub length-piece :
    (unit i : ℕ) (bytes : List ℕ) → length (piece unit i bytes) ≡ min unit (length bytes - i * unit)
length-piece unit i bytes =
    length-take unit (drop (i * unit) bytes) ∙ ap (min unit) (length-drop (i * unit) bytes)

-- The pieces `i`, `i + 1`, …, one behind the other.
abbrev pub pieces : ℕ → ℕ → ℕ → List ℕ → List ℕ
pieces unit i zero bytes = []
pieces unit i (suc left) bytes = piece unit i bytes ++ pieces unit (i + 1) left bytes

pub take-all : (n : ℕ) (xs : List ℕ) → length xs ≤ n → take n xs ≡ xs
take-all zero [] h = refl
take-all zero (x ∷ xs) h = absurd (omega arith)
take-all (suc n) [] h = refl
take-all (suc n) (x ∷ xs) h = ap (λ r. x ∷ r) (take-all n xs (omega arith))

drop-all : (n : ℕ) (xs : List ℕ) → length xs ≤ n → drop n xs ≡ []
drop-all zero [] h = refl
drop-all zero (x ∷ xs) h = absurd (omega arith)
drop-all (suc n) [] h = refl
drop-all (suc n) (x ∷ xs) h = drop-all n xs (omega arith)

pub add_one_mul : (i unit : ℕ) → (i + 1) * unit ≡ i * unit + unit
add_one_mul i unit = grind arith

-- The pieces from `i` on are what is left of the bytes there.
pub pieces-eq-drop :
    (unit i left : ℕ) (bytes : List ℕ)
    → length bytes ≤ (i + left) * unit
    → pieces unit i left bytes ≡ drop (i * unit) bytes
pieces-eq-drop unit i zero bytes h = sym (drop-all (i * unit) bytes (grind arith))
pieces-eq-drop unit i (suc left) bytes h =
    let next : drop ((i + 1) * unit) bytes ≡ drop unit (drop (i * unit) bytes) =
      ap (λ n. drop n bytes) (grind arith) ∙ sym (drop-drop (i * unit) unit bytes) in
    rw (pieces-eq-drop unit (i + 1) left bytes (grind arith), next)
      (take-append-drop unit (drop (i * unit) bytes))

-- All pieces together are the message.
pub pieces-all :
    (unit num : ℕ) (bytes : List ℕ) → length bytes ≤ num * unit → pieces unit 0 num bytes ≡ bytes
pieces-all unit num bytes h =
    pieces-eq-drop unit 0 num bytes (grind arith)
    ∙ ap (λ n. drop n bytes) {x = 0 * unit} {y = 0} (omega arith)

-- A quotient that leaves no rest, and one that leaves some.
even_bounds :
    (size unit q : ℕ)
    → 0 < size
    → q * unit ≡ size
    → (0 < q) × (size ≤ q * unit) × ((q - 1) * unit + unit ≡ size)
even_bounds size unit zero hs e = absurd (omega arith)
even_bounds size unit (suc q) hs e = (omega arith, omega arith, grind arith)

-- For a message and a fragment size that are not 0, the number of fragments is the least that
-- covers the message.
pub fragments_num_bounds :
    (size unit : ℕ)
    → 0 < size
    → 0 < unit
    → (0 < fragments_num size unit)
      × (size ≤ fragments_num size unit * unit)
      × ((fragments_num size unit - 1) * unit < size)
unfolding fragments_num
fragments_num_bounds size unit hs hu =
    let euclid = div-add-mod size unit in
    elim (Bool-cases (size % unit == 0)) [
      | inl e ↦
          rw (ne→== unit 0 (omega arith), e)
            (let (a, b, c) = even_bounds size unit (size / unit) hs (ground arith) in
              (a, b, omega arith))
      | inr e ↦
          rw (ne→== unit 0 (omega arith), e)
            (omega arith, ground (arith, mod-lt size hu), ground arith)
    ]
