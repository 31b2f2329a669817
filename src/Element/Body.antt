-- ===== src/Element/Body.antt =====
-- Parsers of elements whose fields fill the element, and those whose fields do not.
use sicapwap.Prelude.{
  ℕ, ◌+◌, ◌-◌, ◌≡◌, ◌≢◌, Option, List, [], ◌++◌, arith, length, length-append, append_assoc,
  append-nil, ==_refl, ne→==,
}
use sicapwap.Exec.{Exec, ok, ◌>>=◌, raised, invalid_format}
use sicapwap.Message.{Message}
use sicapwap.Message.Reading.{reading}
use sicapwap.Message.Reads.{Reads, grants, grants_assoc}
use sicapwap.Element.{element, element_from}

pub bytes_between : (front bytes : List ℕ) → length (front ++ bytes) - length front ≡ length bytes
bytes_between front bytes = omega (arith, length-append front bytes)

module _ {ℓ} {A : Type ℓ} {n : ℕ} {fields : Message → Exec (A × Message)} {bytes : List ℕ} {v : A}
    (r : Reads n fields bytes v) where
  pub Reads-element : (len : ℕ) → length bytes ≡ len → Reads n (λ m. element fields m len) bytes v
  Reads-element len fits = record {
    run = λ d front rest k. rw (r.run d front rest k, bytes_between front bytes, fits, ==_refl len);
  }

  -- An element of another length than its fields have is refused.
  pub element_malformed :
      (len : ℕ) (d : Option ℕ) (front rest : List ℕ) (k : ℕ)
      → length bytes ≢ len
      → element fields (reading d front (bytes ++ rest)) len (grants n k) ≡ raised invalid_format
  element_malformed len d front rest k differs =
      rw (r.run d front rest k, bytes_between front bytes, ne→== (length bytes) len differs)

-- A parser whose offset is `gap` bytes behind `old`.
pub record ReadsAt {ℓ} {A : Type ℓ} (old gap n : ℕ) (act : Message → Exec (A × Message))
    (bytes : List ℕ) (v : A) : Type ℓ where
  pub run :
      (d : Option ℕ) (front rest : List ℕ) (k : ℕ)
      → length front ≡ old + gap
      → act (reading d front (bytes ++ rest)) (grants n k)
        ≡ ok ((v, reading d (front ++ bytes) rest), k)

module _ {ℓ} {A : Type ℓ} where
  pub Reads→At :
      {n : ℕ} {act : Message → Exec (A × Message)} {bytes : List ℕ} {v : A} (old gap : ℕ)
      → Reads n act bytes v
      → ReadsAt old gap n act bytes v
  Reads→At old gap r = record { run = λ d front rest k at. r.run d front rest k }

  pub ReadsAt-then {κ} :
      {B : Type κ} {old gap n m : ℕ} {act : Message → Exec (A × Message)} {bytes more : List ℕ}
      {v : A} {w : B} (next : A × Message → Exec (B × Message))
      → Reads n act bytes v
      → ReadsAt old (gap + length bytes) m (λ s. next (v, s)) more w
      → ReadsAt old gap (grants n m) (λ s. act s >>= next) (bytes ++ more) w
  ReadsAt-then {old} {gap} {n} {m} {act} {bytes} {more} next first second = record {
    run = λ d front rest k at. rw (
      append_assoc bytes more rest,
      grants_assoc n m k,
      first.run d front (more ++ rest) (grants m k),
      second.run d (front ++ bytes) rest k (omega (arith, length-append front bytes)),
      append_assoc front bytes more,
    );
  }

  pub ReadsAt-return {κ} :
      {B : Type κ} {old gap n : ℕ} {act : Message → Exec (A × Message)} {bytes : List ℕ} {v : A}
      {w : B} (next : A × Message → Exec (B × Message))
      → ReadsAt old gap n act bytes v
      → Reads 0 (λ s. next (v, s)) [] w
      → ReadsAt old gap n (λ s. act s >>= next) bytes w
  ReadsAt-return {old} {gap} {n} {act} {bytes} next first second = record {
    run = λ d front rest k at. rw (
      first.run d front rest k at,
      second.run d (front ++ bytes) rest k,
      append-nil (front ++ bytes),
    );
  }

  pub Reads-element_from :
      {n : ℕ} {fields : ℕ → Message → Exec (A × Message)} {bytes : List ℕ} {v : A} (len : ℕ)
      → length bytes ≡ len
      → ((old : ℕ) → ReadsAt old 0 n (fields old) bytes v)
      → Reads n (λ m. element_from fields m len) bytes v
  Reads-element_from {n} {fields} {bytes} len fits r = record {
    run = λ d front rest k. rw (
      (r (length front)).run d front rest k (omega arith),
      bytes_between front bytes,
      fits,
      ==_refl len,
    );
  }
