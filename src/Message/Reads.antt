-- ===== src/Message/Reads.antt =====
-- Parsers that are run on a message at its offset: what each reads, and how runs are put together.
use sicapwap.Prelude.{
  ℕ, zero, suc, ◌%◌, ◌<◌, ◌≡◌, refl, sym, ap, ◌∙◌, Option, some, List, [], ◌∷◌, ◌++◌, arith, length,
  append_assoc, append-nil,
}
use sicapwap.Exec.{Exec, ok, pure, ◌>>=◌}
use sicapwap.Message.{
  Message, be8, be16, be32, retrieve8, retrieve16, retrieve32, retrieve_str, retrieve_raw_bytes,
}
use sicapwap.Message.Reading.{
  reading, retrieve8-reading, retrieve16-reading, retrieve32-reading, retrieve_str-reading,
  retrieve_raw_bytes-reading,
}

-- `n` allocations more than `k`.
abbrev pub grants : ℕ → ℕ → ℕ
grants zero k = k
grants (suc n) k = suc (grants n k)

pub grants_assoc : (n m k : ℕ) → grants (grants n m) k ≡ grants n (grants m k)
grants_assoc zero m k = refl
grants_assoc (suc n) m k = ap suc (grants_assoc n m k)

-- At the bytes, whatever stands before and behind them, the parser returns the value, stops behind
-- them, and takes `n` allocations.
pub record Reads {ℓ} {A : Type ℓ} (n : ℕ) (act : Message → Exec (A × Message)) (bytes : List ℕ)
    (v : A) : Type ℓ where
  pub run :
      (d : Option ℕ) (front rest : List ℕ) (k : ℕ)
      → act (reading d front (bytes ++ rest)) (grants n k)
        ≡ ok ((v, reading d (front ++ bytes) rest), k)

module _ {ℓ} {A : Type ℓ} where
  pub Reads-pure : (v : A) → Reads 0 (λ m. pure (v, m)) [] v
  Reads-pure v = record { run = λ d front rest k. rw (append-nil front) }

  -- One parser after the other.
  pub Reads-then {κ} :
      {B : Type κ} {n m : ℕ} {act : Message → Exec (A × Message)} {bytes more : List ℕ} {v : A}
      {w : B} (next : A × Message → Exec (B × Message))
      → Reads n act bytes v
      → Reads m (λ s. next (v, s)) more w
      → Reads (grants n m) (λ s. act s >>= next) (bytes ++ more) w
  Reads-then {n} {m} {act} {bytes} {more} {v} {w} next first second = record {
    run = λ d front rest k. rw (
      append_assoc bytes more rest,
      grants_assoc n m k,
      first.run d front (more ++ rest) (grants m k),
      second.run d (front ++ bytes) rest k,
      append_assoc front bytes more,
    );
  }

  -- A parser whose result is only changed.
  pub Reads-return {κ} :
      {B : Type κ} {n : ℕ} {act : Message → Exec (A × Message)} {bytes : List ℕ} {v : A} {w : B}
      (next : A × Message → Exec (B × Message))
      → Reads n act bytes v
      → Reads 0 (λ s. next (v, s)) [] w
      → Reads n (λ s. act s >>= next) bytes w
  Reads-return {n} {act} {bytes} {v} {w} next first second = record {
    run = λ d front rest k. rw (
      first.run d front rest k,
      second.run d (front ++ bytes) rest k,
      append-nil (front ++ bytes),
    );
  }

pub Reads8 : (v : ℕ) → Reads 0 retrieve8 (be8 v) (v % 256)
Reads8 v = record { run = λ d front rest k. retrieve8-reading d front rest v k }

pub Reads16 : (v : ℕ) → Reads 0 retrieve16 (be16 v) (v % 65536)
Reads16 v = record { run = λ d front rest k. retrieve16-reading d front rest v k }

pub Reads32 : (v : ℕ) → Reads 0 retrieve32 (be32 v) (v % 4294967296)
Reads32 v = record { run = λ d front rest k. retrieve32-reading d front rest v k }

pub Reads-str :
    (str : List ℕ) → Reads 1 (λ m. retrieve_str m (length str)) str (some (str ++ (0 ∷ [])))
Reads-str str = record { run = λ d front rest k. retrieve_str-reading d front rest str k }

pub Reads-raw :
    (bytes : List ℕ) → Reads 1 (λ m. retrieve_raw_bytes m (length bytes)) bytes (some bytes)
Reads-raw bytes = record { run = λ d front rest k. retrieve_raw_bytes-reading d front rest bytes k }

-- The same for numbers that fit, and for bytes whose number is known otherwise.
pub Reads8_fits : (v : ℕ) → v < 256 → Reads 0 retrieve8 (be8 v) v
Reads8_fits v h = record {
  run = λ d front rest k.
      retrieve8-reading d front rest v k
      ∙ ap (λ n. ok ((n, reading d (front ++ be8 v) rest), k)) (omega arith);
}

pub Reads16_fits : (v : ℕ) → v < 65536 → Reads 0 retrieve16 (be16 v) v
Reads16_fits v h = record {
  run = λ d front rest k.
      retrieve16-reading d front rest v k
      ∙ ap (λ n. ok ((n, reading d (front ++ be16 v) rest), k)) (omega arith);
}

pub Reads32_fits : (v : ℕ) → v < 4294967296 → Reads 0 retrieve32 (be32 v) v
Reads32_fits v h = record {
  run = λ d front rest k.
      retrieve32-reading d front rest v k
      ∙ ap (λ n. ok ((n, reading d (front ++ be32 v) rest), k)) (omega arith);
}

pub Reads-raw_fits :
    (bytes : List ℕ) (n : ℕ)
    → length bytes ≡ n
    → Reads 1 (λ m. retrieve_raw_bytes m n) bytes (some bytes)
Reads-raw_fits bytes n e = record {
  run = λ d front rest k.
      ap (λ j. retrieve_raw_bytes (reading d front (bytes ++ rest)) j (suc k)) (sym e)
      ∙ retrieve_raw_bytes-reading d front rest bytes k;
}

pub Reads-str_fits :
    (str : List ℕ) (n : ℕ)
    → length str ≡ n
    → Reads 1 (λ m. retrieve_str m n) str (some (str ++ (0 ∷ [])))
Reads-str_fits str n e = record {
  run = λ d front rest k.
      ap (λ j. retrieve_str (reading d front (str ++ rest)) j (suc k)) (sym e)
      ∙ retrieve_str-reading d front rest str k;
}
