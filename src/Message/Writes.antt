-- ===== src/Message/Writes.antt =====
-- Stores to a message that has room for them: what each writes, and how stores are put together.
use sicapwap.Prelude.{
  ℕ, ◌+◌, ◌≡◌, ap, ◌∙◌, Option, List, [], ◌++◌, arith, length, length-append, append_assoc,
  append-nil,
}
use sicapwap.Exec.{Exec, ok, pure, ◌>>=◌}
use sicapwap.Message.{
  Message, be8, be16, be32, store8, store16, store32, store_str, store_raw_bytes,
}
use sicapwap.Message.Written.{
  written, store8-written, store16-written, store32-written, store_str-written,
  store_raw_bytes-written,
}

-- Behind what is there, the bytes are written, and no allocation is made.
pub record Writes (act : Message → Exec Message) (bytes : List ℕ) : Type 0 where
  pub run :
      (d : Option ℕ) (front : List ℕ) (free k : ℕ)
      → act (written d front (length bytes + free)) k ≡ ok (written d (front ++ bytes) free, k)

pub Writes-pure : Writes (λ m. pure m) []
Writes-pure = record {
  run = λ d front free k.
      ap (λ n. ok (written d front n, k)) {x = 0 + free} {y = free} (omega arith)
      ∙ rw (append-nil front);
}

pub Writes-then :
    {act : Message → Exec Message} {bytes more : List ℕ} (next : Message → Exec Message)
    → Writes act bytes
    → Writes next more
    → Writes (λ s. act s >>= next) (bytes ++ more)
Writes-then {act} {bytes} {more} next first second = record {
  run = λ d front free k.
      let room : length (bytes ++ more) + free ≡ length bytes + (length more + free) =
        omega (arith, length-append bytes more) in
      rw (
        room,
        first.run d front (length more + free) k,
        second.run d (front ++ bytes) free k,
        append_assoc front bytes more,
      );
}

pub Writes8 : (v : ℕ) → Writes (λ m. store8 m v) (be8 v)
Writes8 v = record { run = λ d front free k. store8-written d front free k v }

pub Writes16 : (v : ℕ) → Writes (λ m. store16 m v) (be16 v)
Writes16 v = record { run = λ d front free k. store16-written d front free k v }

pub Writes32 : (v : ℕ) → Writes (λ m. store32 m v) (be32 v)
Writes32 v = record { run = λ d front free k. store32-written d front free k v }

pub Writes-str : (str : List ℕ) → Writes (λ m. store_str m str) str
Writes-str str = record { run = λ d front free k. store_str-written d front free k str }

pub Writes-raw : (bytes : List ℕ) → Writes (λ m. store_raw_bytes m bytes) bytes
Writes-raw bytes = record { run = λ d front free k. store_raw_bytes-written d front free k bytes }
