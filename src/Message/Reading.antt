-- ===== src/Message/Reading.antt =====
-- Messages that are read from the front: what the retrieve functions return, and where they leave
-- the offset.
use sicapwap.Prelude.{
  ℕ, suc, ◌+◌, ◌%◌, ◌≡◌, ap, ◌∙◌, Option, some, List, [], ◌∷◌, ◌++◌, arith, length, length-append,
  append_assoc,
}
use sicapwap.Exec.{ok}
use sicapwap.Message.{
  Message, be8, be16, be32, from_be, retrieve, retrieve8, retrieve16, retrieve32, retrieve_str,
  retrieve_raw_bytes,
}
use sicapwap.Message.Written.{read_at-append}

-- The bytes before the offset, and those from it on.
abbrev pub reading : Option ℕ → List ℕ → List ℕ → Message
reading d front rest = record { msg = front ++ rest; offset = length front; data_msg_type = d }

module _ (d : Option ℕ) (front rest : List ℕ) where
  -- Behind what was read, the message is read on.
  pub reading-append :
      (bytes : List ℕ)
      → record (reading d front (bytes ++ rest)) { offset = length front + length bytes }
        ≡ reading d (front ++ bytes) rest
  reading-append bytes = rw (append_assoc front bytes rest, length-append front bytes)

  retrieve-reading :
      (bytes : List ℕ) (k : ℕ)
      → retrieve (reading d front (bytes ++ rest)) (length bytes) k
        ≡ ok ((from_be 0 bytes, reading d (front ++ bytes) rest), k)
  unfolding retrieve
  retrieve-reading bytes k =
      rw (read_at-append front bytes rest k)
        (ap (λ m. ok ((from_be 0 bytes, m), k)) (reading-append bytes))

  pub retrieve8-reading :
      (v k : ℕ)
      → retrieve8 (reading d front (be8 v ++ rest)) k
        ≡ ok ((v % 256, reading d (front ++ be8 v) rest), k)
  unfolding retrieve8
  retrieve8-reading v k =
      retrieve-reading (be8 v) k
      ∙ ap (λ n. ok ((n, reading d (front ++ be8 v) rest), k)) (omega arith)

  pub retrieve16-reading :
      (v k : ℕ)
      → retrieve16 (reading d front (be16 v ++ rest)) k
        ≡ ok ((v % 65536, reading d (front ++ be16 v) rest), k)
  unfolding retrieve16
  retrieve16-reading v k =
      retrieve-reading (be16 v) k
      ∙ ap (λ n. ok ((n, reading d (front ++ be16 v) rest), k)) (omega arith)

  pub retrieve32-reading :
      (v k : ℕ)
      → retrieve32 (reading d front (be32 v ++ rest)) k
        ≡ ok ((v % 4294967296, reading d (front ++ be32 v) rest), k)
  unfolding retrieve32
  retrieve32-reading v k =
      retrieve-reading (be32 v) k
      ∙ ap (λ n. ok ((n, reading d (front ++ be32 v) rest), k)) (omega arith)

  pub retrieve_raw_bytes-reading :
      (bytes : List ℕ) (k : ℕ)
      → retrieve_raw_bytes (reading d front (bytes ++ rest)) (length bytes) (suc k)
        ≡ ok ((some bytes, reading d (front ++ bytes) rest), k)
  unfolding retrieve_raw_bytes
  retrieve_raw_bytes-reading bytes k =
      rw (read_at-append front bytes rest k)
        (ap (λ m. ok ((some bytes, m), k)) (reading-append bytes))

  pub retrieve_str-reading :
      (str : List ℕ) (k : ℕ)
      → retrieve_str (reading d front (str ++ rest)) (length str) (suc k)
        ≡ ok ((some (str ++ (0 ∷ [])), reading d (front ++ str) rest), k)
  unfolding retrieve_str
  retrieve_str-reading str k =
      rw (read_at-append front str rest k)
        (ap (λ m. ok ((some (str ++ (0 ∷ [])), m), k)) (reading-append str))
