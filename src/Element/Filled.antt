-- ===== src/Element/Filled.antt =====
-- Assemblers of elements: stores that fill the buffer, and the element that is made of it.
use sicapwap.Prelude.{
  ℕ, suc, ◌≡◌, sym, subst, ◌∙◌, Option, List, [], ◌++◌, length, length-append, append-nil,
  append_assoc,
}
use sicapwap.Exec.{Exec, ok, ◌>>=◌}
use sicapwap.Message.{Message, create_message}
use sicapwap.Message.Written.{written, create_message-written}
use sicapwap.Message.Writes.{Writes}
use sicapwap.Element.{assemble_msg_elem}
use sicapwap.Element.RoundTrip.{element_bytes, assemble_msg_elem-written}

-- Where there is room for exactly these bytes, they are written, and the element is assembled, which
-- takes one allocation.
pub record Completes (type : ℕ) (act : Message → Exec Message) (bytes : List ℕ) : Type 0 where
  pub run :
      (d : Option ℕ) (front : List ℕ) (k : ℕ)
      → act (written d front (length bytes)) (suc k)
        ≡ ok (written d (element_bytes type (front ++ bytes)) 2, k)

pub Completes-end : (type : ℕ) → Completes type (λ m. assemble_msg_elem m type) []
Completes-end type = record {
  run = λ d front k. assemble_msg_elem-written d front 0 type k ∙ rw (append-nil front);
}

pub Completes-then :
    {type : ℕ} {act : Message → Exec Message} {bytes more : List ℕ} (next : Message → Exec Message)
    → Writes act bytes
    → Completes type next more
    → Completes type (λ s. act s >>= next) (bytes ++ more)
Completes-then {type} {act} {bytes} {more} next first second = record {
  run = λ d front k. rw (
    length-append bytes more,
    first.run d front (length more) (suc k),
    second.run d (front ++ bytes) k,
    append_assoc front bytes more,
  );
}

-- The last store.
pub Completes-last :
    {type : ℕ} {act : Message → Exec Message} {bytes : List ℕ} (next : Message → Exec Message)
    → Writes act bytes
    → Completes type next []
    → Completes type (λ s. act s >>= next) bytes
Completes-last {type} {act} {bytes} next first second =
    subst (λ r. Completes type (λ s. act s >>= next) r) (append-nil bytes)
      (Completes-then next first second)

pub Completes-created :
    {type : ℕ} {act : Message → Exec Message} {bytes : List ℕ} (size : ℕ)
    → length bytes ≡ size
    → Completes type act bytes
    → (m : Message) (k : ℕ)
    → (create_message m size >>= act) (suc (suc k))
      ≡ ok (written m.data_msg_type (element_bytes type bytes) 2, k)
Completes-created {type} {act} {bytes} size fits c m k =
    rw (create_message-written m size (suc k), sym fits, c.run m.data_msg_type [] k)
