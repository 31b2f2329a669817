-- ===== src/Message/Written.antt =====
-- Messages that are filled from the front: what the store functions do to one, and what the
-- retrieve functions read from one.
use sicapwap.Prelude.{
  ℕ, zero, suc, refl, ◌+◌, ◌≡◌, refl, sym, ap, ◌∙◌, true, Option, List, [], ◌++◌, arith, leb,
  le→leb, length, drop, replicate, length-append, length-replicate, take-append, drop-append,
  drop-drop, drop-replicate, append_assoc,
}
use sicapwap.Exec.{ok}
use sicapwap.Message.{
  Message, create_message, read_at, store_str, store_raw_bytes, store_message, store8, store16,
  store32, be8, be16, be32,
}

-- The bytes written so far, and `free` zero bytes behind them.
abbrev pub written : Option ℕ → List ℕ → ℕ → Message
written d bytes free = record {
  msg = bytes ++ replicate free 0;
  offset = length bytes;
  data_msg_type = d;
}

-- The free part, cut behind the bytes and behind the place of `n` more.
pub drop-written :
    (bytes : List ℕ) (n free : ℕ)
    → drop (length bytes + n) (bytes ++ replicate (n + free) 0) ≡ replicate free 0
drop-written bytes n free =
    sym (drop-drop (length bytes) n (bytes ++ replicate (n + free) 0))
    ∙ ap (drop n) (drop-append bytes (replicate (n + free) 0))
    ∙ drop-replicate n free 0

written_fits :
    (bytes : List ℕ) (n free : ℕ)
    → leb (length bytes + n) (length (bytes ++ replicate (n + free) 0)) ≡ true
written_fits bytes n free =
    le→leb _ _ (
      omega (arith, length-append bytes (replicate (n + free) 0), length-replicate (n + free) zero))

-- What stands between two parts of a buffer is read whole.
pub read_at-append :
    (front bytes back : List ℕ) (k : ℕ)
    → read_at (front ++ (bytes ++ back)) (length front) (length bytes) k ≡ ok (bytes, k)
unfolding read_at
read_at-append front bytes back k = rw (
  le→leb (length front + length bytes) (length (front ++ (bytes ++ back)))
      (omega (arith, length-append front (bytes ++ back), length-append bytes back)),
  drop-append front (bytes ++ back),
  take-append bytes back,
)

module _ (d : Option ℕ) (bytes : List ℕ) (free k : ℕ) where
  pub store_raw_bytes-written :
      (more : List ℕ)
      → store_raw_bytes (written d bytes (length more + free)) more k
        ≡ ok (written d (bytes ++ more) free, k)
  unfolding store_raw_bytes
  store_raw_bytes-written more = rw (
    written_fits bytes (length more) free,
    take-append bytes (replicate (length more + free) 0),
    drop-written bytes (length more) free,
    append_assoc bytes more (replicate free 0),
    length-append bytes more,
  )

  pub store_str-written :
      (str : List ℕ)
      → store_str (written d bytes (length str + free)) str k
        ≡ ok (written d (bytes ++ str) free, k)
  unfolding store_str
  store_str-written str = store_raw_bytes-written str

  pub store8-written :
      (v : ℕ) → store8 (written d bytes (1 + free)) v k ≡ ok (written d (bytes ++ be8 v) free, k)
  unfolding store8
  store8-written v = store_raw_bytes-written (be8 v)

  pub store16-written :
      (v : ℕ) → store16 (written d bytes (2 + free)) v k ≡ ok (written d (bytes ++ be16 v) free, k)
  unfolding store16
  store16-written v = store_raw_bytes-written (be16 v)

  pub store32-written :
      (v : ℕ) → store32 (written d bytes (4 + free)) v k ≡ ok (written d (bytes ++ be32 v) free, k)
  unfolding store32
  store32-written v = store_raw_bytes-written (be32 v)

  -- A stored message contributes the bytes that were written to it.
  pub store_message-written :
      (e : Option ℕ) (more : List ℕ) (spare : ℕ)
      → store_message (written d bytes (length more + free)) (written e more spare) k
        ≡ ok (written d (bytes ++ more) free, k)
  unfolding store_message
  store_message-written e more spare =
      rw (read_at-append [] more (replicate spare 0) k) (store_raw_bytes-written more)

-- A new buffer is all free.
pub create_message-written :
    (m : Message) (size k : ℕ)
    → create_message m size (suc k) ≡ ok (written m.data_msg_type [] size, k)
unfolding create_message
create_message-written m size k = refl
