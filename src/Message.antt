-- ===== src/Message.antt =====
-- CWProtocol.c, lines 42 to 139: `CWProtocolMessage` and the functions that store to one and
-- retrieve from one. Bytes are numbers below 256 in network order.
pub mod Written
pub mod Reading
pub mod Reads
pub mod Writes
use sicapwap.Prelude.{
  ℕ, zero, suc, ◌+◌, ◌*◌, ◌/◌, ◌%◌, ◌^◌, Bool, true, false, Option, none, some, List, [], ◌∷◌, ◌++◌,
  leb, if◌then◌else◌, length, take, drop, replicate,
}
use sicapwap.Exec.{Exec, ok, fault, pure, ◌>>=◌, ◌>>◌, access_fault, alloc, try_alloc}

-- `msg` is the whole buffer behind the C pointer. `data_msg_type` is `none` while nobody has
-- assigned it.
pub record Message : Type 0 where
  pub msg : List ℕ
  pub offset : ℕ
  pub data_msg_type : Option ℕ

-- A local `CWProtocolMessage` that is not yet assigned, and a message after
-- `CW_FREE_PROTOCOL_MESSAGE`.
abbrev pub blank : Message
blank = record { msg = []; offset = 0; data_msg_type = none }

-- `CW_CREATE_PROTOCOL_MESSAGE(mess, size, return CWErrorRaise(CW_ERROR_OUT_OF_MEMORY, NULL))`.
unfoldable pub create_message : Message → ℕ → Exec Message
create_message m size = do alloc; pure (record m { msg = replicate size 0; offset = 0 })

-- `memcpy` into the buffer at `i`, and out of it.
unfoldable pub write_at : List ℕ → ℕ → List ℕ → Exec (List ℕ)
write_at buf i bytes =
    if leb (i + length bytes) (length buf)
    then pure (take i buf ++ (bytes ++ drop (i + length bytes) buf))
    else access_fault

unfoldable pub read_at : List ℕ → ℕ → ℕ → Exec (List ℕ)
read_at buf i n = if leb (i + n) (length buf) then pure (take n (drop i buf)) else access_fault

-- `htons` and `htonl` followed by a copy: the conversion to the parameter's type drops the bits
-- above its width.
abbrev pub be8 : ℕ → List ℕ
be8 v = (v % 256) ∷ []

abbrev pub be16 : ℕ → List ℕ
be16 v = (v / 256 % 256) ∷ (v % 256) ∷ []

abbrev pub be32 : ℕ → List ℕ
be32 v = (v / 16777216 % 256) ∷ (v / 65536 % 256) ∷ (v / 256 % 256) ∷ (v % 256) ∷ []

-- `ntohs`, `ntohl` and the one byte alike: a big-endian number.
abbrev pub from_be : ℕ → List ℕ → ℕ
from_be acc [] = acc
from_be acc (b ∷ bs) = from_be (acc * 256 + b) bs

unfoldable pub store_raw_bytes : Message → List ℕ → Exec Message
unfolding write_at
store_raw_bytes m bytes = do
  buf ← write_at m.msg m.offset bytes
  pure (record m { msg = buf; offset = m.offset + length bytes })

unfoldable pub store8 : Message → ℕ → Exec Message
unfolding store_raw_bytes
store8 m v = store_raw_bytes m (be8 v)

unfoldable pub store16 : Message → ℕ → Exec Message
unfolding store_raw_bytes
store16 m v = store_raw_bytes m (be16 v)

unfoldable pub store32 : Message → ℕ → Exec Message
unfolding store_raw_bytes
store32 m v = store_raw_bytes m (be32 v)

-- The argument is the string's bytes before the final `'\0'`, `strlen` of them.
unfoldable pub store_str : Message → List ℕ → Exec Message
unfolding store_raw_bytes
store_str m str = store_raw_bytes m str

-- The first `offset` bytes of the other message.
unfoldable pub store_message : Message → Message → Exec Message
unfolding store_raw_bytes read_at
store_message m other = do bytes ← read_at other.msg 0 other.offset; store_raw_bytes m bytes

retrieve : Message → ℕ → Exec (ℕ × Message)
unfolding read_at
retrieve m n = do
  bytes ← read_at m.msg m.offset n
  pure (from_be 0 bytes, record m { offset = m.offset + n })

unfoldable pub retrieve8 : Message → Exec (ℕ × Message)
unfolding retrieve
retrieve8 m = retrieve m 1

unfoldable pub retrieve16 : Message → Exec (ℕ × Message)
unfolding retrieve
retrieve16 m = retrieve m 2

unfoldable pub retrieve32 : Message → Exec (ℕ × Message)
unfolding retrieve
retrieve32 m = retrieve m 4

-- `none` is the `NULL` of a failed allocation, with nothing read. The string has its final zero.
unfoldable pub retrieve_str : Message → ℕ → Exec (Option (List ℕ) × Message)
unfolding read_at
retrieve_str m len = do
  got ← try_alloc
  if got
      then (do
        bytes ← read_at m.msg m.offset len
        pure (some (bytes ++ (0 ∷ [])), record m { offset = m.offset + len }))
      else pure (none, m)

unfoldable pub retrieve_raw_bytes : Message → ℕ → Exec (Option (List ℕ) × Message)
unfolding read_at
retrieve_raw_bytes m len = do
  got ← try_alloc
  if got
      then (do
        bytes ← read_at m.msg m.offset len
        pure (some bytes, record m { offset = m.offset + len }))
      else pure (none, m)
