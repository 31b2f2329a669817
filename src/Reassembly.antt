-- ===== src/Reassembly.antt =====
-- CWProtocol.c, `CWProtocolParseFragment`: the fragments of a packet are kept in a list until all
-- have arrived, and are then put together.
pub mod Loop
pub mod Arrival
pub mod Packet
pub mod Complete
use sicapwap.Prelude.{
  ℕ, zero, suc, ◌+◌, ◌-◌, ◌*◌, ◌/◌, Bool, true, false, ◌&&◌, ◌||◌, Option, none, some, List, [],
  ◌∷◌, ltb, ◌==◌, if◌then◌else◌,
}
use sicapwap.Exec.{
  Exec, Outcome, ok, raised, fault, out_of_fuel, ErrorCode, out_of_memory, need_resource,
  invalid_format, pure, ◌>>=◌, ◌>>◌, raise, alloc,
}
use sicapwap.Message.{Message, blank, create_message, read_at, store_raw_bytes}
use sicapwap.Header.{TransportValues, parse_transport_header}

-- `CWProtocolFragment`, with the parts of `transportVal` that are assigned.
pub record Fragment : Type 0 where
  pub data_bytes : List ℕ
  pub data_len : ℕ
  pub fragment_id : ℕ
  pub fragment_offset : ℕ
  pub last : ℕ

-- `CWCompareFragment`.
unfoldable pub compare_fragment : ℕ → ℕ → Fragment → Bool
compare_fragment id offset f = (id == f.fragment_id) && (offset == f.fragment_offset)

-- `CWSearchInList(…, CWCompareFragment)`, as a test.
unfoldable pub has_copy : ℕ → ℕ → List Fragment → Bool
has_copy id offset [] = false
has_copy id offset (f ∷ fs) = compare_fragment id offset f || has_copy id offset fs

-- The list is empty, or its first fragment belongs to the same packet.
unfoldable pub same_packet : ℕ → List Fragment → Bool
same_packet id [] = true
same_packet id (f ∷ fs) = f.fragment_id == id

-- The size of the packet, by the last-fragment flag; 0 while that fragment is missing.
unfoldable pub total_size : ℕ → List Fragment → ℕ
total_size total [] = total
total_size total (f ∷ fs) =
    total_size (if f.last == 1 then f.fragment_offset * 8 + f.data_len else total) fs

-- The size of all the fragments so far.
unfoldable pub current_size : ℕ → List Fragment → ℕ
current_size size [] = size
current_size size (f ∷ fs) = current_size (size + f.data_len) fs

unfoldable pub find_offset : ℕ → List Fragment → Option Fragment
find_offset offset [] = none
find_offset offset (f ∷ fs) = if f.fragment_offset == offset then some f else find_offset offset fs

-- `CW_REPEAT_FOREVER`, by fuel: the fragment at the current offset is stored, until the last one.
unfoldable pub join_fragments : ℕ → List Fragment → ℕ → Message → Exec Message
join_fragments zero fs offset m = λ k. out_of_fuel
join_fragments (suc fuel) fs offset m = elim (find_offset offset fs) [
  | none ↦ raise invalid_format
  | some f ↦ do
    m' ← store_raw_bytes m f.data_bytes
    elim (f.last == 1) [
      | true ↦ pure m'
      | false ↦ join_fragments fuel fs (offset + f.data_len / 8) m'
    ]
]

-- An offset has 13 bits.
abbrev pub max_offset : ℕ
max_offset = 8192

-- `*dataFlagPtr` and the reassembled message, or the error raised. `broken` is an access outside a
-- buffer or a loop that does not end.
pub data Reply : Type 0 where
  complete : Bool → Message → Reply
  failed : ErrorCode → Reply
  broken : Reply

-- The reply of a run that leaves the list `kept` behind where it is done, and `dropped` where it
-- raised an error.
unfoldable pub reply_of :
    Bool → Outcome (Message × ℕ) → List Fragment → List Fragment → Reply × List Fragment
reply_of flag (ok (m, k)) kept dropped = (complete flag m, kept)
reply_of flag (raised e) kept dropped = (failed e, dropped)
reply_of flag fault kept dropped = (broken, kept)
reply_of flag out_of_fuel kept dropped = (broken, kept)

-- A buffer of `len` bytes with a copy of those in `buf` from `offset` on. A negative length, where
-- `read_bytes` ends before the offset, is no size that `malloc` grants.
unfoldable pub copy_payload : List ℕ → ℕ → ℕ → Exec (List ℕ)
copy_payload buf offset read_bytes =
    if ltb read_bytes offset
    then raise out_of_memory
    else (do alloc; read_at buf offset (read_bytes - offset))

-- The packet that is not a fragment.
unfoldable pub single_packet : List ℕ → ℕ → Message → Exec Message
single_packet buf read_bytes m = do
  bytes ← copy_payload buf m.offset read_bytes
  pure (record { msg = bytes; offset = read_bytes - m.offset; data_msg_type = m.data_msg_type })

-- All fragments are there if the sizes agree. The list is deleted when the packet is complete, and
-- when an offset is missing, but not when the buffer cannot be allocated.
unfoldable pub check_complete : Bool → Option ℕ → List Fragment → ℕ → Reply × List Fragment
check_complete flag type fs k =
    let total = total_size 0 fs in
    if (total == 0) || (if current_size 0 fs == total then false else true)
    then (failed need_resource, fs)
    else elim (create_message (record blank { data_msg_type = type }) total k) [
      | ok (m, k') ↦ reply_of flag (join_fragments (max_offset + 2) fs 0 m k') [] []
      | raised e ↦ (failed e, fs)
      | fault ↦ (broken, fs)
      | out_of_fuel ↦ (broken, fs)
    ]

-- The new fragment is put in front of `kept`. A failing allocation of its bytes leaves `kept`, one
-- of the list's element deletes the list.
unfoldable pub add_fragment :
    Bool → List ℕ → ℕ → TransportValues → Message → List Fragment → ℕ → Reply × List Fragment
add_fragment flag buf read_bytes v m kept k = elim (copy_payload buf m.offset read_bytes k) [
  | ok (bytes, zero) ↦ (failed out_of_memory, [])
  | ok (bytes, suc k') ↦
      let f : Fragment = record {
        data_bytes = bytes;
        data_len = read_bytes - m.offset;
        fragment_id = v.fragment_id;
        fragment_offset = v.fragment_offset;
        last = v.last;
      } in
      check_complete flag m.data_msg_type (f ∷ kept) k'
  | raised e ↦ (failed e, kept)
  | fault ↦ (broken, kept)
  | out_of_fuel ↦ (broken, kept)
]

-- A fragment of another packet takes the place of all that were kept; a copy is refused.
unfoldable pub parse_fragmented :
    Bool → List ℕ → ℕ → TransportValues → Message → List Fragment → ℕ → Reply × List Fragment
parse_fragmented flag buf read_bytes v m fs zero = (failed out_of_memory, fs)
parse_fragmented flag buf read_bytes v m fs (suc k) =
    if same_packet v.fragment_id fs
    then (if has_copy v.fragment_id v.fragment_offset fs
        then (failed need_resource, fs)
        else add_fragment flag buf read_bytes v m fs k)
    else add_fragment flag buf read_bytes v m [] k

-- `CWProtocolParseFragment`: the list is `*fragmentsListPtr` before and after.
unfoldable pub parse_fragment : List ℕ → ℕ → List Fragment → ℕ → Reply × List Fragment
parse_fragment buf read_bytes fs k =
    let start : Message = record { msg = buf; offset = 0; data_msg_type = none } in
    elim (parse_transport_header start k) [
      | ok ((v, m, flag), k') ↦
          if v.is_fragment == 0
          then reply_of flag (single_packet buf read_bytes m k') fs fs
          else parse_fragmented flag buf read_bytes v m fs k'
      | raised e ↦ (failed e, fs)
      | fault ↦ (broken, fs)
      | out_of_fuel ↦ (broken, fs)
    ]
