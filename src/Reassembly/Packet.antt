-- ===== src/Reassembly/Packet.antt =====
-- `CWProtocolParseFragment` on the packets that `CWAssembleMessage` and `CWAssembleDataMessage`
-- make.
use sicapwap.Prelude.{
  ℕ, suc, ◌+◌, ◌-◌, ◌*◌, ◌/◌, ◌%◌, ◌<◌, ◌≡◌, refl, ap, ◌∙◌, Bool, true, false, Option, none, some,
  List, [], ◌∷◌, ◌++◌, map, arith, ltb, if◌then◌else◌, length, length-append, append_assoc,
}
use native.Mathlib.Nat.{mul_assoc}
use sicapwap.Prelude.Weights.{weight, one_at}
use sicapwap.Exec.{ok}
use sicapwap.Message.{Message}
use sicapwap.Message.Written.{read_at-append}
use sicapwap.Message.Reading.{reading}
use sicapwap.Header.{BindingValues, TransportValues, has_binding}
use sicapwap.Header.RoundTrip.{
  header_bytes, values_read, data_type_read, budget_read, parse_transport_header-assembled,
}
use sicapwap.Fragment.{fragment_values}
use sicapwap.Fragment.Pieces.{piece}
use sicapwap.Fragment.Assembled.{fragment_packet}
use sicapwap.Reassembly.{
  Fragment, copy_payload, parse_fragment, parse_fragmented, add_fragment, check_complete, has_copy,
  same_packet,
}
use sicapwap.Reassembly.Arrival.{kept, same_packet-kept, has_copy-kept}

-- The buffer may be longer than the packet.
module _ (binding : Option BindingValues) (bytes junk : List ℕ) (v : TransportValues)
    (fs : List Fragment) where
  -- A packet with a fragment's header.
  pub parse_fragment-header :
      (k : ℕ)
      → v.is_fragment % 2 ≡ 1
      → parse_fragment
          (header_bytes v ++ (bytes ++ junk))
          (length (header_bytes v) + length bytes)
          fs
          (suc k)
        ≡ parse_fragmented
            (has_binding v)
            (header_bytes v ++ (bytes ++ junk))
            (length (header_bytes v) + length bytes)
            (values_read v)
            (reading (data_type_read v.binding_values none) (header_bytes v) (bytes ++ junk))
            fs
            (budget_read v.binding_values k)
  unfolding parse_fragment
  parse_fragment-header k h =
      rw (parse_transport_header-assembled none [] (bytes ++ junk) v k, parse_fragment) (rw h)

  -- The bytes behind the header are copied.
  pub copy_payload-packet :
      (k : ℕ)
      → copy_payload
          (header_bytes v ++ (bytes ++ junk))
          (length (header_bytes v))
          (length (header_bytes v) + length bytes)
          (suc k)
        ≡ ok (bytes, k)
  unfolding copy_payload
  copy_payload-packet k =
      let size : length (header_bytes v) + length bytes - length (header_bytes v) ≡ length bytes =
        omega arith in
      let long : ltb (length (header_bytes v) + length bytes) (length (header_bytes v)) ≡ false =
        ground arith in
      rw (long, size, read_at-append (header_bytes v) bytes junk k)

-- A fragment of the packet that is being put together, and no copy.
parse_fragmented-new :
    (flag : Bool) (buf : List ℕ) (size : ℕ) (v : TransportValues) (m : Message) (fs : List Fragment)
    (k : ℕ)
    → same_packet v.fragment_id fs ≡ true
    → has_copy v.fragment_id v.fragment_offset fs ≡ false
    → parse_fragmented flag buf size v m fs (suc k) ≡ add_fragment flag buf size v m fs k
unfolding parse_fragmented
parse_fragmented-new flag buf size v m fs k same new = rw (same, new)

add_fragment-copied :
    (flag : Bool) (buf bytes : List ℕ) (size : ℕ) (v : TransportValues) (m : Message)
    (fs : List Fragment) (k : ℕ)
    → copy_payload buf m.offset size (suc (suc k)) ≡ ok (bytes, suc k)
    → add_fragment flag buf size v m fs (suc (suc k))
      ≡ check_complete flag m.data_msg_type
          (record {
            data_bytes = bytes;
            data_len = size - m.offset;
            fragment_id = v.fragment_id;
            fragment_offset = v.fragment_offset;
            last = v.last;
          }
            ∷ fs)
          k
unfolding add_fragment
add_fragment-copied flag buf bytes size v m fs k e = rw (e, add_fragment)

offset_groups : (i groups : ℕ) → i * groups < 8192 → i * (groups * 8) / 8 % 8192 ≡ i * groups
offset_groups i groups h = omega (arith, mul_assoc i groups 8)

budget_read_three :
    (b : Option BindingValues) (k : ℕ)
    → budget_read b (suc (suc (suc k))) ≡ suc (suc (suc (budget_read b k)))
budget_read_three none k = refl
budget_read_three (some b) k = refl

-- Fragment `i` arrives after the fragments in `seen`: it is kept in front of them, and the list is
-- tested for completeness.
module _ (binding : Option BindingValues) (payload_type id groups num : ℕ)
    (bytes junk : List ℕ) where
  abbrev pub flag : Bool
  flag = has_binding (fragment_values binding payload_type id 0 0)

  abbrev pub data_type : Option ℕ
  data_type = data_type_read binding none

  abbrev values : ℕ → TransportValues
  values i =
      fragment_values binding payload_type id (i * (groups * 8) / 8)
        (if ltb i (num - 1) then 0 else 1)

  -- What the header of fragment `i` says is what is kept of it.
  kept_fragment :
      (i : ℕ)
      → i * groups < 8192
      → ◌≡◌ {A = Fragment}
          (record {
            data_bytes = piece (groups * 8) i bytes;
            data_len =
                length (header_bytes (values i))
                + length (piece (groups * 8) i bytes)
                - length (header_bytes (values i));
            fragment_id = id % 65536;
            fragment_offset = i * (groups * 8) / 8 % 8192;
            last = (if ltb i (num - 1) then 0 else 1) % 2;
          })
          (kept (id % 65536) groups num bytes i)
  unfolding kept
  kept_fragment i fits =
      let bit : (if ltb i (num - 1) then 0 else 1) % 2 ≡ (if ltb i (num - 1) then 0 else 1) =
        ground arith in
      let head = length (header_bytes (values i)) in
      let size : head + length (piece (groups * 8) i bytes) - head
          ≡ length (piece (groups * 8) i bytes) =
        omega arith in
      let place = offset_groups i groups fits in
      λ j. record {
        data_bytes = piece (groups * 8) i bytes;
        data_len = size j;
        fragment_id = id % 65536;
        fragment_offset = place j;
        last = bit j;
      }

  pub parse_fragment-new :
      (i k : ℕ) (seen : List ℕ)
      → 0 < groups
      → i * groups < 8192
      → weight (one_at i) seen ≡ 0
      → parse_fragment
          (fragment_packet binding payload_type id (groups * 8) num bytes i ++ junk)
          (length (fragment_packet binding payload_type id (groups * 8) num bytes i))
          (map (kept (id % 65536) groups num bytes) seen)
          (suc (suc (suc (suc k))))
        ≡ check_complete flag data_type
            (map (kept (id % 65536) groups num bytes) (i ∷ seen))
            (budget_read binding k)
  unfolding fragment_packet
  parse_fragment-new i k seen pos fits new =
      let v = values i in
      let body : List ℕ = piece (groups * 8) i bytes in
      let fs = map (kept (id % 65536) groups num bytes) seen in
      let buf : List ℕ = header_bytes v ++ (body ++ junk) in
      let size : ℕ = length (header_bytes v) + length body in
      let m = reading data_type (header_bytes v) (body ++ junk) in
      let place : i * (groups * 8) / 8 % 8192 ≡ i * groups = offset_groups i groups fits in
      rw (append_assoc (header_bytes v) body junk, length-append (header_bytes v) body)
        (parse_fragment-header binding body junk v fs (suc (suc (suc k))) refl
          ∙ ap (parse_fragmented flag buf size (values_read v) m fs) (budget_read_three binding k)
          ∙ parse_fragmented-new flag buf size (values_read v) m fs
              (suc (suc (budget_read binding k)))
              (same_packet-kept (id % 65536) groups num bytes seen)
              (rw place (has_copy-kept (id % 65536) groups num bytes i seen pos new))
          ∙ add_fragment-copied flag buf body size (values_read v) m fs (budget_read binding k)
              (copy_payload-packet binding body junk v fs (suc (budget_read binding k)))
          ∙ ap (λ f. check_complete flag data_type (f ∷ fs) (budget_read binding k))
              (kept_fragment i fits))
