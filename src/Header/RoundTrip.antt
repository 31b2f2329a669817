-- ===== src/Header/RoundTrip.antt =====
-- What the header assemblers write, and what the parsers read back from it.
use sicapwap.Prelude.{
  ℕ, suc, ◌+◌, ◌-◌, ◌*◌, ◌/◌, ◌%◌, ◌^◌, ◌≡◌, refl, length, Option, none, some, inl, inr, List, [],
  ◌++◌, arith, if◌then◌else◌, ◌==◌, append_assoc, Option-cases,
}
use mathlib.Core.Option
use sicapwap.Prelude.Bits.{bit_or-zero}
use sicapwap.Exec.{ok}
use sicapwap.Message.{Message, be8, be16, be32}
use sicapwap.Message.Written.{written}
use sicapwap.Message.Reading.{reading, retrieve8-reading, retrieve16-reading, retrieve32-reading}
use sicapwap.Header.{
  BindingValues, TransportValues, ControlValues, has_binding, first_word, second_word,
  binding_first_word, binding_second_word, assemble_transport_header, assemble_control_header,
  assemble_transport_header_binding, parse_transport_header_binding, parse_optional,
  parse_transport_header, parse_control_header, data_type_of, iana_times_256,
}
use sicapwap.Header.Fields.{
  version_field, type_field, hlen_field, t_field, fragment_field, last_field, wireless_field,
  keep_alive_field, fragment_id_field, fragment_offset_field, datalength_field, rssi_field,
  snr_field, rate_field, padding_field,
}

unfoldable pub binding_bytes : BindingValues → List ℕ
binding_bytes b = be32 (binding_first_word b) ++ be32 (binding_second_word b)

abbrev optional_bytes : Option BindingValues → List ℕ
optional_bytes none = []
optional_bytes (some b) = binding_bytes b

-- The 8 or 16 bytes of the transport header.
unfoldable pub header_bytes : TransportValues → List ℕ
header_bytes v = be32 (first_word v) ++ (be32 (second_word v) ++ optional_bytes v.binding_values)

abbrev pub header_size : Option BindingValues → ℕ
header_size none = 8
header_size (some b) = 16

size_of_optional : (o : Option BindingValues) → 8 + length (optional_bytes o) ≡ header_size o
unfolding binding_bytes
size_of_optional none = refl
size_of_optional (some b) = refl

pub length-header_bytes :
    (v : TransportValues) → length (header_bytes v) ≡ header_size v.binding_values
unfolding header_bytes
length-header_bytes v = omega (arith, size_of_optional v.binding_values)

unfoldable pub control_bytes : ControlValues → List ℕ
control_bytes v =
    be32 (iana_times_256 + v.message_type_value)
    ++ (be8 v.seq_num ++ (be16 (3 + v.msg_elems_len) ++ be8 0))

-- `CWAssembleTransportHeader` fills a buffer of exactly the header's size.
pub assemble_transport_header-written :
    (hdr : Message) (v : TransportValues) (k : ℕ)
    → assemble_transport_header hdr v (suc k) ≡ ok (written hdr.data_msg_type (header_bytes v) 0, k)
unfolding assemble_transport_header header_bytes binding_bytes assemble_transport_header_binding
assemble_transport_header-written hdr v k = elim (Option-cases v.binding_values) [
  | inl e ↦ rw (e, has_binding)
  | inr (b, e) ↦ rw (e, has_binding)
]

-- `CWAssembleControlHeader` fills a buffer of exactly 8 bytes.
pub assemble_control_header-written :
    (hdr : Message) (v : ControlValues) (k : ℕ)
    → assemble_control_header hdr v (suc k) ≡ ok (written hdr.data_msg_type (control_bytes v) 0, k)
unfolding assemble_control_header control_bytes
assemble_control_header-written hdr v k = refl

-- `CWParseControlHeader` reads back the sequence number, and the message type and the length, the
-- latter three more than it was given, in the widths of their fields.
pub parse_control_header-assembled :
    (d : Option ℕ) (front rest : List ℕ) (v : ControlValues) (k : ℕ)
    → parse_control_header (reading d front (control_bytes v ++ rest)) k
      ≡ ok (
        (
          record {
            message_type_value = v.message_type_value % 4294967296;
            seq_num = v.seq_num % 256;
            msg_elems_len = (3 + v.msg_elems_len) % 65536;
          },
          reading d (front ++ control_bytes v) rest,
        ),
        k,
      )
unfolding parse_control_header control_bytes
parse_control_header-assembled d front rest v k =
    let type = iana_times_256 + v.message_type_value in
    let wraps : (type % 4294967296 + 2 ^ 32 - iana_times_256) % 2 ^ 32
        ≡ v.message_type_value % 4294967296 =
      omega arith in
    rw (
      retrieve32-reading d front (be8 v.seq_num ++ (be16 (3 + v.msg_elems_len) ++ (be8 0 ++ rest)))
          type,
      retrieve8-reading d (front ++ be32 type) (be16 (3 + v.msg_elems_len) ++ (be8 0 ++ rest))
          v.seq_num,
      retrieve16-reading d ((front ++ be32 type) ++ be8 v.seq_num) (be8 0 ++ rest)
          (3 + v.msg_elems_len),
      retrieve8-reading d (((front ++ be32 type) ++ be8 v.seq_num) ++ be16 (3 + v.msg_elems_len))
          rest 0,
      append_assoc front (be32 type) (be8 v.seq_num),
      append_assoc front (be32 type ++ be8 v.seq_num) (be16 (3 + v.msg_elems_len)),
      append_assoc front (be32 type ++ (be8 v.seq_num ++ be16 (3 + v.msg_elems_len))) (be8 0),
      wraps,
    )

-- The parts that `CWParseTransportHeaderBinding` reads from an assembled wireless part: the low
-- byte of the data rate is lost.
abbrev pub binding_read : BindingValues → BindingValues
binding_read b = record {
  rssi = b.rssi % 256;
  snr = b.snr % 256;
  data_rate = b.data_rate / 256 % 256 * 256;
}

-- CWParseTransportHeaderBinding reads from an assembled wireless part the RSSI and the SNR, and of
-- the data rate the high byte with a low byte of 0.
pub parse_transport_header_binding-assembled :
    (d : Option ℕ) (front rest : List ℕ) (b : BindingValues) (k : ℕ)
    → parse_transport_header_binding (reading d front (binding_bytes b ++ rest)) k
      ≡ ok (
        (
          binding_read b,
          reading
              (data_type_of (b.data_rate / 256 % 256) (b.snr % 256) d)
              (front ++ binding_bytes b)
              rest,
        ),
        k,
      )
unfolding parse_transport_header_binding binding_bytes
parse_transport_header_binding-assembled d front rest b k = rw (
  retrieve32-reading d front (be32 (binding_second_word b) ++ rest) (binding_first_word b) k,
  datalength_field b,
  retrieve32-reading d (front ++ be32 (binding_first_word b)) rest (binding_second_word b) k,
  rssi_field b,
  snr_field b,
  rate_field b,
  padding_field b,
  bit_or-zero (b.data_rate / 256 % 256 * 256),
  append_assoc front (be32 (binding_first_word b)) (be32 (binding_second_word b)),
)

-- The values that `CWParseTransportHeader` reads from an assembled header.
abbrev pub values_read : TransportValues → TransportValues
values_read v = record {
  payload_type = if v.payload_type == 0 then 0 else 1;
  type = 1;
  is_fragment = v.is_fragment % 2;
  last = v.last % 2;
  fragment_id = v.fragment_id % 65536;
  fragment_offset = v.fragment_offset % 8192;
  keep_alive = 0;
  binding_values = Option.map binding_read v.binding_values;
}

-- The data type that is left in the message after a header is parsed.
abbrev pub data_type_read : Option BindingValues → Option ℕ → Option ℕ
data_type_read none d = d
data_type_read (some b) d = data_type_of (b.data_rate / 256 % 256) (b.snr % 256) d

-- The allocations that are left: the wireless part takes one.
abbrev pub budget_read : Option BindingValues → ℕ → ℕ
budget_read none k = suc k
budget_read (some b) k = k

-- The run of the parser over an assembled header.
abbrev pub ReadsBack : Option ℕ → List ℕ → List ℕ → ℕ → TransportValues → Type 0
ReadsBack d front rest k v =
    parse_transport_header (reading d front (header_bytes v ++ rest)) (suc k)
    ≡ ok (
      (
        values_read v,
        reading (data_type_read v.binding_values d) (front ++ header_bytes v) rest,
        has_binding v,
      ),
      budget_read v.binding_values k,
    )

ReadsBack-by_binding :
    (d : Option ℕ) (front rest : List ℕ) (k : ℕ) (u : TransportValues) (o : Option BindingValues)
    → ReadsBack d front rest k (record u { binding_values = o })
unfolding parse_transport_header parse_optional header_bytes
ReadsBack-by_binding d front rest k u none =
    let v : TransportValues = record u { binding_values = none } in
    let first = be32 (first_word v) in
    let second = be32 (second_word v) in
    rw (
      retrieve32-reading d front (second ++ rest) (first_word v) (suc k),
      version_field v,
      retrieve32-reading d (front ++ first) rest (second_word v) (suc k),
      hlen_field v,
      type_field v,
      t_field v,
      fragment_field v,
      last_field v,
      keep_alive_field v,
      fragment_id_field v,
      fragment_offset_field v,
      append_assoc front first second,
    )
ReadsBack-by_binding d front rest k u (some b) =
    let v : TransportValues = record u { binding_values = some b } in
    let first = be32 (first_word v) in
    let second = be32 (second_word v) in
    rw (
      retrieve32-reading d front (second ++ (binding_bytes b ++ rest)) (first_word v) (suc k),
      version_field v,
      retrieve32-reading d (front ++ first) (binding_bytes b ++ rest) (second_word v) (suc k),
      hlen_field v,
      wireless_field v,
      type_field v,
      t_field v,
      fragment_field v,
      last_field v,
      keep_alive_field v,
      fragment_id_field v,
      fragment_offset_field v,
      parse_transport_header_binding-assembled d ((front ++ first) ++ second) rest b k,
      append_assoc front first second,
      append_assoc front (first ++ second) (binding_bytes b),
    )

-- CWParseTransportHeader reads from an assembled header the fields in their widths, the type bit
-- 1, the keep-alive bit 0, and the wireless part if there is one.
pub parse_transport_header-assembled :
    (d : Option ℕ) (front rest : List ℕ) (v : TransportValues) (k : ℕ) → ReadsBack d front rest k v
parse_transport_header-assembled d front rest v k =
    ReadsBack-by_binding d front rest k v v.binding_values
