-- ===== src/Header.antt =====
-- CWProtocol.c and CWBinding.c: the CAPWAP transport header, with its optional wireless part, and
-- the control header.
pub mod Words
pub mod Fields
pub mod RoundTrip
use sicapwap.Prelude.{
  ℕ, ◌+◌, ◌-◌, ◌*◌, ◌/◌, ◌%◌, ◌^◌, Bool, true, false, not, ◌&&◌, ◌||◌, Option, none, some, bit_or,
  ◌==◌, if◌then◌else◌,
}
use sicapwap.Exec.{Exec, ok, pure, ◌>>=◌, ◌>>◌, raise, invalid_format, alloc}
use sicapwap.Message.{
  Message, create_message, store8, store16, store32, retrieve8, retrieve16, retrieve32,
}
use sicapwap.Field.{set_field32, get_field32}

-- CWProtocol.h: constants of the protocol and the field positions of the transport header.
abbrev pub protocol_version : ℕ
protocol_version = 0

abbrev pub packet_plain : ℕ
packet_plain = 0

abbrev pub iana_times_256 : ℕ
iana_times_256 = 13277 * 256

abbrev pub control_header_offset : ℕ
control_header_offset = 3

abbrev pub data_msg_frame_type : ℕ
data_msg_frame_type = 1

abbrev pub data_msg_stats_type : ℕ
data_msg_stats_type = 2

abbrev pub data_msg_freq_stats_type : ℕ
data_msg_freq_stats_type = 3

-- CWBinding.h: the length of the header with its wireless part in words, and of the data in it.
abbrev pub binding_hlen : ℕ
binding_hlen = 4

abbrev pub binding_datalength : ℕ
binding_datalength = 6

-- CWBinding.h. `rssi` and `snr` are the 8-bit patterns of the two `char`s.
pub record BindingValues : Type 0 where
  pub rssi : ℕ
  pub snr : ℕ
  pub data_rate : ℕ

pub record TransportValues : Type 0 where
  pub payload_type : ℕ
  pub type : ℕ
  pub is_fragment : ℕ
  pub last : ℕ
  pub fragment_id : ℕ
  pub fragment_offset : ℕ
  pub keep_alive : ℕ
  pub binding_values : Option BindingValues

pub record ControlValues : Type 0 where
  pub message_type_value : ℕ
  pub seq_num : ℕ
  pub msg_elems_len : ℕ

abbrev pub has_binding : TransportValues → Bool
has_binding v = elim v.binding_values [ none ↦ false | some b ↦ true ]

-- The first 32 bits: version, type, header length, radio, binding, then one bit each for T, F, L,
-- W, M and K, and three flags.
unfoldable pub first_word : TransportValues → ℕ
unfolding set_field32
first_word v =
    let word = set_field32 0 0 4 protocol_version in
    let word = set_field32 word 4 4 (if v.payload_type == packet_plain then 0 else 1) in
    let word = set_field32 word 8 5 (if has_binding v then binding_hlen else 2) in
    let word = set_field32 word 13 5 0 in
    let word = set_field32 word 18 5 1 in
    let word = set_field32 word 23 1 1 in
    let word = set_field32 word 24 1 v.is_fragment in
    let word = set_field32 word 25 1 v.last in
    let word = set_field32 word 26 1 (if has_binding v then 1 else 0) in
    let word = set_field32 word 27 1 0 in
    let word = set_field32 word 28 1 0 in set_field32 word 29 3 0

-- The second 32 bits: fragment id, fragment offset, three reserved bits.
unfoldable pub second_word : TransportValues → ℕ
unfolding set_field32
second_word v =
    let word = set_field32 0 0 16 v.fragment_id in
    let word = set_field32 word 16 13 v.fragment_offset in set_field32 word 29 3 0

-- The wireless part: data length, RSSI, SNR and the high byte of the data rate, then its low byte
-- and padding.
unfoldable pub binding_first_word : BindingValues → ℕ
unfolding set_field32
binding_first_word b =
    let word = set_field32 0 0 8 binding_datalength in
    let word = set_field32 word 8 8 b.rssi in
    let word = set_field32 word 16 8 b.snr in set_field32 word 24 8 (b.data_rate / 256)

unfoldable pub binding_second_word : BindingValues → ℕ
unfolding set_field32
binding_second_word b = let word = set_field32 0 0 8 (b.data_rate % 256) in set_field32 word 8 24 0

unfoldable pub assemble_transport_header_binding : Message → BindingValues → Exec Message
unfolding store32
assemble_transport_header_binding hdr b = do
  hdr ← store32 hdr (binding_first_word b)
  store32 hdr (binding_second_word b)

unfoldable pub assemble_transport_header : Message → TransportValues → Exec Message
unfolding create_message store32 assemble_transport_header_binding
assemble_transport_header hdr v = do
  hdr ← create_message hdr (if has_binding v then 16 else 8)
  hdr ← store32 hdr (first_word v)
  hdr ← store32 hdr (second_word v)
  elim v.binding_values [ none ↦ pure hdr | some b ↦ assemble_transport_header_binding hdr b ]

-- `data_rate` holds the high byte only when it is compared.
abbrev pub data_type_of : ℕ → ℕ → Option ℕ → Option ℕ
data_type_of rate snr old =
    if rate == 255
    then (if snr == 1 then some data_msg_freq_stats_type else some data_msg_stats_type)
    else (if rate == 0 then some data_msg_frame_type else old)

-- Both bytes of the data rate are read at the position of the high one (`DATARATE_1`).
unfoldable pub parse_transport_header_binding : Message → Exec (BindingValues × Message)
unfolding retrieve32
parse_transport_header_binding m = do
  (word, m) ← retrieve32 m
  if not (get_field32 word 0 8 == binding_datalength) then raise invalid_format else (do
    let rssi = get_field32 word 8 8
    let snr = get_field32 word 16 8
    let rate = get_field32 word 24 8
    (word, m) ← retrieve32 m
    let m = record m { data_msg_type = data_type_of rate snr m.data_msg_type }
    pure (
      record { rssi = rssi; snr = snr; data_rate = bit_or (rate * 256) (get_field32 word 24 8) },
      m,
    ))

-- The optional part is read if the header has four words and W is set.
unfoldable pub parse_optional : Bool → Message → Exec (Option BindingValues × Message)
unfolding parse_transport_header_binding
parse_optional false m = pure (none, m)
parse_optional true m = do alloc; (b, m) ← parse_transport_header_binding m; pure (some b, m)

-- The last part of the result is `*dataFlagPtr`, which the caller has cleared.
unfoldable pub parse_transport_header : Message → Exec (TransportValues × Message × Bool)
unfolding retrieve32 parse_optional
parse_transport_header m = do
  (first, m) ← retrieve32 m
  if not (get_field32 first 0 4 == protocol_version) then raise invalid_format else (do
    let hlen = get_field32 first 8 5
    let wireless = (hlen == 4) && (get_field32 first 26 1 == 1)
    (second, m) ← retrieve32 m
    (binding, m) ← parse_optional wireless m
    if (hlen == 2) || wireless
        then pure (
          record {
            payload_type = get_field32 first 4 4;
            type = get_field32 first 23 1;
            is_fragment = get_field32 first 24 1;
            last = get_field32 first 25 1;
            fragment_id = get_field32 second 0 16;
            fragment_offset = get_field32 second 16 13;
            keep_alive = get_field32 first 28 1;
            binding_values = binding;
          },
          m,
          wireless,
        )
        else raise invalid_format)

unfoldable pub assemble_control_header : Message → ControlValues → Exec Message
unfolding create_message store8 store16 store32
assemble_control_header hdr v = do
  hdr ← create_message hdr 8
  hdr ← store32 hdr (iana_times_256 + v.message_type_value)
  hdr ← store8 hdr v.seq_num
  hdr ← store16 hdr (control_header_offset + v.msg_elems_len)
  store8 hdr 0

-- `unsigned int` subtraction wraps.
unfoldable pub parse_control_header : Message → Exec (ControlValues × Message)
unfolding retrieve8 retrieve16 retrieve32
parse_control_header m = do
  (type, m) ← retrieve32 m
  (seq, m) ← retrieve8 m
  (len, m) ← retrieve16 m
  (flags, m) ← retrieve8 m
  pure (
    record {
      message_type_value = (type + 2 ^ 32 - iana_times_256) % 2 ^ 32;
      seq_num = seq;
      msg_elems_len = len;
    },
    m,
  )
