-- ===== src/Receive/RoundTrip.antt =====
-- What `CWAssembleMessage` and `CWAssembleDataMessage` send, as `CWReceiveMessage` receives it.
use sicapwap.Prelude.{
  ℕ, zero, suc, ◌+◌, ◌-◌, ◌*◌, ◌/◌, ◌%◌, ◌<◌, ◌≤◌, ◌≡◌, ◌≢◌, refl, ap, ◌∙◌, true, false, Option,
  none, some, List, [], ◌∷◌, ◌++◌, map, arith, ne→==, length, append-nil,
}
use sicapwap.Prelude.Weights.{range}
use mathlib.Core.List.{Perm}
use sicapwap.Exec.{ok}
use sicapwap.Message.{Message}
use sicapwap.Message.Written.{written}
use sicapwap.Message.Reading.{reading}
use sicapwap.Header.{BindingValues, ControlValues, has_binding, parse_control_header}
use sicapwap.Header.RoundTrip.{
  parse_control_header-assembled, control_bytes, data_type_read, header_size,
}
use sicapwap.Fragment.{
  aligned, fragments_num, whole_values, assemble_message, assemble_data_message, cut_packet,
}
use sicapwap.Fragment.Pieces.{fragments_num_bounds}
use sicapwap.Fragment.Assembled.{
  fragment_packet, fragment_packets, two_each, length-fragment_packet, cut_packet-written,
}
use sicapwap.Fragment.Control.{
  filled, message_bytes, control_message-written, joined, control_values,
}
use sicapwap.Receive.{buffer_size, received, receive_message}
use sicapwap.Receive.AnyOrder.{enough, datagram, receive_message-perm}

-- The packets, numbered.
abbrev pub packets_of : List ℕ → (ℕ → List ℕ) → List Message
packets_of js packet = map (λ j. written none (packet j) 0) js

fragment_packets-range :
    (binding : Option BindingValues) (payload_type id unit num : ℕ) (bytes : List ℕ) (i left : ℕ)
    → fragment_packets binding payload_type id unit num bytes i left
      ≡ packets_of (range i left) (fragment_packet binding payload_type id unit num bytes)
fragment_packets-range binding payload_type id unit num bytes i zero = refl
fragment_packets-range binding payload_type id unit num bytes i (suc left) =
    ap (λ r. written none (fragment_packet binding payload_type id unit num bytes i) 0 ∷ r)
      (fragment_packets-range binding payload_type id unit num bytes (i + 1) left)

module _ (binding : Option BindingValues) (payload_type id groups : ℕ) (bytes js : List ℕ)
    (spare k : ℕ) where
  abbrev pub num : ℕ
  num = fragments_num (length bytes) (groups * 8)

  -- A message that is cut, for any order in which the packets arrive.
  pub cut_packet-received :
      0 < length bytes
      → 0 < groups
      → (num - 1) * groups < 8192
      → header_size binding + groups * 8 ≤ buffer_size
      → Perm js (range 0 num)
      → (cut_packet binding payload_type id
            (groups * 8)
            num
            (written none bytes spare)
            (suc (two_each num k))
          ≡ ok (
            packets_of
                (range 0 num)
                (fragment_packet binding payload_type id (groups * 8) num bytes),
            k,
          ))
        × (receive_message (map (datagram binding payload_type id groups num bytes) js) []
            ≡ received
                (has_binding (whole_values binding payload_type))
                (written (data_type_read binding none) bytes 0)
                [])
  cut_packet-received some_bytes some_groups reach room p =
      let (pos, covers, least) =
        fragments_num_bounds (length bytes) (groups * 8) some_bytes (omega arith) in
      (
        cut_packet-written none bytes binding payload_type id (groups * 8) num spare k covers least
              pos
            ∙ ap (λ r. ok (r, k))
                (fragment_packets-range binding payload_type id (groups * 8) num bytes 0 num),
        receive_message-perm binding payload_type id groups num bytes some_groups covers least reach
            (λ i.
              omega
                (arith, length-fragment_packet binding payload_type id (groups * 8) num bytes i))
            js pos p,
      )

-- A PMTU that leaves no room does not cut.
groups_pos : (size groups : ℕ) → fragments_num size (groups * 8) ≢ 1 → 0 < groups
unfolding fragments_num
groups_pos size zero cut = absurd (cut refl)
groups_pos size (suc groups) cut = omega arith

message_bytes_pos :
    (seq_num msg_type : ℕ) (bs binding_bs : List (List ℕ × ℕ))
    → 0 < length (message_bytes seq_num msg_type bs binding_bs)
unfolding control_bytes
message_bytes_pos seq_num msg_type bs binding_bs = omega arith

-- A control message that is cut.
module _ (id pmtu seq_num msg_type is_crypted : ℕ) (bs binding_bs : List (List ℕ × ℕ)) where
  abbrev pub control_groups : ℕ
  control_groups = (pmtu - 33) / 8

  abbrev pub control_num : ℕ
  control_num =
      fragments_num (length (message_bytes seq_num msg_type bs binding_bs)) (control_groups * 8)

  abbrev pub control_packet : ℕ → List ℕ
  control_packet =
      fragment_packet none is_crypted id (control_groups * 8) control_num
        (message_bytes seq_num msg_type bs binding_bs)

  -- A control message that CWAssembleMessage cuts is sent as the numbered packets, and when
  -- CWReceiveMessage gets these packets in any order, it returns the message that was cut, without
  -- the data flag; the path MTU leaves room for 8 bytes, is at most 65536, the last fragment
  -- begins below the offset 8192 * 8, and the allocations succeed.
  pub assemble_message-received :
      (js : List ℕ) (k : ℕ)
      → control_num ≢ 1
      → (control_num - 1) * control_groups < 8192
      → pmtu ≤ 65536
      → Perm js (range 0 control_num)
      → (assemble_message id pmtu seq_num msg_type is_crypted
            (filled bs)
            (filled binding_bs)
            (suc (suc (suc (two_each control_num k))))
          ≡ ok (packets_of (range 0 control_num) control_packet, k))
        × (receive_message (map (λ j. record { packet = control_packet j; grants = enough }) js) []
            ≡ received false (written none (message_bytes seq_num msg_type bs binding_bs) 0) [])
  unfolding assemble_message aligned
  assemble_message-received js k cut reach small_pmtu p =
      let bytes : List ℕ = message_bytes seq_num msg_type bs binding_bs in
      let (sent, got) =
        cut_packet-received none is_crypted id control_groups bytes js 0 k
          (message_bytes_pos seq_num msg_type bs binding_bs)
          (groups_pos (length bytes) control_groups cut) reach (omega arith) p in
      (
        rw
            (
              control_message-written seq_num msg_type bs binding_bs (suc (two_each control_num k)),
              ne→== control_num 1 cut,
            )
            sent,
        got,
      )

-- A data frame that is cut.
module _ (id unset pmtu is_crypted : ℕ) (frame : List ℕ) (spare : ℕ) (binding : BindingValues) where
  abbrev pub data_groups : ℕ
  data_groups = (pmtu - 16) / 8

  abbrev pub data_num : ℕ
  data_num = fragments_num (length frame) (data_groups * 8)

  abbrev pub data_packet : ℕ → List ℕ
  data_packet = fragment_packet (some binding) unset id (data_groups * 8) data_num frame

  -- A frame that CWAssembleDataMessage cuts is sent as the numbered packets, and CWReceiveMessage
  -- returns the frame with the data flag for any order of the packets; the same conditions hold as
  -- for a control message, and the frame is not empty.
  pub assemble_data_message-received :
      (js : List ℕ) (k : ℕ)
      → 0 < length frame
      → data_num ≢ 1
      → (data_num - 1) * data_groups < 8192
      → pmtu ≤ 65536
      → Perm js (range 0 data_num)
      → (assemble_data_message id unset pmtu
            (written none frame spare)
            binding
            is_crypted
            (suc (two_each data_num k))
          ≡ ok (packets_of (range 0 data_num) data_packet, k))
        × (receive_message (map (λ j. record { packet = data_packet j; grants = enough }) js) []
            ≡ received true (written (data_type_read (some binding) none) frame 0) [])
  unfolding assemble_data_message aligned
  assemble_data_message-received js k some_bytes cut reach small_pmtu p =
      let (sent, got) =
        cut_packet-received (some binding) unset id data_groups frame js spare k some_bytes
          (groups_pos (length frame) data_groups cut) reach (omega arith) p in
      (rw (ne→== data_num 1 cut) sent, got)

-- CWParseControlHeader at the start of a received control message reads the type and the sequence
-- number that were given, and the length of the elements plus three, and stops at the first
-- element, as long as each fits its field.
pub received-control :
    (seq_num msg_type k : ℕ) (bs binding_bs : List (List ℕ × ℕ))
    → seq_num < 256
    → msg_type < 4294967296
    → length (joined bs) + length (joined binding_bs) + 3 < 65536
    → parse_control_header
        (record (written none (message_bytes seq_num msg_type bs binding_bs) 0) { offset = 0 })
        k
      ≡ ok (
        (
          record {
            message_type_value = msg_type;
            seq_num = seq_num;
            msg_elems_len = length (joined bs) + length (joined binding_bs) + 3;
          },
          reading none
              (control_bytes (control_values seq_num msg_type bs binding_bs))
              (joined bs ++ joined binding_bs),
        ),
        k,
      )
received-control seq_num msg_type k bs binding_bs small_seq small_type small_len =
    let v = control_values seq_num msg_type bs binding_bs in
    let rest = joined bs ++ joined binding_bs in
    let whole : List ℕ = control_bytes v ++ rest in
    let len : ℕ = length (joined bs) + length (joined binding_bs) in
    let whole_type : msg_type % 4294967296 ≡ msg_type = omega arith in
    let whole_seq : seq_num % 256 ≡ seq_num = omega arith in
    let whole_len : (3 + len) % 65536 ≡ len + 3 = omega arith in
    ap (λ r. parse_control_header (record { msg = r; offset = 0; data_msg_type = none }) k)
      (append-nil whole)
    ∙ parse_control_header-assembled none [] rest v k
    ∙ ap (λ (u : ControlValues). ok ((u, reading none (control_bytes v) rest), k))
        (λ i. record {
          message_type_value = whole_type i;
          seq_num = whole_seq i;
          msg_elems_len = whole_len i;
        })
