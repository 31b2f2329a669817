-- ===== src/Tests/Messages.antt =====
-- Messages of CWProtocol.c, CWBinding.c and WTP.c: concrete packets.
use mathlib.Core.List.{Perm, Permᴰ}
use sicapwap.Prelude.{
  ℕ, ◌≡◌, ◌≢◌, refl, true, false, none, some, List, [], ◌∷◌, ◌++◌, map, arith, ◌⊎◌,
}
use sicapwap.Prelude.Weights.{range}
use sicapwap.Exec.{ok, fault, out_of_fuel}
use sicapwap.Message.{blank}
use sicapwap.Message.Written.{written}
use sicapwap.Message.Reading.{reading}
use sicapwap.Header.{
  BindingValues, TransportValues, data_type_of, parse_control_header,
  parse_transport_header_binding,
}
use sicapwap.Header.RoundTrip.{
  control_bytes, data_type_read, header_bytes, binding_bytes, ReadsBack,
  parse_transport_header-assembled, parse_transport_header_binding-assembled,
}
use sicapwap.Fragment.{fragments_num, assemble_message, assemble_data_message, whole_values}
use sicapwap.Fragment.Control.{filled, message_bytes, control_values}
use sicapwap.Reassembly.{Fragment, find_offset, join_fragments}
use sicapwap.Reassembly.Loop.{join_fragments_stall, join_fragments-ne-out_of_fuel}
use sicapwap.Receive.{received, receive_message}
use sicapwap.Receive.AnyOrder.{enough}
use sicapwap.Receive.RoundTrip.{
  packets_of, control_packet, assemble_message-received, data_packet,
  assemble_data_message-received, received-control,
}
use sicapwap.Receive.Whole.{assemble_message-whole}

-- An element of three bytes, in a buffer of five.
abbrev elements : List (List ℕ × ℕ)
elements = ((1 ∷ 2 ∷ 3 ∷ []), 2) ∷ []

abbrev backwards : List ℕ
backwards = 1 ∷ 0 ∷ []

swapped : Perm backwards (0 ∷ 1 ∷ [])
swapped = ∣ Permᴰ.swap refl refl ∣₁

-- A path MTU of 41 leaves 8 bytes for each of two fragments.
assemble_message-received_example :
    (assemble_message 7 41 5 1 0 (filled elements) [] 8
      ≡ ok (packets_of (range 0 2) (control_packet 7 41 5 1 0 elements []), 1))
    × (receive_message
          (map
            (λ j. record { packet = control_packet 7 41 5 1 0 elements [] j; grants = enough })
            backwards)
          []
        ≡ received false (written none (message_bytes 5 1 elements []) 0) [])
unfolding fragments_num control_bytes
assemble_message-received_example =
    assemble_message-received 7 41 5 1 0 elements [] backwards 1 (omega arith) (omega arith)
      (omega arith) swapped

abbrev wireless : BindingValues
wireless = record { rssi = 200; snr = 30; data_rate = 540 }

abbrev frame : List ℕ
frame = 10 ∷ 11 ∷ 12 ∷ 13 ∷ 14 ∷ 15 ∷ 16 ∷ 17 ∷ 18 ∷ 19 ∷ []

-- A path MTU of 24 leaves 8 bytes behind the header of 16.
assemble_data_message-received_example :
    (assemble_data_message 7 0 24 (written none frame 3) wireless 1 6
      ≡ ok (packets_of (range 0 2) (data_packet 7 0 24 1 frame 3 wireless), 1))
    × (receive_message
          (map
            (λ j. record { packet = data_packet 7 0 24 1 frame 3 wireless j; grants = enough })
            backwards)
          []
        ≡ received true (written (data_type_read (some wireless) none) frame 0) [])
unfolding fragments_num
assemble_data_message-received_example =
    assemble_data_message-received 7 0 24 1 frame 3 wireless backwards 1 (omega arith) (omega arith)
      (omega arith) (omega arith) swapped

-- A path MTU of 1500 leaves the message in one packet.
assemble_message-whole_example :
    (assemble_message 7 1500 5 1 0 (filled elements) [] 6
      ≡ ok (
        written none (header_bytes (whole_values none 0) ++ message_bytes 5 1 elements []) 0 ∷ [],
        1,
      ))
    × (receive_message
          (record {
            packet = header_bytes (whole_values none 0) ++ message_bytes 5 1 elements [];
            grants = enough;
          }
            ∷ [])
          []
        ≡ received false (written none (message_bytes 5 1 elements []) 0) [])
unfolding fragments_num control_bytes
assemble_message-whole_example =
    assemble_message-whole 7 1500 5 1 0 elements [] 1 [] [] refl (omega arith)

received-control_example :
    parse_control_header (record (written none (message_bytes 5 1 elements []) 0) { offset = 0 }) 0
    ≡ ok (
      (
        record { message_type_value = 1; seq_num = 5; msg_elems_len = 6 },
        reading none (control_bytes (control_values 5 1 elements [])) (1 ∷ 2 ∷ 3 ∷ []),
      ),
      0,
    )
received-control_example =
    received-control 5 1 0 elements [] (omega arith) (omega arith) (omega arith)

abbrev some_values : TransportValues
some_values = record {
  payload_type = 1;
  type = 0;
  is_fragment = 1;
  last = 0;
  fragment_id = 70000;
  fragment_offset = 12;
  keep_alive = 0;
  binding_values = some wireless;
}

parse_transport_header-assembled_example : ReadsBack none [] frame 4 some_values
parse_transport_header-assembled_example =
    parse_transport_header-assembled none [] frame some_values 4

-- A data rate of 540 is read back as 512.
parse_transport_header_binding-assembled_example :
    parse_transport_header_binding (reading none [] (binding_bytes wireless ++ frame)) 1
    ≡ ok (
      (
        record { rssi = 200; snr = 30; data_rate = 512 },
        reading (data_type_of 2 30 none) (binding_bytes wireless) frame,
      ),
      1,
    )
parse_transport_header_binding-assembled_example =
    parse_transport_header_binding-assembled none [] frame wireless 1

-- A short fragment that is not the last.
abbrev short_fragment : Fragment
short_fragment = record {
  data_bytes = 1 ∷ 2 ∷ [];
  data_len = 2;
  fragment_id = 1;
  fragment_offset = 0;
  last = 0;
}

join_fragments_stall_example :
    (join_fragments 100 (short_fragment ∷ []) 0 blank 0 ≡ fault)
    ⊎ (join_fragments 100 (short_fragment ∷ []) 0 blank 0 ≡ out_of_fuel)
unfolding find_offset
join_fragments_stall_example =
    join_fragments_stall 100 (short_fragment ∷ []) 0 blank 0 short_fragment refl (omega arith)
      (omega arith)

abbrev long_fragment : Fragment
long_fragment = record {
  data_bytes = frame;
  data_len = 10;
  fragment_id = 1;
  fragment_offset = 0;
  last = 0;
}

join_fragments-ne-out_of_fuel_example :
    join_fragments 8193 (long_fragment ∷ []) 0 (written none [] 10) 0 ≢ out_of_fuel
join_fragments-ne-out_of_fuel_example =
    join_fragments-ne-out_of_fuel 8193 (long_fragment ∷ []) 0 (written none [] 10) 0
      ((omega arith, λ l. omega arith), tt) (omega arith) (omega arith)
