-- ===== src/Receive/Whole.antt =====
-- The packet that is sent and received in one piece.
use sicapwap.Prelude.{
  ◌*◌, ◌/◌, false, ℕ, suc, ◌+◌, ◌-◌, ◌≤◌, ◌≡◌, refl, sym, ap, Option, none, some, List, [], ◌∷◌,
  ◌++◌, arith, length, length-append, replicate, append-nil, append_assoc,
}
use sicapwap.Exec.{ok}
use sicapwap.Message.Written.{written}
use sicapwap.Message.Reading.{reading}
use sicapwap.Message.{be32, blank}
use sicapwap.Element.RoundTrip.{element_bytes, assemble_msg_elem_result_code-written}
use sicapwap.Fragment.{
  aligned, fragments_num, assemble_message, assemble_unrecognized_message_response,
}
use sicapwap.Fragment.Control.{
  filled, message_bytes, length-message_bytes, joined, control_message-written,
}
use sicapwap.Header.{BindingValues, TransportValues, has_binding}
use sicapwap.Header.RoundTrip.{
  header_bytes, length-header_bytes, data_type_read, budget_read, parse_transport_header-assembled,
}
use sicapwap.Fragment.{whole_values, whole_packet}
use sicapwap.Fragment.Assembled.{whole_packet-written}
use sicapwap.Reassembly.{complete, Fragment, single_packet, parse_fragment, reply_of}
use sicapwap.Reassembly.Packet.{copy_payload-packet}
use sicapwap.Receive.{Datagram, received, buffer_size, filled_buffer, after_reply, receive_message}
use sicapwap.Receive.AnyOrder.{enough, in_buffer}

spare_one : (b : Option BindingValues) (k : ℕ) → budget_read b (suc k) ≡ suc (budget_read b k)
spare_one none k = refl
spare_one (some b) k = refl

module _ (binding : Option BindingValues) (payload_type : ℕ) (bytes junk : List ℕ)
    (fs : List Fragment) where
  abbrev values : TransportValues
  values = whole_values binding payload_type

  abbrev whole : List ℕ
  whole = header_bytes values ++ bytes

  -- What the parser makes of it: the bytes behind the header. The fragments that are kept of
  -- another packet stay.
  single_packet-assembled :
      (k : ℕ)
      → single_packet
          (header_bytes values ++ (bytes ++ junk))
          (length (header_bytes values) + length bytes)
          (reading (data_type_read binding none) (header_bytes values) (bytes ++ junk))
          (suc k)
        ≡ ok (written (data_type_read binding none) bytes 0, k)
  unfolding single_packet
  single_packet-assembled k =
      let size : length (header_bytes values) + length bytes - length (header_bytes values)
          ≡ length bytes =
        omega arith in
      rw (copy_payload-packet binding bytes junk values fs k, size)
        (ap
          (λ r. ok (
            record { msg = r; offset = length bytes; data_msg_type = data_type_read binding none },
            k,
          ))
          (sym (append-nil bytes)))

  pub parse_fragment-whole :
      (k : ℕ)
      → parse_fragment (whole ++ junk) (length whole) fs (suc (suc (suc k)))
        ≡ (complete (has_binding values) (written (data_type_read binding none) bytes 0), fs)
  unfolding parse_fragment reply_of
  parse_fragment-whole k =
      rw (append_assoc (header_bytes values) bytes junk, length-append (header_bytes values) bytes)
        (rw (
          parse_transport_header-assembled none [] (bytes ++ junk) values (suc (suc k)),
          parse_fragment,
          spare_one binding (suc k),
          single_packet-assembled (budget_read binding (suc k)),
        ))

-- A message that is not cut is sent as one packet, and CWReceiveMessage returns it in one round,
-- whatever fragments are kept and whatever packets follow, if the packet fits in its buffer.
pub whole_packet-received :
    (binding : Option BindingValues) (payload_type : ℕ) (bytes : List ℕ) (k : ℕ)
    (fs : List Fragment) (ds : List Datagram)
    → let packet : List ℕ = header_bytes (whole_values binding payload_type) ++ bytes in
      length packet ≤ buffer_size
      → (whole_packet binding payload_type (written none bytes 0) (suc (suc (suc k)))
          ≡ ok (written none packet 0 ∷ [], k))
        × (receive_message (record { packet = packet; grants = enough } ∷ ds) fs
            ≡ received
                (has_binding (whole_values binding payload_type))
                (written (data_type_read binding none) bytes 0)
                ds)
unfolding receive_message after_reply filled_buffer
whole_packet-received binding payload_type bytes k fs ds short =
    let packet : List ℕ = header_bytes (whole_values binding payload_type) ++ bytes in
    let junk : List ℕ = replicate (buffer_size - length packet) 0 in
    (
      whole_packet-written none bytes binding payload_type 0 0 0 0 k,
      rw (in_buffer (length packet) short) (
          ap (λ r. after_reply r ds (receive_message ds r.1))
            (parse_fragment-whole binding payload_type bytes junk fs 3)),
    )

-- A control message that is not cut is sent as one packet.
pub assemble_message-one :
    (id pmtu seq_num msg_type is_crypted : ℕ) (bs binding_bs : List (List ℕ × ℕ)) (k : ℕ)
    → fragments_num (length (message_bytes seq_num msg_type bs binding_bs)) ((pmtu - 33) / 8 * 8)
      ≡ 1
    → assemble_message id pmtu seq_num msg_type is_crypted
        (filled bs)
        (filled binding_bs)
        (suc (suc (suc (suc (suc k)))))
      ≡ ok (
        written none
              (header_bytes (whole_values none is_crypted)
                ++ message_bytes seq_num msg_type bs binding_bs)
              0
            ∷ [],
        k,
      )
unfolding assemble_message aligned
assemble_message-one id pmtu seq_num msg_type is_crypted bs binding_bs k one =
    rw (control_message-written seq_num msg_type bs binding_bs (suc (suc (suc k))), one)
      (whole_packet-written none (message_bytes seq_num msg_type bs binding_bs) none is_crypted 0 0
        0 0 k)

-- A packet with a whole control message is received.
pub packet-received :
    (seq_num msg_type is_crypted : ℕ) (bs binding_bs : List (List ℕ × ℕ)) (fs : List Fragment)
    (ds : List Datagram)
    → length (joined bs) + length (joined binding_bs) + 16 ≤ buffer_size
    → let bytes : List ℕ = message_bytes seq_num msg_type bs binding_bs in
      let packet : List ℕ = header_bytes (whole_values none is_crypted) ++ bytes in
      receive_message (record { packet = packet; grants = enough } ∷ ds) fs
      ≡ received false (written none bytes 0) ds
packet-received seq_num msg_type is_crypted bs binding_bs fs ds room =
    let bytes : List ℕ = message_bytes seq_num msg_type bs binding_bs in
    (whole_packet-received none is_crypted bytes 0 fs ds (
      omega (
        arith,
        length-append (header_bytes (whole_values none is_crypted)) bytes,
        length-header_bytes (whole_values none is_crypted),
        length-message_bytes seq_num msg_type bs binding_bs,
      ))).1

-- A control message that CWAssembleMessage does not cut, since one fragment holds it, is sent as
-- one packet, and CWReceiveMessage returns the message from it in one round, without the data
-- flag, whatever fragments are kept; the packet has at most 65536 bytes, which is the size of its
-- buffer, and the allocations succeed.
pub assemble_message-whole :
    (id pmtu seq_num msg_type is_crypted : ℕ) (bs binding_bs : List (List ℕ × ℕ)) (k : ℕ)
    (fs : List Fragment) (ds : List Datagram)
    → fragments_num (length (message_bytes seq_num msg_type bs binding_bs)) ((pmtu - 33) / 8 * 8)
      ≡ 1
    → length (joined bs) + length (joined binding_bs) + 16 ≤ buffer_size
    → let bytes : List ℕ = message_bytes seq_num msg_type bs binding_bs in
      let packet : List ℕ = header_bytes (whole_values none is_crypted) ++ bytes in
      (assemble_message id pmtu seq_num msg_type is_crypted
          (filled bs)
          (filled binding_bs)
          (suc (suc (suc (suc (suc k)))))
        ≡ ok (written none packet 0 ∷ [], k))
      × (receive_message (record { packet = packet; grants = enough } ∷ ds) fs
          ≡ received false (written none bytes 0) ds)
assemble_message-whole id pmtu seq_num msg_type is_crypted bs binding_bs k fs ds one room = (
  assemble_message-one id pmtu seq_num msg_type is_crypted bs binding_bs k one,
  packet-received seq_num msg_type is_crypted bs binding_bs fs ds room,
)

-- A message that is not recognized is answered with the result code 19.
pub unrecognized-received :
    (id pmtu seq_num msg_type is_crypted k : ℕ) (fs : List Fragment) (ds : List Datagram)
    → let bs : List (List ℕ × ℕ) = (element_bytes 33 (be32 19), 2) ∷ [] in
      fragments_num (length (message_bytes seq_num msg_type bs [])) ((pmtu - 33) / 8 * 8) ≡ 1
      → (packet : List ℕ) × (assemble_unrecognized_message_response id pmtu seq_num msg_type
            is_crypted
            (suc (suc (suc (suc (suc (suc (suc (suc k))))))))
          ≡ ok (written none packet 0 ∷ [], k))
        × (receive_message (record { packet = packet; grants = enough } ∷ ds) fs
            ≡ received false (written none (message_bytes seq_num msg_type bs []) 0) ds)
unfolding assemble_unrecognized_message_response
unrecognized-received id pmtu seq_num msg_type is_crypted k fs ds one =
    let bs : List (List ℕ × ℕ) = (element_bytes 33 (be32 19), 2) ∷ [] in
    let (sent, got) =
      assemble_message-whole id pmtu seq_num msg_type is_crypted bs [] k fs ds one (omega arith) in
    (
      header_bytes (whole_values none is_crypted) ++ message_bytes seq_num msg_type bs [],
      rw (assemble_msg_elem_result_code-written blank 19 (suc (suc (suc (suc (suc k)))))) sent,
      got,
    )
