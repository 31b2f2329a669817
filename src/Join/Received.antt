-- ===== src/Join/Received.antt =====
-- The Join Request from end to end: what the termination point sends, what arrives, and what the
-- access controller reads and keeps.
use sicapwap.Prelude.{
  ℕ, suc, ◌+◌, ◌-◌, ◌*◌, ◌<◌, ◌≤◌, ◌≡◌, ◌≢◌, refl, ◌∙◌, true, false, none, List, [], ◌∷◌, map,
  arith, length,
}
use sicapwap.Prelude.Weights.{range}
use mathlib.Core.List.{Perm}
use sicapwap.Exec.{ok}
use sicapwap.Message.Written.{written}
use sicapwap.Message.Reads.{grants}
use sicapwap.Fragment.{assemble_message}
use sicapwap.Fragment.Assembled.{two_each}
use sicapwap.Fragment.Control.{filled, message_bytes}
use sicapwap.Receive.{received, receive_message}
use sicapwap.Receive.AnyOrder.{enough}
use sicapwap.Receive.RoundTrip.{
  control_num, control_groups, control_packet, packets_of, assemble_message-received,
}
use sicapwap.ElementLoop.Taken.{pieces_bytes, pieces_cost}
use sicapwap.ElementLoop.Received.{assembled, joined-assembled, parse_control_message-carrying}
use sicapwap.ElementLoop.Made.{assemble_array-Makes}
use sicapwap.Join.{
  Wtp, JoinRequestValues, Manager, join_request, assemble_join_request, parse_join_request,
  join_request_element, save_join_request, save_name, save_radios, new_radios,
}
use sicapwap.Join.Elements.{
  IsWtp, as_string, join_request_pieces, join_request-IsTaken, join_request-Makes,
  join_request_needs,
}

-- The values of the termination point, as the access controller reads them.
abbrev pub values_of : Wtp → JoinRequestValues
values_of w = record {
  location = as_string w.location;
  name = as_string w.name;
  board_data = w.board_first ∷ w.board_rest;
  session_id = w.session_id;
  descriptor = w.descriptor;
  addr = w.ipv4_address;
  frame_tunnel_mode = w.frame_tunnel_mode;
  mac_type = w.mac_type;
}

-- What is kept of them, with a radio for each that is in use.
abbrev pub manager_of : Wtp → Manager
manager_of w = record {
  location_data = as_string w.location;
  name = as_string w.name;
  board_data = w.board_first ∷ w.board_rest;
  session_id = w.session_id;
  ipv4_address = w.ipv4_address;
  descriptor = w.descriptor;
  radio_count = w.descriptor.radios_in_use;
  radios = new_radios 0 w.descriptor.radios_in_use;
}

-- The message that is sent, and the allocations that its elements take.
abbrev pub request_bytes : Wtp → ℕ → List ℕ
request_bytes w seq_num = message_bytes seq_num join_request (assembled (join_request_pieces w)) []

pub assemble_join_request-message :
    (w : Wtp) (id pmtu seq_num is_crypted k : ℕ)
    → assemble_join_request id pmtu seq_num is_crypted w (suc (grants (join_request_needs w) k))
      ≡ assemble_message id pmtu seq_num join_request is_crypted
          (filled (assembled (join_request_pieces w)))
          []
          k
unfolding assemble_join_request
assemble_join_request-message w id pmtu seq_num is_crypted k =
    rw (assemble_array-Makes k (join_request-Makes w))

pub parse_join_request-sent :
    (w : Wtp) (seq_num k : ℕ) (old : JoinRequestValues)
    → IsWtp w
    → seq_num < 256
    → length (pieces_bytes (join_request_pieces w)) + 3 < 65536
    → parse_join_request
        (request_bytes w seq_num)
        (length (request_bytes w seq_num))
        old
        (grants (pieces_cost (join_request_pieces w)) k)
      ≡ ok ((seq_num, values_of w), k)
unfolding parse_join_request
parse_join_request-sent w seq_num k old fits small_seq small_len =
    parse_control_message-carrying join_request_element seq_num join_request
      (assembled (join_request_pieces w)) (join_request_pieces w) old k
      (joined-assembled (join_request_pieces w)) (join_request-IsTaken w fits) small_seq
      (omega arith) small_len

pub save_join_request-values :
    (w : Wtp) (g : Manager) → save_join_request g (values_of w) true ≡ (true, manager_of w)
unfolding save_join_request save_name save_radios
save_join_request-values w g = refl

module _ (w : Wtp) (id pmtu seq_num is_crypted : ℕ) where
  abbrev pub elements : List (List ℕ × ℕ)
  elements = assembled (join_request_pieces w)

  abbrev pub num : ℕ
  num = control_num id pmtu seq_num join_request is_crypted elements []

  abbrev pub packet : ℕ → List ℕ
  packet = control_packet id pmtu seq_num join_request is_crypted elements []

  -- The Join Request of a termination point whose values fit their fields, if it is cut, is sent
  -- as the numbered packets; when these arrive in any order, CWReceiveMessage returns the message,
  -- from which CWParseJoinRequestMessage reads the values of the termination point, and
  -- CWSaveJoinRequestMessage keeps them in the manager, with a radio for each that is in use. The
  -- message has less than 65536 bytes and is cut below the offset 8192 * 8, the path MTU is at
  -- most 65536, the number of the request has 8 bits, and the allocations succeed.
  pub join_request-received :
      (js : List ℕ) (old : JoinRequestValues) (g : Manager) (j k : ℕ)
      → IsWtp w
      → seq_num < 256
      → length (pieces_bytes (join_request_pieces w)) + 3 < 65536
      → num ≢ 1
      → (num - 1) * control_groups id pmtu seq_num join_request is_crypted elements [] < 8192
      → pmtu ≤ 65536
      → Perm js (range 0 num)
      → (assemble_join_request id pmtu seq_num is_crypted w
            (suc (grants (join_request_needs w) (suc (suc (suc (two_each num k))))))
          ≡ ok (packets_of (range 0 num) packet, k))
        × (receive_message (map (λ j. record { packet = packet j; grants = enough }) js) []
            ≡ received false (written none (request_bytes w seq_num) 0) [])
        × (parse_join_request
              (request_bytes w seq_num)
              (length (request_bytes w seq_num))
              old
              (grants (pieces_cost (join_request_pieces w)) j)
            ≡ ok ((seq_num, values_of w), j))
        × (save_join_request g (values_of w) true ≡ (true, manager_of w))
  join_request-received js old g j k fits small_seq small_len cut reach small_pmtu p =
      let (sent, got) =
        assemble_message-received id pmtu seq_num join_request is_crypted elements [] js k cut reach
          small_pmtu p in
      (
        assemble_join_request-message w id pmtu seq_num is_crypted _ ∙ sent,
        got,
        parse_join_request-sent w seq_num j old fits small_seq small_len,
        save_join_request-values w g,
      )
