-- ===== src/ChangeState/Received.antt =====
-- The Change State Event from end to end, and the response to it.
use sicapwap.Prelude.{
  ℕ, suc, ◌+◌, ◌-◌, ◌*◌, ◌/◌, ◌<◌, ◌≤◌, ◌≡◌, refl, sym, ap, ◌∙◌, true, false, none, List, [], ◌∷◌,
  ◌++◌, All, arith, length, map, append-nil, ◌==◌, if◌then◌else◌,
}
use sicapwap.Exec.{ok, raised, invalid_format}
use sicapwap.Message.{blank}
use sicapwap.Message.Written.{written}
use sicapwap.Message.Reads.{grants}
use sicapwap.Element.{RadioState}
use sicapwap.Element.RoundTrip.{assemble_msg_elem_result_code-written}
use sicapwap.Header.{parse_control_header}
use sicapwap.Header.RoundTrip.{header_bytes}
use sicapwap.Fragment.{assemble_message, fragments_num, whole_values}
use sicapwap.Fragment.Control.{filled, message_bytes, joined}
use sicapwap.Reassembly.{Fragment}
use sicapwap.Receive.{Datagram, received, receive_message}
use sicapwap.Receive.AnyOrder.{enough}
use sicapwap.Receive.RoundTrip.{received-control}
use sicapwap.Receive.Whole.{assemble_message-whole}
use sicapwap.WtpProtocol.Joined.{
  grants_each, grants_each_assoc, assemble_radio_operational_state-written, operational_part,
}
use sicapwap.ElementLoop.Taken.{pieces_cost, changed}
use sicapwap.ElementLoop.Twice.{parse_control_message_twice-carrying}
use sicapwap.ElementLoop.Made.{Makes, MakesOne, none_left, and_one, assemble_array-Makes}
use sicapwap.ChangeState.{
  ChangeStateEvent, change_state_event_request, change_state_event_response,
  change_state_event_elements, assemble_change_state_event_request, change_state_event_count,
  change_state_event_read, change_state_event_array, parse_change_state_event_request,
  assemble_change_state_event_response, parse_change_state_event_response,
}
use sicapwap.ChangeState.Taken.{
  IsRadioState, event_parts, counted_pieces, read_pieces, counted-AreTaken, read-AreTaken,
  joined-counted, counted-read, changed-counted, changed-read, cost-counted, cost-read,
}

-- Two allocations for each radio, one for the array, one for the array of elements, one for the
-- message of all of them.
abbrev pub radios_need : List RadioState → ℕ
radios_need radios = suc (suc (grants_each 2 radios 1))

radios-MakesOne :
    (radios : List RadioState)
    → MakesOne
        (sicapwap.WtpProtocol.Events.assemble_radio_operational_state blank radios)
        (radios_need radios)
        (joined (map operational_part radios), 0)
radios-MakesOne radios k =
    rw (grants_each_assoc 2 1 radios k) (assemble_radio_operational_state-written blank radios k)

event-Makes :
    (radios : List RadioState)
    → Makes
        (change_state_event_elements radios)
        (event_parts radios)
        (grants (radios_need radios) 2)
event-Makes radios =
    and_one (radios_need radios) (radios-MakesOne radios)
      (and_one 2 (assemble_msg_elem_result_code-written blank 0) none_left)

abbrev pub event_bytes : List RadioState → ℕ → List ℕ
event_bytes radios seq_num =
    message_bytes seq_num change_state_event_request (event_parts radios) []

abbrev pub event_of : List RadioState → ChangeStateEvent
event_of radios = record { radios_count = length radios; radios = radios; result_code = 0 }

assemble_change_state_event-message :
    (id pmtu seq_num is_crypted : ℕ) (radios : List RadioState) (k : ℕ)
    → assemble_change_state_event_request id pmtu seq_num is_crypted radios
        (suc (grants (grants (radios_need radios) 2) k))
      ≡ assemble_message id pmtu seq_num change_state_event_request is_crypted
          (filled (event_parts radios))
          []
          k
unfolding assemble_change_state_event_request
assemble_change_state_event-message id pmtu seq_num is_crypted radios k =
    rw (assemble_array-Makes k (event-Makes radios))

-- The array of the radios is the only allocation.
pub parse_change_state_event-sent :
    (radios : List RadioState) (seq_num old k : ℕ)
    → All IsRadioState radios
    → seq_num < 256
    → length (joined (event_parts radios)) + 3 < 65536
    → parse_change_state_event_request
        (event_bytes radios seq_num)
        (length (event_bytes radios seq_num))
        old
        (suc k)
      ≡ ok ((seq_num, event_of radios), k)
unfolding parse_change_state_event_request change_state_event_array
parse_change_state_event-sent radios seq_num old k fits small_seq small_len =
    let start : ChangeStateEvent = record { radios_count = 0; radios = []; result_code = old } in
    let counted : changed (counted_pieces radios) start
        ≡ record { radios_count = length radios; radios = []; result_code = 0 } =
      changed-counted radios start
      ∙ ap (λ n. record { radios_count = n; radios = []; result_code = 0 }) {x = 0 + length radios}
          (omega arith) in
    let ready : ChangeStateEvent = record {
      radios_count = length radios;
      radios = [];
      result_code = 0;
    } in
    let run =
      parse_control_message_twice-carrying change_state_event_count change_state_event_read
        change_state_event_array (λ n. true) seq_num change_state_event_request (event_parts radios)
        (counted_pieces radios) (read_pieces radios) start ready 1 k refl (joined-counted radios)
        (joined-counted radios ∙ counted-read radios) (counted-AreTaken radios start)
        (read-AreTaken radios ready fits (omega arith))
        (λ k. ap (λ v. change_state_event_array v (suc k)) counted) small_seq (omega arith)
        small_len in
    let costs : suc k
        ≡ grants (pieces_cost (counted_pieces radios))
            (suc (grants (pieces_cost (read_pieces radios)) k)) =
      rw (cost-counted radios, cost-read radios) in
    ap
      (λ n.
        parse_change_state_event_request (event_bytes radios seq_num)
          (length (event_bytes radios seq_num)) old n)
      costs
    ∙ run
    ∙ ap (λ v. ok ((seq_num, v), k)) (changed-read radios ready)

-- The Change State Event with the states of any radios, if one packet holds it, is received, and
-- CWParseChangeStateEventRequestMessage counts and reads all states in order, with the result code
-- 0. The states are bytes, the number has 8 bits, the packet has at most 65536 bytes, and the
-- allocations succeed.
pub change_state_event-received :
    (radios : List RadioState) (id pmtu seq_num is_crypted old j k : ℕ) (fs : List Fragment)
    (ds : List Datagram)
    → All IsRadioState radios
    → seq_num < 256
    → length (joined (event_parts radios)) + 16 ≤ 65536
    → fragments_num (length (event_bytes radios seq_num)) ((pmtu - 33) / 8 * 8) ≡ 1
    → let bytes : List ℕ = event_bytes radios seq_num in
      let packet : List ℕ = header_bytes (whole_values none is_crypted) ++ bytes in
      (assemble_change_state_event_request id pmtu seq_num is_crypted radios
          (suc (grants (grants (radios_need radios) 2) (suc (suc (suc (suc (suc k)))))))
        ≡ ok (written none packet 0 ∷ [], k))
      × (receive_message (record { packet = packet; grants = enough } ∷ ds) fs
          ≡ received false (written none bytes 0) ds)
      × (parse_change_state_event_request bytes (length bytes) old (suc j)
          ≡ ok ((seq_num, event_of radios), j))
change_state_event-received radios id pmtu seq_num is_crypted old j k fs ds fits small_seq small_len
      one =
    let (sent, got) =
      assemble_message-whole id pmtu seq_num change_state_event_request is_crypted
        (event_parts radios) [] k fs ds one (omega arith) in
    (
      assemble_change_state_event-message id pmtu seq_num is_crypted radios _ ∙ sent,
      got,
      parse_change_state_event-sent radios seq_num old j fits small_seq (omega arith),
    )

-- The response carries no elements.
abbrev pub response_bytes : ℕ → List ℕ
response_bytes seq_num = message_bytes seq_num change_state_event_response [] []

pub parse_change_state_event_response-sent :
    (seq_num expected k : ℕ)
    → seq_num < 256
    → parse_change_state_event_response (response_bytes seq_num) expected k
      ≡ (if seq_num == expected then ok (tt, k) else raised invalid_format)
unfolding parse_change_state_event_response
parse_change_state_event_response-sent seq_num expected k small_seq =
    rw
      (ap (λ r. parse_control_header (record { msg = r; offset = 0; data_msg_type = none }) k)
          (sym (append-nil (response_bytes seq_num)))
        ∙ received-control seq_num change_state_event_response k [] [] small_seq (omega arith)
            (omega arith))
      (ground arith)

-- The response to a Change State Event, in one packet, is received, and
-- CWParseChangeStateEventResponseMessage accepts it if its number is the expected one, and refuses
-- it otherwise; the number has 8 bits and the allocations succeed.
pub change_state_event_response-received :
    (id pmtu seq_num is_crypted expected j k : ℕ) (fs : List Fragment) (ds : List Datagram)
    → seq_num < 256
    → fragments_num (length (response_bytes seq_num)) ((pmtu - 33) / 8 * 8) ≡ 1
    → let bytes : List ℕ = response_bytes seq_num in
      let packet : List ℕ = header_bytes (whole_values none is_crypted) ++ bytes in
      (assemble_change_state_event_response id pmtu seq_num is_crypted
          (suc (suc (suc (suc (suc k)))))
        ≡ ok (written none packet 0 ∷ [], k))
      × (receive_message (record { packet = packet; grants = enough } ∷ ds) fs
          ≡ received false (written none bytes 0) ds)
      × (parse_change_state_event_response bytes expected j
          ≡ (if seq_num == expected then ok (tt, j) else raised invalid_format))
unfolding assemble_change_state_event_response
change_state_event_response-received id pmtu seq_num is_crypted expected j k fs ds small_seq one =
    let (sent, got) =
      assemble_message-whole id pmtu seq_num change_state_event_response is_crypted [] [] k fs ds
        one (omega arith) in
    (sent, got, parse_change_state_event_response-sent seq_num expected j small_seq)
