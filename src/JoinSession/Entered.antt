-- ===== src/JoinSession/Entered.antt =====
-- A session of the access controller in the join state.
use sicapwap.Prelude.{
  ℕ, suc, ◌+◌, ◌-◌, ◌*◌, ◌/◌, ◌<◌, ◌≡◌, refl, ap, ◌∙◌, Bool, true, false, none, List, [], ◌∷◌, ◌++◌,
  length, append-nil, if◌then◌else◌,
}
use sicapwap.Exec.{ok}
use sicapwap.Message.{Message}
use sicapwap.Message.Written.{written}
use sicapwap.Message.Reads.{grants}
use sicapwap.Header.RoundTrip.{header_bytes}
use sicapwap.Fragment.{fragments_num, whole_values}
use sicapwap.AcRetransmission.{send_each, ac_send_fragments, free_wtp_msg_array}
use sicapwap.Receive.Whole.{assemble_message-one}
use sicapwap.ElementLoop.Taken.{pieces_bytes, pieces_cost}
use sicapwap.Join.{
  Wtp, JoinRequestValues, Manager, parse_join_request, save_join_request, save_name, save_radios,
}
use sicapwap.Join.Elements.{IsWtp, join_request_pieces}
use sicapwap.Join.Received.{values_of, request_bytes, parse_join_request-sent}
use sicapwap.AcProtocol.Assemble.{AcDescriptor, Interface}
use sicapwap.JoinResponse.{join_response}
use sicapwap.JoinResponse.Received.{
  the_ac, response_parts, response_bytes, response_needs, assemble_join_response-message,
}
use sicapwap.AcSession.{Outside, handled, configure, after_handler}
use sicapwap.JoinSession.{JoinSession, wanted_list, manage_join}

-- What arrives is parsed as the bytes that were sent.
parse-written :
    (w : Wtp) (seq_num k : ℕ) (old : JoinRequestValues)
    → IsWtp w
    → seq_num < 256
    → length (pieces_bytes (join_request_pieces w)) + 3 < 65536
    → parse_join_request
        (request_bytes w seq_num ++ [])
        (length (request_bytes w seq_num))
        old
        (grants (pieces_cost (join_request_pieces w)) k)
      ≡ ok ((seq_num, values_of w), k)
parse-written w seq_num k old fits small_seq small_len =
    ap
      (λ b.
        parse_join_request b (length (request_bytes w seq_num)) old
          (grants (pieces_cost (join_request_pieces w)) k))
      (append-nil (request_bytes w seq_num))
    ∙ parse_join_request-sent w seq_num k old fits small_seq small_len

-- The request is kept if the array of radios is allocated.
kept-got : (w : Wtp) (g : Manager) (got : Bool) → (save_join_request g (values_of w) got).0 ≡ got
unfolding save_join_request save_name save_radios
kept-got w g true = refl
kept-got w g false = refl

module _ (o : Outside) (id pmtu is_crypted : ℕ) (d : AcDescriptor) (name : List ℕ) (i : Interface)
    (is : List Interface) (got : Bool) (w : Wtp) (s : JoinSession) (seq_num : ℕ) where
  -- A resource depletion is 4.
  abbrev pub join_code : ℕ
  join_code = if got then 0 else 4

  abbrev pub response_packet : Message
  response_packet =
      written none
        (header_bytes (whole_values none is_crypted)
          ++ response_bytes d name i is join_code seq_num)
        0

  -- The session after a request that is answered.
  abbrev pub joined_session : JoinSession
  joined_session = record s {
    timer = false;
    manager = (save_join_request s.manager (values_of w) got).1;
    wtp = record (s.wtp) {
      messages = none;
      messages_count = 0;
      sent = s.wtp.sent ++ (response_packet ∷ []);
    };
    current_state = configure;
  }

  -- A session of the access controller in the join state that receives a Join Request cancels its
  -- timer, keeps the values as CWSaveJoinRequestMessage does, sends one response and goes to the
  -- configuration; the response says success if the array of radios is allocated, and a resource
  -- depletion otherwise, with the same next state. The values of the termination point fit their
  -- fields, the access controller has an interface, the messages fit, the timer is cancelled, the
  -- packet of the response is sent, and the other allocations succeed.
  pub manage_join-answered :
      (k : ℕ) (old : JoinRequestValues)
      → IsWtp w
      → seq_num < 256
      → length (pieces_bytes (join_request_pieces w)) + 3 < 65536
      → fragments_num (length (response_bytes d name i is join_code seq_num)) ((pmtu - 33) / 8 * 8)
        ≡ 1
      → o.cancelled ≡ true
      → o.send response_packet ≡ true
      → manage_join o id pmtu is_crypted
          (the_ac d name (i ∷ is))
          got
          old
          (written none (request_bytes w seq_num) 0)
          (grants (pieces_cost (join_request_pieces w)) (
            suc (
              suc (
                suc (
                  grants (response_needs d name i is join_code) (suc (suc (suc (suc (suc k))))))))))
          s
        ≡ (handled, joined_session)
  unfolding manage_join wanted_list ac_send_fragments send_each free_wtp_msg_array after_handler
  manage_join-answered k old fits small_seq small_len one cancelled through =
      let response =
        assemble_join_response-message d name i is join_code id pmtu seq_num is_crypted _
        ∙ (assemble_message-one id pmtu seq_num join_response is_crypted
            (response_parts d name i is join_code) [] k one) in
      rw (
        parse-written w seq_num _ old fits small_seq small_len,
        cancelled,
        kept-got w s.manager got,
        response,
        through,
      )
