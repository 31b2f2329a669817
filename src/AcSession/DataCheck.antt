-- ===== src/AcSession/DataCheck.antt =====
-- A session of the access controller in the data check.
use sicapwap.Prelude.{
  ℕ, suc, ◌+◌, ◌-◌, ◌*◌, ◌/◌, ◌<◌, ◌≡◌, ap, ◌∙◌, true, false, none, List, [], ◌∷◌, ◌++◌, All,
  length, map, append-nil,
}
use sicapwap.Exec.{ok, raised, invalid_format}
use sicapwap.Message.{Message}
use sicapwap.Message.Written.{written}
use sicapwap.Element.{RadioState}
use sicapwap.Header.RoundTrip.{header_bytes}
use sicapwap.Fragment.{fragments_num, whole_values}
use sicapwap.Fragment.Control.{joined}
use sicapwap.AcRetransmission.{send_each, ac_send_fragments, free_wtp_msg_array}
use sicapwap.ChangeState.{parse_change_state_event_request}
use sicapwap.ChangeState.Taken.{IsRadioState, event_parts}
use sicapwap.ChangeState.Saved.{after, all_name_first, save_change_state_event_lem}
use sicapwap.ChangeState.Received.{
  event_bytes, event_of, response_bytes, parse_change_state_event-sent,
  change_state_event_response-received,
}
use sicapwap.AcSession.{Session, Outside, handled, run, manage_data_check}

-- What arrives is parsed as the bytes that were sent.
parse-written :
    (radios : List RadioState) (seq_num old k : ℕ)
    → All IsRadioState radios
    → seq_num < 256
    → length (joined (event_parts radios)) + 3 < 65536
    → parse_change_state_event_request
        (event_bytes radios seq_num ++ [])
        (length (event_bytes radios seq_num))
        old
        (suc k)
      ≡ ok ((seq_num, event_of radios), k)
parse-written radios seq_num old k fits small_seq small_len =
    ap (λ b. parse_change_state_event_request b (length (event_bytes radios seq_num)) old (suc k))
      (append-nil (event_bytes radios seq_num))
    ∙ parse_change_state_event-sent radios seq_num old k fits small_seq small_len

module _ (o : Outside) (id pmtu is_crypted : ℕ) (radios : List RadioState) (s : Session)
    (seq_num : ℕ) where
  abbrev pub response_packet : Message
  response_packet =
      written none (header_bytes (whole_values none is_crypted) ++ response_bytes seq_num) 0

  -- The session after an event that is answered.
  abbrev pub running : Session
  running = record s {
    radios = map (after radios) s.radios;
    wtp = record (s.wtp) {
      messages = none;
      messages_count = 0;
      sent = s.wtp.sent ++ (response_packet ∷ []);
    };
    timer = true;
    current_state = run;
    waiting_request = true;
  }

  -- A session of the access controller in the data check that receives a Change State Event
  -- updates its radios, sends one response, requests its timer and goes to the run state to wait
  -- for a request, if every report names its first radio, the timers are cancelled and requested,
  -- the packet of the response is sent, the states are bytes and the allocations succeed.
  pub manage_data_check-answered :
      (old k : ℕ)
      → All IsRadioState radios
      → seq_num < 256
      → length (joined (event_parts radios)) + 3 < 65536
      → fragments_num (length (response_bytes seq_num)) ((pmtu - 33) / 8 * 8) ≡ 1
      → all_name_first radios s.radios ≡ true
      → o.cancelled ≡ true
      → o.requested ≡ true
      → o.send response_packet ≡ true
      → manage_data_check o id pmtu is_crypted old
          (written none (event_bytes radios seq_num) 0)
          (suc (suc (suc (suc (suc (suc (suc k)))))))
          s
        ≡ (handled, running)
  unfolding manage_data_check ac_send_fragments send_each free_wtp_msg_array
  manage_data_check-answered old k fits small_seq small_len one first cancelled requested through =
      let response =
        (change_state_event_response-received id pmtu seq_num is_crypted seq_num 0 k [] [] small_seq
          one).0 in
      rw (
        cancelled,
        parse-written radios seq_num old (suc (suc (suc (suc (suc k))))) fits small_seq small_len,
        save_change_state_event_lem (event_of radios) s.radios,
        first,
        response,
        through,
        requested,
      )

-- A message that CWParseChangeStateEventRequestMessage refuses for its format is ignored by a
-- session in the data check, which goes on without its timer.
pub manage_data_check-ignored :
    (o : Outside) (id pmtu is_crypted old k : ℕ) (m : Message) (s : Session)
    → o.cancelled ≡ true
    → parse_change_state_event_request m.msg m.offset old k ≡ raised invalid_format
    → manage_data_check o id pmtu is_crypted old m (suc k) s ≡ (handled, record s { timer = false })
unfolding manage_data_check
manage_data_check-ignored o id pmtu is_crypted old k m s cancelled bad = rw (cancelled, bad)
