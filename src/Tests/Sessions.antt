-- ===== src/Tests/Sessions.antt =====
-- Requests that are sent again, and sessions in the data check: concrete runs.
use sicapwap.Prelude.{ℕ, ◌<◌, ◌≡◌, refl, true, false, none, some, [], ◌∷◌, arith}
use sicapwap.Exec.{need_resource}
use sicapwap.Message.{Message, blank}
use sicapwap.Message.Written.{written}
use sicapwap.Element.{RadioState}
use sicapwap.Header.RoundTrip.{control_bytes}
use sicapwap.Fragment.{fragments_num}
use sicapwap.AcRetransmission.{WtpManager, send_each}
use sicapwap.Join.{RadioInfo}
use sicapwap.ChangeState.{
  ChangeStateEvent, save_change_state_event, assemble_change_state_event_request,
  parse_change_state_event_request, assemble_change_state_event_response,
  parse_change_state_event_response,
}
use sicapwap.ChangeState.Saved.{save_change_state_event_lem}
use sicapwap.ChangeState.Taken.{IsRadioState}
use sicapwap.ChangeState.Received.{
  event_bytes, response_bytes, change_state_event_response-received,
}
use sicapwap.Acknowledged.{expired, answered, peer_dead, saved, send_acknowledged_packet}
use sicapwap.Acknowledged.Answered.{
  logged, over, send_acknowledged-answered, send_acknowledged-peer_dead,
}
use sicapwap.AcSession.{
  Session, Outside, handled, closed, StateTransition, data_check, run, manage_data_check,
}
use sicapwap.AcSession.DataCheck.{running, manage_data_check-answered}
use sicapwap.WtpSession.{Setting, wtp_enter_data_check}
use sicapwap.WtpSession.DataCheck.{
  request_packet, response_arrives, response-parsed, wtp_enter_data_check-answered,
}

abbrev radio : ℕ → RadioState
radio id = record { id = id; state = 1; cause = 3 }

radio-IsRadioState : (id : ℕ) → id < 256 → IsRadioState (radio id)
radio-IsRadioState id fits = record {
  id_fits = fits;
  state_fits = omega arith;
  cause_fits = omega arith;
}

abbrev info : ℕ → RadioInfo
info id = record {
  radio_id = id;
  admin_state = 1;
  admin_cause = 1;
  operational_state = 2;
  operational_cause = 0;
  tx_queue_level = 0;
  wireless_link_frames_per_sec = 0;
}

-- Both radios are updated, and the second report makes the result a failure.
save_change_state_event_lem_example :
    save_change_state_event
      (record { radios_count = 2; radios = radio 0 ∷ radio 1 ∷ []; result_code = 0 })
      (info 0 ∷ info 1 ∷ [])
    ≡ (
      false,
      record (info 0) { operational_state = 1; operational_cause = 3 }
          ∷ record (info 1) { operational_state = 1; operational_cause = 3 }
          ∷ [],
    )
unfolding sicapwap.ChangeState.reported
save_change_state_event_lem_example =
    save_change_state_event_lem
      (record { radios_count = 2; radios = radio 0 ∷ radio 1 ∷ []; result_code = 0 })
      (info 0 ∷ info 1 ∷ [])

-- The first wait is over without a response; the second ends with one.
abbrev setting : Setting
setting = record {
  send = λ m. true;
  max_retransmit = 3;
  longest_sleep = 5;
  retransmit_timer = 3;
  started = true;
  last_error = need_resource;
}

all_sent : (m : Message) → (send_each (λ m. true) (m ∷ [])).0 ≡ true
unfolding send_each
all_sent m = refl

send_acknowledged-answered_example :
    send_acknowledged_packet
      (λ m. true)
      (λ m. parse_change_state_event_response m.msg 5 0)
      (λ v. saved)
      (blank ∷ [])
      3
      5
      3
      (expired ∷ response_arrives setting 7 1500 5 0 [] 0 ∷ [])
    ≡ (answered tt, logged (blank ∷ []) 5 2 3)
unfolding fragments_num control_bytes
send_acknowledged-answered_example =
    send_acknowledged-answered (λ m. true) (λ m. parse_change_state_event_response m.msg 5 0)
      (λ v. saved) (blank ∷ []) 3 5 (all_sent blank) 3 (expired ∷ []) [] _ [] false
      (written none (response_bytes 5) 0) tt 0 (over, tt) (omega arith)
      (change_state_event_response-received 7 1500 5 0 5 0 0 [] [] (omega arith) refl).1
      (response-parsed setting 7 1500 5 0 [] 0 (omega arith) refl) refl

send_acknowledged-peer_dead_example :
    send_acknowledged_packet
      (λ m. true)
      (λ m. parse_change_state_event_response m.msg 5 0)
      (λ v. saved)
      (blank ∷ [])
      2
      5
      3
      (expired ∷ expired ∷ [])
    ≡ (peer_dead, logged (blank ∷ []) 5 2 3)
send_acknowledged-peer_dead_example =
    send_acknowledged-peer_dead (λ m. true) (λ m. parse_change_state_event_response m.msg 5 0)
      (λ v. saved) (blank ∷ []) 2 5 (all_sent blank) 3 (expired ∷ expired ∷ []) []
      (over, (over, tt)) refl

wtp_enter_data_check-answered_example :
    wtp_enter_data_check setting 7 1500 5 0
      (radio 0 ∷ [])
      0
      13
      (expired ∷ response_arrives setting 7 1500 5 0 (radio 0 ∷ []) 0 ∷ [])
    ≡ (some run, logged (request_packet setting 7 1500 5 0 (radio 0 ∷ []) 0 ∷ []) 5 2 3)
unfolding fragments_num control_bytes
wtp_enter_data_check-answered_example =
    wtp_enter_data_check-answered setting 7 1500 5 0 (radio 0 ∷ []) 0 (all_sent _) 0 (expired ∷ [])
      [] (radio-IsRadioState 0 (omega arith), tt) (omega arith) (omega arith) refl refl (over, tt)
      (omega arith) refl

abbrev outside : Outside
outside = record {
  send = λ m. true;
  cancelled = true;
  requested = true;
  last_error = need_resource;
}

abbrev no_wtp : WtpManager
no_wtp = record {
  messages = none;
  messages_count = 0;
  is_retransmitting = false;
  retransmission_count = 0;
  response_type = 0;
  response_seq_num = 0;
  timer = false;
  is_request_close = false;
  closed = false;
  sent = [];
}

abbrev checking : Session
checking = record {
  current_state = data_check;
  waiting_request = true;
  timer = true;
  radios = info 0 ∷ info 1 ∷ [];
  wtp = no_wtp;
}

manage_data_check-answered_example :
    manage_data_check outside 7 1500 0 9 (written none (event_bytes (radio 0 ∷ []) 5) 0) 7 checking
    ≡ (handled, running outside 7 1500 0 (radio 0 ∷ []) checking 5)
unfolding fragments_num control_bytes
manage_data_check-answered_example =
    manage_data_check-answered outside 7 1500 0 (radio 0 ∷ []) checking 5 9 0
      (radio-IsRadioState 0 (omega arith), tt) (omega arith) (omega arith) refl refl refl refl refl
