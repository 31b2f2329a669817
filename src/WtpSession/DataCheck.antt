-- ===== src/WtpSession/DataCheck.antt =====
-- A termination point in the data check: what it sends until it goes on to the run state.
use sicapwap.Prelude.{
  ℕ, suc, ◌+◌, ◌-◌, ◌*◌, ◌/◌, ◌<◌, ◌≤◌, ◌≡◌, refl, ap, ◌∙◌, true, false, none, some, List, [], ◌∷◌,
  ◌++◌, All, length, append-nil, ==_refl, if◌then◌else◌,
}
use sicapwap.Exec.{c_err, ok, raised, invalid_format}
use sicapwap.Message.{Message}
use sicapwap.Message.Written.{written}
use sicapwap.Message.Reads.{grants}
use sicapwap.Element.{RadioState}
use sicapwap.Header.RoundTrip.{header_bytes}
use sicapwap.Fragment.{fragments_num, whole_values}
use sicapwap.Fragment.Control.{joined}
use sicapwap.Receive.AnyOrder.{enough}
use sicapwap.AcRetransmission.{send_each}
use sicapwap.Acknowledged.{Wait, readable, saved}
use sicapwap.Acknowledged.Answered.{IsRetried, logged, send_acknowledged-answered}
use sicapwap.AcSession.{run}
use sicapwap.ChangeState.{parse_change_state_event_response}
use sicapwap.ChangeState.Taken.{IsRadioState, event_parts}
use sicapwap.ChangeState.Received.{
  event_bytes, response_bytes, radios_need, change_state_event-received,
  change_state_event_response-received,
}
use sicapwap.WtpSession.{Setting, wtp_enter_data_check}

module _ (c : Setting) (id pmtu seq_num is_crypted : ℕ) (radios : List RadioState) (j : ℕ) where
  -- The request, and the datagram of the response.
  abbrev pub request_packet : Message
  request_packet =
      written none (header_bytes (whole_values none is_crypted) ++ event_bytes radios seq_num) 0

  abbrev pub response_arrives : Wait
  response_arrives = readable (
      record {
        packet = header_bytes (whole_values none is_crypted) ++ response_bytes seq_num;
        grants = enough;
      }
      ∷ [])

  pub response-parsed :
      seq_num < 256
      → fragments_num (length (response_bytes seq_num)) ((pmtu - 33) / 8 * 8) ≡ 1
      → parse_change_state_event_response (response_bytes seq_num ++ []) seq_num j ≡ ok (tt, j)
  response-parsed small_seq one =
      ap (λ b. parse_change_state_event_response b seq_num j) (append-nil (response_bytes seq_num))
      ∙ (change_state_event_response-received id pmtu seq_num is_crypted seq_num j 0 [] [] small_seq
          one).2
      ∙ ap (λ b. if b then ok (tt, j) else raised invalid_format) (==_refl seq_num)

  module _ (sent : (send_each c.send (request_packet ∷ [])).0 ≡ true) where
    -- A termination point in the data check, after fewer waits than its limit that end without a
    -- response or with a message of another format, goes on to the run state when the response of
    -- the access controller arrives, and has sent its Change State Event once for each wait; both
    -- messages fit in one packet of at most 65536 bytes, the reported states are bytes, the
    -- packets are sent, the heartbeat timer is started, and the allocations succeed.
    pub wtp_enter_data_check-answered :
        (k : ℕ) (ws more : List Wait)
        → All IsRadioState radios
        → seq_num < 256
        → length (joined (event_parts radios)) + 16 ≤ 65536
        → fragments_num (length (event_bytes radios seq_num)) ((pmtu - 33) / 8 * 8) ≡ 1
        → fragments_num (length (response_bytes seq_num)) ((pmtu - 33) / 8 * 8) ≡ 1
        → All
            (IsRetried c.send
              (λ m. parse_change_state_event_response m.msg seq_num j)
              (λ v. saved)
              (request_packet ∷ [])
              c.max_retransmit
              c.longest_sleep
              sent)
            ws
        → length ws < c.max_retransmit
        → c.started ≡ true
        → wtp_enter_data_check c id pmtu seq_num is_crypted radios j
            (suc (grants (grants (radios_need radios) 2) (suc (suc (suc (suc (suc k)))))))
            (ws ++ (response_arrives ∷ more))
          ≡ (
            some run,
            logged (request_packet ∷ []) c.longest_sleep (suc (length ws)) c.retransmit_timer,
          )
    unfolding wtp_enter_data_check c_err
    wtp_enter_data_check-answered k ws more fits small_seq small_len one response_one retried below
          started =
        let assembled =
          (change_state_event-received radios id pmtu seq_num is_crypted 0 0 k [] [] fits small_seq
            small_len one).0 in
        let got =
          (change_state_event_response-received id pmtu seq_num is_crypted seq_num j 0 [] []
            small_seq response_one).1 in
        rw (
          started,
          assembled,
          send_acknowledged-answered c.send (λ m. parse_change_state_event_response m.msg seq_num j)
              (λ v. saved) (request_packet ∷ []) c.max_retransmit c.longest_sleep sent
              c.retransmit_timer ws more _ [] false (written none (response_bytes seq_num) 0) tt j
              retried below got (response-parsed small_seq response_one) refl,
        )
