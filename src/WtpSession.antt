-- ===== src/WtpSession.antt =====
-- WTPDataCheckState.c, `CWWTPEnterDataCheck`: the Change State Event is sent until its response
-- comes.
pub mod DataCheck
use sicapwap.Prelude.{
  ℕ, zero, suc, Bool, true, false, Option, none, some, List, [], ◌∷◌, if◌then◌else◌,
}
use sicapwap.Exec.{
  Outcome, ok, raised, fault, out_of_fuel, ErrorCode, need_resource, succeeded, failed_with,
  LastHandled, passed, failed, thread_ended, c_err,
}
use sicapwap.Message.{Message}
use sicapwap.Element.{RadioState}
use sicapwap.Acknowledged.{
  Wait, Answer, answered, peer_dead, request_failed, still_waiting, crashed, Log, Saved, saved,
  send_acknowledged_packet,
}
use sicapwap.AcSession.{StateTransition, run, reset}
use sicapwap.ChangeState.{assemble_change_state_event_request, parse_change_state_event_response}

-- What the program and its surroundings give: if a message is sent, the limits of retransmission
-- and the first time to wait, if the heartbeat timer is started, and the last error that was there,
-- since `CWStartHeartbeatTimer` raises none. `CWStopHeartbeatTimer` always returns `CW_TRUE`.
pub record Setting : Type 0 where
  pub send : Message → Bool
  pub max_retransmit : ℕ
  pub longest_sleep : ℕ
  pub retransmit_timer : ℕ
  pub started : Bool
  pub last_error : ErrorCode

abbrev nothing_sent : Log
nothing_sent = record { sent = []; waits = [] }

-- The next state after `CWErr` around the exchange; there is none if the thread is ended.
unfoldable pub after_event : LastHandled → Option StateTransition
after_event passed = some run
after_event failed = some reset
after_event thread_ended = none

-- There is no state either if the function does not return.
unfoldable pub after_answer {ℓ} : {V : Type ℓ} → Answer V → Option StateTransition
unfolding after_event
after_answer (answered v) = after_event (c_err succeeded)
after_answer peer_dead = after_event (c_err (failed_with need_resource))
after_answer (request_failed e) = after_event (c_err (failed_with e))
after_answer still_waiting = none
after_answer crashed = none

module _ (c : Setting) where
  -- `messages` is what the assembler returns, and each response is parsed with `j` allocations.
  unfoldable pub send_event :
      ℕ → ℕ → Outcome (List Message × ℕ) → List Wait → Option StateTransition × Log
  unfolding after_answer
  send_event seq_num j (ok (ms, k)) ws =
      let (a, log) =
        send_acknowledged_packet c.send (λ m. parse_change_state_event_response m.msg seq_num j)
          (λ v. saved) ms c.max_retransmit c.longest_sleep c.retransmit_timer ws in
      (after_answer a, log)
  send_event seq_num j (raised e) ws = (after_event (c_err (failed_with e)), nothing_sent)
  send_event seq_num j fault ws = (none, nothing_sent)
  send_event seq_num j out_of_fuel ws = (none, nothing_sent)

  unfoldable pub wtp_enter_data_check :
      (id pmtu seq_num is_crypted : ℕ) (radios : List RadioState) (j k : ℕ)
      → List Wait
      → Option StateTransition × Log
  unfolding send_event
  wtp_enter_data_check id pmtu seq_num is_crypted radios j k ws =
      elim (c_err (if c.started then succeeded else failed_with c.last_error)) [
        | passed ↦
            send_event seq_num j
              (assemble_change_state_event_request id pmtu seq_num is_crypted radios k) ws
        | failed ↦ (some reset, nothing_sent)
        | thread_ended ↦ (none, nothing_sent)
      ]
