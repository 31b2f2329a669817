-- ===== src/AcSession.antt =====
-- ACDataCheckState.c and ACMainLoop.c: what a thread of the access controller does with a message
-- that arrives while the session is in the state of the data check.
pub mod DataCheck
use sicapwap.Prelude.{ℕ, zero, suc, Bool, true, false, some, List, [], ◌∷◌, if◌then◌else◌, length}
use sicapwap.Exec.{
  Outcome, ok, raised, fault, out_of_fuel, ErrorCode, success, out_of_memory, wrong_arg,
  interrupted, need_resource, comunicating, creating, general, operation_aborted, sending,
  receiving, invalid_format, time_expired, none_pending,
}
use sicapwap.Message.{Message}
use sicapwap.AcRetransmission.{WtpManager, ac_send_fragments}
use sicapwap.Join.{RadioInfo}
use sicapwap.ChangeState.{
  ChangeStateEvent, parse_change_state_event_request, save_change_state_event,
  assemble_change_state_event_response,
}

-- `CWStateTransition`.
pub data StateTransition : Type 0 where
  sulking discovery join configure data_check run reset quit : StateTransition

-- `gWTPs[WTPIndex]`, as far as the data check uses it: `timer` tells if `currentTimer` was
-- requested, and `waiting_request` is the sub-state.
pub record Session : Type 0 where
  pub current_state : StateTransition
  pub waiting_request : Bool
  pub timer : Bool
  pub radios : List RadioInfo
  pub wtp : WtpManager

-- What a handler ends with: `CW_TRUE`; `CW_FALSE`, with the last error; the thread is closed; an
-- access outside a buffer.
pub data Handled : Type 0 where
  handled : Handled
  refused : ErrorCode → Handled
  closed : Handled
  crashed : Handled

-- What is outside: if a message is sent, if timers are cancelled and requested, and the last error
-- where a function fails without an error of its own.
pub record Outside : Type 0 where
  pub send : Message → Bool
  pub cancelled : Bool
  pub requested : Bool
  pub last_error : ErrorCode

-- The thread goes on if the message is of another format, and closes the session at any other
-- error.
unfoldable pub after_handler {ℓ} : {S : Type ℓ} → Handled × S → Handled × S
after_handler (refused invalid_format, s) = (handled, s)
after_handler (refused success, s) = (closed, s)
after_handler (refused out_of_memory, s) = (closed, s)
after_handler (refused wrong_arg, s) = (closed, s)
after_handler (refused interrupted, s) = (closed, s)
after_handler (refused need_resource, s) = (closed, s)
after_handler (refused comunicating, s) = (closed, s)
after_handler (refused creating, s) = (closed, s)
after_handler (refused general, s) = (closed, s)
after_handler (refused operation_aborted, s) = (closed, s)
after_handler (refused sending, s) = (closed, s)
after_handler (refused receiving, s) = (closed, s)
after_handler (refused time_expired, s) = (closed, s)
after_handler (refused none_pending, s) = (closed, s)
after_handler (handled, s) = (handled, s)
after_handler (closed, s) = (closed, s)
after_handler (crashed, s) = (crashed, s)

module _ (o : Outside) (id pmtu is_crypted : ℕ) where
  -- From the response on: it is sent, and the NeighborDeadInterval timer is requested.
  unfoldable pub answer : Outcome (List Message × ℕ) → Session → Handled × Session
  answer (raised e) s = (refused e, s)
  answer fault s = (crashed, s)
  answer out_of_fuel s = (crashed, s)
  answer (ok (ms, k)) s =
      let w : WtpManager = record (s.wtp) { messages = some ms; messages_count = length ms } in
      let (through, w) = ac_send_fragments (o.send) w in
      let s : Session = record s { wtp = w } in
      if through
      then (if o.requested
          then (handled, record s { timer = true; current_state = run; waiting_request = true })
          else (closed, s))
      else (refused (o.last_error), s)

  -- From the parsed event on.
  unfoldable pub save_and_answer :
      Outcome ((ℕ × ChangeStateEvent) × ℕ) → Session → Handled × Session
  unfolding answer
  save_and_answer (raised e) s = (refused e, s)
  save_and_answer fault s = (crashed, s)
  save_and_answer out_of_fuel s = (crashed, s)
  save_and_answer (ok ((seq_num, v), k)) s =
      let (kept, radios) = save_change_state_event v (s.radios) in
      let s : Session = record s { radios = radios } in
      if kept
      then answer (assemble_change_state_event_response id pmtu seq_num is_crypted k) s
      else (refused (o.last_error), s)

  -- `old` is the result code that the new object has.
  unfoldable pub ac_enter_data_check : ℕ → Message → ℕ → Session → Handled × Session
  unfolding save_and_answer
  ac_enter_data_check old m zero s =
      if o.cancelled then (refused out_of_memory, record s { timer = false }) else (closed, s)
  ac_enter_data_check old m (suc k) s =
      if o.cancelled
      then save_and_answer (parse_change_state_event_request (m.msg) (m.offset) old k)
          (record s { timer = false })
      else (closed, s)

  -- A message in this state.
  unfoldable pub manage_data_check : ℕ → Message → ℕ → Session → Handled × Session
  unfolding after_handler ac_enter_data_check
  manage_data_check old m k s = after_handler (ac_enter_data_check old m k s)
