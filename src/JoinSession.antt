-- ===== src/JoinSession.antt =====
-- ACJoinState.c, `ACEnterJoin`, and ACMainLoop.c: what a thread of the access controller does with a
-- message that arrives while the session is in the join state.
pub mod Entered
pub mod Ignored
use sicapwap.Prelude.{ℕ, zero, suc, Bool, true, false, List, [], ◌∷◌, some, if◌then◌else◌, length}
use sicapwap.Exec.{Outcome, ok, raised, fault, out_of_fuel, out_of_memory}
use sicapwap.Message.{Message}
use sicapwap.AcRetransmission.{WtpManager, ac_send_fragments}
use sicapwap.Join.{JoinRequestValues, Manager, parse_join_request, save_join_request}
use sicapwap.JoinResponse.{Ac, MsgElemData, assemble_join_response}
use sicapwap.AcSession.{
  StateTransition, configure, Handled, handled, refused, crashed, Outside, after_handler,
}

-- `gWTPs[WTPIndex]`, as far as the join state uses it: `timer` tells if `currentTimer` was
-- requested.
pub record JoinSession : Type 0 where
  pub current_state : StateTransition
  pub timer : Bool
  pub manager : Manager
  pub wtp : WtpManager

-- The list of the elements that are wanted. The result of `CWAddElementToList` is not tested: where
-- its allocation fails, the list stays empty.
unfoldable pub wanted_list : ℕ → ℕ → List MsgElemData × ℕ
wanted_list code zero = ([], zero)
wanted_list code (suc k) = (record { type = 33; value = code } ∷ [], k)

-- `got` tells whether the array of radios is allocated.
module _ (o : Outside) (id pmtu is_crypted : ℕ) (a : Ac) (got : Bool) where
  -- From the assembled response on.
  unfoldable pub send_response : Outcome (List Message × ℕ) → JoinSession → Handled × JoinSession
  send_response (raised e) s = (refused e, s)
  send_response fault s = (crashed, s)
  send_response out_of_fuel s = (crashed, s)
  send_response (ok (ms, k)) s =
      let w : WtpManager = record (s.wtp) { messages = some ms; messages_count = length ms } in
      let (through, w) = ac_send_fragments (o.send) w in
      let s : JoinSession = record s { wtp = w } in
      if through
      then (handled, record s { current_state = configure })
      else (refused (o.last_error), s)

  -- From the object of the result code on.
  unfoldable pub answer_join : ℕ → ℕ → ℕ → JoinSession → Handled × JoinSession
  unfolding send_response
  answer_join seq_num code zero s = (refused out_of_memory, s)
  answer_join seq_num code (suc k) s =
      let (wanted, k) = wanted_list code k in
      send_response (assemble_join_response id pmtu seq_num is_crypted a wanted k) s

  -- From the parsed request on: what cannot be kept is a resource depletion.
  unfoldable pub save_and_answer_join :
      Outcome ((ℕ × JoinRequestValues) × ℕ) → JoinSession → Handled × JoinSession
  unfolding answer_join
  save_and_answer_join (raised e) s = (refused e, s)
  save_and_answer_join fault s = (crashed, s)
  save_and_answer_join out_of_fuel s = (crashed, s)
  save_and_answer_join (ok ((seq_num, v), k)) s =
      if o.cancelled
      then (let (kept, manager) = save_join_request (s.manager) v got in
          answer_join seq_num (if kept then 0 else 4) k
            (record s { timer = false; manager = manager }))
      else (refused (o.last_error), s)

  -- `old` is what the new object has.
  unfoldable pub ac_enter_join :
      JoinRequestValues → Message → ℕ → JoinSession → Handled × JoinSession
  unfolding save_and_answer_join
  ac_enter_join old m k s = save_and_answer_join (parse_join_request (m.msg) (m.offset) old k) s

  -- A message in this state.
  unfoldable pub manage_join : JoinRequestValues → Message → ℕ → JoinSession → Handled × JoinSession
  unfolding ac_enter_join
  manage_join old m k s = after_handler (ac_enter_join old m k s)
