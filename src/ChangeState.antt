-- ===== src/ChangeState.antt =====
-- WTPDataCheckState.c, ACDataCheckState.c and ACRunState.c: the Change State Event of the
-- termination point, what the access controller makes of it, and the response.
pub mod Saved
pub mod Taken
pub mod Received
use sicapwap.Prelude.{
  ℕ, zero, suc, ◌+◌, ◌-◌, ◌%◌, Bool, true, false, none, List, [], ◌∷◌, ◌==◌, if◌then◌else◌, ltb,
  ◌&&◌,
}
use sicapwap.Exec.{Exec, pure, ◌>>=◌, ◌>>◌, raise, invalid_format, alloc}
use sicapwap.Message.{Message, blank}
use sicapwap.Header.{parse_control_header, control_header_offset}
use sicapwap.Element.{
  RadioState, assemble_msg_elem_result_code, parse_result_code, parse_wtp_radio_operational_state,
}
use sicapwap.Fragment.{assemble_message}
use sicapwap.WtpProtocol.Assemble.{assemble_array}
use sicapwap.WtpProtocol.Events.{assemble_radio_operational_state}
use sicapwap.ElementLoop.{into, skip, put_into, parse_control_message_twice}
use sicapwap.Join.{RadioInfo}

abbrev pub change_state_event_request : ℕ
change_state_event_request = 11

abbrev pub change_state_event_response : ℕ
change_state_event_response = 12

-- `radios` are the states that `CWGetWTPRadiosOperationalState` returns. The result code is success.
abbrev pub change_state_event_elements : List RadioState → List (Exec Message)
change_state_event_elements radios =
    assemble_radio_operational_state blank radios ∷ assemble_msg_elem_result_code blank 0 ∷ []

unfoldable pub assemble_change_state_event_request :
    ℕ → ℕ → ℕ → ℕ → List RadioState → Exec (List Message)
assemble_change_state_event_request id pmtu seq_num is_crypted radios = do
  alloc
  elems ← assemble_array (λ a. a) (change_state_event_elements radios)
  assemble_message id pmtu seq_num change_state_event_request is_crypted elems []

-- `CWProtocolChangeStateEventRequestValues`.
pub record ChangeStateEvent : Type 0 where
  pub radios_count : ℕ
  pub radios : List RadioState
  pub result_code : ℕ

-- The first round counts the radios.
unfoldable pub change_state_event_count :
    ℕ → ℕ → ChangeStateEvent → Message → Exec (ChangeStateEvent × Message)
change_state_event_count type len v m =
    if type == 32
    then skip len (record v { radios_count = v.radios_count + 1 }) m
    else if type == 33
    then into (parse_result_code m len) (λ s. record v { result_code = s })
    else raise invalid_format

-- The second round reads them, each into the array's next entry. What the entry was is not kept.
unfoldable pub change_state_event_read :
    ℕ → ℕ → ChangeStateEvent → Message → Exec (ChangeStateEvent × Message)
change_state_event_read type len v m =
    if type == 32
    then put_into (parse_wtp_radio_operational_state m len) v.radios_count v.radios
        (λ s. record v { radios = s })
    else skip len v m

-- The array of the radios is allocated.
unfoldable pub change_state_event_array : ChangeStateEvent → Exec ChangeStateEvent
change_state_event_array v = alloc >> pure (record v { radios = [] })

-- `old` is the result code that the caller has not assigned.
unfoldable pub parse_change_state_event_request : List ℕ → ℕ → ℕ → Exec (ℕ × ChangeStateEvent)
parse_change_state_event_request msg len old =
    parse_control_message_twice change_state_event_count change_state_event_read
      change_state_event_array (λ seq_num. true) change_state_event_request msg len
      (record { radios_count = 0; radios = []; result_code = old })

-- A radio of the manager with the reported state, if it has the reported id.
unfoldable pub reported : RadioState → RadioInfo → RadioInfo
reported r info =
    if info.radio_id == r.id
    then record info { operational_state = r.state; operational_cause = r.cause }
    else info

-- The inner loop, with `found` and `retValue`: the result is set to failure at each radio up to
-- which the id was not found.
unfoldable pub save_report : RadioState → Bool → Bool → List RadioInfo → Bool × List RadioInfo
unfolding reported
save_report r found ret [] = (ret, [])
save_report r found ret (info ∷ infos) =
    let found = if info.radio_id == r.id then true else found in
    let (ret, rest) = save_report r found (if found then ret else false) infos in
    (ret, reported r info ∷ rest)

-- The outer loop over the reports.
unfoldable pub save_reports : Bool → List RadioState → List RadioInfo → Bool × List RadioInfo
unfolding save_report
save_reports ret [] infos = (ret, infos)
save_reports ret (r ∷ rs) infos =
    let (ret, infos) = save_report r false ret infos in save_reports ret rs infos

-- `CWSaveChangeStateEventRequestMessage`: the result, and the radios of the manager.
unfoldable pub save_change_state_event : ChangeStateEvent → List RadioInfo → Bool × List RadioInfo
save_change_state_event v infos = save_reports true v.radios infos

unfoldable pub assemble_change_state_event_response : ℕ → ℕ → ℕ → ℕ → Exec (List Message)
assemble_change_state_event_response id pmtu seq_num is_crypted =
    assemble_message id pmtu seq_num change_state_event_response is_crypted [] []

-- `CWParseChangeStateEventResponseMessage`, with the sequence number of the request. The length is
-- in 16 bits.
unfoldable pub parse_change_state_event_response : List ℕ → ℕ → Exec (Unit {0})
parse_change_state_event_response msg seq_num = do
  (control, m) ← parse_control_header (record { msg = msg; offset = 0; data_msg_type = none })
  if (control.message_type_value == change_state_event_response)
        && (control.seq_num == seq_num)
        && ((control.msg_elems_len + 65536 - control_header_offset) % 65536 == 0)
      then pure tt
      else raise invalid_format
