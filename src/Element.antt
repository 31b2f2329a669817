-- ===== src/Element.antt =====
-- CWProtocol.c: message elements, with the type, the length and the body of each, and the elements
-- that the access controller and the termination point share.
pub mod RoundTrip
pub mod Body
pub mod Filled
use sicapwap.Prelude.{
  ℕ, ◌+◌, ◌-◌, Bool, true, false, Option, none, some, List, [], ◌∷◌, ◌==◌, if◌then◌else◌, length,
}
use sicapwap.Exec.{
  Outcome, raised, fault, out_of_fuel, Exec, ok, pure, ◌>>=◌, ◌>>◌, raise, invalid_format,
}
use sicapwap.Message.{
  Message, blank, create_message, store8, store16, store32, store_message, retrieve8, retrieve16,
  retrieve32, retrieve_str,
}

-- CWProtocol.h: types of message elements.
abbrev pub result_code_type : ℕ
result_code_type = 33

abbrev pub session_id_type : ℕ
session_id_type = 35

-- Two bytes more than the element needs are allocated.
unfoldable pub assemble_msg_elem : Message → ℕ → Exec Message
unfolding create_message store16 store_message
assemble_msg_elem m type = do
  complete ← create_message blank (6 + m.offset)
  complete ← store16 complete type
  complete ← store16 complete m.offset
  complete ← store_message complete m
  pure (record m { msg = complete.msg; offset = complete.offset })

-- The result of `CWAssembleMsgElem` is not tested. It fails only for want of memory, and leaves the
-- message as it was.
unfoldable pub or_unchanged : Message → Outcome (Message × ℕ) → Outcome (Message × ℕ)
or_unchanged m (ok r) = ok r
or_unchanged m (raised e) = ok (m, 0)
or_unchanged m fault = fault
or_unchanged m out_of_fuel = out_of_fuel

unfoldable pub assemble_unchecked : Message → ℕ → Exec Message
unfolding or_unchanged
assemble_unchecked m type k = or_unchanged m (assemble_msg_elem m type k)

unfoldable pub assemble_msg_elem_result_code : Message → ℕ → Exec Message
unfolding create_message store32 assemble_msg_elem
assemble_msg_elem_result_code m code = do
  m ← create_message m 4
  m ← store32 m code
  assemble_msg_elem m result_code_type

unfoldable pub assemble_msg_elem_session_id : Message → ℕ → Exec Message
unfolding create_message store32 assemble_msg_elem
assemble_msg_elem_session_id m id = do
  m ← create_message m 4
  m ← store32 m id
  assemble_msg_elem m session_id_type

unfoldable pub parse_format_msg_elem : Message → Exec (ℕ × ℕ × Message)
unfolding retrieve16
parse_format_msg_elem m = do (type, m) ← retrieve16 m; (len, m) ← retrieve16 m; pure (type, len, m)

-- `CWParseMessageElementEnd`: the element must have been `len` bytes, counted from `old`.
abbrev pub message_element_end {ℓ} : {A : Type ℓ} → ℕ → ℕ → A → Message → Exec (A × Message)
message_element_end old len value m =
    if (m.offset - old) == len then pure (value, m) else raise invalid_format

-- A parser of an element of so many bytes, by the parser of its fields: the code between
-- `CWParseMessageElementStart` and `CWParseMessageElementEnd`.
abbrev pub element {ℓ} :
    {A : Type ℓ} → (Message → Exec (A × Message)) → Message → ℕ → Exec (A × Message)
element fields m len = do (v, m') ← fields m; message_element_end m.offset len v m'

-- The same where the fields are read in view of the offset at which the element begins.
abbrev pub element_from {ℓ} :
    {A : Type ℓ} → (ℕ → Message → Exec (A × Message)) → Message → ℕ → Exec (A × Message)
element_from fields m len = element (fields m.offset) m len

unfoldable pub parse_result_code : Message → ℕ → Exec (ℕ × Message)
unfolding retrieve32
parse_result_code m len = do (code, m') ← retrieve32 m; message_element_end m.offset len code m'

-- `none` is the `NULL` of a failed allocation; the source tests the wrong pointer for it.
unfoldable pub parse_ac_name : Message → ℕ → Exec (Option (List ℕ) × Message)
unfolding retrieve_str
parse_ac_name m len = do (name, m') ← retrieve_str m len; message_element_end m.offset len name m'

pub record RadioState : Type 0 where
  pub id : ℕ
  pub state : ℕ
  pub cause : ℕ

-- The `cause` is left as it was.
unfoldable pub parse_wtp_radio_admin_state : Message → ℕ → RadioState → Exec (RadioState × Message)
unfolding retrieve8
parse_wtp_radio_admin_state m len old =
    element
      (λ m. do
        (id, m) ← retrieve8 m
        (state, m) ← retrieve8 m
        pure (record old { id = id; state = state }, m))
      m len

unfoldable pub parse_wtp_radio_operational_state : Message → ℕ → Exec (RadioState × Message)
unfolding retrieve8
parse_wtp_radio_operational_state m len =
    element
      (λ m. do
        (id, m) ← retrieve8 m
        (state, m) ← retrieve8 m
        (cause, m) ← retrieve8 m
        pure (record { id = id; state = state; cause = cause }, m))
      m len
