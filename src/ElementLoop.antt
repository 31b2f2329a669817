-- ===== src/ElementLoop.antt =====
-- The loop over the elements of a control message, which every parser of such a message has, and
-- what follows it: a handler is called with the type and the length of each element.
pub mod Taken
pub mod Made
pub mod Received
pub mod Twice
pub mod Many
use sicapwap.Prelude.{
  ℕ, zero, suc, ◌+◌, ◌-◌, ◌%◌, Bool, true, false, none, List, [], ◌∷◌, ltb, ◌==◌, if◌then◌else◌,
  ◌&&◌, length, ◌++◌,
}
use sicapwap.Exec.{Exec, pure, ◌>>=◌, raise, invalid_format, no_fuel, access_fault}
use sicapwap.Message.{Message}
use sicapwap.Header.{parse_control_header, control_header_offset}
use sicapwap.Element.{parse_format_msg_elem}

-- A parsed part, put into the values.
abbrev pub into {ℓ κ} :
    {A : Type ℓ} {V : Type κ} → Exec (A × Message) → (A → V) → Exec (V × Message)
into part change = part >>= λ r. pure (change r.0, r.1)

module _ {ℓ} {V : Type ℓ} (one : ℕ → ℕ → V → Message → Exec (V × Message)) where
  -- `while ((completeMsg.offset - offsetTillMessages) < controlVal.msgElemsLen)`, by fuel.
  unfoldable pub parse_elements : ℕ → ℕ → ℕ → V → Message → Exec (V × Message)
  parse_elements zero start len v m = no_fuel
  parse_elements (suc fuel) start len v m = elim (ltb (m.offset - start) len) [
    | false ↦ pure (v, m)
    | true ↦ do
      (type, elem_len, m) ← parse_format_msg_elem m
      (v, m) ← one type elem_len v m
      parse_elements fuel start len v m
  ]

  -- The elements behind the control header; `msgElemsLen` is an `unsigned short`, from which the size
  -- of the flags and the length is taken off. Every round moves on by four bytes or more, so that one
  -- round for each byte is enough.
  unfoldable pub parse_elements_of : ℕ → V → Message → Exec (V × Message)
  parse_elements_of msg_elems_len v m =
      let len = (msg_elems_len + 65536 - control_header_offset) % 65536 in
      parse_elements (suc len) m.offset len v m

  -- A message of a type, of which nothing is left behind the elements. The result has the sequence
  -- number.
  unfoldable pub parse_control_message : ℕ → List ℕ → ℕ → V → Exec (ℕ × V)
  parse_control_message msg_type msg len v = do
    (control, m) ← parse_control_header (record { msg = msg; offset = 0; data_msg_type = none })
    if control.message_type_value == msg_type
        then (do
          (v, m) ← parse_elements_of control.msg_elems_len v m
          if m.offset == len then pure (control.seq_num, v) else raise invalid_format)
        else raise invalid_format

-- An element that the parser passes by: `completeMsg.offset += elemLen`.
abbrev pub skip {ℓ} : {V : Type ℓ} → ℕ → V → Message → Exec (V × Message)
skip len v m = pure (v, record m { offset = m.offset + len })

-- The next entry of an array of `count`: writing behind its end is a fault.
unfoldable pub put {ℓ} : {A : Type ℓ} → ℕ → List A → A → Exec (List A)
put count array a = if ltb (length array) count then pure (array ++ (a ∷ [])) else access_fault

-- A parsed part, put into the next entry.
abbrev pub put_into {ℓ κ} :
    {A : Type ℓ} {V : Type κ} → Exec (A × Message) → ℕ → List A → (List A → V) → Exec (V × Message)
put_into part count array change =
    part >>= λ r. put count array r.0 >>= λ array. pure (change array, r.1)

module _ {ℓ} {V : Type ℓ} (count read : ℕ → ℕ → V → Message → Exec (V × Message))
    (between : V → Exec V) where
  -- A parser that goes through the elements twice: it reads some and counts the others, allocates an
  -- array for each kind that it counted, and reads these from the first element on. `accepts` is the
  -- test of the sequence number.
  unfoldable pub parse_control_message_twice : (ℕ → Bool) → ℕ → List ℕ → ℕ → V → Exec (ℕ × V)
  unfolding parse_elements_of
  parse_control_message_twice accepts msg_type msg len v = do
    (control, m) ← parse_control_header (record { msg = msg; offset = 0; data_msg_type = none })
    if (control.message_type_value == msg_type) && accepts control.seq_num
        then (do
          (v, counted) ← parse_elements_of count control.msg_elems_len v m
          if counted.offset == len
              then (do
                v ← between v
                (v, done) ← parse_elements_of read control.msg_elems_len v m
                pure (control.seq_num, v))
              else raise invalid_format)
        else raise invalid_format
