-- ===== src/Fragment.antt =====
-- CWProtocol.c, `CWAssembleMessage`, and CWBinding.c, `CWAssembleDataMessage`: a packet is cut into
-- fragments that fit the path's MTU, each under a transport header of its own.
pub mod Pieces
pub mod Assembled
pub mod Control
use sicapwap.Prelude.{
  ℕ, zero, suc, ◌+◌, ◌-◌, ◌*◌, ◌/◌, ◌%◌, Bool, true, false, Option, none, some, List, [], ◌∷◌, ltb,
  ◌==◌, if◌then◌else◌, length,
}
use sicapwap.Exec.{Exec, ok, pure, ◌>>=◌, ◌>>◌, alloc}
use sicapwap.Message.{Message, blank, create_message, read_at, store_raw_bytes, store_message}
use sicapwap.Element.{assemble_msg_elem_result_code}
use sicapwap.Header.{
  BindingValues, TransportValues, ControlValues, assemble_transport_header, assemble_control_header,
}

abbrev pub max_dtls_header_size : ℕ
max_dtls_header_size = 25

abbrev pub max_capwap_header_size : ℕ
max_capwap_header_size = 8

abbrev pub max_capwap_header_size_binding : ℕ
max_capwap_header_size_binding = 16

-- `PMTU - …` rounded down to groups of 8 bytes. A PMTU below the headers gives 0 too, which the
-- code treats alike: it does not fragment.
unfoldable pub aligned : ℕ → ℕ → ℕ
aligned pmtu headers = (pmtu - headers) / 8 * 8

-- `*fragmentsNumPtr`.
unfoldable pub fragments_num : ℕ → ℕ → ℕ
fragments_num size unit =
    if unit == 0 then 1 else if size % unit == 0 then size / unit else size / unit + 1

-- The values of one fragment's header. `type` and `keepAlive` are not assigned, and not read by the
-- assembler.
abbrev pub fragment_values : Option BindingValues → ℕ → ℕ → ℕ → ℕ → TransportValues
fragment_values binding payload_type id offset last = record {
  payload_type = payload_type;
  type = 0;
  is_fragment = 1;
  last = last;
  fragment_id = id;
  fragment_offset = offset;
  keep_alive = 0;
  binding_values = binding;
}

-- The values of the header of a packet that is not cut.
abbrev pub whole_values : Option BindingValues → ℕ → TransportValues
whole_values binding payload_type = record {
  payload_type = payload_type;
  type = 0;
  is_fragment = 0;
  last = 0;
  fragment_id = 0;
  fragment_offset = 0;
  keep_alive = 0;
  binding_values = binding;
}

-- A fragment: a header, and `size` bytes of the message from its offset on.
unfoldable pub put_fragment : TransportValues → ℕ → Message → Exec (Message × Message)
put_fragment v size msg = do
  hdr ← assemble_transport_header blank v
  out ← create_message blank (hdr.offset + size)
  out ← store_message out hdr
  bytes ← read_at msg.msg msg.offset size
  out ← store_raw_bytes out bytes
  pure (out, record msg { offset = msg.offset + size })

-- One round of the loop: `i` is the fragment's number, and `msg.offset` how much is taken.
unfoldable pub one_fragment :
    Option BindingValues → ℕ → ℕ → ℕ → ℕ → ℕ → ℕ → Message → Exec (Message × Message)
one_fragment binding payload_type id unit num total i msg =
    let more = ltb i (num - 1) in
    let size = if more then unit else total - (num - 1) * unit in
    let last = if more then 0 else 1 in
    put_fragment (fragment_values binding payload_type id (msg.offset / 8) last) size msg

-- `for (i = 0; i < *fragmentsNumPtr; i++)`, by the rounds that are left.
unfoldable pub fragment_loop :
    Option BindingValues → ℕ → ℕ → ℕ → ℕ → ℕ → ℕ → ℕ → Message → Exec (List Message)
fragment_loop binding payload_type id unit num total zero i msg = pure []
fragment_loop binding payload_type id unit num total (suc left) i msg = do
  (out, msg) ← one_fragment binding payload_type id unit num total i msg
  rest ← fragment_loop binding payload_type id unit num total left (i + 1) msg
  pure (out ∷ rest)

-- A packet that is not cut: the header, and all that was written to the message.
-- `CWAssembleDataMessage` allocates the array after the header's buffer, with the same outcome.
unfoldable pub whole_packet : Option BindingValues → ℕ → Message → Exec (List Message)
whole_packet binding payload_type msg = do
  alloc
  hdr ← assemble_transport_header blank (whole_values binding payload_type)
  out ← create_message blank (hdr.offset + msg.offset)
  out ← store_message out hdr
  out ← store_message out msg
  pure (out ∷ [])

-- A packet that is cut, from its first byte on.
unfoldable pub cut_packet : Option BindingValues → ℕ → ℕ → ℕ → ℕ → Message → Exec (List Message)
cut_packet binding payload_type id unit num msg = do
  alloc
  fragment_loop binding payload_type id unit num msg.offset num 0 (record msg { offset = 0 })

-- `msgElems` and `msgElemsBinding` one after the other.
unfoldable pub store_messages : Message → List Message → Exec Message
store_messages m [] = pure m
store_messages m (e ∷ es) = do m ← store_message m e; store_messages m es

-- The sum of the elements' sizes.
unfoldable pub elems_len : List Message → ℕ
elems_len [] = 0
elems_len (e ∷ es) = e.offset + elems_len es

-- The control header and the elements, in one buffer.
unfoldable pub control_message : ℕ → ℕ → List Message → List Message → Exec Message
control_message seq_num msg_type elems elems_binding = do
  let len = elems_len elems + elems_len elems_binding
  control ←
      assemble_control_header blank
        (record { message_type_value = msg_type; seq_num = seq_num; msg_elems_len = len })
  msg ← create_message blank (control.offset + len)
  msg ← store_message msg control
  msg ← store_messages msg elems
  store_messages msg elems_binding

-- `id` is what `CWGetFragmentID` returns if the packet is cut.
unfoldable pub assemble_message :
    ℕ → ℕ → ℕ → ℕ → ℕ → List Message → List Message → Exec (List Message)
assemble_message id pmtu seq_num msg_type is_crypted elems elems_binding = do
  msg ← control_message seq_num msg_type elems elems_binding
  let unit = aligned pmtu (max_dtls_header_size + max_capwap_header_size)
  let num = fragments_num msg.offset unit
  if num == 1 then whole_packet none is_crypted msg else cut_packet none is_crypted id unit num msg

-- `unset` is the `payloadType` that the fragments' headers get: the source does not assign it
-- where the frame is cut.
unfoldable pub assemble_data_message : ℕ → ℕ → ℕ → Message → BindingValues → ℕ → Exec (List Message)
assemble_data_message id unset pmtu frame binding is_crypted = do
  let unit = aligned pmtu max_capwap_header_size_binding
  let num = fragments_num frame.offset unit
  if num == 1
      then whole_packet (some binding) is_crypted frame
      else cut_packet (some binding) unset id unit num frame

-- CWProtocol.h: the result code of an unrecognized request.
abbrev pub failure_unrecognized_req : ℕ
failure_unrecognized_req = 19

-- `CWAssembleUnrecognizedMessageResponse`.
unfoldable pub assemble_unrecognized_message_response : ℕ → ℕ → ℕ → ℕ → ℕ → Exec (List Message)
assemble_unrecognized_message_response id pmtu seq_num msg_type is_crypted = do
  alloc
  elem ← assemble_msg_elem_result_code blank failure_unrecognized_req
  assemble_message id pmtu seq_num msg_type is_crypted (elem ∷ []) []
