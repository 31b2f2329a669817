-- ===== src/JoinResponse.antt =====
-- ACJoinState.c and WTPJoinState.c: the Join Response of the access controller, and what the
-- termination point makes of it.
pub mod Pieces
pub mod Received
use sicapwap.Prelude.{
  ℕ, zero, suc, ◌+◌, Bool, true, false, ◌||◌, Option, none, List, [], ◌∷◌, ◌++◌, map, ltb, length,
  ◌==◌, if◌then◌else◌,
}
use sicapwap.Exec.{Exec, pure, ◌>>=◌, ◌>>◌, raise, invalid_format, wrong_arg, alloc}
use sicapwap.Message.{Message, blank}
use sicapwap.Element.{assemble_msg_elem_result_code, parse_result_code, parse_ac_name}
use sicapwap.Fragment.{assemble_message}
use sicapwap.Vendor.{VendorInfo}
use sicapwap.WtpProtocol.Assemble.{assemble_array, assemble_ac_name}
use sicapwap.AcProtocol.Assemble.{
  AcDescriptor, Interface, assemble_ac_descriptor, assemble_control_ipv4_addresses,
  assemble_ac_ipv4_list, assemble_ac_ipv6_list,
}
use sicapwap.WtpProtocol.Parse.{
  parse_ac_descriptor, parse_ac_ipv4_list, parse_ac_ipv6_list, parse_control_ipv4_addresses,
  parse_control_ipv6_addresses,
}
use sicapwap.ElementLoop.{into, skip, put_into, parse_control_message_twice}

abbrev pub join_response : ℕ
join_response = 4

-- What the getters of the access controller return.
pub record Ac : Type 0 where
  pub descriptor : AcDescriptor
  pub name : List ℕ
  pub interfaces : List Interface
  pub ipv4_list : List ℕ
  pub ipv6_list : List (List ℕ)

-- `CWMsgElemData`: the type of an element that is wanted, and its value.
pub record MsgElemData : Type 0 where
  pub type : ℕ
  pub value : ℕ

unfoldable pub wanted_element : Ac → MsgElemData → Exec Message
wanted_element a e =
    if e.type == 2
    then assemble_ac_ipv4_list blank a.ipv4_list
    else if e.type == 3
    then assemble_ac_ipv6_list blank a.ipv6_list
    else if e.type == 33
    then assemble_msg_elem_result_code blank e.value
    else raise invalid_format

unfoldable pub join_response_elements : Ac → List MsgElemData → List (Exec Message)
join_response_elements a wanted =
    assemble_ac_descriptor blank a.descriptor
    ∷ assemble_ac_name blank a.name
    ∷ assemble_control_ipv4_addresses blank a.interfaces
    ∷ map (wanted_element a) wanted

-- An empty list is `NULL`.
unfoldable pub assemble_join_response : ℕ → ℕ → ℕ → ℕ → Ac → List MsgElemData → Exec (List Message)
assemble_join_response id pmtu seq_num is_crypted a [] = raise wrong_arg
assemble_join_response id pmtu seq_num is_crypted a (e ∷ wanted) = do
  alloc
  elems ← assemble_array (λ a. a) (join_response_elements a (e ∷ wanted))
  assemble_message id pmtu seq_num join_response is_crypted elems []

-- `CWProtocolJoinResponseValues`.
pub record JoinResponse : Type 0 where
  pub descriptor : AcDescriptor
  pub name : Option (List ℕ)
  pub ipv4_count : ℕ
  pub ipv4_addresses : List (ℕ × ℕ)
  pub ipv6_count : ℕ
  pub ipv6_addresses : List (List ℕ × ℕ)
  pub ipv4_list : List ℕ
  pub ipv6_list : List (List ℕ)
  pub code : ℕ

-- Both lists are reset before each element.
abbrev pub no_lists : JoinResponse → JoinResponse
no_lists v = record v { ipv4_list = []; ipv6_list = [] }

-- The first round reads what stands once, and counts the interfaces.
unfoldable pub join_response_count : ℕ → ℕ → JoinResponse → Message → Exec (JoinResponse × Message)
join_response_count type len v m =
    let v : JoinResponse = no_lists v in
    if type == 1
    then into (parse_ac_descriptor m len) (λ s. record v { descriptor = s })
    else if type == 2
    then into (parse_ac_ipv4_list m len) (λ s. record v { ipv4_list = s })
    else if type == 3
    then into (parse_ac_ipv6_list m len) (λ s. record v { ipv6_list = s })
    else if type == 33
    then into (parse_result_code m len) (λ s. record v { code = s })
    else if type == 4
    then into (parse_ac_name m len) (λ s. record v { name = s })
    else if type == 10
    then skip len (record v { ipv4_count = v.ipv4_count + 1 }) m
    else if type == 11
    then skip len (record v { ipv6_count = v.ipv6_count + 1 }) m
    else raise invalid_format

unfoldable pub join_response_read : ℕ → ℕ → JoinResponse → Message → Exec (JoinResponse × Message)
join_response_read type len v m =
    if type == 10
    then put_into (parse_control_ipv4_addresses m len) v.ipv4_count v.ipv4_addresses
        (λ s. record v { ipv4_addresses = s })
    else if type == 11
    then put_into (parse_control_ipv6_addresses m len) v.ipv6_count v.ipv6_addresses
        (λ s. record v { ipv6_addresses = s })
    else skip len v m

-- The second array is allocated only if it is needed.
unfoldable pub join_response_arrays : JoinResponse → Exec JoinResponse
join_response_arrays v = do
  alloc
  if ltb 0 v.ipv6_count then alloc else pure tt
  pure (record v { ipv4_addresses = []; ipv6_addresses = [] })

unfoldable pub parse_join_response : List ℕ → ℕ → ℕ → JoinResponse → Exec (ℕ × JoinResponse)
parse_join_response msg len seq_num old =
    parse_control_message_twice join_response_count join_response_read join_response_arrays
      (λ s. s == seq_num) join_response msg len (record old { ipv4_count = 0; ipv6_count = 0 })

-- `gACInfoPtr`, as far as the Join Response sets it; the policy of DTLS is not copied.
pub record AcInfo : Type 0 where
  pub descriptor : AcDescriptor
  pub ipv4_list : List ℕ
  pub ipv6_list : List (List ℕ)

abbrev pub or_kept {ℓ} : {A : Type ℓ} → List A → List A → List A
or_kept [] old = old
or_kept (a ∷ rest) old = a ∷ rest

-- The result, and what is known of the access controller: it is changed at a success only.
unfoldable pub save_join_response : JoinResponse → AcInfo → Bool × AcInfo
save_join_response v g =
    if (v.code == 0) || (v.code == 2)
    then (
      true,
      record {
        descriptor = record (v.descriptor) { dtls_policy = g.descriptor.dtls_policy };
        ipv4_list = or_kept v.ipv4_list g.ipv4_list;
        ipv6_list = or_kept v.ipv6_list g.ipv6_list;
      },
    )
    else (false, g)
