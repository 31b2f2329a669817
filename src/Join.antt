-- ===== src/Join.antt =====
-- WTPJoinState.c and ACJoinState.c: the Join Request of the termination point, and what the access
-- controller makes of it.
pub mod Elements
pub mod Received
use sicapwap.Prelude.{
  ℕ, zero, suc, ◌+◌, Bool, true, false, Option, none, some, List, [], ◌∷◌, ◌==◌, if◌then◌else◌,
}
use sicapwap.Exec.{
  Exec, ErrorCode, wrong_arg, pure, ◌>>=◌, ◌>>◌, raise, invalid_format, try_alloc, alloc,
}
use sicapwap.Message.{Message, blank}
use sicapwap.Element.{assemble_msg_elem_session_id}
use sicapwap.Fragment.{assemble_message}
use sicapwap.Vendor.{VendorInfo}
use sicapwap.WtpProtocol.Assemble.{
  WtpDescriptor, assemble_array, assemble_location_data, assemble_wtp_board_data,
  assemble_wtp_descriptor, assemble_wtp_ipv4_address, assemble_wtp_name,
  assemble_wtp_frame_tunnel_mode, assemble_wtp_mac_type,
}
use sicapwap.AcProtocol.Parse.{
  parse_location_data, parse_wtp_board_data, parse_session_id, parse_wtp_descriptor,
  parse_wtp_ipv4_address, parse_wtp_name, parse_wtp_frame_tunnel_mode, parse_wtp_mac_type,
}
use sicapwap.ElementLoop.{into, parse_control_message}

abbrev pub join_request : ℕ
join_request = 3

-- What the getters of the termination point return. `board_data` are the board's informations, the
-- first of them apart: there are two.
pub record Wtp : Type 0 where
  pub location : List ℕ
  pub name : List ℕ
  pub board_first : VendorInfo
  pub board_rest : List VendorInfo
  pub descriptor : WtpDescriptor
  pub ipv4_address : ℕ
  pub session_id : ℕ
  pub frame_tunnel_mode : ℕ
  pub mac_type : ℕ
  pub discovery_type : ℕ

-- The elements in the order of the calls; the first that fails ends the chain.
abbrev pub join_request_elements : Wtp → List (Exec Message)
join_request_elements w =
    assemble_location_data blank w.location
    ∷ assemble_wtp_board_data blank (w.board_first ∷ w.board_rest)
    ∷ assemble_wtp_descriptor blank w.descriptor
    ∷ assemble_wtp_ipv4_address blank w.ipv4_address
    ∷ assemble_wtp_name blank w.name
    ∷ assemble_msg_elem_session_id blank w.session_id
    ∷ assemble_wtp_frame_tunnel_mode blank w.frame_tunnel_mode
    ∷ assemble_wtp_mac_type blank w.mac_type
    ∷ []

-- `is_crypted` is `CW_PACKET_PLAIN` or `CW_PACKET_CRYPT`, by the build.
unfoldable pub assemble_join_request : ℕ → ℕ → ℕ → ℕ → Wtp → Exec (List Message)
assemble_join_request id pmtu seq_num is_crypted w = do
  alloc
  elems ← assemble_array (λ a. a) (join_request_elements w)
  assemble_message id pmtu seq_num join_request is_crypted elems []

-- `CWProtocolJoinRequestValues`. A string is `none` where it is `NULL`.
pub record JoinRequestValues : Type 0 where
  pub location : Option (List ℕ)
  pub name : Option (List ℕ)
  pub board_data : List VendorInfo
  pub session_id : ℕ
  pub descriptor : WtpDescriptor
  pub addr : ℕ
  pub frame_tunnel_mode : ℕ
  pub mac_type : ℕ

-- `switch (elemType)`.
unfoldable pub join_request_element :
    ℕ → ℕ → JoinRequestValues → Message → Exec (JoinRequestValues × Message)
join_request_element type len v m =
    if type == 28
    then into (parse_location_data m len) (λ s. record v { location = s })
    else if type == 38
    then into (parse_wtp_board_data m len) (λ s. record v { board_data = s })
    else if type == 35
    then into (parse_session_id m len) (λ s. record v { session_id = s })
    else if type == 39
    then into (parse_wtp_descriptor m len) (λ s. record v { descriptor = s })
    else if type == 42
    then into (parse_wtp_ipv4_address m len) (λ s. record v { addr = s })
    else if type == 44
    then into (parse_wtp_name m len) (λ s. record v { name = s })
    else if type == 41
    then into (parse_wtp_frame_tunnel_mode m len) (λ s. record v { frame_tunnel_mode = s })
    else if type == 43
    then into (parse_wtp_mac_type m len) (λ s. record v { mac_type = s })
    else raise invalid_format

-- `old` are the values that the caller has not assigned.
unfoldable pub parse_join_request : List ℕ → ℕ → JoinRequestValues → Exec (ℕ × JoinRequestValues)
parse_join_request msg len old = parse_control_message join_request_element join_request msg len old

-- `CWWTPRadioInfoValues`, as far as the Join Request sets it.
pub record RadioInfo : Type 0 where
  pub radio_id : ℕ
  pub admin_state : ℕ
  pub admin_cause : ℕ
  pub operational_state : ℕ
  pub operational_cause : ℕ
  pub tx_queue_level : ℕ
  pub wireless_link_frames_per_sec : ℕ

-- `CWWTPProtocolManager`, as far as the Join Request sets it.
pub record Manager : Type 0 where
  pub location_data : Option (List ℕ)
  pub name : Option (List ℕ)
  pub board_data : List VendorInfo
  pub session_id : ℕ
  pub ipv4_address : ℕ
  pub descriptor : WtpDescriptor
  pub radio_count : ℕ
  pub radios : List RadioInfo

-- Enabled, normal; disabled, normal.
abbrev pub new_radio : ℕ → RadioInfo
new_radio i = record {
  radio_id = i;
  admin_state = 1;
  admin_cause = 1;
  operational_state = 2;
  operational_cause = 0;
  tx_queue_level = 0;
  wireless_link_frames_per_sec = 0;
}

-- `for (i = 0; i < radioCount; i++)`, by the rounds that are left.
unfoldable pub new_radios : ℕ → ℕ → List RadioInfo
new_radios i zero = []
new_radios i (suc left) = new_radio i ∷ new_radios (i + 1) left

-- The result of the saving, and the manager, which is changed up to the point where it fails. The
-- old arrays and strings are freed.
unfoldable pub save_radios : Manager → JoinRequestValues → Bool → Bool × Manager
save_radios g v got =
    let g : Manager = record g {
      board_data = v.board_data;
      session_id = v.session_id;
      ipv4_address = v.addr;
      descriptor = v.descriptor;
      radio_count = v.descriptor.radios_in_use;
      radios = [];
    } in
    if got
    then (true, record g { radios = new_radios 0 v.descriptor.radios_in_use })
    else (false, g)

unfoldable pub save_name : Manager → JoinRequestValues → Bool → Bool × Manager
save_name g v got = elim v.name [
  | none ↦ (false, g)
  | some name ↦ save_radios (record g { name = some name }) v got
]

-- `got` tells whether the array of radios is allocated.
unfoldable pub save_join_request : Manager → JoinRequestValues → Bool → Bool × Manager
save_join_request g v got = elim v.location [
  | none ↦ (false, g)
  | some location ↦ save_name (record g { location_data = some location }) v got
]
