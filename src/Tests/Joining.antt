-- ===== src/Tests/Joining.antt =====
-- The messages and the states of the join, at concrete values.
use mathlib.Core.List.{Perm, Permᴰ}
use sicapwap.Prelude.{ℕ, some, ◌≡◌, refl, true, false, none, List, [], ◌∷◌, ◌++◌, map, arith}
use sicapwap.Prelude.Weights.{range}
use sicapwap.Exec.{succeeded, c_err, ok}
use sicapwap.Message.Written.{written}
use sicapwap.Header.RoundTrip.{header_bytes, control_bytes}
use sicapwap.Fragment.{fragments_num, whole_values}
use sicapwap.Receive.{received, receive_message}
use sicapwap.Receive.AnyOrder.{enough}
use sicapwap.Receive.RoundTrip.{packets_of}
use sicapwap.Vendor.{net_order}
use sicapwap.AcProtocol.Assemble.{AcDescriptor, Interface}
use sicapwap.Join.{
  Wtp, JoinRequestValues, Manager, assemble_join_request, parse_join_request, save_join_request,
}
use sicapwap.Join.Received.{values_of, manager_of, request_bytes, packet, join_request-received}
use sicapwap.JoinResponse.{
  JoinResponse, AcInfo, assemble_join_response, parse_join_response, save_join_response,
}
use sicapwap.JoinResponse.Received.{
  the_ac, wanted_code, response_bytes, response_of, join_response-received,
}
use sicapwap.Message.{Message}
use sicapwap.Exec.{need_resource}
use sicapwap.Join.Elements.{IsWtp}
use sicapwap.JoinResponse.Pieces.{IsAc}
use sicapwap.AcRetransmission.{send_each}
use sicapwap.JoinSession.Ignored.{manage-another_type}
use sicapwap.Fragment.Control.{message_bytes}
use sicapwap.AcSession.{Session, data_check, manage_data_check, Outside, handled, join, configure}
use sicapwap.JoinSession.{JoinSession, manage_join}
use sicapwap.JoinSession.Entered.{joined_session, manage_join-answered}
use sicapwap.Acknowledged.{expired}
use sicapwap.Acknowledged.Answered.{logged, over}
use sicapwap.WtpJoin.{Surroundings, wtp_enter_join}
use sicapwap.WtpJoin.Entered.{
  request_packet, response_arrives, info_of, wtp_enter_join-answered, IsConnected, reset_info,
  wtp_enter_join-refused,
}

-- A termination point whose Join Request has 64 bytes.
abbrev small_wtp : Wtp
small_wtp = record {
  location = 1 ∷ [];
  name = 2 ∷ [];
  board_first = record { vendor_identifier = 5; type = 0; value = [] };
  board_rest = [];
  descriptor = record {
    max_radios = 1;
    radios_in_use = 1;
    enc_capabilities = 0;
    vendor_infos = [];
  };
  ipv4_address = 7;
  session_id = 9;
  frame_tunnel_mode = 1;
  mac_type = 2;
  discovery_type = 0;
}

small_wtp-IsWtp : IsWtp small_wtp
unfolding net_order
small_wtp-IsWtp = record {
  location_fits = omega arith;
  name_fits = omega arith;
  board_fits =
      (record { id_fits = omega arith; type_fits = omega arith; length_fits = omega arith }, tt);
  one_id = (refl, tt);
  board_length_fits = omega arith;
  descriptor_fits = record {
    max_fits = omega arith;
    in_use_fits = omega arith;
    enc_fits = omega arith;
    infos_fit = tt;
  };
  descriptor_length_fits = omega arith;
  ipv4_address_fits = omega arith;
  session_id_fits = omega arith;
  frame_tunnel_mode_fits = omega arith;
  mac_type_fits = omega arith;
  discovery_type_fits = omega arith;
}

abbrev no_values : JoinRequestValues
no_values = record {
  location = none;
  name = none;
  board_data = [];
  session_id = 0;
  descriptor = small_wtp.descriptor;
  addr = 0;
  frame_tunnel_mode = 0;
  mac_type = 0;
}

abbrev no_manager : Manager
no_manager = record {
  location_data = none;
  name = none;
  board_data = [];
  session_id = 0;
  ipv4_address = 0;
  descriptor = small_wtp.descriptor;
  radio_count = 0;
  radios = [];
}

abbrev backwards : List ℕ
backwards = 1 ∷ 0 ∷ []

swapped : Perm backwards (0 ∷ 1 ∷ [])
swapped = ∣ Permᴰ.swap refl refl ∣₁

-- A path MTU of 65 leaves 32 bytes behind the header.
join_request-received_example :
    (assemble_join_request 7 65 5 0 small_wtp 27
      ≡ ok (packets_of (range 0 2) (packet small_wtp 7 65 5 0), 0))
    × (receive_message
          (map (λ j. record { packet = packet small_wtp 7 65 5 0 j; grants = enough }) backwards)
          []
        ≡ received false (written none (request_bytes small_wtp 5) 0) [])
    × (parse_join_request (request_bytes small_wtp 5) 64 no_values 5
        ≡ ok ((5, values_of small_wtp), 0))
    × (save_join_request no_manager (values_of small_wtp) true ≡ (true, manager_of small_wtp))
unfolding fragments_num control_bytes net_order
join_request-received_example =
    join_request-received small_wtp 7 65 5 0 backwards no_values no_manager 0 0 small_wtp-IsWtp
      (omega arith) (omega arith) (omega arith) (omega arith) (omega arith) swapped

-- An access controller with two interfaces, and what a termination point knew of it.
abbrev ac_descriptor : AcDescriptor
ac_descriptor = record {
  stations = 3;
  limit = 10;
  active_wtps = 1;
  max_wtps = 5;
  security = 4;
  rmac_field = 2;
  dtls_policy = 2;
  vendor_infos = [];
}

abbrev first_interface : Interface
first_interface = record { ipv4_address = 8; ipv6_address = []; wtp_count = 1 }

abbrev second_interface : Interface
second_interface = record { ipv4_address = 9; ipv6_address = []; wtp_count = 0 }

two-IsAc : IsAc (the_ac ac_descriptor (1 ∷ []) (first_interface ∷ second_interface ∷ []))
two-IsAc = record {
  descriptor_fits = record {
    stations_fit = omega arith;
    limit_fits = omega arith;
    active_fit = omega arith;
    max_fit = omega arith;
    security_fits = omega arith;
    rmac_fits = omega arith;
    policy_fits = omega arith;
    infos_fit = tt;
  };
  descriptor_length_fits = omega arith;
  name_fits = omega arith;
  interfaces_fit = (
    record { address_fits = omega arith; count_fits = omega arith },
    (record { address_fits = omega arith; count_fits = omega arith }, tt),
  );
}

abbrev known_before : AcInfo
known_before = record {
  descriptor = record ac_descriptor { stations = 0; dtls_policy = 4 };
  ipv4_list = 6 ∷ [];
  ipv6_list = [];
}

abbrev no_response : JoinResponse
no_response = record {
  descriptor = ac_descriptor;
  name = none;
  ipv4_count = 0;
  ipv4_addresses = [];
  ipv6_count = 0;
  ipv6_addresses = [];
  ipv4_list = [];
  ipv6_list = [];
  code = 1;
}

join_response-received_example :
    let bytes : List ℕ =
      response_bytes ac_descriptor (1 ∷ []) first_interface (second_interface ∷ []) 0 5 in
    let packet : List ℕ = header_bytes (whole_values none 0) ++ bytes in
    let values : JoinResponse =
      response_of ac_descriptor (1 ∷ []) first_interface (second_interface ∷ []) 0 in
    (assemble_join_response 7 1500 5 0
        (the_ac ac_descriptor (1 ∷ []) (first_interface ∷ second_interface ∷ []))
        (wanted_code 0)
        18
      ≡ ok (written none packet 0 ∷ [], 0))
    × (receive_message (record { packet = packet; grants = enough } ∷ []) []
        ≡ received false (written none bytes 0) [])
    × (parse_join_response bytes 57 5 no_response 3 ≡ ok ((5, values), 0))
    × (save_join_response values known_before
        ≡ (true, record known_before { descriptor = record ac_descriptor { dtls_policy = 4 } }))
unfolding fragments_num control_bytes
join_response-received_example =
    join_response-received ac_descriptor (1 ∷ []) first_interface (second_interface ∷ []) 0 7 1500 5
      0 0 0 no_response known_before [] [] two-IsAc (omega arith) (omega arith) (omega arith) refl

abbrev outside : Outside
outside = record {
  send = λ m. true;
  cancelled = true;
  requested = true;
  last_error = need_resource;
}

-- A session whose timer waits for the Join Request.
abbrev joining : JoinSession
joining = record {
  current_state = join;
  timer = true;
  manager = no_manager;
  wtp = record {
    messages = none;
    messages_count = 0;
    is_retransmitting = false;
    retransmission_count = 0;
    response_type = 0;
    response_seq_num = 0;
    timer = false;
    is_request_close = false;
    closed = false;
    sent = [];
  };
}

abbrev checking : Session
checking = record {
  current_state = data_check;
  waiting_request = true;
  timer = true;
  radios = [];
  wtp = joining.wtp;
}

-- The array of radios is not allocated.
manage_join-answered_example :
    manage_join outside 7 1500 0
      (the_ac ac_descriptor (1 ∷ []) (first_interface ∷ second_interface ∷ []))
      false
      no_values
      (written none (request_bytes small_wtp 5) 0)
      25
      joining
    ≡ (
      handled,
      joined_session outside 7 1500 0 ac_descriptor
          (1 ∷ [])
          first_interface
          (second_interface ∷ [])
          false
          small_wtp
          joining
          5,
    )
unfolding fragments_num control_bytes net_order
manage_join-answered_example =
    manage_join-answered outside 7 1500 0 ac_descriptor (1 ∷ []) first_interface
      (second_interface ∷ []) false small_wtp joining 5 0 no_values small_wtp-IsWtp (omega arith)
      (omega arith) refl refl refl

abbrev surroundings : Surroundings
surroundings = record {
  send = λ m. true;
  max_retransmit = 3;
  longest_sleep = 5;
  retransmit_timer = 3;
  added = true;
  forced_security = none;
  fresh = known_before;
  socket = succeeded;
  context = λ certificate. succeeded;
  thread = succeeded;
  session = succeeded;
  path_mtu = 1500;
  force_mtu = 0;
  successful_handshake = true;
}

all_sent : (m : Message) → (send_each (λ m. true) (m ∷ [])).0 ≡ true
unfolding send_each
all_sent m = refl

surroundings-IsConnected : IsConnected surroundings known_before
unfolding c_err
surroundings-IsConnected = record {
  timer_added = refl;
  not_forced = refl;
  has_socket = refl;
  has_context = refl;
  has_thread = refl;
  has_session = refl;
  not_expired = refl;
}

-- The first wait is over without a response; the second ends with one.
wtp_enter_join-answered_example :
    wtp_enter_join surroundings 7 5 0 small_wtp no_response 3
      (expired
        ∷ response_arrives surroundings 7 5 0 small_wtp no_response ac_descriptor
            (1 ∷ [])
            first_interface
            (second_interface ∷ [])
            0
            0
        ∷ [])
      known_before
      25
    ≡ record {
      next = some configure;
      info =
          info_of surroundings 7 5 0 small_wtp no_response ac_descriptor
            (1 ∷ [])
            first_interface
            (second_interface ∷ [])
            0
            0
            known_before;
      timer = false;
      log =
          logged
            (request_packet surroundings 7 5 0 small_wtp no_response ac_descriptor
                (1 ∷ [])
                first_interface
                (second_interface ∷ [])
                0
                0
              ∷ [])
            5
            2
            3;
    }
unfolding fragments_num control_bytes net_order
wtp_enter_join-answered_example =
    wtp_enter_join-answered surroundings 7 5 0 small_wtp no_response ac_descriptor (1 ∷ [])
      first_interface (second_interface ∷ []) 0 0 known_before (all_sent _) 0 (expired ∷ []) []
      surroundings-IsConnected two-IsAc (omega arith) refl (omega arith) (omega arith) refl
      (over, tt) (omega arith)

-- A response with a resource depletion.
wtp_enter_join-refused_example :
    wtp_enter_join surroundings 7 5 0 small_wtp no_response 3
      (expired
        ∷ response_arrives surroundings 7 5 0 small_wtp no_response ac_descriptor
            (1 ∷ [])
            first_interface
            (second_interface ∷ [])
            4
            0
        ∷ [])
      known_before
      25
    ≡ record {
      next = some configure;
      info = reset_info known_before;
      timer = false;
      log =
          logged
            (request_packet surroundings 7 5 0 small_wtp no_response ac_descriptor
                (1 ∷ [])
                first_interface
                (second_interface ∷ [])
                4
                0
              ∷ [])
            5
            2
            3;
    }
unfolding fragments_num control_bytes net_order
wtp_enter_join-refused_example =
    wtp_enter_join-refused surroundings 7 5 0 small_wtp no_response ac_descriptor (1 ∷ [])
      first_interface (second_interface ∷ []) 4 0 known_before (all_sent _) 0 (expired ∷ []) []
      surroundings-IsConnected two-IsAc (omega arith) refl (omega arith) (omega arith) refl
      (over, tt) (omega arith)

-- A Join Response, in both states of the access controller.
manage-another_type_example :
    (manage_data_check outside 7 1500 0 9 (written none (message_bytes 5 4 [] []) 0) 1 checking
      ≡ (handled, record checking { timer = false }))
    × (manage_join outside 7 1500 0
          (the_ac ac_descriptor (1 ∷ []) (first_interface ∷ []))
          true
          no_values
          (written none (message_bytes 5 4 [] []) 0)
          3
          joining
        ≡ (handled, joining))
manage-another_type_example =
    manage-another_type 5 4 [] (omega arith) (omega arith) (omega arith) outside 7 1500 0 9 0 3
      (the_ac ac_descriptor (1 ∷ []) (first_interface ∷ [])) true no_values checking joining refl
      (omega arith) (omega arith)
