-- ===== src/WtpJoin/Entered.antt =====
-- A termination point in the join state: what it sends until it goes on to the configuration.
use sicapwap.Prelude.{
  ℕ, suc, ◌+◌, ◌-◌, ◌*◌, ◌/◌, ◌<◌, ◌≤◌, ◌≡◌, ap, ◌∙◌, arith, refl, true, false, none, some, List,
  [], ◌∷◌, ◌++◌, All, length, append-nil, ◌==◌, ◌||◌,
}
use sicapwap.Exec.{ok, success, passed, c_err, error_handle_last}
use sicapwap.Message.{Message}
use sicapwap.Message.Written.{written}
use sicapwap.Message.Reads.{grants}
use sicapwap.Header.RoundTrip.{header_bytes}
use sicapwap.Fragment.{fragments_num, whole_values}
use sicapwap.Fragment.Control.{joined}
use sicapwap.Receive.{Datagram, received, receive_message}
use sicapwap.Receive.AnyOrder.{enough}
use sicapwap.Receive.Whole.{assemble_message-one, packet-received}
use sicapwap.AcRetransmission.{send_each}
use sicapwap.Acknowledged.{Wait, readable, Log, answered, request_failed, saved, refused}
use sicapwap.Acknowledged.Answered.{
  IsRetried, logged, send_acknowledged-answered, send_acknowledged-refused,
}
use sicapwap.AcSession.{configure}
use sicapwap.AcProtocol.Assemble.{AcDescriptor, Interface}
use sicapwap.Join.{Wtp, join_request, assemble_join_request}
use sicapwap.Join.Elements.{join_request_needs, join_request_pieces}
use sicapwap.Join.Received.{request_bytes, assemble_join_request-message}
use sicapwap.ElementLoop.Received.{assembled}
use sicapwap.JoinResponse.{
  JoinResponse, AcInfo, join_response, parse_join_response, save_join_response,
}
use sicapwap.JoinResponse.Pieces.{IsAc}
use sicapwap.JoinResponse.Received.{
  the_ac, response_parts, response_bytes, response_of, parse_needs, parse_join_response-sent,
}
use sicapwap.WtpJoin.{
  Surroundings, session_mtu, save_result, after_join, then_on, after_exchange, exchange,
  wtp_enter_join,
}

-- The values before the exchange.
abbrev pub reset_info : AcInfo → AcInfo
reset_info g = record g { ipv4_list = []; ipv6_list = [] }

-- Everything is there, or its failure passes; no address is forced, and the timer does not expire.
pub record IsConnected (c : Surroundings) (g : AcInfo) : Type 0 where
  pub timer_added : c.added ≡ true
  pub not_forced : c.forced_security ≡ none
  pub has_socket : c_err c.socket ≡ passed
  pub has_context : c_err (c.context (g.descriptor.security == 1)) ≡ passed
  pub has_thread : c_err c.thread ≡ passed
  pub has_session : c_err c.session ≡ passed
  pub not_expired : c.successful_handshake ≡ true

module _ (c : Surroundings) (id seq_num is_crypted : ℕ) (w : Wtp) (values : JoinResponse)
    (d : AcDescriptor) (name : List ℕ) (i : Interface) (is : List Interface) (code : ℕ)
    (j : ℕ) where
  abbrev pub mtu : ℕ
  mtu = session_mtu c

  -- The request, and the datagram of the response.
  abbrev pub request_packet : Message
  request_packet =
      written none (header_bytes (whole_values none is_crypted) ++ request_bytes w seq_num) 0

  abbrev pub response_arrives : Wait
  response_arrives = readable (
      record {
        packet =
            header_bytes (whole_values none is_crypted) ++ response_bytes d name i is code seq_num;
        grants = enough;
      }
      ∷ [])

  abbrev pub parser_needs : ℕ
  parser_needs = parse_needs d name i is code j

  response-parsed :
      IsAc (the_ac d name (i ∷ is))
      → code < 4294967296
      → seq_num < 256
      → length (joined (response_parts d name i is code)) + 3 < 65536
      → parse_join_response
          (response_bytes d name i is code seq_num ++ [])
          (length (response_bytes d name i is code seq_num))
          seq_num
          values
          parser_needs
        ≡ ok ((seq_num, response_of d name i is code), j)
  response-parsed fits code_fits small_seq small_len =
      ap
        (λ b.
          parse_join_response b (length (response_bytes d name i is code seq_num)) seq_num values
            parser_needs)
        (append-nil (response_bytes d name i is code seq_num))
      ∙ parse_join_response-sent d name i is code seq_num j values fits code_fits small_seq
          small_len

  -- What is known of the access controller when its lists are reset, and after a success.
  abbrev pub info_of : AcInfo → AcInfo
  info_of g = record g {
    descriptor = record d { dtls_policy = g.descriptor.dtls_policy };
    ipv4_list = [];
    ipv6_list = [];
  }

  response-saved :
      (g : AcInfo)
      → (code == 0) || (code == 2) ≡ true
      → save_result c g (response_of d name i is code) ≡ saved
  unfolding save_result save_join_response
  response-saved g is_success = rw is_success

  connected-exchanges :
      (k : ℕ) (ws : List Wait) (g : AcInfo)
      → IsConnected c g
      → wtp_enter_join c id seq_num is_crypted w values parser_needs ws g k
        ≡ exchange c seq_num values parser_needs
            (reset_info g)
            (assemble_join_request id mtu seq_num is_crypted w k)
            ws
  unfolding wtp_enter_join then_on
  connected-exchanges k ws g connected = simp (
    connected.timer_added, connected.not_forced, connected.has_socket, connected.has_context,
    connected.has_thread, connected.has_session,
  )

  answered-joins :
      (g : AcInfo) (log : Log)
      → (code == 0) || (code == 2) ≡ true
      → c.successful_handshake ≡ true
      → after_exchange c (reset_info g) (answered (seq_num, response_of d name i is code), log)
        ≡ record { next = some configure; info = info_of g; timer = false; log = log }
  unfolding after_exchange after_join save_join_response c_err
  answered-joins g log is_success in_time = rw (is_success, in_time)

  refused-joins :
      (g : AcInfo) (log : Log)
      → c.successful_handshake ≡ true
      → after_exchange c (reset_info g) (request_failed success, log)
        ≡ record { next = some configure; info = reset_info g; timer = false; log = log }
  unfolding after_exchange after_join c_err error_handle_last
  refused-joins g log in_time = rw in_time

  response-refused :
      (g : AcInfo)
      → (code == 0) || (code == 2) ≡ false
      → save_result c g (response_of d name i is code) ≡ refused
  unfolding save_result save_join_response
  response-refused g failure = rw failure

  request-sent :
      (k : ℕ)
      → fragments_num (length (request_bytes w seq_num)) ((mtu - 33) / 8 * 8) ≡ 1
      → assemble_join_request id mtu seq_num is_crypted w
          (suc (grants (join_request_needs w) (suc (suc (suc (suc (suc k)))))))
        ≡ ok (request_packet ∷ [], k)
  request-sent k one =
      assemble_join_request-message w id mtu seq_num is_crypted _
      ∙ assemble_message-one id mtu seq_num join_request is_crypted
          (assembled (join_request_pieces w)) [] k one

  response-received :
      (more : List Datagram)
      → length (joined (response_parts d name i is code)) + 16 ≤ 65536
      → receive_message
          (record {
            packet =
                header_bytes (whole_values none is_crypted)
                ++ response_bytes d name i is code seq_num;
            grants = enough;
          }
            ∷ more)
          []
        ≡ received false (written none (response_bytes d name i is code seq_num) 0) more
  response-received more room =
      packet-received seq_num join_response is_crypted (response_parts d name i is code) [] [] more
        (omega arith)

  module _ (g : AcInfo) (sent : (send_each c.send (request_packet ∷ [])).0 ≡ true) where
    -- A termination point in the join state that is connected, and whose timer does not expire,
    -- goes on to the configuration after fewer waits than its limit that end without a response or
    -- with a message of another format, when the response of an access controller that has an
    -- interface arrives with a code of success; it has sent its Join Request once for each wait,
    -- keeps what the response says of the access controller but for the policy of DTLS, and has
    -- removed its timer. No address is forced, the request fits in one packet of the path MTU and
    -- the response in one of at most 65536 bytes, the values of the access controller fit their
    -- fields, the packets are sent, and the allocations succeed.
    pub wtp_enter_join-answered :
        (k : ℕ) (ws more : List Wait)
        → IsConnected c g
        → IsAc (the_ac d name (i ∷ is))
        → code < 4294967296
        → (code == 0) || (code == 2) ≡ true
        → seq_num < 256
        → length (joined (response_parts d name i is code)) + 16 ≤ 65536
        → fragments_num (length (request_bytes w seq_num)) ((mtu - 33) / 8 * 8) ≡ 1
        → All
            (IsRetried c.send
              (λ m. parse_join_response m.msg m.offset seq_num values parser_needs)
              (λ v. save_result c (reset_info g) v.1)
              (request_packet ∷ [])
              c.max_retransmit
              c.longest_sleep
              sent)
            ws
        → length ws < c.max_retransmit
        → wtp_enter_join c id seq_num is_crypted w values parser_needs
            (ws ++ (response_arrives ∷ more))
            g
            (suc (grants (join_request_needs w) (suc (suc (suc (suc (suc k)))))))
          ≡ record {
            next = some configure;
            info = info_of g;
            timer = false;
            log = logged (request_packet ∷ []) c.longest_sleep (suc (length ws)) c.retransmit_timer;
          }
    unfolding exchange
    wtp_enter_join-answered k ws more connected fits code_fits is_success small_seq room one retried
          below =
        let answer =
          send_acknowledged-answered c.send
            (λ m. parse_join_response m.msg m.offset seq_num values parser_needs)
            (λ v. save_result c (reset_info g) v.1) (request_packet ∷ []) c.max_retransmit
            c.longest_sleep sent c.retransmit_timer ws more _ [] false
            (written none (response_bytes d name i is code seq_num) 0)
            (seq_num, response_of d name i is code) j retried below (response-received [] room)
            (response-parsed fits code_fits small_seq (omega arith))
            (response-saved (reset_info g) is_success) in
        connected-exchanges _ (ws ++ (response_arrives ∷ more)) g connected
        ∙ ap
            (λ a.
              exchange c seq_num values parser_needs (reset_info g) a
                (ws ++ (response_arrives ∷ more)))
            (request-sent k one)
        ∙ ap (after_exchange c (reset_info g)) answer
        ∙ answered-joins g _ is_success connected.not_expired

    -- A termination point in the join state that is connected, and whose timer does not expire,
    -- goes on to the configuration all the same when a Join Response in one packet arrives with a
    -- code that is not one of success, after fewer waits than its limit that end without a
    -- response or with a message of another format: CWSaveJoinResponseMessage fails without an
    -- error, and the last error is a success, for which CWErr passes. It knows of the access
    -- controller what it knew before, without the lists, and has removed its timer. No address is
    -- forced, the request fits in one packet of the path MTU and the response in one of at most
    -- 65536 bytes, the values of the access controller fit their fields, the packets are sent, and
    -- the allocations succeed.
    pub wtp_enter_join-refused :
        (k : ℕ) (ws more : List Wait)
        → IsConnected c g
        → IsAc (the_ac d name (i ∷ is))
        → code < 4294967296
        → (code == 0) || (code == 2) ≡ false
        → seq_num < 256
        → length (joined (response_parts d name i is code)) + 16 ≤ 65536
        → fragments_num (length (request_bytes w seq_num)) ((mtu - 33) / 8 * 8) ≡ 1
        → All
            (IsRetried c.send
              (λ m. parse_join_response m.msg m.offset seq_num values parser_needs)
              (λ v. save_result c (reset_info g) v.1)
              (request_packet ∷ [])
              c.max_retransmit
              c.longest_sleep
              sent)
            ws
        → length ws < c.max_retransmit
        → wtp_enter_join c id seq_num is_crypted w values parser_needs
            (ws ++ (response_arrives ∷ more))
            g
            (suc (grants (join_request_needs w) (suc (suc (suc (suc (suc k)))))))
          ≡ record {
            next = some configure;
            info = reset_info g;
            timer = false;
            log = logged (request_packet ∷ []) c.longest_sleep (suc (length ws)) c.retransmit_timer;
          }
    unfolding exchange
    wtp_enter_join-refused k ws more connected fits code_fits failure small_seq room one retried
          below =
        let answer =
          send_acknowledged-refused c.send
            (λ m. parse_join_response m.msg m.offset seq_num values parser_needs)
            (λ v. save_result c (reset_info g) v.1) (request_packet ∷ []) c.max_retransmit
            c.longest_sleep sent c.retransmit_timer ws more _ [] false
            (written none (response_bytes d name i is code seq_num) 0)
            (seq_num, response_of d name i is code) j retried below (response-received [] room) refl
            (response-parsed fits code_fits small_seq (omega arith))
            (response-refused (reset_info g) failure) in
        connected-exchanges _ (ws ++ (response_arrives ∷ more)) g connected
        ∙ ap
            (λ a.
              exchange c seq_num values parser_needs (reset_info g) a
                (ws ++ (response_arrives ∷ more)))
            (request-sent k one)
        ∙ ap (after_exchange c (reset_info g)) answer
        ∙ refused-joins g _ connected.not_expired
