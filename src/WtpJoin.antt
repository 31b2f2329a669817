-- ===== src/WtpJoin.antt =====
-- WTPJoinState.c, `CWWTPEnterJoin`: the Join Request is sent until its response comes. What is
-- destroyed on the way out is of the system, but for the timer.
pub mod Entered
use sicapwap.Prelude.{
  ℕ, zero, suc, Bool, true, false, ◌&&◌, Option, none, some, List, [], ◌∷◌, ltb, ◌==◌,
  if◌then◌else◌,
}
use sicapwap.Exec.{
  Outcome, ok, raised, fault, out_of_fuel, need_resource, Called, succeeded, failed_with,
  LastHandled, passed, failed, thread_ended, c_err,
}
use sicapwap.Message.{Message}
use sicapwap.Acknowledged.{
  Wait, Answer, answered, peer_dead, request_failed, still_waiting, crashed, Log, Saved, saved,
  refused, send_acknowledged_packet,
}
use sicapwap.AcSession.{StateTransition, sulking, discovery, configure}
use sicapwap.Join.{Wtp, assemble_join_request}
use sicapwap.JoinResponse.{JoinResponse, AcInfo, no_lists, parse_join_response, save_join_response}

-- What the program and its surroundings give: if a message is sent, the limits of retransmission,
-- if the timer is added, the security where an address is forced, and what the new object for it
-- holds, if the socket, the context (with a certificate or without), the thread and the session are
-- there or with what errors they are not, the path MTU that is found and that which is forced, and if
-- the timer did not expire.
pub record Surroundings : Type 0 where
  pub send : Message → Bool
  pub max_retransmit : ℕ
  pub longest_sleep : ℕ
  pub retransmit_timer : ℕ
  pub added : Bool
  pub forced_security : Option ℕ
  pub fresh : AcInfo
  pub socket : Called
  pub context : Bool → Called
  pub thread : Called
  pub session : Called
  pub path_mtu : ℕ
  pub force_mtu : ℕ
  pub successful_handshake : Bool

-- The next state, of which there is none if the function did not return; `gACInfoPtr`; if the timer
-- is still there; and what was sent.
pub record Joined : Type 0 where
  pub next : Option StateTransition
  pub info : AcInfo
  pub timer : Bool
  pub log : Log

abbrev pub nothing_sent : Log
nothing_sent = record { sent = []; waits = [] }

module _ (c : Surroundings) where
  abbrev pub session_mtu : ℕ
  session_mtu = if ltb 0 c.force_mtu then c.force_mtu else c.path_mtu

  -- A response that says failure is refused without an error.
  unfoldable pub save_result : AcInfo → JoinResponse → Saved
  save_result g v = if (save_join_response v g).0 then saved else refused

  -- From `CWErr` around the exchange on.
  unfoldable pub after_join : LastHandled → AcInfo → Log → Joined
  after_join passed g log = record {
    next = some (if c.successful_handshake then configure else discovery);
    info = g;
    timer = false;
    log = log;
  }
  after_join failed g log = record { next = some discovery; info = g; timer = false; log = log }
  after_join thread_ended g log = record { next = none; info = g; timer = true; log = log }

  unfoldable pub after_exchange : AcInfo → Answer (ℕ × JoinResponse) × Log → Joined
  unfolding after_join
  after_exchange g (answered (seq_num, v), log) =
      after_join (c_err succeeded) (save_join_response v g).1 log
  after_exchange g (peer_dead, log) = after_join (c_err (failed_with need_resource)) g log
  after_exchange g (request_failed e, log) = after_join (c_err (failed_with e)) g log
  after_exchange g (still_waiting, log) = record { next = none; info = g; timer = true; log = log }
  after_exchange g (crashed, log) = record { next = none; info = g; timer = true; log = log }

  -- From the assembled request on. Each response is parsed with `j` allocations, into what the local
  -- variable holds.
  unfoldable pub exchange :
      ℕ → JoinResponse → ℕ → AcInfo → Outcome (List Message × ℕ) → List Wait → Joined
  unfolding after_exchange
  exchange seq_num values j g (ok (ms, k)) ws = after_exchange g (
      send_acknowledged_packet c.send (λ m. parse_join_response m.msg m.offset seq_num values j)
        (λ v. save_result g v.1) ms c.max_retransmit c.longest_sleep c.retransmit_timer ws)
  exchange seq_num values j g (raised e) ws = after_join (c_err (failed_with e)) g nothing_sent
  exchange seq_num values j g fault ws = record {
    next = none;
    info = g;
    timer = true;
    log = nothing_sent;
  }
  exchange seq_num values j g out_of_fuel ws = record {
    next = none;
    info = g;
    timer = true;
    log = nothing_sent;
  }

  -- `CWErr` around a call before the exchange.
  unfoldable pub then_on : LastHandled → AcInfo → Joined → Joined
  then_on passed g rest = rest
  then_on failed g rest = record {
    next = some discovery;
    info = g;
    timer = false;
    log = nothing_sent;
  }
  then_on thread_ended g rest = record { next = none; info = g; timer = true; log = nothing_sent }

  module _ (id seq_num is_crypted : ℕ) (w : Wtp) (values : JoinResponse) (j : ℕ)
      (ws : List Wait) where
    -- From the socket on.
    unfoldable pub connect : AcInfo → ℕ → Joined
    unfolding exchange then_on
    connect g k = then_on (c_err c.socket) g (
        then_on (c_err (c.context (g.descriptor.security == 1))) g (
          then_on (c_err c.thread) g (
            then_on (c_err c.session) g (
              exchange seq_num values j g
                (assemble_join_request id session_mtu seq_num is_crypted w k) ws))))

    -- Where the new object is not allocated, the result is `CW_FALSE`, which is the first state.
    unfoldable pub reset_and_connect : Option ℕ → AcInfo → ℕ → Joined
    unfolding connect
    reset_and_connect none g k = connect g k
    reset_and_connect (some security) g zero = record {
      next = some sulking;
      info = g;
      timer = true;
      log = nothing_sent;
    }
    reset_and_connect (some security) g (suc k) =
        connect
          (record (c.fresh) { descriptor = record (c.fresh.descriptor) { security = security } }) k

    unfoldable pub wtp_enter_join : AcInfo → ℕ → Joined
    unfolding reset_and_connect
    wtp_enter_join g k =
        let g : AcInfo = record g { ipv4_list = []; ipv6_list = [] } in
        if c.added
        then reset_and_connect c.forced_security g k
        else record { next = some discovery; info = g; timer = false; log = nothing_sent }
