-- ===== src/Acknowledged.antt =====
-- WTP.c, `CWWTPSendAcknowledgedPacket`: a request that the termination point sends again and again
-- until its response comes. What the waits of the loop end with is given as a list.
pub mod Answered
pub mod Bounds
pub mod Copies
use sicapwap.Prelude.{
  ℕ, zero, suc, ◌+◌, ◌*◌, Bool, true, false, List, [], ◌∷◌, ◌++◌, ltb, length, ◌==◌, if◌then◌else◌,
}
use sicapwap.Exec.{
  Outcome, ok, raised, fault, out_of_fuel, ErrorCode, success, out_of_memory, wrong_arg,
  interrupted, need_resource, comunicating, creating, general, operation_aborted, sending,
  receiving, invalid_format, time_expired, none_pending,
}
use sicapwap.Message.{Message}
use sicapwap.Receive.{Datagram, Received, received, not_received, waiting, stuck, receive_message}
use sicapwap.AcRetransmission.{send_each}

-- What a wait ends with: the time is over or a signal came; the error `CW_ERROR_GENERAL`; or there is
-- something to read, and these are the packets that arrive from then on.
pub data Wait : Type 0 where
  expired : Wait
  broken_off : Wait
  readable : List Datagram → Wait

-- The result, with the values of the response: `CW_TRUE`; the error "Peer Dead"; or `CW_FALSE` with
-- the last error. `still_waiting`: the waits of the list are over.
pub data Answer {ℓ} (V : Type ℓ) : Type ℓ where
  answered : V → Answer V
  peer_dead : Answer V
  request_failed : ErrorCode → Answer V
  still_waiting : Answer V
  crashed : Answer V

-- What was sent, and for how many seconds a response was waited for at most after each transmission.
pub record Log : Type 0 where
  pub sent : List Message
  pub waits : List ℕ

-- What the save function returns: `CW_TRUE`; `CW_FALSE` without an error of its own; or `CW_FALSE`
-- with this error.
pub data Saved : Type 0 where
  saved : Saved
  refused : Saved
  not_saved : ErrorCode → Saved

-- The last error when the response is parsed: `CW_ERROR_SUCCESS` is raised before the first packet is
-- read, and `CW_ERROR_NEED_RESOURCE` where a packet was not the last of its message.
unfoldable pub error_left : List Datagram → List Datagram → ErrorCode
error_left ds left = if length ds == suc (length left) then success else need_resource

-- `gTimeToSleep <<= 1`, up to the longest.
unfoldable pub next_sleep : ℕ → ℕ → ℕ
next_sleep longest t = if ltb longest (t * 2) then longest else t * 2

-- A response is of another format: the request is sent again. Any other error ends it.
unfoldable pub after_error {ℓ} : {A : Type ℓ} → ErrorCode → A → A → A
after_error invalid_format again end = again
after_error success again end = end
after_error out_of_memory again end = end
after_error wrong_arg again end = end
after_error interrupted again end = end
after_error need_resource again end = end
after_error comunicating again end = end
after_error creating again end = end
after_error general again end = end
after_error operation_aborted again end = end
after_error sending again end = end
after_error receiving again end = end
after_error time_expired again end = end
after_error none_pending again end = end

-- `e` is the last error before the save function.
unfoldable pub after_save {ℓ} : {A : Type ℓ} → Saved → ErrorCode → A → A → (ErrorCode → A) → A
unfolding after_error
after_save saved e done wait end = done
after_save refused e done wait end = after_error e wait (end e)
after_save (not_saved e') e done wait end = after_error e' wait (end e')

module _ {ℓ} {V : Type ℓ} (send : Message → Bool) (parse : Message → Outcome (V × ℕ))
    (save : V → Saved) (messages : List Message) (max longest : ℕ) where
  -- What is made of a message: `again` sends once more, `wait` waits once more.
  unfoldable pub after_message :
      Outcome (V × ℕ) → ErrorCode → Log → Answer V × Log → Answer V × Log → Answer V × Log
  unfolding after_error after_save
  after_message (ok (v, k)) left log again wait =
      after_save (save v) left (answered v, log) wait (λ e. (request_failed e, log))
  after_message (raised e) left log again wait = after_error e again (request_failed e, log)
  after_message fault left log again wait = (crashed, log)
  after_message out_of_fuel left log again wait = (crashed, log)

  -- `ds` are the packets before the message was read.
  unfoldable pub after_receive :
      List Datagram → Received → Log → Answer V × Log → Answer V × Log → Answer V × Log
  unfolding after_message error_left
  after_receive ds (received flag m left) log again wait =
      after_message (parse m) (error_left ds left) log again wait
  after_receive ds (not_received e left) log again wait = (request_failed e, log)
  after_receive ds (waiting fs) log again wait = (still_waiting, log)
  after_receive ds stuck log again wait = (crashed, log)

  -- The messages are sent, if the limit of transmissions is not reached; `rest` waits from then on.
  unfoldable pub transmit : ℕ → ℕ → Log → (Log → Answer V × Log) → Answer V × Log
  transmit count sleep log rest =
      if ltb count max
      then (let (through, out) = send_each send messages in
          let log : Log = record log { sent = log.sent ++ out } in
          if through
          then rest (record log { waits = log.waits ++ (sleep ∷ []) })
          else (request_failed sending, log))
      else (peer_dead, log)

  -- The inner loop, by the waits: `count` is `gWTPRetransmissionCount`, `sleep` is `gTimeToSleep`.
  unfoldable pub wait_for_response : ℕ → ℕ → Log → List Wait → Answer V × Log
  unfolding transmit after_receive next_sleep
  wait_for_response count sleep log [] = (still_waiting, log)
  wait_for_response count sleep log (w ∷ ws) =
      let sleep' = next_sleep longest sleep in
      let again =
        transmit (suc count) sleep' log (λ log. wait_for_response (suc count) sleep' log ws) in
      let wait = wait_for_response count sleep log ws in
      elim w [
        | expired ↦ again
        | broken_off ↦ (request_failed general, log)
        | readable ds ↦ after_receive ds (receive_message ds []) log again wait
      ]

  -- From the first transmission on, with `gCWRetransmitTimer`.
  unfoldable pub send_acknowledged_packet : ℕ → List Wait → Answer V × Log
  unfolding wait_for_response
  send_acknowledged_packet first ws =
      transmit 0 first (record { sent = []; waits = [] }) (λ log. wait_for_response 0 first log ws)
