-- ===== src/Acknowledged/Answered.antt =====
-- How often a request is sent, until it is answered or the peer is given up.
use sicapwap.Prelude.{
  ℕ, zero, suc, ◌+◌, ◌<◌, ◌≡◌, refl, sym, ap, ◌∙◌, Bool, true, List, [], ◌∷◌, ◌++◌, All, arith,
  length, ==_refl, lt→ltb, ltb_irrefl, append_assoc, append-nil,
}
use sicapwap.Exec.{Outcome, ok, raised, invalid_format, success}
use sicapwap.Message.{Message}
use sicapwap.Receive.{Datagram, received, receive_message}
use sicapwap.AcRetransmission.{send_each}
use sicapwap.AcRetransmission.Once.{send_each-all}
use sicapwap.Acknowledged.{
  Wait, expired, readable, Answer, answered, request_failed, peer_dead, Log, Saved, saved, refused,
  error_left, next_sleep, after_error, after_save, after_message, after_receive, transmit,
  wait_for_response, send_acknowledged_packet,
}

-- The messages so many times, and the times that are waited, from this one on.
abbrev pub copies : ℕ → List Message → List Message
copies zero messages = []
copies (suc n) messages = messages ++ copies n messages

abbrev pub sleeps : ℕ → ℕ → ℕ → List ℕ
sleeps longest zero t = []
sleeps longest (suc n) t = t ∷ sleeps longest n (next_sleep longest t)

-- What is logged of so many transmissions from the first on.
abbrev pub logged : List Message → ℕ → ℕ → ℕ → Log
logged messages longest n first = record {
  sent = copies n messages;
  waits = sleeps longest n first;
}

module _ {ℓ} {V : Type ℓ} (send : Message → Bool) (parse : Message → Outcome (V × ℕ))
    (save : V → Saved) (messages : List Message) (max longest : ℕ)
    (sent : (send_each send messages).0 ≡ true) where
  -- A wait after which the request is sent again: it is over, or a message of another format comes.
  pub data IsRetried : Wait → Type ℓ where
    over : IsRetried expired
    of_another_format :
        {ds left : List Datagram} {flag : Bool} {m : Message}
        → receive_message ds [] ≡ received flag m left
        → parse m ≡ raised invalid_format
        → IsRetried (readable ds)

  transmit-sent :
      (count sleep : ℕ) (log : Log) (rest : Log → Answer V × Log)
      → count < max
      → transmit send parse save messages max longest count sleep log rest
        ≡ rest (record { sent = log.sent ++ messages; waits = log.waits ++ (sleep ∷ []) })
  unfolding transmit
  transmit-sent count sleep log rest below =
      rw (lt→ltb count max below, sent, send_each-all send messages sent)

  retried-again :
      (w : Wait) (count sleep : ℕ) (log : Log) (ws : List Wait)
      → IsRetried w
      → wait_for_response send parse save messages max longest count sleep log (w ∷ ws)
        ≡ transmit send parse save messages max longest
            (suc count)
            (next_sleep longest sleep)
            log
            (λ log.
              wait_for_response send parse save messages max longest
                (suc count)
                (next_sleep longest sleep)
                log
                ws)
  unfolding wait_for_response after_receive after_message after_error
  retried-again w count sleep log ws over = refl
  retried-again w count sleep log ws (of_another_format {ds} got bad) = rw (got, bad)

  -- The log after so many transmissions more.
  abbrev more_sent : ℕ → ℕ → Log → Log
  more_sent n t log = record {
    sent = log.sent ++ copies n messages;
    waits = log.waits ++ sleeps longest n t;
  }

  more_sent_nothing : (t : ℕ) (log : Log) → more_sent 0 t log ≡ log
  more_sent_nothing t log = rw (append-nil log.sent, append-nil log.waits)

  more_sent_step :
      (n t : ℕ) (log : Log)
      → more_sent n
          (next_sleep longest t)
          (record { sent = log.sent ++ messages; waits = log.waits ++ (t ∷ []) })
        ≡ more_sent (suc n) t log
  more_sent_step n t log = rw (
    append_assoc log.sent messages (copies n messages),
    append_assoc log.waits (t ∷ []) (sleeps longest n (next_sleep longest t)),
  )

  -- The number of retransmissions, and the time that is waited, after so many waits.
  abbrev counted : ℕ → ℕ → ℕ
  counted zero count = count
  counted (suc n) count = counted n (suc count)

  abbrev slept : ℕ → ℕ → ℕ
  slept zero t = t
  slept (suc n) t = slept n (next_sleep longest t)

  -- Below the limit, such waits only lead to the next.
  retried-All :
      (ws more : List Wait) (count sleep : ℕ) (log : Log)
      → All IsRetried ws
      → length ws + count < max
      → wait_for_response send parse save messages max longest count sleep log (ws ++ more)
        ≡ wait_for_response send parse save messages max longest
            (counted (length ws) count)
            (slept (length ws) sleep)
            (more_sent (length ws) (next_sleep longest sleep) log)
            more
  retried-All [] more count sleep log retried below =
      ap (λ l. wait_for_response send parse save messages max longest count sleep l more)
        (sym (more_sent_nothing (next_sleep longest sleep) log))
  retried-All (w ∷ ws) more count sleep log (one, retried) below =
      retried-again w count sleep log (ws ++ more) one
      ∙ transmit-sent (suc count) (next_sleep longest sleep) log _ (omega arith)
      ∙ retried-All ws more (suc count) (next_sleep longest sleep) _ retried (omega arith)
      ∙ ap
          (λ l.
            wait_for_response send parse save messages max longest (counted (length ws) (suc count))
              (slept (length ws) (next_sleep longest sleep)) l more)
          (more_sent_step (length ws) (next_sleep longest sleep) log)

  started :
      (first : ℕ) (ws : List Wait)
      → 0 < max
      → send_acknowledged_packet send parse save messages max longest first ws
        ≡ wait_for_response send parse save messages max longest 0 first
            (record { sent = messages; waits = first ∷ [] })
            ws
  unfolding send_acknowledged_packet
  started first ws some_tries =
      transmit-sent 0 first (record { sent = []; waits = [] })
        (λ log. wait_for_response send parse save messages max longest 0 first log ws) some_tries

  answered_at_once :
      (count sleep : ℕ) (log : Log) (ds left : List Datagram) (flag : Bool) (m : Message) (v : V)
      (k : ℕ) (ws : List Wait)
      → receive_message ds [] ≡ received flag m left
      → parse m ≡ ok (v, k)
      → save v ≡ saved
      → wait_for_response send parse save messages max longest count sleep log (readable ds ∷ ws)
        ≡ (answered v, log)
  unfolding wait_for_response after_receive after_message after_save
  answered_at_once count sleep log ds left flag m v k ws got parsed kept = rw (got, parsed, kept)

  -- After fewer waits than the limit that are over or end with a message of another format,
  -- CWWTPSendAcknowledgedPacket returns the values of a response that it receives, parses and
  -- saves; it has sent the messages once for each of these waits and once before, and the times
  -- that it waited are doubled up to the longest. Every message is sent.
  pub send_acknowledged-answered :
      (first : ℕ) (ws more : List Wait) (ds left : List Datagram) (flag : Bool) (m : Message)
      (v : V) (k : ℕ)
      → All IsRetried ws
      → length ws < max
      → receive_message ds [] ≡ received flag m left
      → parse m ≡ ok (v, k)
      → save v ≡ saved
      → send_acknowledged_packet send parse save messages max longest first
          (ws ++ (readable ds ∷ more))
        ≡ (answered v, logged messages longest (suc (length ws)) first)
  send_acknowledged-answered first ws more ds left flag m v k retried below got parsed kept =
      started first (ws ++ (readable ds ∷ more)) (omega arith)
      ∙ retried-All ws (readable ds ∷ more) 0 first _ retried (omega arith)
      ∙ answered_at_once _ _ _ ds left flag m v k more got parsed kept

  refused_at_once :
      (count sleep : ℕ) (log : Log) (ds left : List Datagram) (flag : Bool) (m : Message) (v : V)
      (k : ℕ) (ws : List Wait)
      → receive_message ds [] ≡ received flag m left
      → length ds ≡ suc (length left)
      → parse m ≡ ok (v, k)
      → save v ≡ refused
      → wait_for_response send parse save messages max longest count sleep log (readable ds ∷ ws)
        ≡ (request_failed success, log)
  unfolding wait_for_response after_receive after_message after_save after_error error_left
  refused_at_once count sleep log ds left flag m v k ws got one parsed kept =
      rw (got, one, ==_refl (suc (length left)), parsed, kept)

  -- After fewer waits than the limit that are over or end with a message of another format, a
  -- response in one packet that is parsed, and that the save function refuses without an error, ends
  -- CWWTPSendAcknowledgedPacket with the last error CW_ERROR_SUCCESS. Every message is sent.
  pub send_acknowledged-refused :
      (first : ℕ) (ws more : List Wait) (ds left : List Datagram) (flag : Bool) (m : Message)
      (v : V) (k : ℕ)
      → All IsRetried ws
      → length ws < max
      → receive_message ds [] ≡ received flag m left
      → length ds ≡ suc (length left)
      → parse m ≡ ok (v, k)
      → save v ≡ refused
      → send_acknowledged_packet send parse save messages max longest first
          (ws ++ (readable ds ∷ more))
        ≡ (request_failed success, logged messages longest (suc (length ws)) first)
  send_acknowledged-refused first ws more ds left flag m v k retried below got one parsed kept =
      started first (ws ++ (readable ds ∷ more)) (omega arith)
      ∙ retried-All ws (readable ds ∷ more) 0 first _ retried (omega arith)
      ∙ refused_at_once _ _ _ ds left flag m v k more got one parsed kept

  transmit-limit :
      (count sleep : ℕ) (log : Log) (rest : Log → Answer V × Log)
      → count ≡ max
      → transmit send parse save messages max longest count sleep log rest ≡ (peer_dead, log)
  unfolding transmit
  transmit-limit count sleep log rest last = rw (last, ltb_irrefl max)

  -- The last retransmission that is due is not made.
  given_up :
      (w : Wait) (ws more : List Wait) (count sleep : ℕ) (log : Log)
      → All IsRetried (w ∷ ws)
      → length (w ∷ ws) + count ≡ max
      → wait_for_response send parse save messages max longest count sleep log ((w ∷ ws) ++ more)
        ≡ (peer_dead, more_sent (length ws) (next_sleep longest sleep) log)
  given_up w [] more count sleep log (one, retried) last =
      retried-again w count sleep log more one
      ∙ transmit-limit (suc count) (next_sleep longest sleep) log _ (omega arith)
      ∙ ap (λ l. (peer_dead, l)) (sym (more_sent_nothing (next_sleep longest sleep) log))
  given_up w (x ∷ ws) more count sleep log (one, retried) last =
      retried-again w count sleep log ((x ∷ ws) ++ more) one
      ∙ transmit-sent (suc count) (next_sleep longest sleep) log
          (λ log.
            wait_for_response send parse save messages max longest (suc count)
              (next_sleep longest sleep) log ((x ∷ ws) ++ more))
          (omega arith)
      ∙ given_up x ws more (suc count) (next_sleep longest sleep) _ retried (omega arith)
      ∙ ap (λ l. (peer_dead, l)) (more_sent_step (length ws) (next_sleep longest sleep) log)

  never_started :
      (first : ℕ) (ws : List Wait)
      → 0 ≡ max
      → send_acknowledged_packet send parse save messages max longest first ws
        ≡ (peer_dead, logged messages longest 0 first)
  unfolding send_acknowledged_packet
  never_started first ws none_left =
      transmit-limit 0 first (record { sent = []; waits = [] })
        (λ log. wait_for_response send parse save messages max longest 0 first log ws) none_left

  -- After as many waits as the limit that are over or end with a message of another format,
  -- CWWTPSendAcknowledgedPacket gives the peer up, having sent the messages as many times; every
  -- message is sent.
  pub send_acknowledged-peer_dead :
      (first : ℕ) (ws more : List Wait)
      → All IsRetried ws
      → length ws ≡ max
      → send_acknowledged_packet send parse save messages max longest first (ws ++ more)
        ≡ (peer_dead, logged messages longest max first)
  send_acknowledged-peer_dead first [] more retried last =
      never_started first more last ∙ ap (λ n. (peer_dead, logged messages longest n first)) last
  send_acknowledged-peer_dead first (w ∷ ws) more retried last =
      started first ((w ∷ ws) ++ more) (omega arith)
      ∙ given_up w ws more 0 first _ retried (omega arith)
      ∙ ap (λ n. (peer_dead, logged messages longest n first)) last
