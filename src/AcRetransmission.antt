-- ===== src/AcRetransmission.antt =====
-- ACRetransmission.c, and the soft timer handler of ACMainLoop.c: a request that the AC sends to a
-- WTP, and its repetition until a response stops it. Signal masks are not modelled.
pub mod Once
use sicapwap.Prelude.{
  ℕ, zero, suc, ◌+◌, ◌≡◌, ◌≢◌, refl, ap, ◌∙◌, Bool, true, false, not, ◌||◌, Option, none, some,
  List, [], ◌∷◌, ◌++◌, append-nil, append_assoc, leb, if◌then◌else◌, length, take, arith,
}
use mathlib.Core.Option
use sicapwap.Message.{Message}

-- The fields of `gWTPs[WTPIndex]` that are used here. `sent` are the messages that were sent, and
-- `timer` tells if `currentPacketTimer` was requested.
pub record WtpManager : Type 0 where
  pub messages : Option (List Message)
  pub messages_count : ℕ
  pub is_retransmitting : Bool
  pub retransmission_count : ℕ
  pub response_type : ℕ
  pub response_seq_num : ℕ
  pub timer : Bool
  pub is_request_close : Bool
  pub closed : Bool
  pub sent : List Message

-- `CW_FREE_WTP_MSG_ARRAY`.
unfoldable pub free_wtp_msg_array : WtpManager → WtpManager
free_wtp_msg_array w = record w { messages = none; messages_count = 0 }

-- The loop that sends, up to a failure: if it got through, and what was sent.
unfoldable pub send_each : (Message → Bool) → List Message → Bool × List Message
send_each send [] = (true, [])
send_each send (m ∷ ms) =
    let rest = send_each send ms in if send m then (rest.0, m ∷ rest.1) else (false, [])

unfoldable pub ac_send_fragments : (Message → Bool) → WtpManager → Bool × WtpManager
ac_send_fragments send w = elim w.messages [
  | none ↦ (false, w)
  | some ms ↦
      let (through, out) = send_each send (take w.messages_count ms) in
      let w' = record w { sent = w.sent ++ out } in
      if through then (true, free_wtp_msg_array w') else (false, w')
]

-- `requested` is the result of `CWTimerRequest`.
unfoldable pub ac_resend_acknowledged_packet :
    (Message → Bool) → Bool → WtpManager → Bool × WtpManager
ac_resend_acknowledged_packet send requested w =
    let (through, w') = ac_send_fragments send w in
    if through
    then (if requested then (true, record w' { timer = true }) else (false, w'))
    else (false, w')

unfoldable pub ac_send_acknowledged_packet :
    (Message → Bool) → Bool → ℕ → ℕ → WtpManager → Bool × WtpManager
ac_send_acknowledged_packet send requested msg_type seq_num w =
    ac_resend_acknowledged_packet send requested (record w {
      retransmission_count = 0;
      is_retransmitting = true;
      response_type = msg_type;
      response_seq_num = seq_num;
    })

-- The array's messages are freed by the count, then the array; the count stays.
unfoldable pub ac_stop_retransmission : WtpManager → WtpManager
ac_stop_retransmission w =
    if w.is_retransmitting
    then record w {
      is_retransmitting = false;
      timer = false;
      response_type = 0;
      response_seq_num = 0;
      messages = none;
    }
    else w

-- `CWSoftTimerExpiredHandler`, with `gCWMaxRetransmit`.
unfoldable pub soft_timer_expired : ℕ → (Message → Bool) → Bool → WtpManager → WtpManager
soft_timer_expired max send requested w =
    if not w.is_retransmitting || elim w.messages [ none ↦ true | some ms ↦ false ]
    then w
    else (let w' = record w { retransmission_count = w.retransmission_count + 1 } in
        if leb max w'.retransmission_count
        then record w' { is_request_close = true }
        else (let (again, w'') = ac_resend_acknowledged_packet send requested w' in
            if again then w'' else record w'' { closed = true }))
