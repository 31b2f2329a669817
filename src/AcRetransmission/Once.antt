-- ===== src/AcRetransmission/Once.antt =====
-- ACRetransmission.c: a request of the AC, and the expiries of the soft timer that follow.
use sicapwap.Prelude.{
  ℕ, zero, suc, ◌≡◌, refl, ap, ◌∙◌, Bool, true, false, none, some, inl, inr, List, [], ◌∷◌, ◌++◌,
  Bool-cases, length, take,
}
use sicapwap.Message.{Message}
use sicapwap.AcRetransmission.{
  WtpManager, free_wtp_msg_array, send_each, ac_send_fragments, ac_resend_acknowledged_packet,
  ac_send_acknowledged_packet, soft_timer_expired,
}

pub send_each-all :
    (send : Message → Bool) (ms : List Message)
    → (send_each send ms).0 ≡ true
    → (send_each send ms).1 ≡ ms
unfolding send_each
send_each-all send [] h = refl
send_each-all send (m ∷ ms) h = elim (Bool-cases (send m)) [
  | inl e ↦ rw e (ap (λ r. m ∷ r) (send_each-all send ms (rw e at h)))
  | inr e ↦ absurd (cc (rw e at h))
]

-- The timer expires so many times.
abbrev pub expirations : ℕ → ℕ → (Message → Bool) → Bool → WtpManager → WtpManager
expirations zero max send requested w = w
expirations (suc n) max send requested w =
    expirations n max send requested (soft_timer_expired max send requested w)

idle :
    (max : ℕ) (send : Message → Bool) (requested : Bool) (w : WtpManager)
    → w.messages ≡ none
    → soft_timer_expired max send requested w ≡ w
unfolding soft_timer_expired
idle max send requested w h = elim (Bool-cases w.is_retransmitting) [
  | inl e ↦ rw (h, e)
  | inr e ↦ rw (h, e)
]

nothing_left :
    (n max : ℕ) (send : Message → Bool) (requested : Bool) (w : WtpManager)
    → w.messages ≡ none
    → expirations n max send requested w ≡ w
nothing_left zero max send requested w h = refl
nothing_left (suc n) max send requested w h =
    ap (expirations n max send requested) (idle max send requested w h)
    ∙ nothing_left n max send requested w h

take-whole : (ms : List Message) → take (length ms) ms ≡ ms
take-whole [] = refl
take-whole (m ∷ ms) = ap (λ r. m ∷ r) (take-whole ms)

-- The manager after a request that got through.
abbrev after_sending : ℕ → ℕ → List Message → WtpManager → WtpManager
after_sending msg_type seq_num ms w = record w {
  messages = none;
  messages_count = 0;
  is_retransmitting = true;
  retransmission_count = 0;
  response_type = msg_type;
  response_seq_num = seq_num;
  timer = true;
  sent = w.sent ++ ms;
}

send_through :
    (send : Message → Bool) (msg_type seq_num : ℕ) (ms : List Message) (w : WtpManager)
    → w.messages ≡ some ms
    → w.messages_count ≡ length ms
    → (send_each send ms).0 ≡ true
    → ac_send_acknowledged_packet send true msg_type seq_num w
      ≡ (true, after_sending msg_type seq_num ms w)
unfolding ac_send_acknowledged_packet ac_resend_acknowledged_packet ac_send_fragments
    free_wtp_msg_array
send_through send msg_type seq_num ms w there counted through =
    rw (there, counted, take-whole ms, through, send_each-all send ms through)

send_stopped :
    (send : Message → Bool) (requested : Bool) (msg_type seq_num : ℕ) (ms : List Message)
    (w : WtpManager)
    → w.messages ≡ some ms
    → w.messages_count ≡ length ms
    → (send_each send ms).0 ≡ false
    → (ac_send_acknowledged_packet send requested msg_type seq_num w).0 ≡ false
unfolding ac_send_acknowledged_packet ac_resend_acknowledged_packet ac_send_fragments
send_stopped send requested msg_type seq_num ms w there counted stopped =
    rw (there, counted, take-whole ms, stopped)

-- When CWACSendAcknowledgedPacket of the AC succeeds, with a count that is that of its messages,
-- all messages were sent once and the manager is retransmitting, but every later expiry of the
-- soft timer leaves it as it is: nothing is sent again and the peer is never given up.
pub send_acknowledged-once :
    (send again : Message → Bool) (requested : Bool) (msg_type seq_num n max : ℕ)
    (ms : List Message) (w : WtpManager)
    → w.messages ≡ some ms
    → w.messages_count ≡ length ms
    → (ac_send_acknowledged_packet send true msg_type seq_num w).0 ≡ true
    → (let w' = (ac_send_acknowledged_packet send true msg_type seq_num w).1 in
        (w'.sent ≡ w.sent ++ ms)
        × (w'.is_retransmitting ≡ true)
        × (expirations n max again requested w' ≡ w'))
send_acknowledged-once send again requested msg_type seq_num n max ms w there counted done =
    elim (Bool-cases (send_each send ms).0) [
      | inl e ↦ rw (send_through send msg_type seq_num ms w there counted e) (
        refl,
        refl,
        nothing_left n max again requested (after_sending msg_type seq_num ms w) refl,
      )
      | inr e ↦ absurd (cc (done, send_stopped send true msg_type seq_num ms w there counted e))
    ]
