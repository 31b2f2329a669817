-- ===== src/Pending/Retransmit.antt =====
-- `CWWTPRetransmitTimerExpiredHandler`: what sending again does to the box, and to the argument
-- that its timer was given.
use sicapwap.Prelude.{
  ℕ, zero, suc, ◌+◌, ◌≡◌, ◌≢◌, refl, Bool, true, none, some, List, [], ◌∷◌, arith, ==_refl, ne→==,
}
use sicapwap.Message.{Message}
use sicapwap.Cells.{Store, update, continue}
use sicapwap.TimerQueue.{Timeval, Timerq, timer_add}
use sicapwap.Pending.{
  PendingRequestMessage, send_fragments, nth, put, messages_of, expired_box,
  retransmit_timer_expired_handler, reset_pending_msg_box,
}

-- At the limit of retransmissions the handler sends nothing and adds no timer.
pub expired-max :
    (max : ℕ) (send : Message → Bool) (now : Timeval) (granted : Bool) (arg index : ℕ)
    (boxes : List PendingRequestMessage) (b : PendingRequestMessage) (q : Timerq) (s : Store ℕ)
    → s.cell arg ≡ some index
    → nth index boxes ≡ some b
    → b.retransmission ≡ max
    → retransmit_timer_expired_handler max send now granted arg boxes q s
      ≡ some ((put index b boxes, q), s)
unfolding retransmit_timer_expired_handler expired_box
expired-max max send now granted arg index boxes b q s pointed at last =
    rw (pointed, continue, at, last, ==_refl max)

nth-put :
    (k : ℕ) (bs : List PendingRequestMessage) (b b' : PendingRequestMessage)
    → nth k bs ≡ some b
    → nth k (put k b' bs) ≡ some b'
nth-put k [] b b' at = absurd (ground arith)
nth-put zero (c ∷ bs) b b' at = refl
nth-put (suc k) (c ∷ bs) b b' at = nth-put k bs b b' at

-- If the retransmission handler sends all messages of a box below the limit, it adds a timer with
-- the same argument and frees that argument: the handler of the new timer reads a freed object,
-- and CWResetPendingMsgBox frees it a second time.
pub expired-freed :
    (max : ℕ) (send : Message → Bool) (now : Timeval) (granted : Bool) (arg index : ℕ)
    (boxes : List PendingRequestMessage) (b : PendingRequestMessage) (ms : List Message)
    (q : Timerq) (s : Store ℕ)
    → s.cell arg ≡ some index
    → nth index boxes ≡ some b
    → b.timer_arg ≡ some arg
    → b.retransmission ≢ max
    → messages_of b ≡ some ms
    → send_fragments send ms ≡ true
    → (let (id, q') = timer_add now granted b.timer_sec 0 b.timer_hdl arg q in
        let b' = record b { retransmission = b.retransmission + 1; timer = id } in
        let s' = record s { cell = update s.cell arg none } in
        (retransmit_timer_expired_handler max send now granted arg boxes q s
          ≡ some ((put index b' boxes, q'), s'))
        × (retransmit_timer_expired_handler max send now granted arg (put index b' boxes) q' s'
            ≡ none)
        × (reset_pending_msg_box b' q' s' ≡ none))
unfolding retransmit_timer_expired_handler expired_box reset_pending_msg_box
expired-freed max send now granted arg index boxes b ms q s pointed at same more there sent = (
  rw (pointed, continue, at, ne→== b.retransmission max more, there, sent, pointed, same),
  rw (==_refl arg),
  rw (same, ==_refl arg),
)
