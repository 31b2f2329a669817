-- ===== src/Pending/Boxes.antt =====
-- WTPRetransmission.c: boxes that are taken, found again and given back.
use sicapwap.Prelude.{
  ℕ, zero, suc, ◌+◌, ◌%◌, ◌≡◌, ◌≢◌, refl, ap, ◌∙◌, Bool, true, false, ◌&&◌, none, some, List, [],
  ◌∷◌, ◌++◌, arith, All, ◌==◌, ==_refl, ne→==, length,
}
use sicapwap.Message.{Message}
use sicapwap.Cells.{Store}
use sicapwap.TimerQueue.{Timeval, Timerq, timer_add, timer_rem}
use sicapwap.Pending.{
  PendingRequestMessage, unused_msg_type, zero_box, remove_by, reset_pending_msg_box,
  find_free_pending_msg_box, update_pending_msg_box, find_pending_request_msgs_box, nth, put,
  returns_true,
}

abbrev pub Used : PendingRequestMessage → Type 0
Used b = b.msg_type ≢ unused_msg_type

-- Boxes in use are passed over.
find_free-Used :
    (front bs bs' : List PendingRequestMessage) (q q' : Timerq) (s s' : Store ℕ) (k : ℕ)
    → All Used front
    → find_free_pending_msg_box bs q s ≡ some ((some k, bs', q'), s')
    → find_free_pending_msg_box (front ++ bs) q s
      ≡ some ((some (length front + k), front ++ bs', q'), s')
unfolding find_free_pending_msg_box
find_free-Used [] bs bs' q q' s s' k h e =
    e ∙ ap (λ n. some ((some n, bs', q'), s')) {x = k} {y = 0 + k} (omega arith)
find_free-Used (b ∷ front) bs bs' q q' s s' k h e =
    rw
      (
        find_free_pending_msg_box,
        ne→== b.msg_type unused_msg_type h.0,
        find_free-Used front bs bs' q q' s s' k h.1 e,
      )
      (ap (λ n. some ((some n, b ∷ (front ++ bs'), q'), s')) (omega arith))

zero_box_taken :
    (back : List PendingRequestMessage) (q : Timerq) (s : Store ℕ)
    → find_free_pending_msg_box (zero_box ∷ back) q s
      ≡ some ((some 0, zero_box ∷ back, timer_rem 0 q), s)
unfolding find_free_pending_msg_box reset_pending_msg_box remove_by
zero_box_taken back q s = refl

-- Behind boxes in use, a box that was never used is found free, and the timer with the id 0 is
-- removed from the queue, whoever added it.
pub find_free-zero_box :
    (front back : List PendingRequestMessage) (q : Timerq) (s : Store ℕ)
    → All Used front
    → find_free_pending_msg_box (front ++ (zero_box ∷ back)) q s
      ≡ some ((some (length front + 0), front ++ (zero_box ∷ back), timer_rem 0 q), s)
find_free-zero_box front back q s h =
    find_free-Used front (zero_box ∷ back) (zero_box ∷ back) q (timer_rem 0 q) s s 0 h
      (zero_box_taken back q s)

-- With all boxes in use none is found free, and nothing changes.
pub find_free-full :
    (bs : List PendingRequestMessage) (q : Timerq) (s : Store ℕ)
    → All Used bs
    → find_free_pending_msg_box bs q s ≡ some ((none, bs, q), s)
unfolding find_free_pending_msg_box
find_free-full [] q s h = refl
find_free-full (b ∷ bs) q s h =
    rw (find_free_pending_msg_box, ne→== b.msg_type unused_msg_type h.0, find_free-full bs q s h.1)

answers : PendingRequestMessage → ℕ → ℕ → Bool
answers b msg_type seq_num = (b.seq_num == seq_num) && (b.msg_type == msg_type)

none_before :
    (b : PendingRequestMessage) (bs : List PendingRequestMessage) (msg_type seq_num : ℕ)
    (q : Timerq)
    → (find_pending_request_msgs_box (b ∷ bs) msg_type seq_num q).0 ≡ none
    → (answers b msg_type seq_num ≡ false)
      × ((find_pending_request_msgs_box bs msg_type seq_num q).0 ≡ none)
unfolding find_pending_request_msgs_box answers
none_before b bs msg_type seq_num q h = ground arith

-- A box that answers to the type and the number, with none before it that does.
find_pending-put :
    (k : ℕ) (bs : List PendingRequestMessage) (old b : PendingRequestMessage) (msg_type seq_num : ℕ)
    (q q' : Timerq)
    → nth k bs ≡ some old
    → (find_pending_request_msgs_box bs msg_type seq_num q').0 ≡ none
    → b.msg_type ≡ msg_type
    → b.seq_num ≡ seq_num
    → find_pending_request_msgs_box (put k b bs) msg_type seq_num q ≡ (some k, remove_by b.timer q)
unfolding find_pending_request_msgs_box answers
find_pending-put k [] old b msg_type seq_num q q' at free same_type same_seq = absurd (ground arith)
find_pending-put zero (c ∷ bs) old b msg_type seq_num q q' at free same_type same_seq =
    rw (same_type, same_seq, ==_refl seq_num, ==_refl msg_type)
find_pending-put (suc k) (c ∷ bs) old b msg_type seq_num q q' at free same_type same_seq =
    let (differs, free') = none_before c bs msg_type seq_num q' free in
    rw (differs, find_pending-put k bs old b msg_type seq_num q q' at free' same_type same_seq)
      (ap (λ n. (some n, remove_by b.timer q)) (omega arith))

-- A request put in a free box is found by its type and by its sequence number, each in 8 bits, if
-- no box answered to these, and its timer is removed.
pub find_pending-update :
    (now : Timeval) (granted : Bool) (k : ℕ) (bs : List PendingRequestMessage)
    (b : PendingRequestMessage) (msg_type seq_num timer_sec timer_arg timer_hdl : ℕ)
    (msgs : List Message) (q q' : Timerq)
    → nth k bs ≡ some b
    → b.msg_type ≡ unused_msg_type
    → (find_pending_request_msgs_box bs (msg_type % 256) (seq_num % 256) q').0 ≡ none
    → (let (done, b', added) =
          update_pending_msg_box now granted b msg_type seq_num timer_sec timer_arg timer_hdl 0 msgs
            q in
        find_pending_request_msgs_box (put k b' bs) (msg_type % 256) (seq_num % 256) added
        ≡ (some k, remove_by (timer_add now granted timer_sec 0 timer_hdl timer_arg q).0 added))
unfolding update_pending_msg_box
find_pending-update now granted k bs b msg_type seq_num timer_sec timer_arg timer_hdl msgs q q' at
      unused free =
    let id = (timer_add now granted timer_sec 0 timer_hdl timer_arg q).0 in
    rw unused (
      find_pending-put k bs b
        (record {
          msg_type = msg_type % 256;
          seq_num = seq_num % 256;
          timer_sec = timer_sec;
          timer_hdl = timer_hdl;
          timer_arg = some timer_arg;
          timer = id;
          retransmission = 0;
          msg_elems = some msgs;
          fragments_num = length msgs;
        })
        (msg_type % 256) (seq_num % 256) (timer_add now granted timer_sec 0 timer_hdl timer_arg q).1
        q' at free refl refl)

returns_true_lem : (id : ℕ) → returns_true (some id) ≡ (id == 0)
unfolding returns_true
returns_true_lem zero = refl
returns_true_lem (suc id) = ground arith

-- CWUpdatePendingMsgBox on a free box, with a handler, a time that is not 0 and an allocation that
-- succeeds, returns CW_TRUE exactly if the timer has the id 0.
pub update-returns :
    (now : Timeval) (b : PendingRequestMessage) (msg_type seq_num timer_sec timer_arg timer_hdl : ℕ)
    (msgs : List Message) (q : Timerq)
    → b.msg_type ≡ unused_msg_type
    → timer_hdl ≢ 0
    → timer_sec ≢ 0
    → (update_pending_msg_box now true b msg_type seq_num timer_sec timer_arg timer_hdl 0 msgs q).0
      ≡ (q.cur_id == 0)
unfolding update_pending_msg_box timer_add
update-returns now b msg_type seq_num timer_sec timer_arg timer_hdl msgs q unused some_hdl
      some_sec =
    rw (unused, ne→== timer_hdl 0 some_hdl, ne→== timer_sec 0 some_sec) (returns_true_lem q.cur_id)
