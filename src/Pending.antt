-- ===== src/Pending.antt =====
-- WTPRetransmission.c, and the handler of WTPRunStateCheck.c: the requests that wait for a
-- response, each in a box of `gPendingRequestMsgs` with the timer that sends it again. The handler's
-- argument is a pointer to an `int` that holds the box's index.
pub mod Boxes
pub mod Retransmit
use sicapwap.Prelude.{
  ℕ, zero, suc, ◌+◌, ◌%◌, Bool, true, false, ◌&&◌, Option, none, some, List, [], ◌∷◌, ◌++◌, ◌==◌,
  if◌then◌else◌, length,
}
use sicapwap.Message.{Message}
use sicapwap.Cells.{Store, Run, pure, ◌>>=◌, ◌>>◌, load, free}
use sicapwap.TimerQueue.{Timeval, Timerq, timer_add, timer_rem}

-- `CWPendingRequestMessage`. `none` is `NULL` for `timer_arg` and `msg_elems`, and -1 for `timer`.
pub record PendingRequestMessage : Type 0 where
  pub msg_type : ℕ
  pub seq_num : ℕ
  pub timer_sec : ℕ
  pub timer_hdl : ℕ
  pub timer_arg : Option ℕ
  pub timer : Option ℕ
  pub retransmission : ℕ
  pub msg_elems : Option (List Message)
  pub fragments_num : ℕ

abbrev pub unused_msg_type : ℕ
unused_msg_type = 0

abbrev pub max_pending_request_msgs : ℕ
max_pending_request_msgs = 15

-- A box of the zero-initialised array.
abbrev pub zero_box : PendingRequestMessage
zero_box = record {
  msg_type = 0;
  seq_num = 0;
  timer_sec = 0;
  timer_hdl = 0;
  timer_arg = none;
  timer = some 0;
  retransmission = 0;
  msg_elems = none;
  fragments_num = 0;
}

-- `CW_FREE_OBJECT` of a pointer to an `int`.
abbrev pub free_object : Option ℕ → Run ℕ (Unit {0})
free_object none = pure tt
free_object (some p) = free p

-- `CW_FREE_PROTOCOL_MESSAGE` of so many messages of an array.
abbrev pub free_messages : Option (List Message) → ℕ → Run ℕ (Unit {0})
free_messages o zero = pure tt
free_messages none (suc n) = λ s. none
free_messages (some ms) (suc n) = if length ms == suc n then pure tt else λ s. none

-- `timer_rem`, which finds no timer with the id -1.
unfoldable pub remove_by : Option ℕ → Timerq → Timerq
remove_by none q = q
remove_by (some id) q = timer_rem id q

-- The box's timer id stays.
unfoldable pub reset_pending_msg_box :
    PendingRequestMessage → Timerq → Run ℕ (PendingRequestMessage × Timerq)
reset_pending_msg_box b q = do
  free_object b.timer_arg
  free_messages b.msg_elems b.fragments_num
  pure (record zero_box { timer = b.timer }, remove_by b.timer q)

-- The index of the first box that is not in use, which is reset, or `none` for -1.
unfoldable pub find_free_pending_msg_box :
    List PendingRequestMessage → Timerq → Run ℕ (Option ℕ × List PendingRequestMessage × Timerq)
find_free_pending_msg_box [] q = pure (none, [], q)
find_free_pending_msg_box (b ∷ bs) q = elim (b.msg_type == unused_msg_type) [
  | true ↦ do (b', q') ← reset_pending_msg_box b q; pure (some 0, b' ∷ bs, q')
  | false ↦ do
    (found, bs', q') ← find_free_pending_msg_box bs q
    pure (elim found [ none ↦ none | some k ↦ some (k + 1) ], b ∷ bs', q')
]

-- `CW_TRUE` only if `timer_add` returns 0.
unfoldable pub returns_true : Option ℕ → Bool
returns_true none = false
returns_true (some zero) = true
returns_true (some (suc id)) = false

-- `timer_arg` is the pointer that the timer is given.
unfoldable pub update_pending_msg_box :
    Timeval
    → Bool
    → PendingRequestMessage
    → ℕ
    → ℕ
    → ℕ
    → ℕ
    → ℕ
    → ℕ
    → List Message
    → Timerq
    → Bool × PendingRequestMessage × Timerq
update_pending_msg_box now granted b msg_type seq_num timer_sec timer_arg timer_hdl retransmission
      msgs q =
    if b.msg_type == unused_msg_type
    then (let added = timer_add now granted timer_sec 0 timer_hdl timer_arg q in
        (
          returns_true added.0,
          record {
            msg_type = msg_type % 256;
            seq_num = seq_num % 256;
            timer_sec = timer_sec;
            timer_hdl = timer_hdl;
            timer_arg = some timer_arg;
            timer = added.0;
            retransmission = retransmission;
            msg_elems = some msgs;
            fragments_num = length msgs;
          },
          added.1,
        ))
    else (true, b, q)

-- The index of the box of a request, whose timer is removed.
unfoldable pub find_pending_request_msgs_box :
    List PendingRequestMessage → ℕ → ℕ → Timerq → Option ℕ × Timerq
find_pending_request_msgs_box [] msg_type seq_num q = (none, q)
find_pending_request_msgs_box (b ∷ bs) msg_type seq_num q =
    let found = find_pending_request_msgs_box bs msg_type seq_num q in
    if (b.seq_num == seq_num) && (b.msg_type == msg_type)
    then (some 0, remove_by b.timer q)
    else (elim found.0 [ none ↦ none | some k ↦ some (k + 1) ], found.1)

-- Fragments are sent one after the other, up to one that fails.
unfoldable pub send_fragments : (Message → Bool) → List Message → Bool
send_fragments send [] = true
send_fragments send (m ∷ ms) = elim (send m) [ true ↦ send_fragments send ms | false ↦ false ]

unfoldable pub send_pending_request_message :
    (Message → Bool)
    → List PendingRequestMessage
    → List Message
    → Timerq
    → Run ℕ (Option ℕ × List PendingRequestMessage × Timerq)
send_pending_request_message send boxes messages q = do
  (found, boxes', q') ← find_free_pending_msg_box boxes q
  pure (
    elim found [ none ↦ none | some k ↦ if send_fragments send messages then some k else none ],
    boxes',
    q',
  )

abbrev pub nth : ℕ → List PendingRequestMessage → Option PendingRequestMessage
nth k [] = none
nth zero (b ∷ bs) = some b
nth (suc k) (b ∷ bs) = nth k bs

abbrev pub put : ℕ → PendingRequestMessage → List PendingRequestMessage → List PendingRequestMessage
put k b' [] = []
put zero b' (b ∷ bs) = b' ∷ bs
put (suc k) b' (b ∷ bs) = b ∷ put k b' bs

-- The messages of a box, as its `fragmentsNum` counts them.
abbrev pub messages_of : PendingRequestMessage → Option (List Message)
messages_of b = if b.fragments_num == 0 then some [] else b.msg_elems

abbrev pub address_of : Option ℕ → ℕ
address_of none = 0
address_of (some p) = p

-- The box after the handler, and the queue: `arg` is freed at the end, and was given to the new
-- timer.
unfoldable pub expired_box :
    ℕ
    → (Message → Bool)
    → Timeval
    → Bool
    → ℕ
    → PendingRequestMessage
    → Timerq
    → Run ℕ (PendingRequestMessage × Timerq)
expired_box max_retransmit send now granted arg b q =
    if b.retransmission == max_retransmit then pure (b, q) else elim (messages_of b) [
      | none ↦ λ s. none
      | some ms ↦
          if send_fragments send ms
          then (do
            free arg
            let added = timer_add now granted b.timer_sec 0 b.timer_hdl (address_of b.timer_arg) q
            pure (record b { retransmission = b.retransmission + 1; timer = added.0 }, added.1))
          else (do free arg; pure (record b { msg_elems = none }, q))
    ]

-- `CWWTPRetransmitTimerExpiredHandler`. An index outside the array is a fault.
unfoldable pub retransmit_timer_expired_handler :
    ℕ
    → (Message → Bool)
    → Timeval
    → Bool
    → ℕ
    → List PendingRequestMessage
    → Timerq
    → Run ℕ (List PendingRequestMessage × Timerq)
retransmit_timer_expired_handler max_retransmit send now granted arg boxes q = do
  index ← load arg
  elim (nth index boxes) [
    | none ↦ λ s. none
    | some b ↦ do
      (b', q') ← expired_box max_retransmit send now granted arg b q
      pure (put index b' boxes, q')
  ]
