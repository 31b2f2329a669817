-- ===== src/Tests/Queues.antt =====
-- The queues of CWSafeList.c, timerlib.c and WTPRetransmission.c: concrete states.
use sicapwap.Prelude.{
  ℕ, ◌≡◌, refl, true, false, none, some, List, [], ◌∷◌, arith, All, if◌then◌else◌,
}
use sicapwap.Message.{Message}
use sicapwap.Cells.{Store, update, ◌>>=◌}
use sicapwap.SafeList.{Element, SafeList, create_safe_list, remove_head, clean}
use sicapwap.SafeList.Contents.{Contents, add_all, remove_head-Contents, add_all-clean}
use sicapwap.TimerQueue.{
  Timeval, Timer, Timerq, tv_less_than, timer_init, timer_add, timer_rem, remove_timer, timer_start,
  absolute, enqueue, ticker_starts, ticker_wakes, calls, dropped,
}
use sicapwap.TimerQueue.Ticker.{adds, starts, done, then_step, Reachable, begin, Reachable-wakes}
use sicapwap.TimerQueue.Removed.{removed-dropped}
use sicapwap.Pending.{
  PendingRequestMessage, zero_box, find_free_pending_msg_box, update_pending_msg_box,
  find_pending_request_msgs_box, remove_by, send_fragments, retransmit_timer_expired_handler,
  reset_pending_msg_box,
}
use sicapwap.Pending.Boxes.{find_free-zero_box, find_pending-update}
use sicapwap.Pending.Retransmit.{expired-freed}

abbrev granted : Store Element
granted = record { next = 1; cell = λ p. none; grants = 3 }

empty-Contents : Contents create_safe_list granted []
unfolding create_safe_list
empty-Contents = (
  [],
  record {
    first_held = refl;
    last_held = refl;
    count_held = refl;
    linked = tt;
    apart = tt;
    old = tt;
  },
  refl,
)

abbrev items : List (ℕ × ℕ)
items = (70, 7) ∷ (80, 8) ∷ []

add_all-clean_example :
    (l' : SafeList) × (s' : Store Element) × ((add_all items create_safe_list >>= clean 3) granted
      ≡ some (some (70 ∷ 80 ∷ [], l'), s'))
    × Contents l' s' []
add_all-clean_example =
    add_all-clean granted items 1 ((λ e. absurd (omega arith)), ((λ e. absurd (omega arith)), tt))
      refl

abbrev one_cell : Store Element
one_cell = record {
  next = 2;
  cell = update (λ p. none) 1 (some (record { p_data = 70; n_size = 7; prev = none; next = none }));
  grants = 0;
}

abbrev one_item : SafeList
one_item = record {
  mutex = none;
  cond = some 4;
  count = 1;
  first = some 1;
  last = some 1;
  signals = 1;
}

one-Contents : Contents one_item one_cell ((70, 7) ∷ [])
one-Contents = (
  record { address = 1; item = (70, 7) } ∷ [],
  record {
    first_held = refl;
    last_held = refl;
    count_held = refl;
    linked = (refl, tt);
    apart = (tt, tt);
    old = (omega arith, tt);
  },
  refl,
)

remove_head-Contents_example :
    (l' : SafeList) × (s' : Store Element) × (remove_head one_item one_cell
      ≡ some ((some (70, 7), l'), s'))
    × Contents l' s' []
remove_head-Contents_example = remove_head-Contents one_item one_cell (70, 7) [] one-Contents

abbrev t0 : Timeval
t0 = record { tv_sec = 100; tv_usec = 0 }

-- The queue with one timer of five seconds, and when the ticker has started it.
abbrev added : Timerq
added = (timer_add t0 true 5 0 9 1 timer_init).1

abbrev first_timer : Timer
first_timer = record {
  timeout = record { tv_sec = 105; tv_usec = 0 };
  handler = 9;
  handler_arg = 1;
  id = 0;
  in_use = true;
  cancelled = false;
}

abbrev started : Timerq
started = record {
  timers = first_timer ∷ [];
  cur_id = 1;
  alarm = some (timer_start t0 (record { tv_sec = 105; tv_usec = 0 }));
}

added-Reachable : Reachable (record { queue = added; waiting = false })
added-Reachable = then_step _ _ _ (done begin) (adds t0 true 5 0 9 1 timer_init false)

started-Reachable : Reachable (record { queue = started; waiting = true })
unfolding timer_init timer_add enqueue absolute ticker_starts
started-Reachable = then_step _ _ _ added-Reachable (starts t0 added started refl)

Reachable-wakes_example :
    (t : Timer) × (rest : List Timer) × (started.timers ≡ t ∷ rest)
    × (ticker_wakes started ≡ (
      if t.cancelled then dropped else calls t.handler t.handler_arg,
      record started { timers = rest },
    ))
    × All (λ u. tv_less_than u.timeout t.timeout ≡ false) rest
Reachable-wakes_example =
    Reachable-wakes (record { queue = started; waiting = true }) started-Reachable refl

removed-dropped_example : (ticker_wakes (timer_rem 0 started)).0 ≡ dropped
unfolding timer_rem remove_timer
removed-dropped_example =
    removed-dropped 0 started true (record { queue = timer_rem 0 started; waiting = true })
      (record first_timer { cancelled = true }) [] started-Reachable (omega arith) (done _) refl
      refl

abbrev ints : Store ℕ
ints = record { next = 2; cell = update (λ p. none) 1 (some 0); grants = 0 }

abbrev request : Message
request = record { msg = 1 ∷ 2 ∷ []; offset = 2; data_msg_type = none }

abbrev used_box : PendingRequestMessage
used_box = record {
  msg_type = 10;
  seq_num = 5;
  timer_sec = 3;
  timer_hdl = 9;
  timer_arg = some 1;
  timer = some 4;
  retransmission = 2;
  msg_elems = some (request ∷ []);
  fragments_num = 1;
}

find_free-zero_box_example :
    find_free_pending_msg_box (used_box ∷ zero_box ∷ []) started ints
    ≡ some ((some 1, used_box ∷ zero_box ∷ [], timer_rem 0 started), ints)
find_free-zero_box_example = find_free-zero_box (used_box ∷ []) [] started ints ((omega arith), tt)

find_pending-update_example :
    let (is_done, b', q) =
      update_pending_msg_box t0 true zero_box 12 261 3 1 9 0 (request ∷ []) started in
    find_pending_request_msgs_box (used_box ∷ b' ∷ []) 12 5 q
    ≡ (some 1, remove_by (timer_add t0 true 3 0 9 1 started).0 q)
unfolding find_pending_request_msgs_box
find_pending-update_example =
    find_pending-update t0 true 1 (used_box ∷ zero_box ∷ []) zero_box 12 261 3 1 9 (request ∷ [])
      started started refl refl refl

expired-freed_example :
    let (id, q) = timer_add t0 true 3 0 9 1 started in
    let b' = record used_box { retransmission = 3; timer = id } in
    let s' = record ints { cell = update ints.cell 1 none } in
    (retransmit_timer_expired_handler 5 (λ m. true) t0 true 1 (used_box ∷ []) started ints
      ≡ some ((b' ∷ [], q), s'))
    × (retransmit_timer_expired_handler 5 (λ m. true) t0 true 1 (b' ∷ []) q s' ≡ none)
    × (reset_pending_msg_box b' q s' ≡ none)
unfolding send_fragments
expired-freed_example =
    expired-freed 5 (λ m. true) t0 true 1 0 (used_box ∷ []) used_box (request ∷ []) started ints
      refl refl refl (omega arith) refl refl
