-- ===== src/TimerQueue.antt =====
-- timerlib.c: the timers in the order in which they expire, and the ticker thread that waits for
-- the first. The queue is the list from `timerq.first` to `timerq.last`.
pub mod Order
pub mod Fit
pub mod Ticker
pub mod Removed
pub mod Interval
use sicapwap.Prelude.{
  ℕ, zero, suc, ◌+◌, ◌-◌, ◌*◌, ◌/◌, ◌%◌, Bool, true, false, ◌||◌, ◌&&◌, not, Option, none, some,
  List, [], ◌∷◌, ltb, leb, ◌==◌, if◌then◌else◌,
}

-- `struct timeval`.
pub record Timeval : Type 0 where
  pub tv_sec : ℕ
  pub tv_usec : ℕ

-- `TV_LESS_THAN`.
unfoldable pub tv_less_than : Timeval → Timeval → Bool
tv_less_than t u = ltb t.tv_sec u.tv_sec || ((t.tv_sec == u.tv_sec) && ltb t.tv_usec u.tv_usec)

abbrev pub max_usec : ℕ
max_usec = 999999

abbrev pub micro_per_sec : ℕ
micro_per_sec = 1000000

abbrev pub almost_now : ℕ
almost_now = 1000

-- `TV_MINUS`.
unfoldable pub tv_minus : Timeval → Timeval → Timeval
tv_minus t u =
    if leb u.tv_usec t.tv_usec
    then record { tv_sec = t.tv_sec - u.tv_sec; tv_usec = t.tv_usec - u.tv_usec }
    else record { tv_sec = t.tv_sec - u.tv_sec - 1; tv_usec = t.tv_usec + (max_usec - u.tv_usec) }

-- `struct timer`, without its links.
pub record Timer : Type 0 where
  pub timeout : Timeval
  pub handler : ℕ
  pub handler_arg : ℕ
  pub id : ℕ
  pub in_use : Bool
  pub cancelled : Bool

-- `timerq`, and the interval that `setitimer` was last given.
pub record Timerq : Type 0 where
  pub timers : List Timer
  pub cur_id : ℕ
  pub alarm : Option Timeval

-- `timer_init`, where its thread is created.
unfoldable pub timer_init : Timerq
timer_init = record { timers = []; cur_id = 0; alarm = none }

-- `timer_start`, at the time `now`: the interval up to `abs_to`.
unfoldable pub timer_start : Timeval → Timeval → Timeval
timer_start now abs_to =
    if tv_less_than now abs_to
    then tv_minus abs_to now
    else record { tv_sec = 0; tv_usec = almost_now }

-- The time that is so far behind `now`.
unfoldable pub absolute : Timeval → ℕ → ℕ → Timeval
absolute now sec usec = record {
  tv_sec = now.tv_sec + (sec + (now.tv_usec + usec) / micro_per_sec);
  tv_usec = (now.tv_usec + usec) % micro_per_sec;
}

-- The loop that looks for a timer that expires later, and puts the new one in front of it.
unfoldable pub insert : Timer → List Timer → List Timer
insert app [] = app ∷ []
insert app (t ∷ ts) =
    let rest = insert app ts in
    if tv_less_than app.timeout t.timeout then app ∷ (t ∷ ts) else t ∷ rest

-- The queue with a new timer. If it comes before all others, the alarm is set for it.
unfoldable pub enqueue : Timeval → Timer → Timerq → Timerq
enqueue now app q = elim q.timers [
  | [] ↦ record q { timers = app ∷ [] }
  | t ∷ ts ↦
      if tv_less_than app.timeout t.timeout
      then record q {
        timers = record app { in_use = true } ∷ (record t { in_use = false } ∷ ts);
        alarm = some (timer_start now app.timeout);
      }
      else record q { timers = insert app (t ∷ ts) }
]

-- `timer_add`; `granted` tells if its allocation succeeds, and `none` stands for -1. Negative times
-- are refused, and not modelled.
unfoldable pub timer_add : Timeval → Bool → ℕ → ℕ → ℕ → ℕ → Timerq → Option ℕ × Timerq
timer_add now granted sec usec handler handler_arg q =
    if ((handler == 0) || ((sec == 0) && (usec == 0))) || not granted then (none, q) else (
      some q.cur_id,
      enqueue now
          (record {
            timeout = absolute now sec usec;
            handler = handler;
            handler_arg = handler_arg;
            id = q.cur_id;
            in_use = false;
            cancelled = false;
          })
          (record q { cur_id = q.cur_id + 1 }),
    )

-- The first timer with the id is marked if it is in use, and leaves the queue otherwise.
unfoldable pub remove_timer : ℕ → List Timer → List Timer
remove_timer id [] = []
remove_timer id (t ∷ ts) =
    let rest = remove_timer id ts in
    if t.id == id then (if t.in_use then record t { cancelled = true } ∷ ts else ts) else t ∷ rest

-- `timer_rem`, with `free_arg` `NULL`.
unfoldable pub timer_rem : ℕ → Timerq → Timerq
timer_rem id q = record q { timers = remove_timer id q.timers }

-- `cronometer` until it waits for the signal: it goes on only if there is a timer.
unfoldable pub ticker_starts : Timeval → Timerq → Option Timerq
ticker_starts now q = elim q.timers [
  | [] ↦ none
  | t ∷ ts ↦ some (record q {
    timers = record t { in_use = true } ∷ ts;
    alarm = some (timer_start now t.timeout);
  })
]

-- What `cronometer` does when the signal arrives: a handler with its argument is called, or a
-- cancelled timer is dropped. `no_timer` is a read through `timerq.first` when that is `NULL`.
pub data Tick : Type 0 where
  calls : ℕ → ℕ → Tick
  dropped : Tick
  no_timer : Tick

unfoldable pub ticker_wakes : Timerq → Tick × Timerq
ticker_wakes q = elim q.timers [
  | [] ↦ (no_timer, q)
  | t ∷ ts ↦
      (if t.cancelled then dropped else calls t.handler t.handler_arg, record q { timers = ts })
]
