-- ===== src/TimerQueue/Ticker.antt =====
-- The threads that add and remove timers, and the ticker between them, as steps of the queue.
use mathlib.Core.Path.{subst}
use sicapwap.Prelude.{
  ℕ, ◌≡◌, refl, Bool, true, false, some, List, [], ◌∷◌, arith, All, if◌then◌else◌,
}
use sicapwap.TimerQueue.{
  Timeval, tv_less_than, Timer, Timerq, timer_init, timer_add, timer_rem, ticker_starts,
  ticker_wakes, calls, dropped,
}
use sicapwap.TimerQueue.Fit.{
  InUse, Fit, FitWaiting, timer_add-Fit, remove_Fit, starts-Fit, wakes-Fit,
}
use sicapwap.TimerQueue.Order.{Sorted}

-- The queue, and whether the ticker waits for the signal.
pub record State : Type 0 where
  pub queue : Timerq
  pub waiting : Bool

abbrev pub Valid : State → Type 0
Valid s = Fit s.queue.timers s.queue.cur_id s.waiting

-- What the threads may do, one at a time: `timerq.mutex` is held meanwhile.
pub data Step : State → State → Type 0 where
  adds :
      (now : Timeval) (granted : Bool) (sec usec handler handler_arg : ℕ) (q : Timerq) (w : Bool)
      → Step
          (record { queue = q; waiting = w })
          (record { queue = (timer_add now granted sec usec handler handler_arg q).1; waiting = w })
  removes :
      (id : ℕ) (q : Timerq) (w : Bool)
      → Step (record { queue = q; waiting = w }) (record { queue = timer_rem id q; waiting = w })
  starts :
      (now : Timeval) (q q' : Timerq)
      → ticker_starts now q ≡ some q'
      → Step (record { queue = q; waiting = false }) (record { queue = q'; waiting = true })
  wakes :
      (q : Timerq)
      → Step
          (record { queue = q; waiting = true })
          (record { queue = (ticker_wakes q).1; waiting = false })

pub data Steps : State → State → Type 0 where
  done : (s : State) → Steps s s
  then_step : (s t u : State) → Steps s t → Step t u → Steps s u

pub Step-Valid : (s t : State) → Step s t → Valid s → Valid t
Step-Valid _ _ (adds now granted sec usec handler handler_arg q w) f =
    timer_add-Fit now granted sec usec handler handler_arg q w f
Step-Valid _ _ (removes id q w) f = remove_Fit id q w f
Step-Valid _ _ (starts now q q' run) f = subst FitWaiting run (starts-Fit now q q.timers refl f)
Step-Valid _ _ (wakes q) f = wakes-Fit q q.timers refl f

abbrev pub begin : State
begin = record { queue = timer_init; waiting = false }

pub Steps-Valid : (s t : State) → Steps s t → Valid s → Valid t
Steps-Valid s _ (done _) f = f
Steps-Valid s _ (then_step _ t u run step) f = Step-Valid t u step (Steps-Valid s t run f)

-- What the threads can have done after `timer_init`.
abbrev pub Reachable : State → Type 0
Reachable s = Steps begin s

pub Reachable-Valid : (s : State) → Reachable s → Valid s
unfolding timer_init
Reachable-Valid s run = Steps-Valid begin s run (record {
  sorted = tt;
  distinct = tt;
  known = tt;
  rest_idle = tt;
  first_in_use = λ h. absurd (ground arith);
})

-- The ticker wakes to a timer that is there, and to one that no other in the queue comes before.
wakes_first :
    (q : Timerq) (ts : List Timer)
    → q.timers ≡ ts
    → InUse ts
    → Sorted ts
    → (t : Timer) × (rest : List Timer) × (ts ≡ t ∷ rest)
      × (ticker_wakes q ≡ (
        if t.cancelled then dropped else calls t.handler t.handler_arg,
        record q { timers = rest },
      ))
      × All (λ u. tv_less_than u.timeout t.timeout ≡ false) rest
unfolding ticker_wakes
wakes_first q [] e used order = absurd used
wakes_first q (t ∷ ts) e used order = (t, ts, refl, rw e, order.0)

-- In every state that the threads can reach, the ticker that waits has a first timer to wake to,
-- which it takes from the queue and whose handler it calls unless the timer is cancelled, and no
-- other timer in the queue expires before it.
pub Reachable-wakes :
    (s : State)
    → Reachable s
    → s.waiting ≡ true
    → (t : Timer) × (rest : List Timer) × (s.queue.timers ≡ t ∷ rest)
      × (ticker_wakes s.queue ≡ (
        if t.cancelled then dropped else calls t.handler t.handler_arg,
        record s.queue { timers = rest },
      ))
      × All (λ u. tv_less_than u.timeout t.timeout ≡ false) rest
Reachable-wakes s run waits =
    let f = Reachable-Valid s run in
    wakes_first s.queue s.queue.timers refl (f.first_in_use waits) f.sorted
