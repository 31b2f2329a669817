-- ===== src/TimerQueue/Removed.antt =====
-- timerlib.c: what becomes of a timer that was removed.
use mathlib.Core.Path.{subst}
use sicapwap.Prelude.{
  ℕ, ◌+◌, ◌<◌, ◌≡◌, ◌≢◌, refl, Bool, true, false, ◌||◌, ◌&&◌, not, inl, inr, Option, none, some,
  List, [], ◌∷◌, arith, All, Bool-cases, ◌==◌, ==_iff,
}
use sicapwap.TimerQueue.{
  Timeval, tv_less_than, Timer, Timerq, insert, enqueue, remove_timer, timer_add, timer_rem,
  absolute, ticker_starts, ticker_wakes, dropped,
}
use sicapwap.TimerQueue.Order.{insert-All, remove_timer-All, if_either}
use sicapwap.TimerQueue.Fit.{Distinct}
use sicapwap.TimerQueue.Ticker.{
  State, Step, adds, removes, starts, wakes, Steps, done, then_step, Reachable, Reachable-Valid,
}

-- Every timer with the id is marked, and the id is not given out again.
abbrev Marked : ℕ → Timer → Type 0
Marked id t = t.id ≡ id → t.cancelled ≡ true

abbrev Silenced : ℕ → Timerq → Type 0
Silenced id q = (id < q.cur_id) × All (Marked id) q.timers

Marked-others : (id : ℕ) (ts : List Timer) → All (λ u. u.id ≢ id) ts → All (Marked id) ts
Marked-others id [] h = tt
Marked-others id (t ∷ ts) h = ((λ e. absurd (h.0 e)), Marked-others id ts h.1)

-- The removal itself.
remove_timer-Marked :
    (id : ℕ) (ts : List Timer) → Distinct ts → All (Marked id) (remove_timer id ts)
unfolding remove_timer
remove_timer-Marked id [] d = tt
remove_timer-Marked id (t ∷ ts) d = elim (Bool-cases (t.id == id)) [
  | inl e ↦
      let rest : All (Marked id) ts =
        Marked-others id ts (subst (λ n. All (λ u. u.id ≢ n) ts) ((==_iff t.id id).0 e) d.0) in
      rw e (
        if_either (All (Marked id)) t.in_use (record t { cancelled = true } ∷ ts) ts
          ((λ h. refl), rest) rest)
  | inr e ↦ rw e ((λ h. absurd (ground arith)), remove_timer-Marked id ts d.1)
]

enqueue-Silenced :
    (id : ℕ) (now : Timeval) (app : Timer) (q : Timerq) (ts : List Timer)
    → q.timers ≡ ts
    → id < q.cur_id
    → Marked id app
    → All (Marked id) ts
    → Silenced id (enqueue now app q)
unfolding enqueue insert
enqueue-Silenced id now app q [] e old m h = rw e (old, (m, tt))
enqueue-Silenced id now app q (t ∷ ts) e old m h =
    elim (Bool-cases (tv_less_than app.timeout t.timeout)) [
      | inl b ↦ rw (e, b) (old, (m, h))
      | inr b ↦ rw (e, b) (old, (h.0, insert-All (Marked id) app ts m h.1))
    ]

timer_add-Silenced :
    (id : ℕ) (now : Timeval) (granted : Bool) (sec usec handler handler_arg : ℕ) (q : Timerq)
    → Silenced id q
    → Silenced id (timer_add now granted sec usec handler handler_arg q).1
unfolding timer_add
timer_add-Silenced id now granted sec usec handler handler_arg q (old, h) =
    let app : Timer = record {
      timeout = absolute now sec usec;
      handler = handler;
      handler_arg = handler_arg;
      id = q.cur_id;
      in_use = false;
      cancelled = false;
    } in
    if_either (λ (r : Option ℕ × Timerq). Silenced id r.1)
      (((handler == 0) || ((sec == 0) && (usec == 0))) || not granted) (none, q)
      (some q.cur_id, enqueue now app (record q { cur_id = q.cur_id + 1 })) (old, h)
      (enqueue-Silenced id now app (record q { cur_id = q.cur_id + 1 }) q.timers refl (omega arith)
        (λ e. absurd (omega arith)) h)

abbrev SilencedIfThere : ℕ → Option Timerq → Type 0
SilencedIfThere id none = Unit {0}
SilencedIfThere id (some q) = Silenced id q

starts-Silenced :
    (id : ℕ) (now : Timeval) (q : Timerq) (ts : List Timer)
    → q.timers ≡ ts
    → id < q.cur_id
    → All (Marked id) ts
    → SilencedIfThere id (ticker_starts now q)
unfolding ticker_starts
starts-Silenced id now q [] e old h = rw e tt
starts-Silenced id now q (t ∷ ts) e old h = rw e (old, h)

wakes-Silenced :
    (id : ℕ) (q : Timerq) (ts : List Timer)
    → q.timers ≡ ts
    → id < q.cur_id
    → All (Marked id) ts
    → Silenced id (ticker_wakes q).1
unfolding ticker_wakes
wakes-Silenced id q [] e old h = rw e (old, tt)
wakes-Silenced id q (t ∷ ts) e old h = rw e (old, h.1)

timer_rem-Silenced : (id other : ℕ) (q : Timerq) → Silenced id q → Silenced id (timer_rem other q)
unfolding timer_rem
timer_rem-Silenced id other q (old, h) =
    (old, remove_timer-All (Marked id) other q.timers (λ t m e. refl) h)

Step-Silenced : (id : ℕ) (s t : State) → Step s t → Silenced id s.queue → Silenced id t.queue
Step-Silenced id _ _ (adds now granted sec usec handler handler_arg q w) h =
    timer_add-Silenced id now granted sec usec handler handler_arg q h
Step-Silenced id _ _ (removes other q w) h = timer_rem-Silenced id other q h
Step-Silenced id _ _ (starts now q q' run) h =
    subst (SilencedIfThere id) run (starts-Silenced id now q q.timers refl h.0 h.1)
Step-Silenced id _ _ (wakes q) h = wakes-Silenced id q q.timers refl h.0 h.1

Steps-Silenced : (id : ℕ) (s t : State) → Steps s t → Silenced id s.queue → Silenced id t.queue
Steps-Silenced id s _ (done _) h = h
Steps-Silenced id s _ (then_step _ t u run step) h =
    Step-Silenced id t u step (Steps-Silenced id s t run h)

wakes_marked :
    (q : Timerq) (t : Timer) (ts : List Timer)
    → q.timers ≡ t ∷ ts
    → t.cancelled ≡ true
    → (ticker_wakes q).0 ≡ dropped
unfolding ticker_wakes
wakes_marked q t ts e h = rw (e, h)

timer_rem-marks :
    (id : ℕ) (q : Timerq) → id < q.cur_id → Distinct q.timers → Silenced id (timer_rem id q)
unfolding timer_rem
timer_rem-marks id q old d = (old, remove_timer-Marked id q.timers d)

-- After timer_rem of an id that was given out, in a queue that the threads can have made, whatever
-- the threads do next, the ticker that wakes with a timer of that id first in the queue drops it
-- and calls no handler.
pub removed-dropped :
    (id : ℕ) (q : Timerq) (w : Bool) (later : State) (t : Timer) (ts : List Timer)
    → Reachable (record { queue = q; waiting = w })
    → id < q.cur_id
    → Steps (record { queue = timer_rem id q; waiting = w }) later
    → later.queue.timers ≡ t ∷ ts
    → t.id ≡ id
    → (ticker_wakes later.queue).0 ≡ dropped
removed-dropped id q w later t ts before old run e at =
    let f = Reachable-Valid (record { queue = q; waiting = w }) before in
    let silent =
      Steps-Silenced id (record { queue = timer_rem id q; waiting = w }) later run
        (timer_rem-marks id q old f.distinct) in
    let marks : All (Marked id) (t ∷ ts) = subst (All (Marked id)) e silent.1 in
    wakes_marked later.queue t ts e (marks.0 at)
