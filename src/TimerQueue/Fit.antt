-- ===== src/TimerQueue/Fit.antt =====
-- The timers of a queue: their order, their ids and which of them is in use.
use sicapwap.Prelude.{
  ℕ, ◌+◌, ◌<◌, ◌≡◌, ◌≢◌, refl, sym, Bool, true, false, ◌||◌, ◌&&◌, not, inl, inr, Option, none,
  some, List, [], ◌∷◌, arith, All, Bool-cases, ◌==◌, if◌then◌else◌,
}
use sicapwap.TimerQueue.{
  Timeval, tv_less_than, Timer, Timerq, insert, enqueue, remove_timer, timer_add, timer_rem,
  absolute, ticker_starts, ticker_wakes,
}
use sicapwap.TimerQueue.Order.{
  Sorted, insert-All, insert-Sorted, Sorted-cons, remove_timer-All, remove_timer-Sorted, if_either,
}

-- The ids in the queue differ.
abbrev pub Distinct : List Timer → Type 0
Distinct [] = Unit {0}
Distinct (t ∷ ts) = All (λ u. u.id ≢ t.id) ts × Distinct ts

abbrev pub InUse : List Timer → Type 0
InUse [] = ⊥
InUse (t ∷ ts) = t.in_use ≡ true

abbrev pub RestIdle : List Timer → Type 0
RestIdle [] = Unit {0}
RestIdle (t ∷ ts) = All (λ u. u.in_use ≡ false) ts

-- The timers are sorted, their ids differ and are below the next one, only the first may be in
-- use, and while the ticker waits, it is.
pub record Fit (ts : List Timer) (next_id : ℕ) (waiting : Bool) : Type 0 where
  pub sorted : Sorted ts
  pub distinct : Distinct ts
  pub known : All (λ t. t.id < next_id) ts
  pub rest_idle : RestIdle ts
  pub first_in_use : waiting ≡ true → InUse ts

fresh_ids : (n m : ℕ) (ts : List Timer) → m ≡ n → All (λ t. t.id < n) ts → All (λ t. t.id ≢ m) ts
fresh_ids n m [] e h = tt
fresh_ids n m (t ∷ ts) e h = (omega arith, fresh_ids n m ts e h.1)

fresh_ids_before : (n : ℕ) (ts : List Timer) → All (λ t. t.id < n) ts → All (λ t. t.id < n + 1) ts
fresh_ids_before n [] h = tt
fresh_ids_before n (t ∷ ts) h = (omega arith, fresh_ids_before n ts h.1)

insert-Distinct :
    (app : Timer) (ts : List Timer)
    → All (λ t. t.id ≢ app.id) ts
    → Distinct ts
    → Distinct (insert app ts)
unfolding insert
insert-Distinct app [] f d = (tt, tt)
insert-Distinct app (t ∷ ts) f d = elim (Bool-cases (tv_less_than app.timeout t.timeout)) [
  | inl e ↦ rw e (f, d)
  | inr e ↦
      rw e (
        insert-All (λ u. u.id ≢ t.id) app ts (λ g. f.0 (sym g)) d.0,
        insert-Distinct app ts f.1 d.1,
      )
]

remove_timer-Distinct : (id : ℕ) (ts : List Timer) → Distinct ts → Distinct (remove_timer id ts)
unfolding remove_timer
remove_timer-Distinct id [] d = tt
remove_timer-Distinct id (t ∷ ts) d = elim (Bool-cases (t.id == id)) [
  | inr e ↦
      rw e
        (remove_timer-All (λ u. u.id ≢ t.id) id ts (λ u p. p) d.0, remove_timer-Distinct id ts d.1)
  | inl e ↦ rw e (if_either Distinct t.in_use (record t { cancelled = true } ∷ ts) ts d d.1)
]

-- Adding, to a queue whose timers are `ts`.
enqueue-Fit :
    (now : Timeval) (app : Timer) (q : Timerq) (ts : List Timer) (w : Bool)
    → q.timers ≡ ts
    → app.id ≡ q.cur_id
    → app.in_use ≡ false
    → Fit ts q.cur_id w
    → (let r = enqueue now app (record q { cur_id = q.cur_id + 1 }) in Fit r.timers r.cur_id w)
unfolding enqueue insert
enqueue-Fit now app q [] w e at idle f = rw e (record {
  sorted = (tt, tt);
  distinct = (tt, tt);
  known = (omega arith, tt);
  rest_idle = tt;
  first_in_use = λ h. absurd (f.first_in_use h);
})
enqueue-Fit now app q (t ∷ ts) w e at idle f =
    let fresh : All (λ u. u.id ≢ app.id) (t ∷ ts) = fresh_ids q.cur_id app.id (t ∷ ts) at f.known in
    let known = fresh_ids_before q.cur_id (t ∷ ts) f.known in
    elim (Bool-cases (tv_less_than app.timeout t.timeout)) [
      | inl b ↦
          rw (e, b)
            (record {
              sorted = Sorted-cons app t ts b f.sorted;
              distinct = (fresh, f.distinct);
              known = (omega arith, known);
              rest_idle = (refl, f.rest_idle);
              first_in_use = λ h. refl;
            })
      | inr b ↦
          rw (e, b)
            (record {
              sorted = (
                insert-All (λ u. tv_less_than u.timeout t.timeout ≡ false) app ts b f.sorted.0,
                insert-Sorted app ts f.sorted.1,
              );
              distinct = (
                insert-All (λ u. u.id ≢ t.id) app ts (λ g. fresh.0 (sym g)) f.distinct.0,
                insert-Distinct app ts fresh.1 f.distinct.1,
              );
              known = (known.0, insert-All (λ u. u.id < q.cur_id + 1) app ts (omega arith) known.1);
              rest_idle = insert-All (λ u. u.in_use ≡ false) app ts idle f.rest_idle;
              first_in_use = f.first_in_use;
            })
    ]

pub timer_add-Fit :
    (now : Timeval) (granted : Bool) (sec usec handler handler_arg : ℕ) (q : Timerq) (w : Bool)
    → Fit q.timers q.cur_id w
    → (let q' = (timer_add now granted sec usec handler handler_arg q).1 in
        Fit q'.timers q'.cur_id w)
unfolding timer_add
timer_add-Fit now granted sec usec handler handler_arg q w f =
    let app : Timer = record {
      timeout = absolute now sec usec;
      handler = handler;
      handler_arg = handler_arg;
      id = q.cur_id;
      in_use = false;
      cancelled = false;
    } in
    if_either (λ (r : Option ℕ × Timerq). Fit r.1.timers r.1.cur_id w)
      (((handler == 0) || ((sec == 0) && (usec == 0))) || not granted) (none, q)
      (some q.cur_id, enqueue now app (record q { cur_id = q.cur_id + 1 })) f
      (enqueue-Fit now app q q.timers w refl refl refl f)

RestIdle-tail : (ts : List Timer) → All (λ u. u.in_use ≡ false) ts → RestIdle ts
RestIdle-tail [] h = tt
RestIdle-tail (t ∷ ts) h = h.1

-- The first timer stays, marked, while it is in use.
head_removed :
    (b : Bool) (t : Timer) (ts : List Timer) (n : ℕ) (w : Bool)
    → t.in_use ≡ b
    → Fit (t ∷ ts) n w
    → Fit (if b then record t { cancelled = true } ∷ ts else ts) n w
head_removed true t ts n w e f = record {
  sorted = f.sorted;
  distinct = f.distinct;
  known = f.known;
  rest_idle = f.rest_idle;
  first_in_use = f.first_in_use;
}
head_removed false t ts n w e f = record {
  sorted = f.sorted.1;
  distinct = f.distinct.1;
  known = f.known.1;
  rest_idle = RestIdle-tail ts f.rest_idle;
  first_in_use = λ h. absurd (ground (arith, f.first_in_use h));
}

remove_timer-Fit :
    (id : ℕ) (ts : List Timer) (n : ℕ) (w : Bool) → Fit ts n w → Fit (remove_timer id ts) n w
unfolding remove_timer
remove_timer-Fit id [] n w f = f
remove_timer-Fit id (t ∷ ts) n w f = elim (Bool-cases (t.id == id)) [
  | inl e ↦ rw e (head_removed t.in_use t ts n w refl f)
  | inr e ↦ rw e (record {
    sorted = (
      remove_timer-All (λ u. tv_less_than u.timeout t.timeout ≡ false) id ts (λ u p. p) f.sorted.0,
      remove_timer-Sorted id ts f.sorted.1,
    );
    distinct = (
      remove_timer-All (λ u. u.id ≢ t.id) id ts (λ u p. p) f.distinct.0,
      remove_timer-Distinct id ts f.distinct.1,
    );
    known = (f.known.0, remove_timer-All (λ u. u.id < n) id ts (λ u p. p) f.known.1);
    rest_idle = remove_timer-All (λ u. u.in_use ≡ false) id ts (λ u p. p) f.rest_idle;
    first_in_use = f.first_in_use;
  })
]

-- `Fit` of a queue that may not be there.
abbrev pub FitWaiting : Option Timerq → Type 0
FitWaiting none = Unit {0}
FitWaiting (some q) = Fit q.timers q.cur_id true

pub starts-Fit :
    (now : Timeval) (q : Timerq) (ts : List Timer)
    → q.timers ≡ ts
    → Fit ts q.cur_id false
    → FitWaiting (ticker_starts now q)
unfolding ticker_starts
starts-Fit now q [] e f = rw e tt
starts-Fit now q (t ∷ ts) e f = rw e (record {
  sorted = f.sorted;
  distinct = f.distinct;
  known = f.known;
  rest_idle = f.rest_idle;
  first_in_use = λ h. refl;
})

pub wakes-Fit :
    (q : Timerq) (ts : List Timer)
    → q.timers ≡ ts
    → Fit ts q.cur_id true
    → (let q' = (ticker_wakes q).1 in Fit q'.timers q'.cur_id false)
unfolding ticker_wakes
wakes-Fit q [] e f = absurd (f.first_in_use refl)
wakes-Fit q (t ∷ ts) e f = rw e (record {
  sorted = f.sorted.1;
  distinct = f.distinct.1;
  known = f.known.1;
  rest_idle = RestIdle-tail ts f.rest_idle;
  first_in_use = λ h. absurd (ground arith);
})

pub remove_Fit :
    (id : ℕ) (q : Timerq) (w : Bool)
    → Fit q.timers q.cur_id w
    → (let r = timer_rem id q in Fit r.timers r.cur_id w)
unfolding timer_rem
remove_Fit id q w f = remove_timer-Fit id q.timers q.cur_id w f
