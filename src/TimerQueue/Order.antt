-- ===== src/TimerQueue/Order.antt =====
-- The order of the timers, and what the queue's operations do to it.
use sicapwap.Prelude.{
  ℕ, ◌≡◌, Bool, true, false, inl, inr, List, [], ◌∷◌, arith, All, Bool-cases, ◌==◌, if◌then◌else◌,
}
use sicapwap.TimerQueue.{Timeval, tv_less_than, Timer, insert, remove_timer}

-- A timer that comes before another comes before all that the other comes before.
before_trans :
    (app t u : Timeval)
    → tv_less_than app t ≡ true
    → tv_less_than u t ≡ false
    → tv_less_than u app ≡ false
unfolding tv_less_than
before_trans app t u h g = ground arith

before_asym : (app t : Timeval) → tv_less_than app t ≡ true → tv_less_than t app ≡ false
unfolding tv_less_than
before_asym app t h = ground arith

-- No later timer expires before an earlier one.
abbrev pub Sorted : List Timer → Type 0
Sorted [] = Unit {0}
Sorted (t ∷ ts) = All (λ u. tv_less_than u.timeout t.timeout ≡ false) ts × Sorted ts

-- A property of all timers survives the insertion of one that has it.
pub insert-All :
    (P : Timer → Type 0) (app : Timer) (ts : List Timer) → P app → All P ts → All P (insert app ts)
unfolding insert
insert-All P app [] p h = (p, tt)
insert-All P app (t ∷ ts) p h = elim (Bool-cases (tv_less_than app.timeout t.timeout)) [
  | inl e ↦ rw e (p, h)
  | inr e ↦ rw e (h.0, insert-All P app ts p h.1)
]

later-All :
    (app t : Timer) (ts : List Timer)
    → tv_less_than app.timeout t.timeout ≡ true
    → All (λ u. tv_less_than u.timeout t.timeout ≡ false) ts
    → All (λ u. tv_less_than u.timeout app.timeout ≡ false) ts
later-All app t [] e h = tt
later-All app t (u ∷ ts) e h =
    (before_trans app.timeout t.timeout u.timeout e h.0, later-All app t ts e h.1)

pub Sorted-cons :
    (app t : Timer) (ts : List Timer)
    → tv_less_than app.timeout t.timeout ≡ true
    → Sorted (t ∷ ts)
    → Sorted (app ∷ (t ∷ ts))
Sorted-cons app t ts e h = ((before_asym app.timeout t.timeout e, later-All app t ts e h.0), h)

pub insert-Sorted : (app : Timer) (ts : List Timer) → Sorted ts → Sorted (insert app ts)
unfolding insert
insert-Sorted app [] h = (tt, tt)
insert-Sorted app (t ∷ ts) h = elim (Bool-cases (tv_less_than app.timeout t.timeout)) [
  | inl e ↦ rw e (Sorted-cons app t ts e h)
  | inr e ↦ rw e (
    insert-All (λ u. tv_less_than u.timeout t.timeout ≡ false) app ts e h.0,
    insert-Sorted app ts h.1,
  )
]

pub if_either :
    {A : Type 0} (P : A → Type 0) (b : Bool) (x y : A) → P x → P y → P (if b then x else y)
if_either P true x y p q = p
if_either P false x y p q = q

-- A property that does not depend on the mark survives a removal.
pub remove_timer-All :
    (P : Timer → Type 0) (id : ℕ) (ts : List Timer)
    → ((t : Timer) → P t → P (record t { cancelled = true }))
    → All P ts
    → All P (remove_timer id ts)
unfolding remove_timer
remove_timer-All P id [] mark h = tt
remove_timer-All P id (t ∷ ts) mark h = elim (Bool-cases (t.id == id)) [
  | inr e ↦ rw e (h.0, remove_timer-All P id ts mark h.1)
  | inl e ↦
      rw e
        (if_either (All P) t.in_use (record t { cancelled = true } ∷ ts) ts (mark t h.0, h.1) h.1)
]

pub remove_timer-Sorted : (id : ℕ) (ts : List Timer) → Sorted ts → Sorted (remove_timer id ts)
unfolding remove_timer
remove_timer-Sorted id [] h = tt
remove_timer-Sorted id (t ∷ ts) h = elim (Bool-cases (t.id == id)) [
  | inr e ↦ rw e (
    remove_timer-All (λ u. tv_less_than u.timeout t.timeout ≡ false) id ts (λ u p. p) h.0,
    remove_timer-Sorted id ts h.1,
  )
  | inl e ↦ rw e (if_either Sorted t.in_use (record t { cancelled = true } ∷ ts) ts h h.1)
]
