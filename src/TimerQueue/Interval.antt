-- ===== src/TimerQueue/Interval.antt =====
-- timerlib.c: the interval that `timer_start` gives to the alarm.
use sicapwap.Prelude.{
  ℕ, ◌+◌, ◌-◌, ◌*◌, ◌<◌, ◌≡◌, true, inl, inr, arith, Bool-cases, leb, if◌then◌else◌,
}
use sicapwap.TimerQueue.{Timeval, tv_less_than, tv_minus, timer_start, absolute}

-- A time in microseconds.
abbrev pub micros : Timeval → ℕ
micros t = t.tv_sec * 1000000 + t.tv_usec

minus_micros :
    (t u : Timeval)
    → t.tv_usec < 1000000
    → u.tv_usec < 1000000
    → tv_less_than u t ≡ true
    → micros (tv_minus t u) + micros u
      ≡ (if leb u.tv_usec t.tv_usec then micros t else micros t - 1)
unfolding tv_minus tv_less_than
minus_micros t u small_t small_u before = ground arith

-- For times whose microseconds are below a million, timer_start sets the alarm to the interval up
-- to a time in the future, one microsecond less where the microseconds borrow from the seconds,
-- and to a millisecond otherwise.
pub timer_start-micros :
    (now abs_to : Timeval)
    → now.tv_usec < 1000000
    → abs_to.tv_usec < 1000000
    → micros (timer_start now abs_to) ≡ (
        if tv_less_than now abs_to
        then (if leb now.tv_usec abs_to.tv_usec
            then micros abs_to - micros now
            else micros abs_to - micros now - 1)
        else 1000)
unfolding timer_start
timer_start-micros now abs_to small_now small_to = elim (Bool-cases (tv_less_than now abs_to)) [
  | inl e ↦ rw e (ground (arith, minus_micros abs_to now small_to small_now e))
  | inr e ↦ rw e
]

-- The absolute time of a new timer is the given time after now, and its microseconds are below a
-- million.
pub absolute-micros :
    (now : Timeval) (sec usec : ℕ)
    → (micros (absolute now sec usec) ≡ micros now + (sec * 1000000 + usec))
      × ((absolute now sec usec).tv_usec < 1000000)
unfolding absolute
absolute-micros now sec usec = (omega arith, omega arith)
