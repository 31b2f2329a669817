-- ===== src/Tests/Data.antt =====
-- The time of timerlib.c, the counters of AC.c and WTP.c, and sino_comm.c: concrete values.
use sicapwap.Prelude.{ℕ, ◌≡◌, some, List, [], ◌∷◌, arith}
use sicapwap.TimerQueue.{Timeval, timer_start, tv_less_than}
use sicapwap.TimerQueue.Interval.{micros, timer_start-micros}
use sicapwap.Counters.{ac_get_seq_num, wtp_get_seq_num, ac_get_fragment_id, nth_number, counters}
use sicapwap.SinoData.{SinoData, sino_data_init, sino_data_head, sino_data_elem_pop_init}
use sicapwap.SinoData.RoundTrip.{push_all, pop_all, pushed-popped}

abbrev now : Timeval
now = record { tv_sec = 100; tv_usec = 900000 }

abbrev later : Timeval
later = record { tv_sec = 102; tv_usec = 100000 }

-- An interval of 1200000 microseconds is started as 1199999.
timer_start-micros_example : micros (timer_start now later) ≡ 1199999
unfolding tv_less_than
timer_start-micros_example = timer_start-micros now later (omega arith) (omega arith)

counters_example :
    (nth_number ac_get_seq_num 10 250 ≡ 4)
    × (nth_number wtp_get_seq_num 10 250 ≡ 5)
    × (nth_number ac_get_fragment_id 10 65530 ≡ 4)
counters_example = counters 10 250 65530 (omega arith) (omega arith)

abbrev entries : List (ℕ × List ℕ)
entries = (3, 1 ∷ 2 ∷ []) ∷ (4, 9 ∷ []) ∷ []

-- What the buffer held before does not matter.
abbrev used_before : SinoData
used_before = record { pos = 5; offset = 9; sino_buff = 1 ∷ [] }

pushed-popped_example :
    (sino' : SinoData) × (push_all (sino_data_head (sino_data_init used_before)) entries
      ≡ some sino')
    × (pop_all 2 (sino_data_elem_pop_init sino') ≡ some ((3, 2, 1 ∷ 2 ∷ []) ∷ (4, 1, 9 ∷ []) ∷ []))
pushed-popped_example =
    pushed-popped used_before entries (omega arith, (omega arith, tt)) (omega arith)
