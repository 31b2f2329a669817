-- ===== src/Counters.antt =====
-- AC.c and WTP.c: the static counters of sequence numbers and of fragment ids. Each takes the
-- counter, and returns the number and the counter's next value.
use sicapwap.Prelude.{ℕ, zero, suc, ◌+◌, ◌%◌, ◌≡◌, ◌≤◌, ◌∙◌, arith, ◌==◌, if◌then◌else◌}

abbrev pub max_seq_num : ℕ
max_seq_num = 255

abbrev pub max_fragment_id : ℕ
max_fragment_id = 65535

-- `CWGetSeqNum` of the AC.
unfoldable pub ac_get_seq_num : ℕ → ℕ × ℕ
ac_get_seq_num n = (n, if n == max_seq_num then 0 else n + 1)

-- `CWGetFragmentID` of the AC.
unfoldable pub ac_get_fragment_id : ℕ → ℕ × ℕ
ac_get_fragment_id n = (n, if n == max_fragment_id then 0 else n + 1)

-- `CWGetSeqNum` of the WTP, which counts first.
unfoldable pub wtp_get_seq_num : ℕ → ℕ × ℕ
wtp_get_seq_num n = let m = if n == max_seq_num then 0 else n + 1 in (m, m)

-- `CWGetFragmentID` of the WTP.
unfoldable pub wtp_get_fragment_id : ℕ → ℕ × ℕ
wtp_get_fragment_id n = (n, n + 1)

-- The number that the call after `i` others returns.
abbrev pub nth_number : (ℕ → ℕ × ℕ) → ℕ → ℕ → ℕ
nth_number get zero n = (get n).0
nth_number get (suc i) n = nth_number get i (get n).1

ac_seq_num_count : (i n : ℕ) → n ≤ 255 → nth_number ac_get_seq_num i n ≡ (n + i) % 256
unfolding ac_get_seq_num
ac_seq_num_count zero n h = omega arith
ac_seq_num_count (suc i) n h =
    ac_seq_num_count i (if n == max_seq_num then 0 else n + 1) (ground arith) ∙ ground arith

wtp_seq_num_count : (i n : ℕ) → n ≤ 255 → nth_number wtp_get_seq_num i n ≡ (n + i + 1) % 256
unfolding wtp_get_seq_num
wtp_seq_num_count zero n h = ground arith
wtp_seq_num_count (suc i) n h =
    wtp_seq_num_count i (if n == max_seq_num then 0 else n + 1) (ground arith) ∙ ground arith

ac_fragment_id_count : (i n : ℕ) → n ≤ 65535 → nth_number ac_get_fragment_id i n ≡ (n + i) % 65536
unfolding ac_get_fragment_id
ac_fragment_id_count zero n h = omega arith
ac_fragment_id_count (suc i) n h =
    ac_fragment_id_count i (if n == max_fragment_id then 0 else n + 1) (ground arith) ∙ ground arith

-- The call of CWGetSeqNum after so many others returns, from a counter up to 255, the sum in 8
-- bits on the AC and one more on the WTP, and CWGetFragmentID of the AC, from a counter up to
-- 65535, the sum in 16 bits.
pub counters :
    (i n m : ℕ)
    → n ≤ 255
    → m ≤ 65535
    → (nth_number ac_get_seq_num i n ≡ (n + i) % 256)
      × (nth_number wtp_get_seq_num i n ≡ (n + i + 1) % 256)
      × (nth_number ac_get_fragment_id i m ≡ (m + i) % 65536)
counters i n m small_n small_m =
    (ac_seq_num_count i n small_n, wtp_seq_num_count i n small_n, ac_fragment_id_count i m small_m)
