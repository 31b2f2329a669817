-- ===== src/Reassembly/Complete.antt =====
-- `CWProtocolParseFragment` when the list of fragments is tested for completeness.
use sicapwap.Prelude.{
  ℕ, zero, suc, ◌+◌, ◌-◌, ◌*◌, ◌<◌, ◌≤◌, ◌≡◌, refl, sym, ap, ◌∙◌, Bool, Option, List, [], ◌∷◌, map,
  arith, All, Bool-cases, inl, inr, ◌⊎◌, ◌≢◌, ◌==◌, ==_refl, ne→==, length, length-append,
  if◌then◌else◌,
}
use sicapwap.Prelude.Weights.{weight, one_at, range, weight-range}
use sicapwap.Exec.{need_resource}
use sicapwap.Message.{blank}
use sicapwap.Message.Written.{written, create_message-written}
use sicapwap.Fragment.Pieces.{piece, pieces, length-piece, pieces-all}
use sicapwap.Reassembly.{
  complete, failed, Fragment, check_complete, reply_of, total_size, current_size, join_fragments,
  max_offset,
}
use sicapwap.Reassembly.Arrival.{kept, current_size-kept, total_size-kept, join_fragments-kept}

-- `seen` and `rest` have the numbers below `num` between them, each once.
abbrev pub Parts : ℕ → List ℕ → List ℕ → Type 0
Parts num seen rest = (w : ℕ → ℕ) → weight w seen + weight w rest ≡ weight w (range 0 num)

-- The size of all pieces is the size of what was cut.
weight-pieces :
    (unit i left : ℕ) (bytes : List ℕ)
    → weight (λ j. length (piece unit j bytes)) (range i left) ≡ length (pieces unit i left bytes)
weight-pieces unit i zero bytes = refl
weight-pieces unit i (suc left) bytes = omega (
  arith,
  weight-pieces unit (i + 1) left bytes,
  length-append (piece unit i bytes) (pieces unit (i + 1) left bytes),
)

All-counted :
    (num : ℕ) (js : List ℕ) → ((j : ℕ) → 0 < weight (one_at j) js → j < num) → All (λ j. j < num) js
All-counted num [] h = tt
All-counted num (j ∷ js) h = (h j (ground arith), All-counted num js (λ i p. h i (ground arith)))

counted_below :
    (num : ℕ) (seen rest : List ℕ)
    → Parts num seen rest
    → (j : ℕ) → 0 < weight (one_at j) seen
    → j < num
counted_below num seen rest parts j h = ground (arith, parts (one_at j), weight-range 0 num j)

pub Parts-All : (num : ℕ) (seen rest : List ℕ) → Parts num seen rest → All (λ j. j < num) seen
Parts-All num seen rest parts = All-counted num seen (counted_below num seen rest parts)

-- Two tests, as the code combines them.
check_complete_missing :
    (flag : Bool) (type : Option ℕ) (fs : List Fragment) (k total : ℕ)
    → total_size 0 fs ≡ total
    → (total ≡ 0) ⊎ (current_size 0 fs < total)
    → check_complete flag type fs k ≡ (failed need_resource, fs)
unfolding check_complete
check_complete_missing flag type fs k total e (inl z) = rw (e, z) refl
check_complete_missing flag type fs k total e (inr lt) =
    rw (e, ne→== total 0 (omega arith), ne→== (current_size 0 fs) total (omega arith))

check_complete_all :
    (flag : Bool) (type : Option ℕ) (fs : List Fragment) (k total : ℕ)
    → total_size 0 fs ≡ total
    → current_size 0 fs ≡ total
    → 0 < total
    → check_complete flag type fs (suc k)
      ≡ reply_of flag (join_fragments (max_offset + 2) fs 0 (written type [] total) k) [] []
unfolding check_complete
check_complete_all flag type fs k total e f pos = rw (
  e,
  f,
  ne→== total 0 (omega arith),
  ==_refl total,
  create_message-written (record blank { data_msg_type = type }) total k,
)

module _ (id groups num : ℕ) (bytes : List ℕ) (flag : Bool) (type : Option ℕ) (pos : 0 < groups)
    (covers : length bytes ≤ num * (groups * 8))
    (least : (num - 1) * (groups * 8) < length bytes) where
  whole_weight : weight (λ j. length (piece (groups * 8) j bytes)) (range 0 num) ≡ length bytes
  whole_weight =
      weight-pieces (groups * 8) 0 num bytes ∙ ap length (pieces-all (groups * 8) num bytes covers)

  -- No piece is empty.
  piece_pos : (j : ℕ) → j < num → 0 < length (piece (groups * 8) j bytes)
  piece_pos j h =
      let n : ℕ = num - 1 in
      let below : j * (groups * 8) ≤ n * (groups * 8) = grind arith in
      omega (arith, length-piece (groups * 8) j bytes)

  -- While a fragment is missing, the code asks for more and keeps what it has.
  pub check_complete-missing :
      (seen rest : List ℕ) (j k : ℕ)
      → Parts num seen (j ∷ rest)
      → check_complete flag type (map (kept id groups num bytes) seen) k
        ≡ (failed need_resource, map (kept id groups num bytes) seen)
  check_complete-missing seen rest j k parts =
      let size : ℕ → ℕ = λ i. length (piece (groups * 8) i bytes) in
      let below : j < num = ground (arith, parts (one_at j), weight-range 0 num j) in
      let less : weight size seen < length bytes =
        omega (arith, parts size, whole_weight, piece_pos j below) in
      check_complete_missing flag type (map (kept id groups num bytes) seen) k
        (if weight (one_at (num - 1)) seen == 0 then 0 else length bytes)
        (total_size-kept id groups num bytes pos covers least 0 seen
          (Parts-All num seen (j ∷ rest) parts))
        (elim (Bool-cases (weight (one_at (num - 1)) seen == 0)) [
          | inl e ↦ inl (rw e)
          | inr e ↦ inr (rw (e, current_size-kept id groups num bytes 0 seen) (omega arith))
        ])

  -- When all have arrived, in whatever order, the packet is their bytes in the right one.
  pub check_complete-all :
      (seen : List ℕ) (k : ℕ)
      → 0 < num
      → num ≤ max_offset + 2
      → Parts num seen []
      → check_complete flag type (map (kept id groups num bytes) seen) (suc k)
        ≡ (complete flag (written type bytes 0), [])
  unfolding reply_of
  check_complete-all seen k some_num few parts =
      let fs = map (kept id groups num bytes) seen in
      let size : ℕ → ℕ = λ i. length (piece (groups * 8) i bytes) in
      let present : (j : ℕ) → j < num → 0 < weight (one_at j) seen =
        λ j h. ground (arith, parts (one_at j), weight-range 0 num j) in
      let at_last : weight (one_at (num - 1)) seen ≢ 0 =
        omega (arith, present (num - 1) (omega arith)) in
      check_complete_all flag type fs k (length bytes)
        (total_size-kept id groups num bytes pos covers least 0 seen (Parts-All num seen [] parts)
          ∙ rw (ne→== (weight (one_at (num - 1)) seen) 0 at_last) refl)
        (current_size-kept id groups num bytes 0 seen ∙ omega (arith, parts size, whole_weight))
        (omega arith)
      ∙ ap (λ r. reply_of flag (join_fragments (max_offset + 2) fs 0 (written type [] r) k) [] [])
          (sym (ap length (pieces-all (groups * 8) num bytes covers)))
      ∙ ap
          (λ o.
            reply_of flag
              (join_fragments (max_offset + 2) fs o
                (written type [] (length (pieces (groups * 8) 0 num bytes))) k)
              [] [])
          {x = 0} {y = 0 * groups} (omega arith)
      ∙ ap (λ r. reply_of flag r [] [])
          (join_fragments-kept id groups num bytes pos covers least num 0 (max_offset + 2) seen []
            type k (omega arith) some_num few present)
      ∙ ap (λ r. (complete flag (written type r 0), [])) (pieces-all (groups * 8) num bytes covers)
