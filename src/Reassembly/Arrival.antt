-- ===== src/Reassembly/Arrival.antt =====
-- Fragments that arrive in any order: what is kept, and what the tests for completeness see.
use sicapwap.Prelude.{
  ℕ, zero, suc, ◌+◌, ◌-◌, ◌*◌, ◌/◌, ◌<◌, ◌≤◌, ◌≡◌, refl, sym, ap, ◌∙◌, true, false, Option, some,
  List, [], ◌∷◌, ◌++◌, map, arith, All, Bool-cases, inl, inr, ◌==◌, ltb, ==_iff, length-append,
  append-nil, append_assoc, ltb_irrefl, lt→ltb, if◌then◌else◌, length,
}
use native.Mathlib.Nat.{mul_assoc}
use sicapwap.Prelude.Weights.{weight, one_at}
use sicapwap.Exec.{ok}
use sicapwap.Message.{store_raw_bytes}
use sicapwap.Message.Written.{written, store_raw_bytes-written}
use sicapwap.Fragment.Pieces.{add_one_mul, piece, pieces, length-piece}
use sicapwap.Reassembly.{
  Fragment, find_offset, has_copy, same_packet, total_size, current_size, compare_fragment,
  join_fragments,
}
use sicapwap.Reassembly.Loop.{join_last, join_more}

-- Offsets of different fragments differ.
scaled_lt : (i j groups : ℕ) → 0 < groups → i < j → i * groups < j * groups
scaled_lt i j groups pos h =
    let step : (i + 1) * groups ≤ j * groups = grind arith in omega (arith, add_one_mul i groups)

scaled_test : (i j groups : ℕ) → 0 < groups → (i * groups == j * groups) ≡ (i == j)
scaled_test i j groups pos = ground (arith, scaled_lt i j groups pos, scaled_lt j i groups pos)

-- The fragments of a packet `bytes` that was cut into `num` pieces of `groups` times 8 bytes.
module _ (id groups num : ℕ) (bytes : List ℕ) where
  abbrev pub unit : ℕ
  unit = groups * 8

  -- Fragment `i`, as it is kept when it arrives.
  unfoldable pub kept : ℕ → Fragment
  kept i = record {
    data_bytes = piece unit i bytes;
    data_len = length (piece unit i bytes);
    fragment_id = id;
    fragment_offset = i * groups;
    last = if ltb i (num - 1) then 0 else 1;
  }

  size_of : ℕ → ℕ
  size_of i = length (piece unit i bytes)

  pub current_size-kept :
      (size : ℕ) (seen : List ℕ)
      → current_size size (map kept seen) ≡ size + weight (λ i. length (piece unit i bytes)) seen
  unfolding current_size kept
  current_size-kept size [] = omega arith
  current_size-kept size (i ∷ seen) =
      omega (arith, current_size-kept (size + length (piece unit i bytes)) seen)

  pub same_packet-kept : (seen : List ℕ) → same_packet id (map kept seen) ≡ true
  unfolding same_packet kept
  same_packet-kept [] = refl
  same_packet-kept (i ∷ seen) = ground arith

  -- A fragment that has not arrived has no copy in the list.
  pub has_copy-kept :
      (i : ℕ) (seen : List ℕ)
      → 0 < groups
      → weight (one_at i) seen ≡ 0
      → has_copy id (i * groups) (map kept seen) ≡ false
  unfolding has_copy compare_fragment kept
  has_copy-kept i [] pos h = refl
  has_copy-kept i (j ∷ seen) pos h =
      ground (arith, scaled_test i j groups pos, has_copy-kept i seen pos)

  offset_test : (i j : ℕ) → 0 < groups → ((kept j).fragment_offset == i * groups) ≡ (j == i)
  unfolding kept
  offset_test i j pos = scaled_test j i groups pos

  -- A fragment that has arrived is found by its offset.
  pub find_offset-kept :
      (i : ℕ) (seen : List ℕ)
      → 0 < groups
      → 0 < weight (one_at i) seen
      → find_offset (i * groups) (map kept seen) ≡ some (kept i)
  unfolding find_offset
  find_offset-kept i [] pos h = absurd (omega arith)
  find_offset-kept i (j ∷ seen) pos h = elim (Bool-cases (j == i)) [
    | inl e ↦ rw (offset_test i j pos, e) (ap (λ x. some (kept x)) ((==_iff j i).0 e))
    | inr e ↦ rw (offset_test i j pos, e) (find_offset-kept i seen pos (ground arith))
  ]

  module _ (pos : 0 < groups) (covers : length bytes ≤ num * (groups * 8))
      (least : (num - 1) * (groups * 8) < length bytes) where
    -- The size that the last fragment tells.
    total-last : (num - 1) * groups * 8 + length (piece unit (num - 1) bytes) ≡ length bytes
    total-last =
        let n : ℕ = num - 1 in
        let grouped : n * groups * 8 ≡ n * (groups * 8) = mul_assoc n groups 8 in
        let span : num * (groups * 8) ≤ (n + 1) * (groups * 8) = grind arith in
        omega (arith, length-piece unit n bytes, add_one_mul n (groups * 8))

    -- What one fragment makes of the total.
    total_step :
        (i total : ℕ)
        → i < num
        → (if (kept i).last == 1 then (kept i).fragment_offset * 8 + (kept i).data_len else total)
          ≡ (if num - 1 == i then length bytes else total)
    unfolding kept
    total_step i total h = elim (Bool-cases (num - 1 == i)) [
      | inl e ↦
          let last : num - 1 ≡ i = (==_iff (num - 1) i).0 e in
          rw e (rw (← last, ltb_irrefl (num - 1)) total-last)
      | inr e ↦ rw (e, lt→ltb i (num - 1) (ground arith))
    ]

    -- Without the last fragment the total is not known, and with it it is the packet's size.
    pub total_size-kept :
        (total : ℕ) (seen : List ℕ)
        → All (λ i. i < num) seen
        → total_size total (map kept seen)
          ≡ (if weight (one_at (num - 1)) seen == 0 then total else length bytes)
    unfolding total_size
    total_size-kept total [] h = refl
    total_size-kept total (i ∷ seen) h =
        let next : ℕ = if num - 1 == i then length bytes else total in
        ap (λ t. total_size t (map kept seen)) (total_step i total h.0)
        ∙ total_size-kept next seen h.1
        ∙ ground arith

    kept_last : (i : ℕ) → i + 1 ≡ num → ((kept i).last == 1) ≡ true
    unfolding kept
    kept_last i e = ground arith

    kept_more : (i : ℕ) → i + 1 < num → ((kept i).last == 1) ≡ false
    unfolding kept
    kept_more i e = ground arith

    -- The step to the next fragment's offset.
    kept_step : (i : ℕ) → i + 1 < num → i * groups + (kept i).data_len / 8 ≡ (i + 1) * groups
    unfolding kept
    kept_step i h =
        let n : ℕ = num - 1 in
        let inside : (i + 1) * (groups * 8) ≤ n * (groups * 8) = grind arith in
        omega (arith, length-piece unit i bytes, add_one_mul i (groups * 8), add_one_mul i groups)

    -- The bytes of fragment `i`, stored where the rest will follow.
    kept_stored :
        (i : ℕ) (front rest : List ℕ) (type : Option ℕ) (k : ℕ)
        → store_raw_bytes
            (written type front (length (piece unit i bytes ++ rest)))
            (kept i).data_bytes
            k
          ≡ ok (written type (front ++ piece unit i bytes) (length rest), k)
    unfolding kept
    kept_stored i front rest type k =
        rw (length-append (piece unit i bytes) rest)
          (store_raw_bytes-written type front (length rest) k (piece unit i bytes))

    -- The loop, from fragment `i` on: all the fragments are at hand.
    pub join_fragments-kept :
        (left i fuel : ℕ) (seen front : List ℕ) (type : Option ℕ) (k : ℕ)
        → i + left ≡ num
        → 0 < left
        → left ≤ fuel
        → ((j : ℕ) → j < num → 0 < weight (one_at j) seen)
        → join_fragments fuel
            (map kept seen)
            (i * groups)
            (written type front (length (pieces unit i left bytes)))
            k
          ≡ ok (written type (front ++ pieces unit i left bytes) 0, k)
    join_fragments-kept zero i fuel seen front type k e some_left enough all = absurd (omega arith)
    join_fragments-kept (suc left) i zero seen front type k e some_left enough all =
        absurd (omega arith)
    join_fragments-kept (suc zero) i (suc fuel) seen front type k e some_left enough all =
        join_last fuel (map kept seen) (i * groups)
          (written type front (length (pieces unit i 1 bytes))) k (kept i)
          (written type (front ++ piece unit i bytes) 0)
          (find_offset-kept i seen pos (all i (omega arith))) (kept_stored i front [] type k)
          (kept_last i (omega arith))
        ∙ ap (λ r. ok (written type (front ++ r) 0, k)) (sym (append-nil (piece unit i bytes)))
    join_fragments-kept (suc (suc left)) i (suc fuel) seen front type k e some_left enough all =
        let rest : List ℕ = pieces unit (i + 1) (suc left) bytes in
        let m = written type (front ++ piece unit i bytes) (length rest) in
        join_more fuel (map kept seen) (i * groups)
          (written type front (length (piece unit i bytes ++ rest))) k (kept i) m
          (find_offset-kept i seen pos (all i (omega arith))) (kept_stored i front rest type k)
          (kept_more i (omega arith))
        ∙ ap (λ o. join_fragments fuel (map kept seen) o m k) (kept_step i (omega arith))
        ∙ join_fragments-kept (suc left) (i + 1) fuel seen (front ++ piece unit i bytes) type k
            (omega arith) (omega arith) (omega arith) all
        ∙ ap (λ r. ok (written type r 0, k)) (append_assoc front (piece unit i bytes) rest)
