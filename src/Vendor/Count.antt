-- ===== src/Vendor/Count.antt =====
-- The first pass of the parsers counts the vendor informations that were stored.
use sicapwap.Prelude.{
  ℕ, zero, suc, ◌+◌, ◌-◌, ◌%◌, ◌<◌, ◌≤◌, ◌≡◌, ap, ◌∙◌, Bool, true, false, Option, List, [], ◌∷◌,
  ◌++◌, All, arith, length, length-append, append-nil, append_assoc, lt→ltb, ltb_irrefl,
}
use sicapwap.Exec.{ok}
use sicapwap.Message.{be16}
use sicapwap.Message.Reading.{reading, reading-append, retrieve16-reading, retrieve32-reading}
use sicapwap.Message.Reads.{grants}
use sicapwap.Element.Body.{ReadsAt}
use sicapwap.Vendor.{
  VendorInfo, net_order, count_infos, skip_id, parse_vendor_infos, parse_board_values,
}
use sicapwap.Vendor.RoundTrip.{
  IsStorable, value_bytes, id_bytes, all_bytes, length-net_order, Reads-parse_infos,
  Reads-parse_values,
}

skip_id-reading :
    (with_id : Bool) (i : VendorInfo) (d : Option ℕ) (front rest : List ℕ) (k : ℕ)
    → skip_id with_id (reading d front (id_bytes with_id i ++ rest)) k
      ≡ ok (reading d (front ++ id_bytes with_id i) rest, k)
unfolding skip_id
skip_id-reading true i d front rest k = rw (retrieve32-reading d front rest i.vendor_identifier k)
skip_id-reading false i d front rest k = rw (append-nil front)

-- One round: on to the next.
module _ (with_id : Bool) (i : VendorInfo) (old len count fuel k : ℕ) (d : Option ℕ)
    (front rest : List ℕ) where
  count_step :
      length i.value < 65536
      → length front - old < len
      → count_infos
          (suc fuel)
          with_id
          old
          len
          (reading d front (id_bytes with_id i ++ (value_bytes i ++ rest)))
          count
          k
        ≡ count_infos fuel with_id old len
            (reading d (front ++ (id_bytes with_id i ++ value_bytes i)) rest)
            (count + 1)
            k
  unfolding count_infos
  count_step fits inside =
      let f1 : List ℕ = front ++ id_bytes with_id i in
      let f2 : List ℕ = f1 ++ be16 i.type in
      let f3 : List ℕ = f2 ++ be16 (length i.value) in
      let small : length i.value % 65536 ≡ length (net_order i.value) =
        omega (arith, length-net_order i.value) in
      rw (
        count_infos,
        lt→ltb (length front - old) len inside,
        skip_id-reading with_id i d front (value_bytes i ++ rest) k,
        retrieve16-reading d f1 (be16 (length i.value) ++ (net_order i.value ++ rest)) i.type k,
        retrieve16-reading d f2 (net_order i.value ++ rest) (length i.value) k,
        small,
        reading-append d f3 rest (net_order i.value),
        append_assoc f2 (be16 (length i.value)) (net_order i.value),
        append_assoc f1 (be16 i.type) (be16 (length i.value) ++ net_order i.value),
        append_assoc front (id_bytes with_id i) (value_bytes i),
      )

-- All of them are counted, in a round for each.
pub count_infos-stored :
    (with_id : Bool) (old len : ℕ) (d : Option ℕ) (front rest : List ℕ) (is : List VendorInfo)
    (count fuel k : ℕ)
    → All IsStorable is
    → length is < fuel
    → old ≤ length front
    → length front - old + length (all_bytes with_id is) ≡ len
    → count_infos fuel with_id old len (reading d front (all_bytes with_id is ++ rest)) count k
      ≡ ok (count + length is, k)
unfolding count_infos
count_infos-stored with_id old len d front rest is count zero k fits enough inside fills =
    absurd (omega arith)
count_infos-stored with_id old len d front rest [] count (suc fuel) k fits enough inside fills =
    let at_end : length front - old ≡ len = omega arith in
    rw (count_infos, at_end, ltb_irrefl len) (ap (λ n. ok (n, k)) (omega arith))
count_infos-stored with_id old len d front rest (i ∷ is) count (suc fuel) k (fit, fits) enough
      inside fills =
    let bytes : List ℕ = id_bytes with_id i ++ value_bytes i in
    let more : List ℕ = all_bytes with_id is in
    let sizes : length (all_bytes with_id (i ∷ is)) ≡ length bytes + length more = omega (
      arith,
      length-append (id_bytes with_id i) (value_bytes i ++ more),
      length-append (value_bytes i) more,
      length-append (id_bytes with_id i) (value_bytes i),
    ) in
    let some_bytes : 0 < length bytes =
      omega (arith, length-append (id_bytes with_id i) (value_bytes i)) in
    rw
      (
        append_assoc (id_bytes with_id i) (value_bytes i ++ more) rest,
        append_assoc (value_bytes i) more rest,
      )
      (count_step with_id i old len count fuel k d front (more ++ rest) fit.length_fits
        (omega arith))
    ∙ count_infos-stored with_id old len d (front ++ bytes) rest is (count + 1) fuel k fits
        (omega arith) (omega (arith, length-append front bytes))
        (omega (arith, length-append front bytes))
    ∙ ap (λ n. ok (n, k)) (omega arith)

length-le-all_bytes :
    (with_id : Bool) (is : List VendorInfo) → length is ≤ length (all_bytes with_id is)
length-le-all_bytes with_id [] = omega arith
length-le-all_bytes with_id (i ∷ is) = omega (
  arith,
  length-append (id_bytes with_id i) (value_bytes i ++ all_bytes with_id is),
  length-append (value_bytes i) (all_bytes with_id is),
  length-le-all_bytes with_id is,
)

zero_add : (n : ℕ) → 0 + n ≡ n
zero_add n = omega arith

both_hold :
    (id : ℕ) (is : List VendorInfo)
    → All IsStorable is
    → All (λ i. i.vendor_identifier ≡ id) is
    → All (λ i. IsStorable i × (i.vendor_identifier ≡ id)) is
both_hold id [] fits same = tt
both_hold id (i ∷ is) (fit, fits) (s, same) = ((fit, s), both_hold id is fits same)

-- Both passes over stored vendor informations return them.
module _ {old gap len : ℕ} (is : List VendorInfo) (fits : All IsStorable is) where
  pub ReadsAt-parse_vendor_infos :
      gap + length (all_bytes true is) ≡ len
      → ReadsAt old gap (suc (length is)) (λ m. parse_vendor_infos old len m) (all_bytes true is) is
  unfolding parse_vendor_infos
  ReadsAt-parse_vendor_infos fills = record {
    run = λ d front rest k at. rw (
      count_infos-stored true old len d front rest is 0 (suc len) (suc (grants (length is) k)) fits
          (omega (arith, length-le-all_bytes true is)) (omega arith) (omega arith),
      zero_add (length is),
      (Reads-parse_infos is fits).run d front rest k,
    );
  }

  pub ReadsAt-parse_board_values :
      (id : ℕ)
      → All (λ i. i.vendor_identifier ≡ id) is
      → gap + length (all_bytes false is) ≡ len
      → ReadsAt old gap
          (suc (length is))
          (λ m. parse_board_values id old len m)
          (all_bytes false is)
          is
  unfolding parse_board_values
  ReadsAt-parse_board_values id same fills = record {
    run = λ d front rest k at. rw (
      count_infos-stored false old len d front rest is 0 (suc len) (suc (grants (length is) k)) fits
          (omega (arith, length-le-all_bytes false is)) (omega arith) (omega arith),
      zero_add (length is),
      (Reads-parse_values id is (both_hold id is fits same)).run d front rest k,
    );
  }
