-- ===== src/Fragment/Assembled.antt =====
-- What the packets hold that `CWAssembleMessage` and `CWAssembleDataMessage` make.
use sicapwap.Prelude.{
  ℕ, zero, suc, ◌+◌, ◌-◌, ◌*◌, ◌/◌, ◌<◌, ◌≤◌, ◌≡◌, ap, ◌∙◌, sym, List, [], ◌∷◌, Option, none, ◌++◌,
  arith, length, length-append, take, drop, length-take, length-drop, ltb, lt→ltb, ltb_irrefl,
  if◌then◌else◌, replicate,
}
use sicapwap.Exec.{ok}
use sicapwap.Message.{Message, blank}
use sicapwap.Message.Written.{
  written, create_message-written, store_message-written, store_raw_bytes-written,
}
use sicapwap.Header.{BindingValues, TransportValues}
use sicapwap.Header.RoundTrip.{
  header_bytes, header_size, length-header_bytes, assemble_transport_header-written,
}
use sicapwap.Fragment.{
  fragment_values, whole_values, put_fragment, one_fragment, fragment_loop, whole_packet,
  cut_packet,
}
use sicapwap.Fragment.Pieces.{add_one_mul, piece, length-piece, take-all, read_at-append_within}

-- A message that holds `bytes` in front and is read at `offset`.
abbrev pub holding : Option ℕ → List ℕ → List ℕ → ℕ → Message
holding d bytes tail offset = record { msg = bytes ++ tail; offset = offset; data_msg_type = d }

module _ (d : Option ℕ) (bytes tail : List ℕ) (k : ℕ) where
  put_fragment-holding :
      (v : TransportValues) (size i : ℕ)
      → i + size ≤ length bytes
      → put_fragment v size (holding d bytes tail i) (suc (suc k))
        ≡ ok (
          (
            written none (header_bytes v ++ take size (drop i bytes)) 0,
            holding d bytes tail (i + size),
          ),
          k,
        )
  unfolding put_fragment
  put_fragment-holding v size i h =
      let body = take size (drop i bytes) in
      let measure : length body ≡ size =
        omega (arith, length-take size (drop i bytes), length-drop i bytes) in
      let room : length (header_bytes v) + size ≡ length (header_bytes v) + (length body + 0) =
        omega arith in
      rw (
        assemble_transport_header-written blank v (suc k),
        room,
        create_message-written blank (length (header_bytes v) + (length body + 0)) k,
        store_message-written none [] (length body + 0) k none (header_bytes v) 0,
        read_at-append_within size i bytes tail k h,
        store_raw_bytes-written none (header_bytes v) 0 k body,
      )

-- The packet of fragment `i`: its header, and piece `i` of the message.
unfoldable pub fragment_packet : Option BindingValues → ℕ → ℕ → ℕ → ℕ → List ℕ → ℕ → List ℕ
fragment_packet binding payload_type id unit num bytes i =
    header_bytes
      (fragment_values binding payload_type id (i * unit / 8) (if ltb i (num - 1) then 0 else 1))
    ++ piece unit i bytes

pub length-fragment_packet :
    (binding : Option BindingValues) (payload_type id unit num : ℕ) (bytes : List ℕ) (i : ℕ)
    → length (fragment_packet binding payload_type id unit num bytes i) ≤ header_size binding + unit
unfolding fragment_packet
length-fragment_packet binding payload_type id unit num bytes i =
    let v : TransportValues =
      fragment_values binding payload_type id (i * unit / 8) (if ltb i (num - 1) then 0 else 1) in
    omega (
      arith,
      length-append (header_bytes v) (piece unit i bytes),
      length-header_bytes v,
      length-piece unit i bytes,
    )

-- The packets of the fragments `i`, `i + 1`, ….
abbrev pub fragment_packets : Option BindingValues → ℕ → ℕ → ℕ → ℕ → List ℕ → ℕ → ℕ → List Message
fragment_packets binding payload_type id unit num bytes i zero = []
fragment_packets binding payload_type id unit num bytes i (suc left) =
    written none (fragment_packet binding payload_type id unit num bytes i) 0
    ∷ fragment_packets binding payload_type id unit num bytes (i + 1) left

-- Each fragment takes two allocations.
abbrev pub two_each : ℕ → ℕ → ℕ
two_each zero k = k
two_each (suc n) k = suc (suc (two_each n k))

module _ (d : Option ℕ) (bytes tail : List ℕ) (binding : Option BindingValues)
    (payload_type id unit num : ℕ) (covers : length bytes ≤ num * unit)
    (least : (num - 1) * unit < length bytes) where
  -- A fragment that is not the last.
  one_fragment-more :
      (i k : ℕ)
      → i < num - 1
      → one_fragment binding payload_type id unit num
          (length bytes)
          i
          (holding d bytes tail (i * unit))
          (suc (suc k))
        ≡ ok (
          (
            written none (fragment_packet binding payload_type id unit num bytes i) 0,
            holding d bytes tail ((i + 1) * unit),
          ),
          k,
        )
  unfolding one_fragment fragment_packet
  one_fragment-more i k h =
      let v = fragment_values binding payload_type id (i * unit / 8) 0 in
      let within : (i + 1) * unit ≤ (num - 1) * unit = grind arith in
      rw (lt→ltb i (num - 1) h) (
        put_fragment-holding d bytes tail k v unit (i * unit) (grind arith)
        ∙ ap
            (λ n.
              ok (
                (written none (header_bytes v ++ piece unit i bytes) 0, holding d bytes tail n),
                k,
              ))
            (grind arith))

  -- The last fragment holds what is left.
  one_fragment-last :
      (i k : ℕ)
      → i + 1 ≡ num
      → one_fragment binding payload_type id unit num
          (length bytes)
          i
          (holding d bytes tail (i * unit))
          (suc (suc k))
        ≡ ok (
          (
            written none (fragment_packet binding payload_type id unit num bytes i) 0,
            holding d bytes tail (length bytes),
          ),
          k,
        )
  unfolding one_fragment fragment_packet
  one_fragment-last i k h =
      let v = fragment_values binding payload_type id (i * unit / 8) 1 in
      let before : num - 1 ≡ i = omega arith in
      let rest : List ℕ = drop (i * unit) bytes in
      let size : ℕ = length bytes - i * unit in
      let inside : i * unit < length bytes = rw before at least in
      let span : num * unit ≡ i * unit + unit = ap (λ n. n * unit) (sym h) ∙ add_one_mul i unit in
      let whole : take size rest ≡ take unit rest =
        take-all size rest (omega (arith, length-drop (i * unit) bytes))
        ∙ sym (take-all unit rest (omega (arith, length-drop (i * unit) bytes))) in
      rw (before, ltb_irrefl i)
        (put_fragment-holding d bytes tail k v size (i * unit) (omega arith)
          ∙ ap
              (λ n.
                ok ((written none (header_bytes v ++ take size rest) 0, holding d bytes tail n), k))
              {y = length bytes} (omega arith)
          ∙ ap
              (λ r.
                ok ((written none (header_bytes v ++ r) 0, holding d bytes tail (length bytes)), k))
              whole)

  fragment_loop-holding :
      (left i k : ℕ)
      → i + left ≡ num
      → 0 < left
      → fragment_loop binding payload_type id unit num
          (length bytes)
          left
          i
          (holding d bytes tail (i * unit))
          (two_each left k)
        ≡ ok (fragment_packets binding payload_type id unit num bytes i left, k)
  unfolding fragment_loop
  fragment_loop-holding zero i k e h = absurd (omega arith)
  fragment_loop-holding (suc zero) i k e h = rw (one_fragment-last i k (omega arith))
  fragment_loop-holding (suc (suc left)) i k e h = rw (
    one_fragment-more i (two_each (suc left) k) (omega arith),
    fragment_loop-holding (suc left) (i + 1) k (omega arith) (omega arith),
  )

module _ (d : Option ℕ) (bytes : List ℕ) (binding : Option BindingValues)
    (payload_type id unit num : ℕ) where
  -- `CWAssembleMessage` and `CWAssembleDataMessage` where they cut: one packet for each piece.
  pub cut_packet-written :
      (spare k : ℕ)
      → length bytes ≤ num * unit
      → (num - 1) * unit < length bytes
      → 0 < num
      → cut_packet binding payload_type id unit num (written d bytes spare) (suc (two_each num k))
        ≡ ok (fragment_packets binding payload_type id unit num bytes 0 num, k)
  unfolding cut_packet
  cut_packet-written spare k covers least pos =
      let tail : List ℕ = replicate spare 0 in
      ap
        (λ n.
          fragment_loop binding payload_type id unit num (length bytes) num 0
            (holding d bytes tail n) (two_each num k))
        {x = 0} {y = 0 * unit} (omega arith)
      ∙ fragment_loop-holding d bytes tail binding payload_type id unit num covers least num 0 k
          (omega arith) pos

  -- A packet that is not cut is a header and the message.
  pub whole_packet-written :
      (spare k : ℕ)
      → whole_packet binding payload_type (written d bytes spare) (suc (suc (suc k)))
        ≡ ok (written none (header_bytes (whole_values binding payload_type) ++ bytes) 0 ∷ [], k)
  unfolding whole_packet
  whole_packet-written spare k =
      let v = whole_values binding payload_type in
      let room : length (header_bytes v) + length bytes
          ≡ length (header_bytes v) + (length bytes + 0) =
        omega arith in
      rw (
        assemble_transport_header-written blank v (suc k),
        room,
        create_message-written blank (length (header_bytes v) + (length bytes + 0)) k,
        store_message-written none [] (length bytes + 0) k none (header_bytes v) 0,
        store_message-written none (header_bytes v) 0 k d bytes spare,
      )
