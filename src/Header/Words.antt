-- ===== src/Header/Words.antt =====
-- The words of the transport header as sums of their fields.
use sicapwap.Prelude.{
  ℕ, ◌+◌, ◌*◌, ◌/◌, ◌%◌, ◌^◌, ◌<◌, ◌≡◌, refl, ◌⊎◌, inl, inr, arith, bit_or, if◌then◌else◌, ◌==◌,
}
use sicapwap.Prelude.Bits.{bit_or-disjoint, bit_or-zero, zero-bit_or}
use sicapwap.Header.{
  TransportValues, first_word, second_word, has_binding, BindingValues, binding_first_word,
  binding_second_word,
}

bit_cases : (n : ℕ) → (n % 2 ≡ 0) ⊎ (n % 2 ≡ 1)
bit_cases n = omega arith

-- The first word, field by field.
pub first_word_lem :
    (v : TransportValues)
    → first_word v
      ≡ (if v.payload_type == 0 then 0 else 1) * 16777216
        + (if has_binding v then 4 else 2) * 524288
        + 768
        + v.is_fragment % 2 * 128
        + v.last % 2 * 64
        + (if has_binding v then 1 else 0) * 32
unfolding first_word
first_word_lem v = elim (bit_cases v.is_fragment) [
  | inl f ↦ elim (bit_cases v.last) [
    | inl l ↦ rw (f, l) (ground arith)
    | inr l ↦ rw (f, l) (ground arith)
  ]
  | inr f ↦ elim (bit_cases v.last) [
    | inl l ↦ rw (f, l) (ground arith)
    | inr l ↦ rw (f, l) (ground arith)
  ]
]

-- Three fields, from high to low, of which the last is zero.
or_two : (k a b : ℕ) {c : ℕ} → c ≡ a * 2 ^ k → b < 2 ^ k → bit_or (bit_or (bit_or 0 c) b) 0 ≡ c + b
or_two k a b {c} e h = rw (bit_or-zero, zero-bit_or, bit_or-disjoint k a e h)

pub second_word_lem :
    (v : TransportValues)
    → second_word v ≡ v.fragment_id % 65536 * 65536 + v.fragment_offset % 8192 * 8
unfolding second_word
second_word_lem v =
    or_two 16 (v.fragment_id % 65536) (v.fragment_offset % 8192 * 8) refl (omega arith)

pub binding_second_word_lem :
    (b : BindingValues) → binding_second_word b ≡ b.data_rate % 256 * 16777216
unfolding binding_second_word
binding_second_word_lem b = rw (bit_or-zero, zero-bit_or) (omega arith)

-- Four fields of one byte each.
or_bytes :
    (a b c d : ℕ)
    → b < 256
    → c < 256
    → d < 256
    → bit_or (bit_or (bit_or (a * 16777216) (b * 65536)) (c * 256)) (d * 1)
      ≡ a * 16777216 + b * 65536 + c * 256 + d
or_bytes a b c d hb hc hd =
    let one : bit_or (a * 16777216) (b * 65536) ≡ a * 16777216 + b * 65536 =
      bit_or-disjoint 24 a refl (omega arith) in
    let two : bit_or (a * 16777216 + b * 65536) (c * 256) ≡ a * 16777216 + b * 65536 + c * 256 =
      bit_or-disjoint 16 (a * 256 + b) (omega arith) (omega arith) in
    let three : bit_or (a * 16777216 + b * 65536 + c * 256) (d * 1)
        ≡ a * 16777216 + b * 65536 + c * 256 + d * 1 =
      bit_or-disjoint 8 (a * 65536 + b * 256 + c) (omega arith) (omega arith) in
    rw (one, two, three) (omega arith)

pub binding_first_word_lem :
    (b : BindingValues)
    → binding_first_word b
      ≡ 6 * 16777216 + b.rssi % 256 * 65536 + b.snr % 256 * 256 + b.data_rate / 256 % 256
unfolding binding_first_word
binding_first_word_lem b =
    or_bytes 6 (b.rssi % 256) (b.snr % 256) (b.data_rate / 256 % 256) (omega arith) (omega arith)
      (omega arith)
