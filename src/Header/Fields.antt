-- ===== src/Header/Fields.antt =====
-- The fields of an assembled header word, as the parser extracts them.
use sicapwap.Prelude.{ℕ, ◌/◌, ◌%◌, ◌≡◌, arith, if◌then◌else◌, ◌==◌}
use sicapwap.Field.{get_field32}
use sicapwap.Header.{
  TransportValues, first_word, second_word, has_binding, BindingValues, binding_first_word,
  binding_second_word,
}
use sicapwap.Header.Words.{
  first_word_lem, second_word_lem, binding_first_word_lem, binding_second_word_lem,
}

-- What arrives is the word modulo `2 ^ 32`.
abbrev pub word32 : ℕ → ℕ
word32 w = w % 4294967296

module _ (v : TransportValues) where
  pub version_field : get_field32 (word32 (first_word v)) 0 4 ≡ 0
  unfolding get_field32
  version_field = ground (arith, first_word_lem v)

  pub type_field : get_field32 (word32 (first_word v)) 4 4 ≡ (if v.payload_type == 0 then 0 else 1)
  unfolding get_field32
  type_field = ground (arith, first_word_lem v)

  pub hlen_field : get_field32 (word32 (first_word v)) 8 5 ≡ (if has_binding v then 4 else 2)
  unfolding get_field32
  hlen_field = ground (arith, first_word_lem v)

  pub t_field : get_field32 (word32 (first_word v)) 23 1 ≡ 1
  unfolding get_field32
  t_field = ground (arith, first_word_lem v)

  pub fragment_field : get_field32 (word32 (first_word v)) 24 1 ≡ v.is_fragment % 2
  unfolding get_field32
  fragment_field = ground (arith, first_word_lem v)

  pub last_field : get_field32 (word32 (first_word v)) 25 1 ≡ v.last % 2
  unfolding get_field32
  last_field = ground (arith, first_word_lem v)

  pub wireless_field : get_field32 (word32 (first_word v)) 26 1 ≡ (if has_binding v then 1 else 0)
  unfolding get_field32
  wireless_field = ground (arith, first_word_lem v)

  pub keep_alive_field : get_field32 (word32 (first_word v)) 28 1 ≡ 0
  unfolding get_field32
  keep_alive_field = ground (arith, first_word_lem v)

  pub fragment_id_field : get_field32 (word32 (second_word v)) 0 16 ≡ v.fragment_id % 65536
  unfolding get_field32
  fragment_id_field = omega (arith, second_word_lem v)

  pub fragment_offset_field : get_field32 (word32 (second_word v)) 16 13 ≡ v.fragment_offset % 8192
  unfolding get_field32
  fragment_offset_field = omega (arith, second_word_lem v)

module _ (b : BindingValues) where
  pub datalength_field : get_field32 (word32 (binding_first_word b)) 0 8 ≡ 6
  unfolding get_field32
  datalength_field = omega (arith, binding_first_word_lem b)

  pub rssi_field : get_field32 (word32 (binding_first_word b)) 8 8 ≡ b.rssi % 256
  unfolding get_field32
  rssi_field = omega (arith, binding_first_word_lem b)

  pub snr_field : get_field32 (word32 (binding_first_word b)) 16 8 ≡ b.snr % 256
  unfolding get_field32
  snr_field = omega (arith, binding_first_word_lem b)

  pub rate_field : get_field32 (word32 (binding_first_word b)) 24 8 ≡ b.data_rate / 256 % 256
  unfolding get_field32
  rate_field = omega (arith, binding_first_word_lem b)

  -- The low byte of the data rate stands in the high byte of the second word.
  pub low_rate_field : get_field32 (word32 (binding_second_word b)) 0 8 ≡ b.data_rate % 256
  unfolding get_field32
  low_rate_field = omega (arith, binding_second_word_lem b)

  pub padding_field : get_field32 (word32 (binding_second_word b)) 24 8 ≡ 0
  unfolding get_field32
  padding_field = omega (arith, binding_second_word_lem b)
