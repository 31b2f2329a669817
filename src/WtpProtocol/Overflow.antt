-- ===== src/WtpProtocol/Overflow.antt =====
-- Elements whose buffers are too small.
use sicapwap.Prelude.{
  ℕ, zero, suc, Option, none, ◌+◌, ◌*◌, ◌<◌, ◌≤◌, ◌≡◌, refl, subst, false, List, [], ◌∷◌, ◌++◌,
  arith, length, length-append, leb, take, replicate, length-take, length-replicate, le→leb,
}
use sicapwap.Exec.{Exec, ok, fault, ◌>>=◌, ◌>>◌, alloc}
use sicapwap.Element.{assemble_msg_elem}
use sicapwap.Message.{Message, store8, store_raw_bytes, read_at, be8, write_at}
use sicapwap.Message.Written.{written, store_raw_bytes-written, store8-written}
use sicapwap.WtpProtocol.Assemble.{assemble_joined, assemble_array}
use sicapwap.WtpProtocol.Events.{
  DecryptErrors, offending_device, assemble_decrypt_error_report, assemble_duplicate_ipv6_address,
  assemble_one_decrypt_error_report,
}

too_long : (a b : ℕ) → b < a → leb a b ≡ false
too_long a b h = ground arith

-- Stores that find less room than they need.
store_raw_bytes-full :
    (d : Option ℕ) (front more : List ℕ) (free k : ℕ)
    → free < length more
    → store_raw_bytes (written d front free) more k ≡ fault
unfolding store_raw_bytes write_at
store_raw_bytes-full d front more free k h = rw (
    too_long (length front + length more) (length (front ++ replicate free 0))
      (omega (arith, length-append front (replicate free 0), length-replicate free zero)))

-- What is stored behind the creation of the buffer.
abbrev duplicate_stores : List ℕ → ℕ → Message → Exec Message
duplicate_stores address status m = do
  m ← store_raw_bytes m address
  m ← store8 m status
  m ← store8 m 6
  alloc
  m ← store_raw_bytes m offending_device
  assemble_msg_elem m 22

duplicate_stores-full :
    (d : Option ℕ) (address : List ℕ) (status k : ℕ)
    → duplicate_stores address status (written d [] (length address + 7)) (suc k) ≡ fault
duplicate_stores-full d address status k = rw (
  store_raw_bytes-written d [] 7 (suc k) address,
  store8-written d address 6 (suc k) status,
  store8-written d (address ++ be8 status) 5 (suc k) 6,
  store_raw_bytes-full d ((address ++ be8 status) ++ be8 6) offending_device 5 k (omega arith),
)

-- For every address of 16 bytes, CWAssembleMsgElemDuplicateIPv6Address stores a byte behind the
-- end of its buffer.
pub assemble_duplicate_ipv6_address-overflow :
    (m : Message) (address : List ℕ) (status k : ℕ)
    → length address ≡ 16
    → assemble_duplicate_ipv6_address m address status (suc (suc k)) ≡ fault
unfolding assemble_duplicate_ipv6_address
assemble_duplicate_ipv6_address-overflow m address status k size =
    subst (λ n. duplicate_stores address status (written m.data_msg_type [] n) (suc k) ≡ fault)
      {x = length address + 7} {y = 23} (omega arith)
      (duplicate_stores-full m.data_msg_type address status k)

abbrev report_stores : DecryptErrors → Message → Exec Message
report_stores r m = do
  m ← store8 m r.id
  m ← store8 m r.num_entries
  m ← store8 m (6 * r.num_entries)
  bytes ← read_at r.addresses 0 (6 * r.num_entries)
  m ← store_raw_bytes m bytes
  assemble_msg_elem m 15

store8-full : (d : Option ℕ) (front : List ℕ) (v k : ℕ) → store8 (written d front 0) v k ≡ fault
unfolding store8
store8-full d front v k = store_raw_bytes-full d front (be8 v) 0 k (omega arith)

-- What is read from the addresses.
read_at-start :
    (bytes : List ℕ) (n k : ℕ) → n ≤ length bytes → read_at bytes 0 n k ≡ ok (take n bytes, k)
unfolding read_at
read_at-start bytes n k given = rw (le→leb (0 + n) (length bytes) (omega arith))

report_stores-full :
    (r : DecryptErrors) (n k : ℕ)
    → 6 * r.num_entries ≡ n
    → n ≤ length r.addresses
    → report_stores r (written none [] (2 + n)) k ≡ fault
report_stores-full r zero k size given = rw (
  store8-written none [] 1 k r.id,
  store8-written none (be8 r.id) 0 k r.num_entries,
  store8-full none (be8 r.id ++ be8 r.num_entries) (6 * r.num_entries) k,
)
report_stores-full r (suc n) k size given =
    let front : List ℕ = (be8 r.id ++ be8 r.num_entries) ++ be8 (suc n) in
    let room : 2 + suc n ≡ 1 + (1 + (1 + n)) = omega arith in
    let bytes : List ℕ = take (suc n) r.addresses in
    rw (
      room,
      store8-written none [] (1 + (1 + n)) k r.id,
      store8-written none (be8 r.id) (1 + n) k r.num_entries,
      store8-written none (be8 r.id ++ be8 r.num_entries) n k (6 * r.num_entries),
      size,
      read_at-start r.addresses (suc n) k given,
      store_raw_bytes-full none front bytes n k (omega (arith, length-take (suc n) r.addresses)),
    )

one_report-overflow :
    (r : DecryptErrors) (k : ℕ)
    → 6 * r.num_entries ≤ length r.addresses
    → assemble_one_decrypt_error_report r (suc k) ≡ fault
unfolding assemble_one_decrypt_error_report
one_report-overflow r k given = report_stores-full r (6 * r.num_entries) k refl given

-- If the first report has the addresses that it counts, CWAssembleMsgElemDecryptErrorReport stores
-- a byte behind the end of its buffer.
pub assemble_decrypt_error_report-overflow :
    (m : Message) (r : DecryptErrors) (reports : List DecryptErrors) (k : ℕ)
    → 6 * r.num_entries ≤ length r.addresses
    → assemble_decrypt_error_report m (r ∷ reports) (suc (suc k)) ≡ fault
unfolding assemble_decrypt_error_report assemble_joined assemble_array
assemble_decrypt_error_report-overflow m r reports k given = rw (one_report-overflow r k given)
