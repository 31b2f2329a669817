-- ===== src/Vendor.antt =====
-- The vendor informations of WTPProtocol.c and ACProtocol.c: types, lengths and values that stand at
-- the end of the descriptors and of the board data.
pub mod RoundTrip
pub mod Count
use sicapwap.Prelude.{
  ℕ, zero, suc, ◌+◌, ◌-◌, Bool, true, false, Option, none, some, List, [], ◌∷◌, ltb, length,
}
use sicapwap.Exec.{Exec, pure, ◌>>=◌, ◌>>◌, raise, out_of_memory, no_fuel, alloc}
use sicapwap.Message.{
  Message, store16, store32, store_raw_bytes, retrieve16, retrieve32, retrieve_raw_bytes,
}

-- `CWWTPVendorInfoValues` and `CWACVendorInfoValues`. `value` are the `length` bytes behind
-- `valuePtr`, in the order of the host's memory.
pub record VendorInfo : Type 0 where
  pub vendor_identifier : ℕ
  pub type : ℕ
  pub value : List ℕ

-- `htonl` and `ntohl` in place, which is done to values of four bytes: the host is little-endian.
unfoldable pub net_order : List ℕ → List ℕ
net_order (a ∷ b ∷ c ∷ d ∷ []) = d ∷ c ∷ b ∷ a ∷ []
net_order bytes = bytes

-- Type, length and value of one.
unfoldable pub store_value : Message → VendorInfo → Exec Message
unfolding store16 store_raw_bytes
store_value m i = do
  m ← store16 m i.type
  m ← store16 m (length i.value)
  store_raw_bytes m (net_order i.value)

-- The loop of the board data, whose identifier stands in front of all.
unfoldable pub store_values : Message → List VendorInfo → Exec Message
store_values m [] = pure m
store_values m (i ∷ is) = do m ← store_value m i; store_values m is

-- The loop of the descriptors.
unfoldable pub store_infos : Message → List VendorInfo → Exec Message
unfolding store32
store_infos m [] = pure m
store_infos m (i ∷ is) = do m ← store32 m i.vendor_identifier; m ← store_value m i; store_infos m is

-- The first pass: how many there are. `old` is the offset at which the element begins, and `with_id`
-- says whether each has an identifier of its own.
unfoldable pub skip_id : Bool → Message → Exec Message
unfolding retrieve32
skip_id false m = pure m
skip_id true m = do (id, m) ← retrieve32 m; pure m

unfoldable pub count_infos : ℕ → Bool → ℕ → ℕ → Message → ℕ → Exec ℕ
unfolding retrieve16
count_infos zero with_id old len m count = no_fuel
count_infos (suc fuel) with_id old len m count = elim (ltb (m.offset - old) len) [
  | false ↦ pure count
  | true ↦ do
    m ← skip_id with_id m
    (type, m) ← retrieve16 m
    (tmp, m) ← retrieve16 m
    count_infos fuel with_id old len (record m { offset = m.offset + tmp }) (count + 1)
]

-- A value that cannot be copied ends the parser.
unfoldable pub check_value : ℕ → ℕ → Option (List ℕ) → Exec VendorInfo
check_value id type none = raise out_of_memory
check_value id type (some bytes) =
    pure (record { vendor_identifier = id; type = type; value = net_order bytes })

unfoldable pub parse_value : ℕ → Message → Exec (VendorInfo × Message)
unfolding retrieve16 retrieve_raw_bytes
parse_value id m = do
  (type, m) ← retrieve16 m
  (len, m) ← retrieve16 m
  (bytes, m) ← retrieve_raw_bytes m len
  i ← check_value id type bytes
  pure (i, m)

-- The second pass, by the rounds that are left.
unfoldable pub parse_values : ℕ → ℕ → Message → Exec (List VendorInfo × Message)
parse_values id zero m = pure ([], m)
parse_values id (suc left) m = do
  (i, m) ← parse_value id m
  (is, m) ← parse_values id left m
  pure (i ∷ is, m)

unfoldable pub parse_infos : ℕ → Message → Exec (List VendorInfo × Message)
unfolding retrieve32
parse_infos zero m = pure ([], m)
parse_infos (suc left) m = do
  (id, m) ← retrieve32 m
  (i, m) ← parse_value id m
  (is, m) ← parse_infos left m
  pure (i ∷ is, m)

-- Both passes. The element begins at `old`, and has `len` bytes; every round of the first pass moves
-- on by four bytes or more.
unfoldable pub parse_board_values : ℕ → ℕ → ℕ → Message → Exec (List VendorInfo × Message)
parse_board_values id old len m = do
  count ← count_infos (suc len) false old len m 0
  alloc
  parse_values id count m

unfoldable pub parse_vendor_infos : ℕ → ℕ → Message → Exec (List VendorInfo × Message)
parse_vendor_infos old len m = do
  count ← count_infos (suc len) true old len m 0
  alloc
  parse_infos count m
