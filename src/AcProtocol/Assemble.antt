-- ===== src/AcProtocol/Assemble.antt =====
-- ACProtocol.c, the assemblers. What the getters of ACProtocol_User.c return is an argument.
use sicapwap.Prelude.{ℕ, suc, ◌+◌, ◌*◌, ◌/◌, ◌%◌, List, [], ◌∷◌, length}
use sicapwap.Exec.{Exec, pure, ◌>>=◌, ◌>>◌, raise, need_resource, alloc}
use sicapwap.Message.{
  Message, blank, create_message, store8, store16, store32, store_raw_bytes, store_message,
}
use sicapwap.Element.{assemble_msg_elem, assemble_unchecked}
use sicapwap.Vendor.{VendorInfo, store_infos}
use sicapwap.WtpProtocol.Assemble.{assemble_joined, get_infos, infos_size}

-- What the descriptor says of an access controller. `gACHWVersion` and `gACSWVersion` stand in its
-- vendor informations.
pub record AcDescriptor : Type 0 where
  pub stations : ℕ
  pub limit : ℕ
  pub active_wtps : ℕ
  pub max_wtps : ℕ
  pub security : ℕ
  pub rmac_field : ℕ
  pub dtls_policy : ℕ
  pub vendor_infos : List VendorInfo

-- An `int` in the memory of a little-endian host.
abbrev pub host_int : ℕ → List ℕ
host_int v = (v % 256) ∷ (v / 256 % 256) ∷ (v / 65536 % 256) ∷ (v / 16777216 % 256) ∷ []

-- `CWACGetVendorInfos`: the hardware and the software version.
abbrev pub ac_vendor_infos : ℕ → ℕ → List VendorInfo
ac_vendor_infos hw_version sw_version =
    record { vendor_identifier = 65432; type = 4; value = host_int hw_version }
    ∷ record { vendor_identifier = 65432; type = 5; value = host_int sw_version }
    ∷ []

unfoldable pub assemble_ac_descriptor : Message → AcDescriptor → Exec Message
unfolding create_message store8 store16 assemble_msg_elem get_infos
assemble_ac_descriptor m v = do
  infos ← get_infos v.vendor_infos
  m ← create_message m (infos_size v.vendor_infos + 12)
  m ← store16 m v.stations
  m ← store16 m v.limit
  m ← store16 m v.active_wtps
  m ← store16 m v.max_wtps
  m ← store8 m v.security
  m ← store8 m v.rmac_field
  m ← store8 m 0
  m ← store8 m v.dtls_policy
  m ← store_infos m v.vendor_infos
  assemble_msg_elem m 1

-- `CWACGetACIPv4List` allocates the list.
unfoldable pub store_addresses : Message → List ℕ → Exec Message
unfolding store32
store_addresses m [] = pure m
store_addresses m (a ∷ rest) = do m ← store32 m a; store_addresses m rest

unfoldable pub assemble_ac_ipv4_list : Message → List ℕ → Exec Message
unfolding create_message assemble_msg_elem
assemble_ac_ipv4_list m addresses = do
  alloc
  m ← create_message m (4 * length addresses)
  m ← store_addresses m addresses
  assemble_msg_elem m 2

-- Addresses of 16 bytes.
unfoldable pub store_raw_addresses : Message → List (List ℕ) → Exec Message
unfolding store_raw_bytes
store_raw_addresses m [] = pure m
store_raw_addresses m (a ∷ rest) = do m ← store_raw_bytes m a; store_raw_addresses m rest

unfoldable pub assemble_ac_ipv6_list : Message → List (List ℕ) → Exec Message
unfolding create_message assemble_msg_elem
assemble_ac_ipv6_list m addresses = do
  alloc
  m ← create_message m (16 * length addresses)
  m ← store_raw_addresses m addresses
  assemble_msg_elem m 3

unfoldable pub assemble_add_station : Message → ℕ → List ℕ → Exec Message
unfolding create_message store8 store_raw_bytes assemble_msg_elem
assemble_add_station m radio_id mac = do
  m ← create_message m 8
  m ← store8 m radio_id
  m ← store8 m 6
  m ← store_raw_bytes m mac
  assemble_msg_elem m 8

-- `gInterfaces[…]`.
pub record Interface : Type 0 where
  pub ipv4_address : ℕ
  pub ipv6_address : List ℕ
  pub wtp_count : ℕ

unfoldable pub one_control_ipv4_address : Interface → Exec Message
unfolding create_message store16 store32 assemble_unchecked
one_control_ipv4_address i = do
  m ← create_message blank 6
  m ← store32 m i.ipv4_address
  m ← store16 m i.wtp_count
  assemble_unchecked m 10

unfoldable pub one_control_ipv6_address : Interface → Exec Message
unfolding create_message store16 store_raw_bytes assemble_unchecked
one_control_ipv6_address i = do
  m ← create_message blank 18
  m ← store_raw_bytes m i.ipv6_address
  m ← store16 m i.wtp_count
  assemble_unchecked m 11

-- One element for each interface, in a buffer whose size the first of them sets.
unfoldable pub more_interfaces :
    (Interface → Exec Message) → Message → List Interface → Exec Message
more_interfaces one m [] = pure m
more_interfaces one m (i ∷ rest) = do
  temp ← one i
  m ← store_message m temp
  more_interfaces one m rest

unfoldable pub assemble_interfaces :
    (Interface → Exec Message) → Message → Interface → List Interface → Exec Message
unfolding more_interfaces
assemble_interfaces one m i rest = do
  temp ← one i
  m ← create_message m (temp.offset * suc (length rest))
  m ← store_message m temp
  more_interfaces one m rest

unfoldable pub assemble_control_ipv4_addresses : Message → List Interface → Exec Message
assemble_control_ipv4_addresses m [] = raise need_resource
assemble_control_ipv4_addresses m (i ∷ rest) = assemble_interfaces one_control_ipv4_address m i rest

-- Without an interface, the message stays as it was.
unfoldable pub assemble_control_ipv6_addresses : Message → List Interface → Exec Message
assemble_control_ipv6_addresses m [] = pure m
assemble_control_ipv6_addresses m (i ∷ rest) = assemble_interfaces one_control_ipv6_address m i rest

unfoldable pub assemble_cw_timer : Message → ℕ → ℕ → Exec Message
unfolding create_message store8 assemble_msg_elem
assemble_cw_timer m discovery_timer echo_timer = do
  m ← create_message m 2
  m ← store8 m discovery_timer
  m ← store8 m echo_timer
  assemble_msg_elem m 12

abbrev pub report_interval : ℕ
report_interval = 15

-- One element for each radio, by its id.
unfoldable pub assemble_decrypt_error_report_period : Message → List ℕ → Exec Message
unfolding create_message store8 store16 assemble_msg_elem
assemble_decrypt_error_report_period m radio_ids =
    assemble_joined m
      (λ id. do
        m ← create_message blank 3
        m ← store8 m id
        m ← store16 m report_interval
        assemble_msg_elem m 16)
      radio_ids

unfoldable pub assemble_idle_timeout : Message → ℕ → Exec Message
unfolding create_message store32 assemble_msg_elem
assemble_idle_timeout m timeout = do
  m ← create_message m 4
  m ← store32 m timeout
  assemble_msg_elem m 23

unfoldable pub assemble_wtp_fallback : Message → Exec Message
unfolding create_message store8 assemble_msg_elem
assemble_wtp_fallback m = do m ← create_message m 1; m ← store8 m 0; assemble_msg_elem m 40
