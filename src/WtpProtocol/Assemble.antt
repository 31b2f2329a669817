-- ===== src/WtpProtocol/Assemble.antt =====
-- WTPProtocol.c, the assemblers. What the getters of WTPProtocol_User.c return is an argument.
use sicapwap.Prelude.{ℕ, ◌+◌, List, [], ◌∷◌, length}
use sicapwap.Exec.{Exec, pure, ◌>>=◌, ◌>>◌, access_fault, alloc}
use sicapwap.Message.{Message, blank, create_message, store8, store16, store32, store_str}
use sicapwap.Element.{assemble_msg_elem}
use sicapwap.Fragment.{store_messages, elems_len}
use sicapwap.Vendor.{VendorInfo, store_values, store_infos}

-- The elements of an array, each assembled alone and all copied to one message.
unfoldable pub assemble_array {ℓ} : {A : Type ℓ} → (A → Exec Message) → List A → Exec (List Message)
assemble_array one [] = pure []
assemble_array one (a ∷ rest) = do m ← one a; ms ← assemble_array one rest; pure (m ∷ ms)

unfoldable pub assemble_joined {ℓ} :
    {A : Type ℓ} → Message → (A → Exec Message) → List A → Exec Message
unfolding create_message
assemble_joined m one values = do
  alloc
  msgs ← assemble_array one values
  m ← create_message m (elems_len msgs)
  store_messages m msgs

-- An element that is one string.
unfoldable pub assemble_string : Message → ℕ → List ℕ → Exec Message
unfolding create_message store_str assemble_msg_elem
assemble_string m type str = do
  m ← create_message m (length str)
  m ← store_str m str
  assemble_msg_elem m type

-- One byte, two bytes or four bytes.
unfoldable pub assemble_byte : Message → ℕ → ℕ → Exec Message
unfolding create_message store8 assemble_msg_elem
assemble_byte m type v = do m ← create_message m 1; m ← store8 m v; assemble_msg_elem m type

-- `CWAssembleMsgElemACName` of both programs.
abbrev pub assemble_ac_name : Message → List ℕ → Exec Message
assemble_ac_name m name = assemble_string m 4 name

-- One element for each name. The names with the indices 0 and 1 are freed after that; the getter
-- always gives two.
unfoldable pub assemble_ac_name_with_index : Message → List (ℕ × List ℕ) → Exec Message
unfolding create_message store8 store_str assemble_msg_elem
assemble_ac_name_with_index m names =
    assemble_joined m
      (λ name. do
        m ← create_message blank (1 + length name.1)
        m ← store8 m name.0
        m ← store_str m name.1
        assemble_msg_elem m 5)
      names

-- `debug` is the text that the source names.
unfoldable pub assemble_data_transfer_data : Message → ℕ → List ℕ → Exec Message
unfolding create_message store8 store_str assemble_msg_elem
assemble_data_transfer_data m data_type debug = do
  m ← create_message m (2 + length debug)
  m ← store8 m data_type
  m ← store8 m (length debug)
  m ← store_str m debug
  assemble_msg_elem m 13

abbrev pub assemble_discovery_type : Message → ℕ → Exec Message
assemble_discovery_type m type = assemble_byte m 20 type

abbrev pub assemble_location_data : Message → List ℕ → Exec Message
assemble_location_data m location = assemble_string m 28 location

unfoldable pub assemble_statistics_timer : Message → ℕ → Exec Message
unfolding create_message store16 assemble_msg_elem
assemble_statistics_timer m timer = do
  m ← create_message m 2
  m ← store16 m timer
  assemble_msg_elem m 36

-- What `CWWTPGetBoardData`, `CWWTPGetVendorInfos` and `CWACGetVendorInfos` do to make their
-- informations: the array is allocated, and then each value.
unfoldable pub alloc_values : List VendorInfo → Exec (Unit {0})
alloc_values [] = pure tt
alloc_values (i ∷ is) = do alloc; alloc_values is

unfoldable pub get_infos : List VendorInfo → Exec (List VendorInfo)
get_infos is = do alloc; alloc_values is; pure is

-- The identifier of the first information stands for all. Without one, the source reads behind an
-- empty array.
unfoldable pub values_size : List VendorInfo → ℕ
values_size [] = 0
values_size (i ∷ is) = 4 + length i.value + values_size is

unfoldable pub assemble_wtp_board_data : Message → List VendorInfo → Exec Message
unfolding create_message store32 assemble_msg_elem get_infos
assemble_wtp_board_data m [] = do infos ← get_infos []; m ← create_message m 4; access_fault
assemble_wtp_board_data m (i ∷ is) = do
  infos ← get_infos (i ∷ is)
  m ← create_message m (4 + values_size (i ∷ is))
  m ← store32 m i.vendor_identifier
  m ← store_values m (i ∷ is)
  assemble_msg_elem m 38

unfoldable pub infos_size : List VendorInfo → ℕ
infos_size [] = 0
infos_size (i ∷ is) = 8 + length i.value + infos_size is

-- `CWWTPDescriptor`.
pub record WtpDescriptor : Type 0 where
  pub max_radios : ℕ
  pub radios_in_use : ℕ
  pub enc_capabilities : ℕ
  pub vendor_infos : List VendorInfo

unfoldable pub assemble_wtp_descriptor : Message → WtpDescriptor → Exec Message
unfolding create_message store8 store16 assemble_msg_elem get_infos
assemble_wtp_descriptor m v = do
  infos ← get_infos v.vendor_infos
  m ← create_message m (4 + infos_size v.vendor_infos)
  m ← store8 m v.max_radios
  m ← store8 m v.radios_in_use
  m ← store16 m v.enc_capabilities
  m ← store_infos m v.vendor_infos
  assemble_msg_elem m 39

abbrev pub assemble_wtp_frame_tunnel_mode : Message → ℕ → Exec Message
assemble_wtp_frame_tunnel_mode m mode = assemble_byte m 41 mode

unfoldable pub assemble_wtp_ipv4_address : Message → ℕ → Exec Message
unfolding create_message store32 assemble_msg_elem
assemble_wtp_ipv4_address m address = do
  m ← create_message m 4
  m ← store32 m address
  assemble_msg_elem m 42

abbrev pub assemble_wtp_mac_type : Message → ℕ → Exec Message
assemble_wtp_mac_type m type = assemble_byte m 43 type

abbrev pub assemble_wtp_name : Message → List ℕ → Exec Message
assemble_wtp_name m name = assemble_string m 44 name
