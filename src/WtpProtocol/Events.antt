-- ===== src/WtpProtocol/Events.antt =====
-- WTPProtocol.c, the assemblers of statistics, reports and radio states.
use sicapwap.Prelude.{ℕ, zero, suc, ◌+◌, ◌*◌, List, [], ◌∷◌, leb, if◌then◌else◌, length}
use sicapwap.Exec.{Exec, pure, ◌>>=◌, ◌>>◌, raise, wrong_arg, access_fault, alloc}
use sicapwap.Message.{
  Message, blank, create_message, read_at, store8, store16, store32, store_raw_bytes,
}
use sicapwap.Element.{assemble_msg_elem, assemble_unchecked, RadioState}
use sicapwap.WtpProtocol.Assemble.{assemble_joined}

-- `WTPRadioStatisticsInfo`: a `short int` is the 16 bits that are sent.
pub record RadioStatistics : Type 0 where
  pub last_failure_type : ℕ
  pub reset_count : ℕ
  pub sw_failure_count : ℕ
  pub hw_failure_count : ℕ
  pub other_failure_count : ℕ
  pub unknown_failure_count : ℕ
  pub config_update_count : ℕ
  pub channel_change_count : ℕ
  pub band_change_count : ℕ
  pub current_noise_floor : ℕ

-- `gRadiosInfo.radiosInfo[…]`, as far as it is sent.
pub record Radio : Type 0 where
  pub tx_queue_level : ℕ
  pub wireless_link_frames_per_sec : ℕ
  pub statistics : RadioStatistics

-- The entry of an array: reading behind its end is a fault.
unfoldable pub entry {ℓ} : {A : Type ℓ} → List A → ℕ → Exec A
entry [] i = access_fault
entry (a ∷ rest) zero = pure a
entry (a ∷ rest) (suc i) = entry rest i

unfoldable pub assemble_wtp_operational_statistics : Message → List Radio → ℕ → Exec Message
unfolding create_message store8 store16 assemble_unchecked entry
assemble_wtp_operational_statistics m radios i =
    if leb (length radios) i then raise wrong_arg else (do
      m ← create_message m 4
      r ← entry radios i
      m ← store8 m i
      m ← store8 m r.tx_queue_level
      m ← store16 m r.wireless_link_frames_per_sec
      assemble_unchecked m 45)

-- The index may be the number of radios, for all that the test says.
unfoldable pub assemble_wtp_radio_statistics : Message → List Radio → ℕ → Exec Message
unfolding create_message store8 store16 assemble_unchecked entry
assemble_wtp_radio_statistics m radios i =
    if leb (suc (length radios)) i then raise wrong_arg else (do
      m ← create_message m 20
      r ← entry radios i
      let s = r.statistics
      m ← store8 m i
      m ← store8 m s.last_failure_type
      m ← store16 m s.reset_count
      m ← store16 m s.sw_failure_count
      m ← store16 m s.hw_failure_count
      m ← store16 m s.other_failure_count
      m ← store16 m s.unknown_failure_count
      m ← store16 m s.config_update_count
      m ← store16 m s.channel_change_count
      m ← store16 m s.band_change_count
      m ← store16 m s.current_noise_floor
      assemble_unchecked m 46)

-- `WTPRebootStatisticsInfo`.
pub record RebootStatistics : Type 0 where
  pub reboot_count : ℕ
  pub ac_initiated_count : ℕ
  pub link_failure_count : ℕ
  pub sw_failure_count : ℕ
  pub hw_failure_count : ℕ
  pub other_failure_count : ℕ
  pub unknown_failure_count : ℕ
  pub last_failure_type : ℕ

-- `CWWTPResetRebootStatistics`.
abbrev pub no_reboots : RebootStatistics
no_reboots = record {
  reboot_count = 0;
  ac_initiated_count = 0;
  link_failure_count = 0;
  sw_failure_count = 0;
  hw_failure_count = 0;
  other_failure_count = 0;
  unknown_failure_count = 0;
  last_failure_type = 0;
}

unfoldable pub assemble_wtp_reboot_statistics : Message → RebootStatistics → Exec Message
unfolding create_message store8 store16 assemble_msg_elem
assemble_wtp_reboot_statistics m s = do
  m ← create_message m 15
  m ← store16 m s.reboot_count
  m ← store16 m s.ac_initiated_count
  m ← store16 m s.link_failure_count
  m ← store16 m s.sw_failure_count
  m ← store16 m s.hw_failure_count
  m ← store16 m s.other_failure_count
  m ← store16 m s.unknown_failure_count
  m ← store8 m s.last_failure_type
  assemble_msg_elem m 47

-- The hardware address that the source sets.
abbrev pub offending_device : List ℕ
offending_device = 103 ∷ 204 ∷ 204 ∷ 190 ∷ 180 ∷ 0 ∷ []

unfoldable pub assemble_duplicate_ipv4_address : Message → ℕ → ℕ → Exec Message
unfolding create_message store8 store32 store_raw_bytes assemble_msg_elem
assemble_duplicate_ipv4_address m address status = do
  m ← create_message m 11
  m ← store32 m address
  m ← store8 m status
  m ← store8 m 6
  alloc
  m ← store_raw_bytes m offending_device
  assemble_msg_elem m 21

-- The address has 16 bytes. The buffer has 23, and 24 are stored.
unfoldable pub assemble_duplicate_ipv6_address : Message → List ℕ → ℕ → Exec Message
unfolding create_message store8 store_raw_bytes assemble_msg_elem
assemble_duplicate_ipv6_address m address status = do
  m ← create_message m 23
  m ← store_raw_bytes m address
  m ← store8 m status
  m ← store8 m 6
  alloc
  m ← store_raw_bytes m offending_device
  assemble_msg_elem m 22

-- `CWGetWTPRadiosAdminState` allocates the array of the radios; the cause is not sent.
unfoldable pub assemble_radio_admin_state : Message → List RadioState → Exec Message
unfolding create_message store8 assemble_msg_elem
assemble_radio_admin_state m radios = do
  alloc
  assemble_joined m
      (λ r. do
        m ← create_message blank 2
        m ← store8 m r.id
        m ← store8 m r.state
        assemble_msg_elem m 31)
      radios

-- The radios that `CWGetWTPRadiosOperationalState` returns; both programs have this assembler.
unfoldable pub assemble_radio_operational_state : Message → List RadioState → Exec Message
unfolding create_message store8 assemble_msg_elem
assemble_radio_operational_state m radios = do
  alloc
  assemble_joined m
      (λ r. do
        m ← create_message blank 3
        m ← store8 m r.id
        m ← store8 m r.state
        m ← store8 m r.cause
        assemble_msg_elem m 32)
      radios

-- `CWDecryptErrorReportValues`: the addresses one after the other, six bytes each.
pub record DecryptErrors : Type 0 where
  pub id : ℕ
  pub num_entries : ℕ
  pub addresses : List ℕ

-- The report of one radio. Its buffer has two bytes and the addresses.
unfoldable pub assemble_one_decrypt_error_report : DecryptErrors → Exec Message
unfolding create_message read_at store8 store_raw_bytes assemble_msg_elem
assemble_one_decrypt_error_report r = do
  m ← create_message blank (2 + 6 * r.num_entries)
  m ← store8 m r.id
  m ← store8 m r.num_entries
  m ← store8 m (6 * r.num_entries)
  bytes ← read_at r.addresses 0 (6 * r.num_entries)
  m ← store_raw_bytes m bytes
  assemble_msg_elem m 15

-- The reports that `CWGetDecryptErrorReport` returns.
unfoldable pub assemble_decrypt_error_report : Message → List DecryptErrors → Exec Message
unfolding assemble_one_decrypt_error_report
assemble_decrypt_error_report m reports =
    assemble_joined m assemble_one_decrypt_error_report reports
