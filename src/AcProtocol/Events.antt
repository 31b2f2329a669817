-- ===== src/AcProtocol/Events.antt =====
-- ACProtocol.c, the parsers of statistics, reports and radio states.
use sicapwap.Prelude.{
  ℕ, zero, suc, ◌-◌, ◌*◌, Option, none, some, List, [], ◌++◌, ltb, if◌then◌else◌,
}
use sicapwap.Exec.{Exec, pure, ◌>>=◌, ◌>>◌, access_fault, alloc}
use sicapwap.Message.{Message, retrieve8, retrieve16, retrieve32, retrieve_str, retrieve_raw_bytes}
use sicapwap.Element.{element}
use sicapwap.WtpProtocol.Events.{RadioStatistics, RebootStatistics, DecryptErrors}

-- A name of an access controller, behind its index.
unfoldable pub parse_ac_name_with_index : Message → ℕ → Exec ((ℕ × Option (List ℕ)) × Message)
unfolding retrieve8 retrieve_str
parse_ac_name_with_index m len =
    element
      (λ m. do
        (index, m) ← retrieve8 m
        (name, m) ← retrieve_str m (len - 1)
        pure ((index, name), m))
      m len

-- `WTPDuplicateIPv4` and `WTPDuplicateIPv6`. `device` is `none` where it is `NULL`.
pub record Duplicate (A : Type 0) : Type 0 where
  pub address : A
  pub status : ℕ
  pub device_length : ℕ
  pub device : Option (List ℕ)

unfoldable pub parse_duplicate_ipv4_address : Message → ℕ → Exec (Duplicate ℕ × Message)
unfolding retrieve8 retrieve32 retrieve_raw_bytes
parse_duplicate_ipv4_address m len =
    element
      (λ m. do
        (address, m) ← retrieve32 m
        (status, m) ← retrieve8 m
        (n, m) ← retrieve8 m
        (device, m) ← retrieve_raw_bytes m n
        pure (record { address = address; status = status; device_length = n; device = device }, m))
      m len

-- One byte through a buffer of its own, which is read in any case.
unfoldable pub parse_address_byte : Message → Exec (List ℕ × Message)
unfolding retrieve_raw_bytes
parse_address_byte m = do
  (aux, m) ← retrieve_raw_bytes m 1
  elim aux [ none ↦ access_fault | some bytes ↦ pure (bytes, m) ]

unfoldable pub parse_address_bytes : ℕ → Message → Exec (List ℕ × Message)
parse_address_bytes zero m = pure ([], m)
parse_address_bytes (suc left) m = do
  (byte, m) ← parse_address_byte m
  (bytes, m) ← parse_address_bytes left m
  pure (byte ++ bytes, m)

unfoldable pub parse_duplicate_ipv6_address : Message → ℕ → Exec (Duplicate (List ℕ) × Message)
unfolding retrieve8 retrieve_raw_bytes
parse_duplicate_ipv6_address m len =
    element
      (λ m. do
        (address, m) ← parse_address_bytes 16 m
        (status, m) ← retrieve8 m
        (n, m) ← retrieve8 m
        (device, m) ← retrieve_raw_bytes m n
        pure (record { address = address; status = status; device_length = n; device = device }, m))
      m len

-- `CWProtocolWTPDataTransferRequestValues`: the kind, the length, the text.
unfoldable pub parse_data_transfer_data : Message → ℕ → Exec ((ℕ × ℕ × Option (List ℕ)) × Message)
unfolding retrieve8 retrieve_str
parse_data_transfer_data m len =
    element
      (λ m. do
        (kind, m) ← retrieve8 m
        (n, m) ← retrieve8 m
        (text, m) ← retrieve_str m n
        pure ((kind, n, text), m))
      m len

unfoldable pub parse_wtp_reboot_statistics : Message → ℕ → Exec (RebootStatistics × Message)
unfolding retrieve8 retrieve16
parse_wtp_reboot_statistics m len =
    element
      (λ m. do
        (reboot, m) ← retrieve16 m
        (ac_initiated, m) ← retrieve16 m
        (link_failure, m) ← retrieve16 m
        (sw_failure, m) ← retrieve16 m
        (hw_failure, m) ← retrieve16 m
        (other_failure, m) ← retrieve16 m
        (unknown_failure, m) ← retrieve16 m
        (last_type, m) ← retrieve8 m
        pure (
          record {
            reboot_count = reboot;
            ac_initiated_count = ac_initiated;
            link_failure_count = link_failure;
            sw_failure_count = sw_failure;
            hw_failure_count = hw_failure;
            other_failure_count = other_failure;
            unknown_failure_count = unknown_failure;
            last_failure_type = last_type;
          },
          m,
        ))
      m len

-- The radio and its statistics.
unfoldable pub parse_wtp_radio_statistics : Message → ℕ → Exec ((ℕ × RadioStatistics) × Message)
unfolding retrieve8 retrieve16
parse_wtp_radio_statistics m len =
    element
      (λ m. do
        (id, m) ← retrieve8 m
        (last_type, m) ← retrieve8 m
        (reset, m) ← retrieve16 m
        (sw_failure, m) ← retrieve16 m
        (hw_failure, m) ← retrieve16 m
        (other_failure, m) ← retrieve16 m
        (unknown_failure, m) ← retrieve16 m
        (config_update, m) ← retrieve16 m
        (channel_change, m) ← retrieve16 m
        (band_change, m) ← retrieve16 m
        (noise_floor, m) ← retrieve16 m
        pure (
          (
            id,
            record {
              last_failure_type = last_type;
              reset_count = reset;
              sw_failure_count = sw_failure;
              hw_failure_count = hw_failure;
              other_failure_count = other_failure;
              unknown_failure_count = unknown_failure;
              config_update_count = config_update;
              channel_change_count = channel_change;
              band_change_count = band_change;
              current_noise_floor = noise_floor;
            },
          ),
          m,
        ))
      m len

-- The radio, the level of its queue, and its frames in a second.
unfoldable pub parse_wtp_operational_statistics : Message → ℕ → Exec ((ℕ × ℕ × ℕ) × Message)
unfolding retrieve8 retrieve16
parse_wtp_operational_statistics m len =
    element
      (λ m. do
        (id, m) ← retrieve8 m
        (level, m) ← retrieve8 m
        (frames, m) ← retrieve16 m
        pure ((id, level, frames), m))
      m len

-- `CW_COPY_MEMORY` from what was retrieved, which is not tested.
unfoldable pub parse_addresses : ℕ → Message → Exec (List ℕ × Message)
unfolding retrieve_raw_bytes
parse_addresses n m =
    if ltb 0 n
    then (do
      alloc
      (bytes, m) ← retrieve_raw_bytes m (6 * n)
      elim bytes [ none ↦ access_fault | some bytes ↦ pure (bytes, m) ])
    else pure ([], m)

unfoldable pub parse_decrypt_error_report : Message → ℕ → Exec ((ℕ × DecryptErrors) × Message)
unfolding retrieve8 parse_addresses
parse_decrypt_error_report m len =
    element
      (λ m. do
        (id, m) ← retrieve8 m
        (n, m) ← retrieve8 m
        (total, m) ← retrieve8 m
        (addresses, m) ← parse_addresses n m
        pure ((total, record { id = id; num_entries = n; addresses = addresses }), m))
      m len
