-- ===== src/WtpProtocol/Parse.antt =====
-- WTPProtocol.c, the parsers of the elements that an access controller sends.
use sicapwap.Prelude.{
  ℕ, zero, suc, ◌/◌, ◌%◌, ◌||◌, not, Option, none, some, List, [], ◌∷◌, ◌==◌, leb, if◌then◌else◌,
  length,
}
use sicapwap.Exec.{Exec, pure, ◌>>=◌, ◌>>◌, raise, invalid_format, access_fault, alloc}
use sicapwap.Message.{Message, retrieve8, retrieve16, retrieve32, retrieve_raw_bytes}
use sicapwap.Element.{element, element_from}
use sicapwap.Vendor.{parse_vendor_infos}
use sicapwap.AcProtocol.Assemble.{AcDescriptor}

unfoldable pub parse_ac_descriptor : Message → ℕ → Exec (AcDescriptor × Message)
unfolding retrieve8 retrieve16
parse_ac_descriptor m len =
    element_from
      (λ old m. do
        (stations, m) ← retrieve16 m
        (limit, m) ← retrieve16 m
        (active, m) ← retrieve16 m
        (max, m) ← retrieve16 m
        (security, m) ← retrieve8 m
        (rmac, m) ← retrieve8 m
        (reserved, m) ← retrieve8 m
        (policy, m) ← retrieve8 m
        (infos, m) ← parse_vendor_infos old len m
        pure (
          record {
            stations = stations;
            limit = limit;
            active_wtps = active;
            max_wtps = max;
            security = security;
            rmac_field = rmac;
            dtls_policy = policy;
            vendor_infos = infos;
          },
          m,
        ))
      m len

unfoldable pub parse_addresses : ℕ → Message → Exec (List ℕ × Message)
unfolding retrieve32
parse_addresses zero m = pure ([], m)
parse_addresses (suc left) m = do
  (a, m) ← retrieve32 m
  (rest, m) ← parse_addresses left m
  pure (a ∷ rest, m)

unfoldable pub parse_ac_ipv4_list : Message → ℕ → Exec (List ℕ × Message)
parse_ac_ipv4_list m len =
    if (len == 0) || not (len % 4 == 0)
    then raise invalid_format
    else element (λ m. alloc >> parse_addresses (len / 4) m) m len

-- 16 bytes that are copied from a buffer which is not tested.
unfoldable pub parse_raw_address : Message → Exec (List ℕ × Message)
unfolding retrieve_raw_bytes
parse_raw_address m = do
  (ptr, m) ← retrieve_raw_bytes m 16
  elim ptr [ none ↦ access_fault | some bytes ↦ pure (bytes, m) ]

unfoldable pub parse_raw_addresses : ℕ → Message → Exec (List (List ℕ) × Message)
parse_raw_addresses zero m = pure ([], m)
parse_raw_addresses (suc left) m = do
  (a, m) ← parse_raw_address m
  (rest, m) ← parse_raw_addresses left m
  pure (a ∷ rest, m)

unfoldable pub parse_ac_ipv6_list : Message → ℕ → Exec (List (List ℕ) × Message)
parse_ac_ipv6_list m len =
    if (len == 0) || not (len % 16 == 0)
    then raise invalid_format
    else element (λ m. alloc >> parse_raw_addresses (len / 16) m) m len

-- Six bytes of the address are printed, however many were retrieved.
unfoldable pub print_station : Option (List ℕ) → Exec (Unit {0})
print_station none = access_fault
print_station (some mac) = if leb 6 (length mac) then pure tt else access_fault

unfoldable pub parse_add_station : Message → ℕ → Exec ((ℕ × ℕ × Option (List ℕ)) × Message)
unfolding retrieve8 retrieve_raw_bytes print_station
parse_add_station m len =
    element
      (λ m. do
        (id, m) ← retrieve8 m
        (n, m) ← retrieve8 m
        (mac, m) ← retrieve_raw_bytes m n
        print_station mac
        pure ((id, n, mac), m))
      m len

-- `CWProtocolIPv4NetworkInterface`: the address and the number of termination points; family and
-- port are constants.
unfoldable pub parse_control_ipv4_addresses : Message → ℕ → Exec ((ℕ × ℕ) × Message)
unfolding retrieve16 retrieve32
parse_control_ipv4_addresses m len =
    element
      (λ m. do (address, m) ← retrieve32 m; (count, m) ← retrieve16 m; pure ((address, count), m)) m
      len

unfoldable pub parse_control_ipv6_addresses : Message → ℕ → Exec ((List ℕ × ℕ) × Message)
unfolding retrieve16
parse_control_ipv6_addresses m len =
    element
      (λ m. do
        (address, m) ← parse_raw_address m
        (count, m) ← retrieve16 m
        pure ((address, count), m))
      m len

-- The discovery timer and the echo timer.
unfoldable pub parse_cw_timers : Message → ℕ → Exec ((ℕ × ℕ) × Message)
unfolding retrieve8
parse_cw_timers m len =
    element
      (λ m. do (discovery, m) ← retrieve8 m; (echo, m) ← retrieve8 m; pure ((discovery, echo), m)) m
      len

unfoldable pub parse_decrypt_error_report_period : Message → ℕ → Exec ((ℕ × ℕ) × Message)
unfolding retrieve8 retrieve16
parse_decrypt_error_report_period m len =
    element (λ m. do (id, m) ← retrieve8 m; (interval, m) ← retrieve16 m; pure ((id, interval), m))
      m len

unfoldable pub parse_idle_timeout : Message → ℕ → Exec (ℕ × Message)
unfolding retrieve32
parse_idle_timeout m len = element retrieve32 m len

unfoldable pub parse_wtp_fallback : Message → ℕ → Exec (ℕ × Message)
unfolding retrieve8
parse_wtp_fallback m len = element retrieve8 m len
