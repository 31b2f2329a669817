-- ===== src/AcProtocol/Parse.antt =====
-- ACProtocol.c, the parsers of the elements that a termination point sends.
use sicapwap.Prelude.{ℕ, Option, List}
use sicapwap.Exec.{Exec, pure, ◌>>=◌}
use sicapwap.Message.{Message, retrieve8, retrieve16, retrieve32, retrieve_str}
use sicapwap.Element.{element, element_from}
use sicapwap.Vendor.{VendorInfo, parse_board_values, parse_vendor_infos}
use sicapwap.WtpProtocol.Assemble.{WtpDescriptor}

-- One number of 8, 16 or 32 bits.
unfoldable pub parse_byte : Message → ℕ → Exec (ℕ × Message)
unfolding retrieve8
parse_byte m len = element retrieve8 m len

-- A string that takes the whole element. `none` is the `NULL` of a failed allocation; the source
-- tests the wrong pointer for it.
unfoldable pub parse_string : Message → ℕ → Exec (Option (List ℕ) × Message)
unfolding retrieve_str
parse_string m len = element (λ m. retrieve_str m len) m len

abbrev pub parse_discovery_type : Message → ℕ → Exec (ℕ × Message)
parse_discovery_type = parse_byte

abbrev pub parse_location_data : Message → ℕ → Exec (Option (List ℕ) × Message)
parse_location_data = parse_string

unfoldable pub parse_session_id : Message → ℕ → Exec (ℕ × Message)
unfolding retrieve32
parse_session_id m len = element retrieve32 m len

unfoldable pub parse_wtp_statistics_timer : Message → ℕ → Exec (ℕ × Message)
unfolding retrieve16
parse_wtp_statistics_timer m len = element retrieve16 m len

unfoldable pub parse_wtp_board_data : Message → ℕ → Exec (List VendorInfo × Message)
unfolding retrieve32
parse_wtp_board_data m len =
    element_from (λ old m. do (id, m) ← retrieve32 m; parse_board_values id old len m) m len

unfoldable pub parse_wtp_descriptor : Message → ℕ → Exec (WtpDescriptor × Message)
unfolding retrieve8 retrieve16
parse_wtp_descriptor m len =
    element_from
      (λ old m. do
        (max, m) ← retrieve8 m
        (in_use, m) ← retrieve8 m
        (enc, m) ← retrieve16 m
        (infos, m) ← parse_vendor_infos old len m
        pure (
          record {
            max_radios = max;
            radios_in_use = in_use;
            enc_capabilities = enc;
            vendor_infos = infos;
          },
          m,
        ))
      m len

abbrev pub parse_wtp_frame_tunnel_mode : Message → ℕ → Exec (ℕ × Message)
parse_wtp_frame_tunnel_mode = parse_byte

-- The address as a number, whose bytes `htonl` puts in network order; family and port are constants.
unfoldable pub parse_wtp_ipv4_address : Message → ℕ → Exec (ℕ × Message)
unfolding retrieve32
parse_wtp_ipv4_address m len = element retrieve32 m len

abbrev pub parse_wtp_mac_type : Message → ℕ → Exec (ℕ × Message)
parse_wtp_mac_type = parse_byte

abbrev pub parse_wtp_name : Message → ℕ → Exec (Option (List ℕ) × Message)
parse_wtp_name = parse_string
