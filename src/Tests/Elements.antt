-- ===== src/Tests/Elements.antt =====
-- ACProtocol.c, WTPProtocol.c and the messages made of their elements, at concrete values.
use sicapwap.Prelude.{ℕ, ◌≡◌, refl, false, none, List, [], ◌∷◌, ◌++◌, arith}
use sicapwap.Exec.{ok, raised, fault, wrong_arg}
use sicapwap.Message.{blank}
use sicapwap.Message.Written.{written}
use sicapwap.Message.Reading.{reading}
use sicapwap.Element.RoundTrip.{element_bytes}
use sicapwap.Header.RoundTrip.{header_bytes, control_bytes}
use sicapwap.Fragment.{fragments_num, whole_values}
use sicapwap.Receive.{received, receive_message}
use sicapwap.Receive.AnyOrder.{enough}
use sicapwap.Vendor.{net_order}
use sicapwap.WtpProtocol.Events.{
  Radio, assemble_duplicate_ipv6_address, assemble_decrypt_error_report,
  assemble_wtp_radio_statistics, assemble_wtp_operational_statistics,
}
use sicapwap.WtpProtocol.Overflow.{
  assemble_duplicate_ipv6_address-overflow, assemble_decrypt_error_report-overflow,
}
use sicapwap.WtpProtocol.Parse.{parse_ac_descriptor, parse_ac_ipv6_list}
use sicapwap.WtpProtocol.RoundTrip.{ac_descriptor-read, ac_ipv6_list-read}
use sicapwap.AcProtocol.Assemble.{AcDescriptor, assemble_ac_descriptor, assemble_ac_ipv6_list}
use sicapwap.AcProtocol.Written.{ac_descriptor_bytes, raw_bytes}
use sicapwap.AcProtocol.Events.{parse_wtp_radio_statistics}
use sicapwap.AcProtocol.Statistics.{radio_bytes, radio_statistics-read, statistics-past_end}
use sicapwap.Configure.{
  WtpState, ConfigureRequest, Configuration, assemble_configure_request, parse_configure_request,
  save_configure_request,
}
use sicapwap.Configure.Received.{request_of, configuration_of, configure_request-received}
use sicapwap.Configure.Received

-- Two names with an index, and two radios.
abbrev some_state : WtpState
some_state = record {
  ac_name = 1 ∷ [];
  ac_names = (0, 65 ∷ []) ∷ (1, 66 ∷ 67 ∷ []) ∷ [];
  radios = record { id = 0; state = 1; cause = 2 } ∷ record { id = 1; state = 2; cause = 2 } ∷ [];
  statistics_timer = 300;
  reboot_statistics = record {
    reboot_count = 1;
    ac_initiated_count = 2;
    link_failure_count = 3;
    sw_failure_count = 4;
    hw_failure_count = 5;
    other_failure_count = 6;
    unknown_failure_count = 7;
    last_failure_type = 8;
  };
}

abbrev no_request : ConfigureRequest
no_request = record {
  ac_name = none;
  ac_names_count = 3;
  ac_names = [];
  radios_count = 4;
  radios = [];
  statistics_timer = 0;
  reboot_statistics = some_state.reboot_statistics;
}

abbrev no_configuration : Configuration
no_configuration = record {
  ac_name = none;
  ac_names_count = 0;
  ac_names = [];
  radios_count = 0;
  radios = [];
  statistics_timer = 0;
  reboot_statistics = some_state.reboot_statistics;
}

configure_request-received_example :
    let bytes : List ℕ = Received.request_bytes some_state 5 in
    let packet : List ℕ = header_bytes (whole_values none 0) ++ bytes in
    (assemble_configure_request 7 1500 5 0 some_state 25 ≡ ok (written none packet 0 ∷ [], 0))
    × (receive_message (record { packet = packet; grants = enough } ∷ []) []
        ≡ received false (written none bytes 0) [])
    × (parse_configure_request 9 bytes 63 no_request 6 ≡ ok ((5, request_of some_state 9), 0))
    × (save_configure_request (request_of some_state 9) no_configuration
        ≡ configuration_of some_state 9)
unfolding fragments_num control_bytes
configure_request-received_example =
    configure_request-received some_state 7 1500 5 0 9 0 0 no_request no_configuration [] []
      (record {
        name_fits = omega arith;
        names_fit = (
          record { index_fits = omega arith; name_fits = omega arith },
          (record { index_fits = omega arith; name_fits = omega arith }, tt),
        );
        radios_fit = (
          record { id_fits = omega arith; state_fits = omega arith },
          (record { id_fits = omega arith; state_fits = omega arith }, tt),
        );
        timer_fits = omega arith;
        reboot_fits = record {
          reboot_fits = omega arith;
          ac_initiated_fits = omega arith;
          link_failure_fits = omega arith;
          sw_failure_fits = omega arith;
          hw_failure_fits = omega arith;
          other_failure_fits = omega arith;
          unknown_failure_fits = omega arith;
          last_fits = omega arith;
        };
      })
      (omega arith) (omega arith) refl

abbrev some_radio : Radio
some_radio = record {
  tx_queue_level = 3;
  wireless_link_frames_per_sec = 400;
  statistics = record {
    last_failure_type = 1;
    reset_count = 2;
    sw_failure_count = 3;
    hw_failure_count = 4;
    other_failure_count = 5;
    unknown_failure_count = 6;
    config_update_count = 7;
    channel_change_count = 8;
    band_change_count = 9;
    current_noise_floor = 65000;
  };
}

-- The second radio of two.
radio_statistics-read_example :
    (assemble_wtp_radio_statistics blank (some_radio ∷ some_radio ∷ []) 1 2
      ≡ ok (written none (element_bytes 46 (radio_bytes 1 some_radio.statistics)) 2, 0))
    × (parse_wtp_radio_statistics
          (reading none (9 ∷ []) (radio_bytes 1 some_radio.statistics ++ (8 ∷ [])))
          20
          0
        ≡ ok (
          (
            (1, some_radio.statistics),
            reading none ((9 ∷ []) ++ radio_bytes 1 some_radio.statistics) (8 ∷ []),
          ),
          0,
        ))
radio_statistics-read_example =
    radio_statistics-read (some_radio ∷ []) [] some_radio blank none (9 ∷ []) (8 ∷ []) 0 0
      (omega arith)
      (record {
        level_fits = omega arith;
        frames_fit = omega arith;
        last_fits = omega arith;
        reset_fits = omega arith;
        sw_failure_fits = omega arith;
        hw_failure_fits = omega arith;
        other_failure_fits = omega arith;
        unknown_failure_fits = omega arith;
        config_update_fits = omega arith;
        channel_change_fits = omega arith;
        band_change_fits = omega arith;
        noise_floor_fits = omega arith;
      })

statistics-past_end_example :
    (assemble_wtp_operational_statistics blank (some_radio ∷ []) 1 1 ≡ raised wrong_arg)
    × (assemble_wtp_radio_statistics blank (some_radio ∷ []) 1 1 ≡ fault)
statistics-past_end_example = statistics-past_end (some_radio ∷ []) blank 0

abbrev address : List ℕ
address = 1 ∷ 2 ∷ 3 ∷ 4 ∷ 5 ∷ 6 ∷ 7 ∷ 8 ∷ 9 ∷ 10 ∷ 11 ∷ 12 ∷ 13 ∷ 14 ∷ 15 ∷ 16 ∷ []

assemble_duplicate_ipv6_address-overflow_example :
    assemble_duplicate_ipv6_address blank address 1 2 ≡ fault
assemble_duplicate_ipv6_address-overflow_example =
    assemble_duplicate_ipv6_address-overflow blank address 1 0 refl

assemble_decrypt_error_report-overflow_example :
    assemble_decrypt_error_report blank
      (record { id = 0; num_entries = 2; addresses = address } ∷ [])
      2
    ≡ fault
assemble_decrypt_error_report-overflow_example =
    assemble_decrypt_error_report-overflow blank
      (record { id = 0; num_entries = 2; addresses = address }) [] 0 (omega arith)

abbrev some_descriptor : AcDescriptor
some_descriptor = record {
  stations = 300;
  limit = 1000;
  active_wtps = 2;
  max_wtps = 10;
  security = 4;
  rmac_field = 1;
  dtls_policy = 2;
  vendor_infos = record { vendor_identifier = 23456; type = 4; value = 1 ∷ 2 ∷ 3 ∷ 4 ∷ [] } ∷ [];
}

ac_descriptor-read_example :
    (assemble_ac_descriptor blank some_descriptor 4
      ≡ ok (written none (element_bytes 1 (ac_descriptor_bytes some_descriptor)) 2, 0))
    × (parse_ac_descriptor
          (reading none (9 ∷ []) (ac_descriptor_bytes some_descriptor ++ (8 ∷ [])))
          24
          2
        ≡ ok (
          (
            some_descriptor,
            reading none ((9 ∷ []) ++ ac_descriptor_bytes some_descriptor) (8 ∷ []),
          ),
          0,
        ))
unfolding net_order
ac_descriptor-read_example =
    ac_descriptor-read blank none (9 ∷ []) (8 ∷ []) 0 0 some_descriptor (record {
      stations_fit = omega arith;
      limit_fits = omega arith;
      active_fit = omega arith;
      max_fit = omega arith;
      security_fits = omega arith;
      rmac_fits = omega arith;
      policy_fits = omega arith;
      infos_fit = (
        record { id_fits = omega arith; type_fits = omega arith; length_fits = omega arith },
        tt,
      );
    })

ac_ipv6_list-read_example :
    (assemble_ac_ipv6_list blank (address ∷ []) 3
      ≡ ok (written none (element_bytes 3 (raw_bytes (address ∷ []))) 2, 0))
    × (parse_ac_ipv6_list (reading none [] (raw_bytes (address ∷ []) ++ (8 ∷ []))) 16 2
        ≡ ok ((address ∷ [], reading none (raw_bytes (address ∷ [])) (8 ∷ [])), 0))
ac_ipv6_list-read_example =
    ac_ipv6_list-read blank none [] (8 ∷ []) 0 0 (address ∷ []) (omega arith) (refl, tt)
