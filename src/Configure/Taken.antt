-- ===== src/Configure/Taken.antt =====
-- The elements of the Configure Request are counted in the first round, and read in the second.
use sicapwap.Prelude.{ℕ, ◌+◌, ◌≡◌, refl, List, [], ◌∷◌, All, arith, length, length-append}
use sicapwap.Message.{be16}
use sicapwap.Message.Reads.{Reads-return, Reads-pure, Reads16_fits}
use sicapwap.Element.{RadioState}
use sicapwap.Element.Body.{Reads-element}
use sicapwap.AcProtocol.Parse.{parse_wtp_statistics_timer}
use sicapwap.AcProtocol.Statistics.{reboot_bytes, reboot-Reads}
use sicapwap.ElementLoop.Taken.{AreTaken}
use sicapwap.ElementLoop.Twice.{Reads-skip, Reads-put_into, Reads-alloc}
use sicapwap.ElementLoop.Many.{AreTaken-many}
use sicapwap.Configure.{WtpState, ConfigureRequest, configure_request_count, configure_request_read}
use sicapwap.Configure.Pieces.{
  IsRadio, IsIndexed, IsWtpState, name_bytes, radio_bytes, read_name, read_radio,
  Reads-parse_ac_name, Reads-parse_ac_name_with_index, Reads-parse_wtp_radio_admin_state,
  count_name, count_radio, keep_name, keep_radio, names_leave_radios, counted_end, counted_pieces,
  read_end, read_pieces,
}

module _ (w : WtpState) (fits : IsWtpState w) where
  -- Nothing is known of the values while names and radios are counted.
  NamesFit : List (ℕ × List ℕ) → ConfigureRequest → Type 0
  NamesFit names v = All IsIndexed names

  RadiosFit : List RadioState → ConfigureRequest → Type 0
  RadiosFit radios v = All IsRadio radios

  -- While they are read, the arrays have room for those that are left.
  NamesHaveRoom : List (ℕ × List ℕ) → ConfigureRequest → Type 0
  NamesHaveRoom names v =
      All IsIndexed names × (length v.ac_names + length names ≡ v.ac_names_count)

  RadiosHaveRoom : List RadioState → ConfigureRequest → Type 0
  RadiosHaveRoom radios v = All IsRadio radios × (length v.radios + length radios ≡ v.radios_count)

  counted_end-AreTaken : (v : ConfigureRequest) → AreTaken configure_request_count v (counted_end w)
  unfolding configure_request_count parse_wtp_statistics_timer
  counted_end-AreTaken v = (
    record {
      type_fits = omega arith;
      length_fits = omega arith;
      takes =
          Reads-return _ (Reads-element (Reads16_fits w.statistics_timer fits.timer_fits) 2 refl)
            (Reads-pure _);
    },
    (
      record {
        type_fits = omega arith;
        length_fits = omega arith;
        takes =
            Reads-alloc
              (Reads-return _ (reboot-Reads w.reboot_statistics fits.reboot_fits) (Reads-pure _));
      },
      tt,
    ),
  )

  pub counted-AreTaken :
      (v : ConfigureRequest) → AreTaken configure_request_count v (counted_pieces w)
  unfolding configure_request_count NamesFit RadiosFit
  counted-AreTaken v = (
    record {
      type_fits = omega arith;
      length_fits = fits.name_fits;
      takes = Reads-return _ (Reads-parse_ac_name w.ac_name) (Reads-pure _);
    },
    AreTaken-many 5 name_bytes 0 count_name configure_request_count NamesFit
        (λ name rest v (fit, more). (
          record {
            type_fits = omega arith;
            length_fits = omega (arith, fit.name_fits);
            takes = Reads-skip (name_bytes name) (count_name name v);
          },
          more,
        ))
        w.ac_names _ _ fits.names_fit
        (AreTaken-many 31 radio_bytes 0 count_radio configure_request_count RadiosFit
          (λ r rest v (fit, more). (
            record {
              type_fits = omega arith;
              length_fits = omega arith;
              takes = Reads-skip (radio_bytes r) (count_radio r v);
            },
            more,
          ))
          w.radios _ _ fits.radios_fit (counted_end-AreTaken _)),
  )

  read_end-AreTaken :
      (unset : ℕ) (v : ConfigureRequest) → AreTaken (configure_request_read unset) v (read_end w)
  unfolding configure_request_read
  read_end-AreTaken unset v = (
    record {
      type_fits = omega arith;
      length_fits = omega arith;
      takes = Reads-skip (be16 w.statistics_timer) v;
    },
    (
      record {
        type_fits = omega arith;
        length_fits = omega arith;
        takes = Reads-skip (reboot_bytes w.reboot_statistics) v;
      },
      tt,
    ),
  )

  pub read-AreTaken :
      (unset : ℕ) (v : ConfigureRequest)
      → length v.ac_names + length w.ac_names ≡ v.ac_names_count
      → length v.radios + length w.radios ≡ v.radios_count
      → AreTaken (configure_request_read unset) v (read_pieces w unset)
  unfolding configure_request_read NamesHaveRoom RadiosHaveRoom
  read-AreTaken unset v room radios_room = (
    record {
      type_fits = omega arith;
      length_fits = fits.name_fits;
      takes = Reads-skip w.ac_name v;
    },
    AreTaken-many 5 name_bytes 1 keep_name (configure_request_read unset) NamesHaveRoom
        (λ name rest v ((fit, more), left). (
          record {
            type_fits = omega arith;
            length_fits = omega (arith, fit.name_fits);
            takes =
                Reads-put_into v.ac_names_count v.ac_names (λ s. record v { ac_names = s })
                  (Reads-parse_ac_name_with_index name fit) (omega arith);
          },
          (more, omega (arith, length-append v.ac_names (read_name name ∷ []))),
        ))
        w.ac_names _ v (fits.names_fit, room)
        (AreTaken-many 31 radio_bytes 0 (keep_radio unset) (configure_request_read unset)
          RadiosHaveRoom
          (λ r rest v ((fit, more), left). (
            record {
              type_fits = omega arith;
              length_fits = omega arith;
              takes =
                  Reads-put_into v.radios_count v.radios (λ s. record v { radios = s })
                    (Reads-parse_wtp_radio_admin_state unset r fit) (omega arith);
            },
            (more, omega (arith, length-append v.radios (read_radio unset r ∷ []))),
          ))
          w.radios _ _ (fits.radios_fit, names_leave_radios w.ac_names w.radios v radios_room)
          (read_end-AreTaken unset _)),
  )
