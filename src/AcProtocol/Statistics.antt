-- ===== src/AcProtocol/Statistics.antt =====
-- Statistics that a termination point sends, as the access controller reads them.
use sicapwap.Prelude.{
  ℕ, suc, ◌<◌, ◌≡◌, refl, true, false, Option, List, [], ◌∷◌, ◌++◌, arith, length, length-append,
  leb,
}
use sicapwap.Exec.{ok, raised, fault, wrong_arg}
use sicapwap.Message.{Message, be8, be16}
use sicapwap.Message.Written.{written}
use sicapwap.Message.Reads.{Reads, Reads-pure, Reads-then, Reads-return, Reads8_fits, Reads16_fits}
use sicapwap.Message.Reading.{reading}
use sicapwap.Message.Writes.{Writes8, Writes16}
use sicapwap.Element.RoundTrip.{element_bytes}
use sicapwap.Element.Body.{Reads-element}
use sicapwap.Element.Filled.{Completes-end, Completes-then, Completes-last, Completes-created}
use sicapwap.WtpProtocol.Events.{
  RebootStatistics, RadioStatistics, Radio, entry, assemble_wtp_reboot_statistics,
  assemble_wtp_radio_statistics, assemble_wtp_operational_statistics,
}
use sicapwap.AcProtocol.Events.{
  parse_wtp_reboot_statistics, parse_wtp_radio_statistics, parse_wtp_operational_statistics,
}

abbrev pub reboot_bytes : RebootStatistics → List ℕ
reboot_bytes s =
    be16 s.reboot_count
    ++ (be16 s.ac_initiated_count
        ++ (be16 s.link_failure_count
            ++ (be16 s.sw_failure_count
                ++ (be16 s.hw_failure_count
                    ++ (be16 s.other_failure_count
                        ++ (be16 s.unknown_failure_count ++ be8 s.last_failure_type))))))

-- Each count fits its width.
pub record IsReboot (s : RebootStatistics) : Type 0 where
  pub reboot_fits : s.reboot_count < 65536
  pub ac_initiated_fits : s.ac_initiated_count < 65536
  pub link_failure_fits : s.link_failure_count < 65536
  pub sw_failure_fits : s.sw_failure_count < 65536
  pub hw_failure_fits : s.hw_failure_count < 65536
  pub other_failure_fits : s.other_failure_count < 65536
  pub unknown_failure_fits : s.unknown_failure_count < 65536
  pub last_fits : s.last_failure_type < 256

pub reboot-written :
    (s : RebootStatistics) (m : Message) (k : ℕ)
    → assemble_wtp_reboot_statistics m s (suc (suc k))
      ≡ ok (written m.data_msg_type (element_bytes 47 (reboot_bytes s)) 2, k)
unfolding assemble_wtp_reboot_statistics
reboot-written s m k =
    Completes-created 15 refl
      (Completes-then _ (Writes16 s.reboot_count) (
        Completes-then _ (Writes16 s.ac_initiated_count) (
          Completes-then _ (Writes16 s.link_failure_count) (
            Completes-then _ (Writes16 s.sw_failure_count) (
              Completes-then _ (Writes16 s.hw_failure_count) (
                Completes-then _ (Writes16 s.other_failure_count) (
                  Completes-then _ (Writes16 s.unknown_failure_count)
                    (Completes-last _ (Writes8 s.last_failure_type) (Completes-end 47)))))))))
      m k

pub reboot-Reads :
    (s : RebootStatistics)
    → IsReboot s
    → Reads 0 (λ m. parse_wtp_reboot_statistics m 15) (reboot_bytes s) s
unfolding parse_wtp_reboot_statistics
reboot-Reads s fits =
    Reads-element
      (Reads-then _ (Reads16_fits s.reboot_count fits.reboot_fits) (
        Reads-then _ (Reads16_fits s.ac_initiated_count fits.ac_initiated_fits) (
          Reads-then _ (Reads16_fits s.link_failure_count fits.link_failure_fits) (
            Reads-then _ (Reads16_fits s.sw_failure_count fits.sw_failure_fits) (
              Reads-then _ (Reads16_fits s.hw_failure_count fits.hw_failure_fits) (
                Reads-then _ (Reads16_fits s.other_failure_count fits.other_failure_fits) (
                  Reads-then _ (Reads16_fits s.unknown_failure_count fits.unknown_failure_fits) (
                    Reads-return _ (Reads8_fits s.last_failure_type fits.last_fits)
                      (Reads-pure s)))))))))
      15 refl

abbrev pub radio_bytes : ℕ → RadioStatistics → List ℕ
radio_bytes id s =
    be8 id
    ++ (be8 s.last_failure_type
        ++ (be16 s.reset_count
            ++ (be16 s.sw_failure_count
                ++ (be16 s.hw_failure_count
                    ++ (be16 s.other_failure_count
                        ++ (be16 s.unknown_failure_count
                            ++ (be16 s.config_update_count
                                ++ (be16 s.channel_change_count
                                    ++ (be16 s.band_change_count
                                        ++ be16 s.current_noise_floor)))))))))

pub record IsRadio (r : Radio) : Type 0 where
  pub level_fits : r.tx_queue_level < 256
  pub frames_fit : r.wireless_link_frames_per_sec < 65536
  pub last_fits : r.statistics.last_failure_type < 256
  pub reset_fits : r.statistics.reset_count < 65536
  pub sw_failure_fits : r.statistics.sw_failure_count < 65536
  pub hw_failure_fits : r.statistics.hw_failure_count < 65536
  pub other_failure_fits : r.statistics.other_failure_count < 65536
  pub unknown_failure_fits : r.statistics.unknown_failure_count < 65536
  pub config_update_fits : r.statistics.config_update_count < 65536
  pub channel_change_fits : r.statistics.channel_change_count < 65536
  pub band_change_fits : r.statistics.band_change_count < 65536
  pub noise_floor_fits : r.statistics.current_noise_floor < 65536

entry-append {ℓ} :
    {A : Type ℓ} (before : List A) (a : A) (after : List A) (k : ℕ)
    → entry (before ++ (a ∷ after)) (length before) k ≡ ok (a, k)
unfolding entry
entry-append [] a after k = refl
entry-append (b ∷ before) a after k = entry-append before a after k

lt→leb : (a b : ℕ) → a < b → leb b a ≡ false
lt→leb a b h = ground arith

-- The radio that has so many in front of it.
module _ (before after : List Radio) (r : Radio) where
  abbrev all_radios : List Radio
  all_radios = before ++ (r ∷ after)

  more_radios : length before < length all_radios
  more_radios = omega (arith, length-append before (r ∷ after))

  operational-written :
      (m : Message) (k : ℕ)
      → assemble_wtp_operational_statistics m all_radios (length before) (suc (suc k))
        ≡ ok (
          written m.data_msg_type
              (element_bytes 45 (
                be8 (length before)
                ++ (be8 r.tx_queue_level ++ be16 r.wireless_link_frames_per_sec)))
              2,
          k,
        )
  unfolding assemble_wtp_operational_statistics sicapwap.Element.assemble_msg_elem
  operational-written m k =
      rw
        (
          lt→leb (length before) (length all_radios) more_radios,
          entry-append before r after (suc k),
        )
        ((Completes-then _ (Writes8 (length before)) (
            Completes-then _ (Writes8 r.tx_queue_level)
              (Completes-last _ (Writes16 r.wireless_link_frames_per_sec) (Completes-end 45)))).run
          m.data_msg_type [] k)

  radio-written :
      (m : Message) (k : ℕ)
      → assemble_wtp_radio_statistics m all_radios (length before) (suc (suc k))
        ≡ ok (
          written m.data_msg_type (element_bytes 46 (radio_bytes (length before) r.statistics)) 2,
          k,
        )
  unfolding assemble_wtp_radio_statistics sicapwap.Element.assemble_msg_elem
  radio-written m k =
      let s : RadioStatistics = r.statistics in
      rw
        (
          lt→leb (length before) (suc (length all_radios)) (omega (arith, more_radios)),
          entry-append before r after (suc k),
        )
        ((Completes-then _ (Writes8 (length before)) (
            Completes-then _ (Writes8 s.last_failure_type) (
              Completes-then _ (Writes16 s.reset_count) (
                Completes-then _ (Writes16 s.sw_failure_count) (
                  Completes-then _ (Writes16 s.hw_failure_count) (
                    Completes-then _ (Writes16 s.other_failure_count) (
                      Completes-then _ (Writes16 s.unknown_failure_count) (
                        Completes-then _ (Writes16 s.config_update_count) (
                          Completes-then _ (Writes16 s.channel_change_count) (
                            Completes-then _ (Writes16 s.band_change_count) (
                              Completes-last _ (Writes16 s.current_noise_floor)
                                (Completes-end 46)))))))))))).run
          m.data_msg_type [] k)

radio-Reads :
    (id : ℕ) (r : Radio)
    → id < 256
    → IsRadio r
    → Reads 0
        (λ m. parse_wtp_radio_statistics m 20)
        (radio_bytes id r.statistics)
        (id, r.statistics)
unfolding parse_wtp_radio_statistics
radio-Reads id r small fits =
    let s : RadioStatistics = r.statistics in
    Reads-element
      (Reads-then _ (Reads8_fits id small) (
        Reads-then _ (Reads8_fits s.last_failure_type fits.last_fits) (
          Reads-then _ (Reads16_fits s.reset_count fits.reset_fits) (
            Reads-then _ (Reads16_fits s.sw_failure_count fits.sw_failure_fits) (
              Reads-then _ (Reads16_fits s.hw_failure_count fits.hw_failure_fits) (
                Reads-then _ (Reads16_fits s.other_failure_count fits.other_failure_fits) (
                  Reads-then _ (Reads16_fits s.unknown_failure_count fits.unknown_failure_fits) (
                    Reads-then _ (Reads16_fits s.config_update_count fits.config_update_fits) (
                      Reads-then _ (Reads16_fits s.channel_change_count fits.channel_change_fits) (
                        Reads-then _ (Reads16_fits s.band_change_count fits.band_change_fits) (
                          Reads-return _ (Reads16_fits s.current_noise_floor fits.noise_floor_fits)
                            (Reads-pure (id, s)))))))))))))
      20 refl

operational-Reads :
    (id : ℕ) (r : Radio)
    → id < 256
    → IsRadio r
    → Reads 0
        (λ m. parse_wtp_operational_statistics m 4)
        (be8 id ++ (be8 r.tx_queue_level ++ be16 r.wireless_link_frames_per_sec))
        (id, r.tx_queue_level, r.wireless_link_frames_per_sec)
unfolding parse_wtp_operational_statistics
operational-Reads id r small fits =
    Reads-element
      (Reads-then _ (Reads8_fits id small) (
        Reads-then _ (Reads8_fits r.tx_queue_level fits.level_fits) (
          Reads-return _ (Reads16_fits r.wireless_link_frames_per_sec fits.frames_fit)
            (Reads-pure (id, r.tx_queue_level, r.wireless_link_frames_per_sec)))))
      4 refl

-- CWParseWTPRebootStatistics reads the reboot statistics from the body of the element, if each count
-- fits its width and the allocations succeed.
pub reboot_statistics-read :
    (s : RebootStatistics) (m : Message) (d : Option ℕ) (front rest : List ℕ) (j k : ℕ)
    → IsReboot s
    → (assemble_wtp_reboot_statistics m s (suc (suc k))
        ≡ ok (written m.data_msg_type (element_bytes 47 (reboot_bytes s)) 2, k))
      × (parse_wtp_reboot_statistics (reading d front (reboot_bytes s ++ rest)) 15 j
          ≡ ok ((s, reading d (front ++ reboot_bytes s) rest), j))
reboot_statistics-read s m d front rest j k fits =
    (reboot-written s m k, (reboot-Reads s fits).run d front rest j)

-- CWParseWTPRadioStatistics reads from the element of CWAssembleMsgElemWTPRadioStatistics the
-- index and the statistics of the radio, if each fits its width and the allocations succeed.
pub radio_statistics-read :
    (before after : List Radio) (r : Radio) (m : Message) (d : Option ℕ) (front rest : List ℕ)
    (j k : ℕ)
    → length before < 256
    → IsRadio r
    → (assemble_wtp_radio_statistics m (before ++ (r ∷ after)) (length before) (suc (suc k))
        ≡ ok (
          written m.data_msg_type (element_bytes 46 (radio_bytes (length before) r.statistics)) 2,
          k,
        ))
      × (parse_wtp_radio_statistics
            (reading d front (radio_bytes (length before) r.statistics ++ rest))
            20
            j
          ≡ ok (
            (
              (length before, r.statistics),
              reading d (front ++ radio_bytes (length before) r.statistics) rest,
            ),
            j,
          ))
radio_statistics-read before after r m d front rest j k small fits = (
  radio-written before after r m k,
  (radio-Reads (length before) r small fits).run d front rest j,
)

no_entry {ℓ} : {A : Type ℓ} (radios : List A) (k : ℕ) → entry radios (length radios) k ≡ fault
unfolding entry
no_entry [] k = refl
no_entry (r ∷ radios) k = no_entry radios k

not_above : (n : ℕ) → leb (suc n) n ≡ false
not_above n = ground arith

reached : (n : ℕ) → leb n n ≡ true
reached n = ground arith

-- For the index that is the number of the radios, CWAssembleMsgElemWTPOperationalStatistics raises
-- a wrong argument, while CWAssembleMsgElemWTPRadioStatistics reads behind the array.
pub statistics-past_end :
    (radios : List Radio) (m : Message) (k : ℕ)
    → (assemble_wtp_operational_statistics m radios (length radios) (suc k) ≡ raised wrong_arg)
      × (assemble_wtp_radio_statistics m radios (length radios) (suc k) ≡ fault)
unfolding assemble_wtp_operational_statistics assemble_wtp_radio_statistics
statistics-past_end radios m k =
    (rw (reached (length radios)), rw (not_above (length radios), no_entry radios k))
