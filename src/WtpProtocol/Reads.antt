-- ===== src/WtpProtocol/Reads.antt =====
-- What the termination point reads from the elements of an access controller.
use sicapwap.Prelude.{
  ℕ, suc, ◌*◌, ◌/◌, ◌%◌, ◌<◌, ◌≡◌, refl, List, [], ◌∷◌, ◌++◌, All, arith, length, ne→==, ==_refl,
  ◌≢◌,
}
use sicapwap.Message.{be8, be16, be32}
use sicapwap.Message.Reads.{
  Reads, Reads-pure, Reads-then, Reads-return, Reads8_fits, Reads16_fits, Reads32_fits,
  Reads-raw_fits,
}
use sicapwap.Element.Body.{
  ReadsAt-then, ReadsAt-return, Reads-element, Reads-element_from, bytes_between,
}
use sicapwap.Vendor.RoundTrip.{IsStorable}
use sicapwap.Vendor.Count.{ReadsAt-parse_vendor_infos}
use sicapwap.AcProtocol.Assemble.{AcDescriptor, Interface}
use sicapwap.AcProtocol.Written.{
  ac_descriptor_bytes, addresses_bytes, raw_bytes, length-addresses_bytes, length-raw_bytes,
}
use sicapwap.WtpProtocol.Parse.{
  parse_ac_descriptor, parse_addresses, parse_ac_ipv4_list, parse_raw_address, parse_raw_addresses,
  parse_ac_ipv6_list, parse_control_ipv4_addresses, parse_cw_timers,
  parse_decrypt_error_report_period, parse_idle_timeout, parse_wtp_fallback,
}

-- Each field of a descriptor fits its width.
pub record IsAcDescriptor (v : AcDescriptor) : Type 0 where
  pub stations_fit : v.stations < 65536
  pub limit_fits : v.limit < 65536
  pub active_fit : v.active_wtps < 65536
  pub max_fit : v.max_wtps < 65536
  pub security_fits : v.security < 256
  pub rmac_fits : v.rmac_field < 256
  pub policy_fits : v.dtls_policy < 256
  pub infos_fit : All IsStorable v.vendor_infos

pub Reads-parse_ac_descriptor :
    (v : AcDescriptor)
    → IsAcDescriptor v
    → Reads
        (suc (length v.vendor_infos))
        (λ m. parse_ac_descriptor m (length (ac_descriptor_bytes v)))
        (ac_descriptor_bytes v)
        v
unfolding parse_ac_descriptor
Reads-parse_ac_descriptor v fits = Reads-element_from (length (ac_descriptor_bytes v)) refl λ old.
    ReadsAt-then _ (Reads16_fits v.stations fits.stations_fit) (
      ReadsAt-then _ (Reads16_fits v.limit fits.limit_fits) (
        ReadsAt-then _ (Reads16_fits v.active_wtps fits.active_fit) (
          ReadsAt-then _ (Reads16_fits v.max_wtps fits.max_fit) (
            ReadsAt-then _ (Reads8_fits v.security fits.security_fits) (
              ReadsAt-then _ (Reads8_fits v.rmac_field fits.rmac_fits) (
                ReadsAt-then _ (Reads8_fits 0 (omega arith)) (
                  ReadsAt-then _ (Reads8_fits v.dtls_policy fits.policy_fits) (
                    ReadsAt-return _
                      (ReadsAt-parse_vendor_infos v.vendor_infos fits.infos_fit (omega arith))
                      (Reads-pure v)))))))))

-- The addresses one by one.
Reads-parse_addresses :
    (addresses : List ℕ)
    → All (λ a. a < 4294967296) addresses
    → Reads 0 (λ m. parse_addresses (length addresses) m) (addresses_bytes addresses) addresses
unfolding parse_addresses
Reads-parse_addresses [] fits = Reads-pure []
Reads-parse_addresses (a ∷ rest) (fit, fits) =
    Reads-then _ (Reads32_fits a fit)
      (Reads-return _ (Reads-parse_addresses rest fits) (Reads-pure (a ∷ rest)))

Reads-parse_raw_address : (a : List ℕ) → length a ≡ 16 → Reads 1 parse_raw_address a a
unfolding parse_raw_address
Reads-parse_raw_address a size = Reads-return _ (Reads-raw_fits a 16 size) (Reads-pure a)

Reads-parse_raw_addresses :
    (addresses : List (List ℕ))
    → All (λ a. length a ≡ 16) addresses
    → Reads
        (length addresses)
        (λ m. parse_raw_addresses (length addresses) m)
        (raw_bytes addresses)
        addresses
unfolding parse_raw_addresses
Reads-parse_raw_addresses [] sizes = Reads-pure []
Reads-parse_raw_addresses (a ∷ rest) (size, sizes) =
    Reads-then _ (Reads-parse_raw_address a size)
      (Reads-return _ (Reads-parse_raw_addresses rest sizes) (Reads-pure (a ∷ rest)))

-- A list that is not empty is read whole.
pub Reads-parse_ac_ipv4_list :
    (addresses : List ℕ) (len : ℕ)
    → length addresses ≢ 0
    → len ≡ 4 * length addresses
    → All (λ a. a < 4294967296) addresses
    → Reads 1 (λ m. parse_ac_ipv4_list m len) (addresses_bytes addresses) addresses
unfolding parse_ac_ipv4_list
Reads-parse_ac_ipv4_list addresses len some_left size fits =
    let some_bytes : len ≢ 0 = λ e. some_left (omega arith) in
    let whole : len % 4 ≡ 0 = omega arith in
    let number : len / 4 ≡ length addresses = omega arith in
    let bytes : length (addresses_bytes addresses) ≡ len =
      omega (arith, length-addresses_bytes addresses) in
    record {
      run = λ d front rest k. rw (
        ne→== len 0 some_bytes,
        whole,
        number,
        (Reads-parse_addresses addresses fits).run d front rest k,
        bytes_between front (addresses_bytes addresses),
        bytes,
        ==_refl len,
      );
    }

pub Reads-parse_ac_ipv6_list :
    (addresses : List (List ℕ)) (len : ℕ)
    → length addresses ≢ 0
    → len ≡ 16 * length addresses
    → All (λ a. length a ≡ 16) addresses
    → Reads (suc (length addresses)) (λ m. parse_ac_ipv6_list m len) (raw_bytes addresses) addresses
unfolding parse_ac_ipv6_list
Reads-parse_ac_ipv6_list addresses len some_left size sizes =
    let some_bytes : len ≢ 0 = λ e. some_left (omega arith) in
    let whole : len % 16 ≡ 0 = omega arith in
    let number : len / 16 ≡ length addresses = omega arith in
    let bytes : length (raw_bytes addresses) ≡ len =
      omega (arith, length-raw_bytes addresses sizes) in
    record {
      run = λ d front rest k. rw (
        ne→== len 0 some_bytes,
        whole,
        number,
        (Reads-parse_raw_addresses addresses sizes).run d front rest k,
        bytes_between front (raw_bytes addresses),
        bytes,
        ==_refl len,
      );
    }

pub Reads-parse_control_ipv4_addresses :
    (i : Interface)
    → i.ipv4_address < 4294967296
    → i.wtp_count < 65536
    → Reads 0
        (λ m. parse_control_ipv4_addresses m 6)
        (be32 i.ipv4_address ++ be16 i.wtp_count)
        (i.ipv4_address, i.wtp_count)
unfolding parse_control_ipv4_addresses
Reads-parse_control_ipv4_addresses i address_fits count_fits =
    Reads-element
      (Reads-then _ (Reads32_fits i.ipv4_address address_fits) (
        Reads-return _ (Reads16_fits i.wtp_count count_fits)
          (Reads-pure (i.ipv4_address, i.wtp_count))))
      6 refl

pub Reads-parse_cw_timers :
    (discovery echo : ℕ)
    → discovery < 256
    → echo < 256
    → Reads 0 (λ m. parse_cw_timers m 2) (be8 discovery ++ be8 echo) (discovery, echo)
unfolding parse_cw_timers
Reads-parse_cw_timers discovery echo discovery_fits echo_fits =
    Reads-element
      (Reads-then _ (Reads8_fits discovery discovery_fits)
        (Reads-return _ (Reads8_fits echo echo_fits) (Reads-pure (discovery, echo))))
      2 refl

pub Reads-parse_decrypt_error_report_period :
    (id interval : ℕ)
    → id < 256
    → interval < 65536
    → Reads 0 (λ m. parse_decrypt_error_report_period m 3) (be8 id ++ be16 interval) (id, interval)
unfolding parse_decrypt_error_report_period
Reads-parse_decrypt_error_report_period id interval id_fits interval_fits =
    Reads-element
      (Reads-then _ (Reads8_fits id id_fits)
        (Reads-return _ (Reads16_fits interval interval_fits) (Reads-pure (id, interval))))
      3 refl

pub Reads-parse_idle_timeout :
    (v : ℕ) → v < 4294967296 → Reads 0 (λ m. parse_idle_timeout m 4) (be32 v) v
unfolding parse_idle_timeout
Reads-parse_idle_timeout v fits = Reads-element (Reads32_fits v fits) 4 refl

pub Reads-parse_wtp_fallback : (v : ℕ) → v < 256 → Reads 0 (λ m. parse_wtp_fallback m 1) (be8 v) v
unfolding parse_wtp_fallback
Reads-parse_wtp_fallback v fits = Reads-element (Reads8_fits v fits) 1 refl
