-- ===== src/AcProtocol/Reads.antt =====
-- What the access controller reads from the elements of a termination point.
use sicapwap.Prelude.{ℕ, suc, ◌<◌, ◌≡◌, refl, some, List, [], ◌∷◌, ◌++◌, All, arith, length}
use sicapwap.Message.{be8, be32}
use sicapwap.Message.Reads.{Reads, Reads-pure, Reads8_fits, Reads16_fits, Reads32_fits, Reads-str}
use sicapwap.Element.Body.{ReadsAt-then, ReadsAt-return, Reads-element, Reads-element_from}
use sicapwap.Vendor.{VendorInfo}
use sicapwap.Vendor.RoundTrip.{IsStorable}
use sicapwap.Vendor.Count.{ReadsAt-parse_vendor_infos, ReadsAt-parse_board_values}
use sicapwap.WtpProtocol.Assemble.{WtpDescriptor}
use sicapwap.WtpProtocol.Written.{descriptor_bytes, board_bytes}
use sicapwap.AcProtocol.Parse.{
  parse_byte, parse_string, parse_session_id, parse_wtp_board_data, parse_wtp_descriptor,
  parse_wtp_ipv4_address,
}

pub Reads-parse_byte : (v : ℕ) → v < 256 → Reads 0 (λ m. parse_byte m 1) (be8 v) v
unfolding parse_byte
Reads-parse_byte v fits = Reads-element (Reads8_fits v fits) 1 refl

pub Reads-parse_string :
    (str : List ℕ) → Reads 1 (λ m. parse_string m (length str)) str (some (str ++ (0 ∷ [])))
unfolding parse_string
Reads-parse_string str = Reads-element (Reads-str str) (length str) refl

pub Reads-parse_session_id :
    (id : ℕ) → id < 4294967296 → Reads 0 (λ m. parse_session_id m 4) (be32 id) id
unfolding parse_session_id
Reads-parse_session_id id fits = Reads-element (Reads32_fits id fits) 4 refl

pub Reads-parse_wtp_ipv4_address :
    (a : ℕ) → a < 4294967296 → Reads 0 (λ m. parse_wtp_ipv4_address m 4) (be32 a) a
unfolding parse_wtp_ipv4_address
Reads-parse_wtp_ipv4_address a fits = Reads-element (Reads32_fits a fits) 4 refl

-- Each field of a descriptor fits its width.
pub record IsDescriptor (v : WtpDescriptor) : Type 0 where
  pub max_fits : v.max_radios < 256
  pub in_use_fits : v.radios_in_use < 256
  pub enc_fits : v.enc_capabilities < 65536
  pub infos_fit : All IsStorable v.vendor_infos

pub Reads-parse_wtp_descriptor :
    (v : WtpDescriptor)
    → IsDescriptor v
    → Reads
        (suc (length v.vendor_infos))
        (λ m. parse_wtp_descriptor m (length (descriptor_bytes v)))
        (descriptor_bytes v)
        v
unfolding parse_wtp_descriptor
Reads-parse_wtp_descriptor v fits = Reads-element_from (length (descriptor_bytes v)) refl λ old.
    ReadsAt-then _ (Reads8_fits v.max_radios fits.max_fits) (
      ReadsAt-then _ (Reads8_fits v.radios_in_use fits.in_use_fits) (
        ReadsAt-then _ (Reads16_fits v.enc_capabilities fits.enc_fits) (
          ReadsAt-return _ (ReadsAt-parse_vendor_infos v.vendor_infos fits.infos_fit (omega arith))
            (Reads-pure v))))

-- The board data of one identifier.
pub Reads-parse_wtp_board_data :
    (i : VendorInfo) (is : List VendorInfo)
    → All IsStorable (i ∷ is)
    → All (λ j. j.vendor_identifier ≡ i.vendor_identifier) (i ∷ is)
    → Reads
        (suc (length (i ∷ is)))
        (λ m. parse_wtp_board_data m (length (board_bytes i is)))
        (board_bytes i is)
        (i ∷ is)
unfolding parse_wtp_board_data
Reads-parse_wtp_board_data i is (fit, fits) same =
    Reads-element_from (length (board_bytes i is)) refl λ old.
      ReadsAt-then _ (Reads32_fits i.vendor_identifier fit.id_fits)
        (ReadsAt-parse_board_values (i ∷ is) (fit, fits) i.vendor_identifier same (omega arith))
