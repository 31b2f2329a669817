-- ===== src/WtpProtocol/RoundTrip.antt =====
-- Elements of the access controller: as ACProtocol.c assembles them, and as WTPProtocol.c reads
-- them.
use sicapwap.Prelude.{ℕ, suc, ◌*◌, ◌<◌, ◌≡◌, ◌≢◌, Option, List, ◌++◌, All, length, arith}
use sicapwap.Exec.{ok}
use sicapwap.Message.{Message}
use sicapwap.Message.Written.{written}
use sicapwap.Message.Reading.{reading}
use sicapwap.Message.Reads.{grants}
use sicapwap.Element.RoundTrip.{element_bytes}
use sicapwap.AcProtocol.Assemble.{
  AcDescriptor, assemble_ac_descriptor, assemble_ac_ipv4_list, assemble_ac_ipv6_list,
}
use sicapwap.AcProtocol.Written.{
  ac_descriptor_bytes, addresses_bytes, raw_bytes, assemble_ac_descriptor-written,
  assemble_ac_ipv4_list-written, assemble_ac_ipv6_list-written,
}
use sicapwap.WtpProtocol.Parse.{parse_ac_descriptor, parse_ac_ipv4_list, parse_ac_ipv6_list}
use sicapwap.WtpProtocol.Reads.{
  IsAcDescriptor, Reads-parse_ac_descriptor, Reads-parse_ac_ipv4_list, Reads-parse_ac_ipv6_list,
}

module _ (m : Message) (d : Option ℕ) (front rest : List ℕ) (j k : ℕ) where
  -- CWParseACDescriptor reads from the body that CWAssembleMsgElemACDescriptor assembles the
  -- descriptor with all its vendor informations, wherever the body stands, if each field fits its
  -- width and the allocations succeed.
  pub ac_descriptor-read :
      (v : AcDescriptor)
      → IsAcDescriptor v
      → (assemble_ac_descriptor m v (suc (grants (length v.vendor_infos) (suc (suc k))))
          ≡ ok (written m.data_msg_type (element_bytes 1 (ac_descriptor_bytes v)) 2, k))
        × (parse_ac_descriptor
              (reading d front (ac_descriptor_bytes v ++ rest))
              (length (ac_descriptor_bytes v))
              (grants (suc (length v.vendor_infos)) j)
            ≡ ok ((v, reading d (front ++ ac_descriptor_bytes v) rest), j))
  ac_descriptor-read v fits =
      (assemble_ac_descriptor-written m v k, (Reads-parse_ac_descriptor v fits).run d front rest j)

  -- CWParseACIPv4List reads from the body that CWAssembleMsgElemACIPv4List assembles all addresses
  -- in order, if there are any, each has 32 bits and the allocations succeed.
  pub ac_ipv4_list-read :
      (addresses : List ℕ)
      → length addresses ≢ 0
      → All (λ a. a < 4294967296) addresses
      → (assemble_ac_ipv4_list m addresses (suc (suc (suc k)))
          ≡ ok (written m.data_msg_type (element_bytes 2 (addresses_bytes addresses)) 2, k))
        × (parse_ac_ipv4_list
              (reading d front (addresses_bytes addresses ++ rest))
              (4 * length addresses)
              (suc j)
            ≡ ok ((addresses, reading d (front ++ addresses_bytes addresses) rest), j))
  ac_ipv4_list-read addresses some_left fits = (
    assemble_ac_ipv4_list-written m addresses k,
    (Reads-parse_ac_ipv4_list addresses (4 * length addresses) some_left (omega arith) fits).run d
        front rest j,
  )

  -- CWParseACIPv6List reads from the body that CWAssembleMsgElemACIPv6List assembles all addresses
  -- in order, if there are any, each has 16 bytes and the allocations succeed.
  pub ac_ipv6_list-read :
      (addresses : List (List ℕ))
      → length addresses ≢ 0
      → All (λ a. length a ≡ 16) addresses
      → (assemble_ac_ipv6_list m addresses (suc (suc (suc k)))
          ≡ ok (written m.data_msg_type (element_bytes 3 (raw_bytes addresses)) 2, k))
        × (parse_ac_ipv6_list
              (reading d front (raw_bytes addresses ++ rest))
              (16 * length addresses)
              (grants (suc (length addresses)) j)
            ≡ ok ((addresses, reading d (front ++ raw_bytes addresses) rest), j))
  ac_ipv6_list-read addresses some_left sizes = (
    assemble_ac_ipv6_list-written m addresses k sizes,
    (Reads-parse_ac_ipv6_list addresses (16 * length addresses) some_left (omega arith) sizes).run d
        front rest j,
  )
