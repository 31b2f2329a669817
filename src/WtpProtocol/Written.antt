-- ===== src/WtpProtocol/Written.antt =====
-- What the assemblers of the termination point write.
use sicapwap.Prelude.{
  ℕ, suc, ◌+◌, ◌≡◌, refl, true, false, List, [], ◌∷◌, ◌++◌, arith, length, length-append,
}
use sicapwap.Exec.{ok}
use sicapwap.Message.{Message, be8, be16, be32}
use sicapwap.Message.Written.{written}
use sicapwap.Message.Reads.{grants}
use sicapwap.Message.Writes.{Writes8, Writes16, Writes32, Writes-str}
use sicapwap.Element.RoundTrip.{element_bytes}
use sicapwap.Element.Filled.{Completes-end, Completes-then, Completes-last, Completes-created}
use sicapwap.Vendor.{VendorInfo, net_order}
use sicapwap.Vendor.RoundTrip.{all_bytes, length-net_order, Writes-store_values, Writes-store_infos}
use sicapwap.WtpProtocol.Assemble.{
  WtpDescriptor, alloc_values, get_infos, assemble_string, assemble_byte, assemble_wtp_board_data,
  assemble_wtp_descriptor, assemble_wtp_ipv4_address, values_size, infos_size,
}

module _ (m : Message) where
  pub assemble_string-written :
      (type : ℕ) (str : List ℕ) (k : ℕ)
      → assemble_string m type str (suc (suc k))
        ≡ ok (written m.data_msg_type (element_bytes type str) 2, k)
  unfolding assemble_string
  assemble_string-written type str k =
      Completes-created (length str) refl (Completes-last _ (Writes-str str) (Completes-end type)) m
        k

  pub assemble_byte-written :
      (type v k : ℕ)
      → assemble_byte m type v (suc (suc k))
        ≡ ok (written m.data_msg_type (element_bytes type (be8 v)) 2, k)
  unfolding assemble_byte
  assemble_byte-written type v k =
      Completes-created 1 refl (Completes-last _ (Writes8 v) (Completes-end type)) m k

  pub assemble_wtp_ipv4_address-written :
      (address k : ℕ)
      → assemble_wtp_ipv4_address m address (suc (suc k))
        ≡ ok (written m.data_msg_type (element_bytes 42 (be32 address)) 2, k)
  unfolding assemble_wtp_ipv4_address
  assemble_wtp_ipv4_address-written address k =
      Completes-created 4 refl (Completes-last _ (Writes32 address) (Completes-end 42)) m k

values_size_lem : (is : List VendorInfo) → length (all_bytes false is) ≡ values_size is
unfolding values_size
values_size_lem [] = refl
values_size_lem (i ∷ is) = omega (
  arith,
  length-append (net_order i.value) (all_bytes false is),
  length-net_order i.value,
  values_size_lem is,
)

pub infos_size_lem : (is : List VendorInfo) → length (all_bytes true is) ≡ infos_size is
unfolding infos_size
infos_size_lem [] = refl
infos_size_lem (i ∷ is) = omega (
  arith,
  length-append (net_order i.value) (all_bytes true is),
  length-net_order i.value,
  infos_size_lem is,
)

alloc_values-enough :
    (is : List VendorInfo) (k : ℕ) → alloc_values is (grants (length is) k) ≡ ok (tt, k)
unfolding alloc_values
alloc_values-enough [] k = refl
alloc_values-enough (i ∷ is) k = alloc_values-enough is k

pub get_infos-enough :
    (is : List VendorInfo) (k : ℕ) → get_infos is (suc (grants (length is) k)) ≡ ok (is, k)
unfolding get_infos
get_infos-enough is k = rw (alloc_values-enough is k)

abbrev pub descriptor_bytes : WtpDescriptor → List ℕ
descriptor_bytes v =
    be8 v.max_radios
    ++ (be8 v.radios_in_use ++ (be16 v.enc_capabilities ++ all_bytes true v.vendor_infos))

pub assemble_wtp_descriptor-written :
    (m : Message) (v : WtpDescriptor) (k : ℕ)
    → assemble_wtp_descriptor m v (suc (grants (length v.vendor_infos) (suc (suc k))))
      ≡ ok (written m.data_msg_type (element_bytes 39 (descriptor_bytes v)) 2, k)
unfolding assemble_wtp_descriptor
assemble_wtp_descriptor-written m v k = rw (get_infos-enough v.vendor_infos (suc (suc k))) (
    Completes-created (4 + infos_size v.vendor_infos) (omega (arith, infos_size_lem v.vendor_infos))
      (Completes-then _ (Writes8 v.max_radios) (
        Completes-then _ (Writes8 v.radios_in_use) (
          Completes-then _ (Writes16 v.enc_capabilities)
            (Completes-last _ (Writes-store_infos v.vendor_infos) (Completes-end 39)))))
      m k)

abbrev pub board_bytes : VendorInfo → List VendorInfo → List ℕ
board_bytes i is = be32 i.vendor_identifier ++ all_bytes false (i ∷ is)

pub assemble_wtp_board_data-written :
    (m : Message) (i : VendorInfo) (is : List VendorInfo) (k : ℕ)
    → assemble_wtp_board_data m (i ∷ is) (suc (grants (length (i ∷ is)) (suc (suc k))))
      ≡ ok (written m.data_msg_type (element_bytes 38 (board_bytes i is)) 2, k)
unfolding assemble_wtp_board_data
assemble_wtp_board_data-written m i is k = rw (get_infos-enough (i ∷ is) (suc (suc k))) (
    Completes-created (4 + values_size (i ∷ is)) (omega (arith, values_size_lem (i ∷ is)))
      (Completes-then _ (Writes32 i.vendor_identifier)
        (Completes-last _ (Writes-store_values (i ∷ is)) (Completes-end 38)))
      m k)
