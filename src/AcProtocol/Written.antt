-- ===== src/AcProtocol/Written.antt =====
-- What the assemblers of the access controller write.
use sicapwap.Prelude.{
  ℕ, suc, ◌+◌, ◌*◌, ◌≡◌, refl, sym, subst, ap, Option, none, true, List, [], ◌∷◌, ◌++◌, All, arith,
  length, length-append, append-nil, append_assoc,
}
use sicapwap.Exec.{ok}
use sicapwap.Message.{Message, be8, be16, be32, store_message}
use sicapwap.Message.Written.{written, create_message-written, store_message-written}
use sicapwap.Message.Reads.{grants}
use sicapwap.Message.Writes.{
  Writes, Writes-pure, Writes-then, Writes8, Writes16, Writes32, Writes-raw,
}
use sicapwap.Element.RoundTrip.{element_bytes}
use sicapwap.Element.Filled.{Completes-end, Completes-then, Completes-last, Completes-created}
use sicapwap.Vendor.RoundTrip.{all_bytes, Writes-store_infos}
use sicapwap.WtpProtocol.Assemble.{infos_size}
use sicapwap.WtpProtocol.Written.{get_infos-enough, infos_size_lem}
use sicapwap.AcProtocol.Assemble.{
  AcDescriptor, Interface, assemble_ac_descriptor, store_addresses, assemble_ac_ipv4_list,
  store_raw_addresses, assemble_ac_ipv6_list, one_control_ipv4_address, more_interfaces,
  assemble_interfaces, assemble_control_ipv4_addresses,
}

abbrev pub ac_descriptor_bytes : AcDescriptor → List ℕ
ac_descriptor_bytes v =
    be16 v.stations
    ++ (be16 v.limit
        ++ (be16 v.active_wtps
            ++ (be16 v.max_wtps
                ++ (be8 v.security
                    ++ (be8 v.rmac_field
                        ++ (be8 0 ++ (be8 v.dtls_policy ++ all_bytes true v.vendor_infos)))))))

pub assemble_ac_descriptor-written :
    (m : Message) (v : AcDescriptor) (k : ℕ)
    → assemble_ac_descriptor m v (suc (grants (length v.vendor_infos) (suc (suc k))))
      ≡ ok (written m.data_msg_type (element_bytes 1 (ac_descriptor_bytes v)) 2, k)
unfolding assemble_ac_descriptor
assemble_ac_descriptor-written m v k = rw (get_infos-enough v.vendor_infos (suc (suc k))) (
    Completes-created (infos_size v.vendor_infos + 12)
      (omega (arith, infos_size_lem v.vendor_infos))
      (Completes-then _ (Writes16 v.stations) (
        Completes-then _ (Writes16 v.limit) (
          Completes-then _ (Writes16 v.active_wtps) (
            Completes-then _ (Writes16 v.max_wtps) (
              Completes-then _ (Writes8 v.security) (
                Completes-then _ (Writes8 v.rmac_field) (
                  Completes-then _ (Writes8 0) (
                    Completes-then _ (Writes8 v.dtls_policy) (
                      Completes-last _ (Writes-store_infos v.vendor_infos)
                        (Completes-end 1))))))))))
      m k)

-- Addresses as numbers, and as bytes.
abbrev pub addresses_bytes : List ℕ → List ℕ
addresses_bytes [] = []
addresses_bytes (a ∷ rest) = be32 a ++ addresses_bytes rest

abbrev pub raw_bytes : List (List ℕ) → List ℕ
raw_bytes [] = []
raw_bytes (a ∷ rest) = a ++ raw_bytes rest

Writes-store_addresses :
    (addresses : List ℕ) → Writes (λ m. store_addresses m addresses) (addresses_bytes addresses)
unfolding store_addresses
Writes-store_addresses [] = Writes-pure
Writes-store_addresses (a ∷ rest) = Writes-then _ (Writes32 a) (Writes-store_addresses rest)

Writes-store_raw_addresses :
    (addresses : List (List ℕ))
    → Writes (λ m. store_raw_addresses m addresses) (raw_bytes addresses)
unfolding store_raw_addresses
Writes-store_raw_addresses [] = Writes-pure
Writes-store_raw_addresses (a ∷ rest) =
    Writes-then _ (Writes-raw a) (Writes-store_raw_addresses rest)

pub length-addresses_bytes :
    (addresses : List ℕ) → length (addresses_bytes addresses) ≡ 4 * length addresses
length-addresses_bytes [] = refl
length-addresses_bytes (a ∷ rest) = omega (arith, length-addresses_bytes rest)

pub length-raw_bytes :
    (addresses : List (List ℕ))
    → All (λ a. length a ≡ 16) addresses
    → length (raw_bytes addresses) ≡ 16 * length addresses
length-raw_bytes [] sizes = refl
length-raw_bytes (a ∷ rest) (size, sizes) =
    omega (arith, length-append a (raw_bytes rest), length-raw_bytes rest sizes)

pub assemble_ac_ipv4_list-written :
    (m : Message) (addresses : List ℕ) (k : ℕ)
    → assemble_ac_ipv4_list m addresses (suc (suc (suc k)))
      ≡ ok (written m.data_msg_type (element_bytes 2 (addresses_bytes addresses)) 2, k)
unfolding assemble_ac_ipv4_list
assemble_ac_ipv4_list-written m addresses k =
    Completes-created (4 * length addresses) (length-addresses_bytes addresses)
      (Completes-last _ (Writes-store_addresses addresses) (Completes-end 2)) m k

pub assemble_ac_ipv6_list-written :
    (m : Message) (addresses : List (List ℕ)) (k : ℕ)
    → All (λ a. length a ≡ 16) addresses
    → assemble_ac_ipv6_list m addresses (suc (suc (suc k)))
      ≡ ok (written m.data_msg_type (element_bytes 3 (raw_bytes addresses)) 2, k)
unfolding assemble_ac_ipv6_list
assemble_ac_ipv6_list-written m addresses k sizes =
    Completes-created (16 * length addresses) (length-raw_bytes addresses sizes)
      (Completes-last _ (Writes-store_raw_addresses addresses) (Completes-end 3)) m k

-- One interface, and all of them.
abbrev pub interface_bytes : Interface → List ℕ
interface_bytes i = element_bytes 10 (be32 i.ipv4_address ++ be16 i.wtp_count)

abbrev pub interfaces_bytes : List Interface → List ℕ
interfaces_bytes [] = []
interfaces_bytes (i ∷ rest) = interface_bytes i ++ interfaces_bytes rest

one_control_ipv4_address-written :
    (i : Interface) (k : ℕ)
    → one_control_ipv4_address i (suc (suc k)) ≡ ok (written none (interface_bytes i) 2, k)
unfolding one_control_ipv4_address sicapwap.Element.assemble_msg_elem
one_control_ipv4_address-written i k = refl

length-interfaces_bytes : (is : List Interface) → length (interfaces_bytes is) ≡ 10 * length is
length-interfaces_bytes [] = refl
length-interfaces_bytes (i ∷ rest) = omega (arith, length-interfaces_bytes rest)

-- Two allocations for each.
abbrev pub interfaces_need : List Interface → ℕ
interfaces_need [] = 0
interfaces_need (i ∷ rest) = suc (suc (interfaces_need rest))

more_interfaces-written :
    (d : Option ℕ) (front : List ℕ) (is : List Interface) (k : ℕ)
    → more_interfaces one_control_ipv4_address
        (written d front (length (interfaces_bytes is)))
        is
        (grants (interfaces_need is) k)
      ≡ ok (written d (front ++ interfaces_bytes is) 0, k)
unfolding more_interfaces
more_interfaces-written d front [] k = ap (λ r. ok (written d r 0, k)) (sym (append-nil front))
more_interfaces-written d front (i ∷ rest) k =
    subst
      (λ n.
        more_interfaces one_control_ipv4_address (written d front n) (i ∷ rest)
          (grants (interfaces_need (i ∷ rest)) k)
        ≡ ok (written d (front ++ interfaces_bytes (i ∷ rest)) 0, k))
      (sym (length-append (interface_bytes i) (interfaces_bytes rest)))
      (rw (
        one_control_ipv4_address-written i (grants (interfaces_need rest) k),
        store_message-written d front (length (interfaces_bytes rest))
            (grants (interfaces_need rest) k) none (interface_bytes i) 2,
        more_interfaces-written d (front ++ interface_bytes i) rest k,
        append_assoc front (interface_bytes i) (interfaces_bytes rest),
      ))

-- The buffer that the first interface sets, and the first element in it.
first_interface-written :
    (d : Option ℕ) (i : Interface) (is : List Interface) (k : ℕ)
    → store_message (written d [] (10 * suc (length is))) (written none (interface_bytes i) 2) k
      ≡ ok (written d (interface_bytes i) (length (interfaces_bytes is)), k)
first_interface-written d i is k =
    subst
      (λ n.
        store_message (written d [] n) (written none (interface_bytes i) 2) k
        ≡ ok (written d (interface_bytes i) (length (interfaces_bytes is)), k))
      (omega (arith, length-interfaces_bytes is))
      (store_message-written d [] (length (interfaces_bytes is)) k none (interface_bytes i) 2)

pub assemble_control_ipv4_addresses-written :
    (m : Message) (i : Interface) (is : List Interface) (k : ℕ)
    → assemble_control_ipv4_addresses m (i ∷ is) (suc (suc (suc (grants (interfaces_need is) k))))
      ≡ ok (written m.data_msg_type (interfaces_bytes (i ∷ is)) 0, k)
unfolding assemble_control_ipv4_addresses assemble_interfaces
assemble_control_ipv4_addresses-written m i is k = rw (
  one_control_ipv4_address-written i (suc (grants (interfaces_need is) k)),
  create_message-written m (10 * suc (length is)) (grants (interfaces_need is) k),
  first_interface-written m.data_msg_type i is (grants (interfaces_need is) k),
  more_interfaces-written m.data_msg_type (interface_bytes i) is k,
)
