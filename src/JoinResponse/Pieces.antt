-- ===== src/JoinResponse/Pieces.antt =====
-- The elements of the Join Response, in both rounds of the parser.
use sicapwap.Prelude.{
  ℕ, suc, ◌+◌, ◌<◌, ◌≡◌, refl, sym, ap, ◌∙◌, List, [], ◌∷◌, ◌++◌, All, map, arith, length,
  length-append, append_assoc, append-nil,
}
use sicapwap.Message.{be16, be32}
use sicapwap.Message.Reads.{Reads-return, Reads-pure}
use sicapwap.Element.RoundTrip.{element_bytes}
use sicapwap.Fragment.Control.{joined}
use sicapwap.AcProtocol.Assemble.{Interface}
use sicapwap.AcProtocol.Written.{ac_descriptor_bytes, interface_bytes, interfaces_bytes}
use sicapwap.WtpProtocol.Reads.{
  IsAcDescriptor, Reads-parse_ac_descriptor, Reads-parse_control_ipv4_addresses,
}
use sicapwap.Configure.Pieces.{as_string, Reads-parse_ac_name}
use sicapwap.ChangeState.Taken.{Reads-parse_result_code}
use sicapwap.ElementLoop.Taken.{Piece, AreTaken}
use sicapwap.ElementLoop.Twice.{Reads-skip, Reads-put_into}
use sicapwap.ElementLoop.Many.{many, changed_by, AreTaken-many}
use sicapwap.JoinResponse.{Ac, JoinResponse, no_lists, join_response_count, join_response_read}

pub record IsInterface (i : Interface) : Type 0 where
  pub address_fits : i.ipv4_address < 4294967296
  pub count_fits : i.wtp_count < 65536

-- The values of an access controller fit their fields.
pub record IsAc (a : Ac) : Type 0 where
  pub descriptor_fits : IsAcDescriptor a.descriptor
  pub descriptor_length_fits : length (ac_descriptor_bytes a.descriptor) < 65536
  pub name_fits : length a.name < 65536
  pub interfaces_fit : All IsInterface a.interfaces

abbrev pub address_bytes : Interface → List ℕ
address_bytes i = be32 i.ipv4_address ++ be16 i.wtp_count

-- An interface, as the termination point reads it.
abbrev pub read_interface : Interface → ℕ × ℕ
read_interface i = (i.ipv4_address, i.wtp_count)

abbrev pub count_interface : Interface → JoinResponse → JoinResponse
count_interface i v = record (no_lists v) { ipv4_count = v.ipv4_count + 1 }

abbrev pub keep_interface : Interface → JoinResponse → JoinResponse
keep_interface i v = record v { ipv4_addresses = v.ipv4_addresses ++ (read_interface i ∷ []) }

abbrev pub counted_end : ℕ → List (Piece JoinResponse)
counted_end code =
    record {
      type = 33;
      body = be32 code;
      cost = 0;
      change = λ v. record (no_lists v) { code = code };
    }
    ∷ []

abbrev pub read_end : ℕ → List (Piece JoinResponse)
read_end code = record { type = 33; body = be32 code; cost = 0; change = λ v. v } ∷ []

abbrev pub counted_pieces : Ac → ℕ → List (Piece JoinResponse)
counted_pieces a code =
    record {
      type = 1;
      body = ac_descriptor_bytes a.descriptor;
      cost = suc (length a.descriptor.vendor_infos);
      change = λ v. record (no_lists v) { descriptor = a.descriptor };
    }
    ∷ record {
      type = 4;
      body = a.name;
      cost = 1;
      change = λ v. record (no_lists v) { name = as_string a.name };
    }
    ∷ many 10 address_bytes 0 count_interface a.interfaces (counted_end code)

abbrev pub read_pieces : Ac → ℕ → List (Piece JoinResponse)
read_pieces a code =
    record { type = 1; body = ac_descriptor_bytes a.descriptor; cost = 0; change = λ v. v }
    ∷ record { type = 4; body = a.name; cost = 0; change = λ v. v }
    ∷ many 10 address_bytes 0 keep_interface a.interfaces (read_end code)

pub counting_lem :
    (is : List Interface) (v : JoinResponse)
    → changed_by 10 address_bytes 0 count_interface is (no_lists v)
      ≡ record (no_lists v) { ipv4_count = v.ipv4_count + length is }
counting_lem [] v = ap (λ n. record (no_lists v) { ipv4_count = n }) (omega arith)
counting_lem (i ∷ rest) v =
    counting_lem rest (record (no_lists v) { ipv4_count = v.ipv4_count + 1 })
    ∙ ap (λ n. record (no_lists v) { ipv4_count = n }) {x = v.ipv4_count + 1 + length rest}
        (omega arith)

pub keeping_lem :
    (is : List Interface) (v : JoinResponse)
    → changed_by 10 address_bytes 0 keep_interface is v
      ≡ record v { ipv4_addresses = v.ipv4_addresses ++ map read_interface is }
keeping_lem [] v = ap (λ s. record v { ipv4_addresses = s }) (sym (append-nil v.ipv4_addresses))
keeping_lem (i ∷ rest) v =
    keeping_lem rest (keep_interface i v)
    ∙ ap (λ s. record v { ipv4_addresses = s })
        (append_assoc v.ipv4_addresses (read_interface i ∷ []) (map read_interface rest))

pub joined-interfaces :
    (is : List Interface)
    → joined (map (λ i. (element_bytes 10 (address_bytes i), 2)) is) ≡ interfaces_bytes is
joined-interfaces [] = refl
joined-interfaces (i ∷ rest) = ap (λ b. interface_bytes i ++ b) (joined-interfaces rest)

module _ (a : Ac) (code : ℕ) (fits : IsAc a) (code_fits : code < 4294967296) where
  InterfacesFit : List Interface → JoinResponse → Type 0
  InterfacesFit is v = All IsInterface is

  InterfacesHaveRoom : List Interface → JoinResponse → Type 0
  InterfacesHaveRoom is v =
      All IsInterface is × (length v.ipv4_addresses + length is ≡ v.ipv4_count)

  pub counted-AreTaken : (v : JoinResponse) → AreTaken join_response_count v (counted_pieces a code)
  unfolding join_response_count InterfacesFit
  counted-AreTaken v = (
    record {
      type_fits = omega arith;
      length_fits = fits.descriptor_length_fits;
      takes =
          Reads-return _ (Reads-parse_ac_descriptor a.descriptor fits.descriptor_fits)
            (Reads-pure _);
    },
    (
      record {
        type_fits = omega arith;
        length_fits = fits.name_fits;
        takes = Reads-return _ (Reads-parse_ac_name a.name) (Reads-pure _);
      },
      AreTaken-many 10 address_bytes 0 count_interface join_response_count InterfacesFit
          (λ i rest v (fit, more). (
            record {
              type_fits = omega arith;
              length_fits = omega arith;
              takes = Reads-skip (address_bytes i) (count_interface i v);
            },
            more,
          ))
          a.interfaces _ _ fits.interfaces_fit
          (
            record {
              type_fits = omega arith;
              length_fits = omega arith;
              takes = Reads-return _ (Reads-parse_result_code code code_fits) (Reads-pure _);
            },
            tt,
          ),
    ),
  )

  pub read-AreTaken :
      (v : JoinResponse)
      → length v.ipv4_addresses + length a.interfaces ≡ v.ipv4_count
      → AreTaken join_response_read v (read_pieces a code)
  unfolding join_response_read InterfacesHaveRoom
  read-AreTaken v room = (
    record {
      type_fits = omega arith;
      length_fits = fits.descriptor_length_fits;
      takes = Reads-skip (ac_descriptor_bytes a.descriptor) v;
    },
    (
      record { type_fits = omega arith; length_fits = fits.name_fits; takes = Reads-skip a.name v },
      AreTaken-many 10 address_bytes 0 keep_interface join_response_read InterfacesHaveRoom
          (λ i rest v ((fit, more), left). (
            record {
              type_fits = omega arith;
              length_fits = omega arith;
              takes =
                  Reads-put_into v.ipv4_count v.ipv4_addresses
                    (λ s. record v { ipv4_addresses = s })
                    (Reads-parse_control_ipv4_addresses i fit.address_fits fit.count_fits)
                    (omega arith);
            },
            (more, omega (arith, length-append v.ipv4_addresses (read_interface i ∷ []))),
          ))
          a.interfaces _ v (fits.interfaces_fit, room)
          (
            record {
              type_fits = omega arith;
              length_fits = omega arith;
              takes = Reads-skip (be32 code) _;
            },
            tt,
          ),
    ),
  )
