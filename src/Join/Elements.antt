-- ===== src/Join/Elements.antt =====
-- The elements of the Join Request: assembled by the termination point, taken by the parser of the
-- access controller.
use sicapwap.Prelude.{ℕ, suc, ◌<◌, ◌≡◌, Option, none, some, List, [], ◌∷◌, ◌++◌, All, arith, length}
use sicapwap.Exec.{ok}
use sicapwap.Message.{be8, be32, blank}
use sicapwap.Message.Written.{written}
use sicapwap.Message.Reads.{grants, grants_assoc, Reads-return, Reads-pure}
use sicapwap.Element.RoundTrip.{element_bytes, assemble_msg_elem_session_id-written}
use sicapwap.Vendor.{VendorInfo}
use sicapwap.Vendor.RoundTrip.{IsStorable}
use sicapwap.WtpProtocol.Assemble.{WtpDescriptor, assemble_wtp_board_data, assemble_wtp_descriptor}
use sicapwap.WtpProtocol.Written.{
  assemble_string-written, assemble_byte-written, assemble_wtp_board_data-written,
  assemble_wtp_descriptor-written, assemble_wtp_ipv4_address-written, board_bytes, descriptor_bytes,
}
use sicapwap.AcProtocol.Reads.{
  IsDescriptor, Reads-parse_byte, Reads-parse_string, Reads-parse_session_id,
  Reads-parse_wtp_board_data, Reads-parse_wtp_descriptor, Reads-parse_wtp_ipv4_address,
}
use sicapwap.ElementLoop.Taken.{Piece, IsTaken}
use sicapwap.ElementLoop.Received.{assembled}
use sicapwap.ElementLoop.Made.{Makes, none_left, and_one}
use sicapwap.Join.{Wtp, JoinRequestValues, join_request_element, join_request_elements}

-- The values of a termination point fit their fields.
pub record IsWtp (w : Wtp) : Type 0 where
  pub location_fits : length w.location < 65536
  pub name_fits : length w.name < 65536
  pub board_fits : All IsStorable (w.board_first ∷ w.board_rest)
  pub one_id :
      All
        (λ i. i.vendor_identifier ≡ w.board_first.vendor_identifier)
        (w.board_first ∷ w.board_rest)
  pub board_length_fits : length (board_bytes w.board_first w.board_rest) < 65536
  pub descriptor_fits : IsDescriptor w.descriptor
  pub descriptor_length_fits : length (descriptor_bytes w.descriptor) < 65536
  pub ipv4_address_fits : w.ipv4_address < 4294967296
  pub session_id_fits : w.session_id < 4294967296
  pub frame_tunnel_mode_fits : w.frame_tunnel_mode < 256
  pub mac_type_fits : w.mac_type < 256
  pub discovery_type_fits : w.discovery_type < 256

abbrev pub as_string : List ℕ → Option (List ℕ)
as_string str = some (str ++ (0 ∷ []))

abbrev pub join_request_pieces : Wtp → List (Piece JoinRequestValues)
join_request_pieces w =
    record {
      type = 28;
      body = w.location;
      cost = 1;
      change = λ v. record v { location = as_string w.location };
    }
    ∷ record {
      type = 38;
      body = board_bytes w.board_first w.board_rest;
      cost = suc (length (w.board_first ∷ w.board_rest));
      change = λ v. record v { board_data = w.board_first ∷ w.board_rest };
    }
    ∷ record {
      type = 39;
      body = descriptor_bytes w.descriptor;
      cost = suc (length w.descriptor.vendor_infos);
      change = λ v. record v { descriptor = w.descriptor };
    }
    ∷ record {
      type = 42;
      body = be32 w.ipv4_address;
      cost = 0;
      change = λ v. record v { addr = w.ipv4_address };
    }
    ∷ record {
      type = 44;
      body = w.name;
      cost = 1;
      change = λ v. record v { name = as_string w.name };
    }
    ∷ record {
      type = 35;
      body = be32 w.session_id;
      cost = 0;
      change = λ v. record v { session_id = w.session_id };
    }
    ∷ record {
      type = 41;
      body = be8 w.frame_tunnel_mode;
      cost = 0;
      change = λ v. record v { frame_tunnel_mode = w.frame_tunnel_mode };
    }
    ∷ record {
      type = 43;
      body = be8 w.mac_type;
      cost = 0;
      change = λ v. record v { mac_type = w.mac_type };
    }
    ∷ []

pub join_request-IsTaken :
    (w : Wtp) → IsWtp w → All (IsTaken join_request_element) (join_request_pieces w)
unfolding join_request_element
join_request-IsTaken w fits = (
  record {
    type_fits = omega arith;
    length_fits = fits.location_fits;
    takes = λ v. Reads-return _ (Reads-parse_string w.location) (Reads-pure _);
  },
  (
    record {
      type_fits = omega arith;
      length_fits = fits.board_length_fits;
      takes = λ v.
          Reads-return _
            (Reads-parse_wtp_board_data w.board_first w.board_rest fits.board_fits fits.one_id)
            (Reads-pure _);
    },
    (
      record {
        type_fits = omega arith;
        length_fits = fits.descriptor_length_fits;
        takes = λ v.
            Reads-return _ (Reads-parse_wtp_descriptor w.descriptor fits.descriptor_fits)
              (Reads-pure _);
      },
      (
        record {
          type_fits = omega arith;
          length_fits = omega arith;
          takes = λ v.
              Reads-return _ (Reads-parse_wtp_ipv4_address w.ipv4_address fits.ipv4_address_fits)
                (Reads-pure _);
        },
        (
          record {
            type_fits = omega arith;
            length_fits = fits.name_fits;
            takes = λ v. Reads-return _ (Reads-parse_string w.name) (Reads-pure _);
          },
          (
            record {
              type_fits = omega arith;
              length_fits = omega arith;
              takes = λ v.
                  Reads-return _ (Reads-parse_session_id w.session_id fits.session_id_fits)
                    (Reads-pure _);
            },
            (
              record {
                type_fits = omega arith;
                length_fits = omega arith;
                takes = λ v.
                    Reads-return _
                      (Reads-parse_byte w.frame_tunnel_mode fits.frame_tunnel_mode_fits)
                      (Reads-pure _);
              },
              (
                record {
                  type_fits = omega arith;
                  length_fits = omega arith;
                  takes = λ v.
                      Reads-return _ (Reads-parse_byte w.mac_type fits.mac_type_fits)
                        (Reads-pure _);
                },
                tt,
              ),
            ),
          ),
        ),
      ),
    ),
  ),
)

-- The board data and the descriptor take an allocation for each information.
abbrev pub infos_need : List VendorInfo → ℕ
infos_need is = suc (grants (length is) 2)

pub assemble_wtp_board_data-made :
    (i : VendorInfo) (is : List VendorInfo) (k : ℕ)
    → assemble_wtp_board_data blank (i ∷ is) (grants (infos_need (i ∷ is)) k)
      ≡ ok (written none (element_bytes 38 (board_bytes i is)) 2, k)
assemble_wtp_board_data-made i is k =
    rw (grants_assoc (length is) 2 k) (assemble_wtp_board_data-written blank i is k)

pub assemble_wtp_descriptor-made :
    (v : WtpDescriptor) (k : ℕ)
    → assemble_wtp_descriptor blank v (grants (infos_need v.vendor_infos) k)
      ≡ ok (written none (element_bytes 39 (descriptor_bytes v)) 2, k)
assemble_wtp_descriptor-made v k =
    rw (grants_assoc (length v.vendor_infos) 2 k) (assemble_wtp_descriptor-written blank v k)

-- The allocations of all eight.
abbrev pub join_request_needs : Wtp → ℕ
join_request_needs w = grants 2 (
    grants (infos_need (w.board_first ∷ w.board_rest))
      (grants (infos_need w.descriptor.vendor_infos) 10))

pub join_request-Makes :
    (w : Wtp)
    → Makes (join_request_elements w) (assembled (join_request_pieces w)) (join_request_needs w)
join_request-Makes w = and_one 2 (assemble_string-written blank 28 w.location) (
    and_one (infos_need (w.board_first ∷ w.board_rest))
      (assemble_wtp_board_data-made w.board_first w.board_rest)
      (and_one (infos_need w.descriptor.vendor_infos) (assemble_wtp_descriptor-made w.descriptor) (
        and_one 2 (assemble_wtp_ipv4_address-written blank w.ipv4_address) (
          and_one 2 (assemble_string-written blank 44 w.name) (
            and_one 2 (assemble_msg_elem_session_id-written blank w.session_id) (
              and_one 2 (assemble_byte-written blank 41 w.frame_tunnel_mode)
                (and_one 2 (assemble_byte-written blank 43 w.mac_type) none_left)))))))
