-- ===== src/JoinResponse/Received.antt =====
-- The Join Response from end to end.
use sicapwap.Prelude.{
  ℕ, suc, ◌+◌, ◌-◌, ◌*◌, ◌/◌, ◌<◌, ◌≤◌, ◌≡◌, refl, sym, ap, ◌∙◌, Bool, true, false, if◌then◌else◌,
  none, List, [], ◌∷◌, ◌++◌, arith, length, map, ==_refl, ◌==◌, ◌||◌,
}
use sicapwap.Exec.{ok}
use sicapwap.Message.{be32, blank}
use sicapwap.Message.Written.{written}
use sicapwap.Message.Reads.{grants, grants_assoc}
use sicapwap.Element.RoundTrip.{element_bytes, assemble_msg_elem_result_code-written}
use sicapwap.Header.RoundTrip.{header_bytes}
use sicapwap.Fragment.{assemble_message, fragments_num, whole_values}
use sicapwap.Fragment.Control.{filled, message_bytes, joined}
use sicapwap.Reassembly.{Fragment}
use sicapwap.Receive.{Datagram, received, receive_message}
use sicapwap.Receive.AnyOrder.{enough}
use sicapwap.Receive.Whole.{assemble_message-whole}
use sicapwap.WtpProtocol.Written.{assemble_string-written}
use sicapwap.WtpProtocol.Joined.{nothing_each}
use sicapwap.AcProtocol.Assemble.{AcDescriptor, Interface, assemble_ac_descriptor}
use sicapwap.AcProtocol.Written.{
  ac_descriptor_bytes, assemble_ac_descriptor-written, interfaces_bytes, interfaces_need,
  assemble_control_ipv4_addresses-written,
}
use sicapwap.Configure.Pieces.{as_string}
use sicapwap.ElementLoop.Taken.{pieces_bytes, pieces_cost, changed}
use sicapwap.ElementLoop.Many.{changed-many, cost-many, bytes-many}
use sicapwap.ElementLoop.Twice.{parse_control_message_twice-carrying}
use sicapwap.ElementLoop.Made.{Makes, MakesOne, none_left, and_one, assemble_array-Makes}
use sicapwap.JoinResponse.{
  Ac, MsgElemData, JoinResponse, AcInfo, no_lists, join_response, wanted_element,
  join_response_elements, assemble_join_response, join_response_count, join_response_read,
  join_response_arrays, parse_join_response, save_join_response,
}
use sicapwap.JoinResponse.Pieces.{
  IsAc, address_bytes, read_interface, count_interface, keep_interface, counted_end, read_end,
  counted_pieces, read_pieces, counting_lem, keeping_lem, joined-interfaces, counted-AreTaken,
  read-AreTaken,
}

-- An access controller, and the list of a response that wants the result code.
abbrev pub the_ac : AcDescriptor → List ℕ → List Interface → Ac
the_ac d name is = record {
  descriptor = d;
  name = name;
  interfaces = is;
  ipv4_list = [];
  ipv6_list = [];
}

abbrev pub wanted_code : ℕ → List MsgElemData
wanted_code code = record { type = 33; value = code } ∷ []

-- An access controller with an interface, and maybe more.
module _ (d : AcDescriptor) (name : List ℕ) (i : Interface) (is : List Interface) (code : ℕ) where
  abbrev pub response_parts : List (List ℕ × ℕ)
  response_parts =
      (element_bytes 1 (ac_descriptor_bytes d), 2)
      ∷ (element_bytes 4 name, 2)
      ∷ (interfaces_bytes (i ∷ is), 0)
      ∷ (element_bytes 33 (be32 code), 2)
      ∷ []

  abbrev pub response_bytes : ℕ → List ℕ
  response_bytes seq_num = message_bytes seq_num join_response response_parts []

  -- The allocations of the elements.
  abbrev pub descriptor_needs : ℕ
  descriptor_needs = suc (grants (length d.vendor_infos) 2)

  abbrev pub response_needs : ℕ
  response_needs = grants descriptor_needs (grants 2 (grants (grants 3 (interfaces_need is)) 2))

  descriptor-MakesOne :
      MakesOne
        (assemble_ac_descriptor blank d)
        descriptor_needs
        (element_bytes 1 (ac_descriptor_bytes d), 2)
  descriptor-MakesOne k =
      rw (grants_assoc (length d.vendor_infos) 2 k) (assemble_ac_descriptor-written blank d k)

  response-Makes :
      Makes
        (join_response_elements (the_ac d name (i ∷ is)) (wanted_code code))
        response_parts
        response_needs
  unfolding join_response_elements wanted_element
  response-Makes = and_one descriptor_needs descriptor-MakesOne (
      and_one 2 (assemble_string-written blank 4 name) (
        and_one (grants 3 (interfaces_need is)) (assemble_control_ipv4_addresses-written blank i is)
          (and_one 2 (assemble_msg_elem_result_code-written blank code) none_left)))

  pub assemble_join_response-message :
      (id pmtu seq_num is_crypted k : ℕ)
      → assemble_join_response id pmtu seq_num is_crypted
          (the_ac d name (i ∷ is))
          (wanted_code code)
          (suc (grants response_needs k))
        ≡ assemble_message id pmtu seq_num join_response is_crypted (filled response_parts) [] k
  unfolding assemble_join_response
  assemble_join_response-message id pmtu seq_num is_crypted k =
      rw (assemble_array-Makes k response-Makes)

  joined-counted :
      joined response_parts ≡ pieces_bytes (counted_pieces (the_ac d name (i ∷ is)) code)
  joined-counted =
      ap (λ b. element_bytes 1 (ac_descriptor_bytes d) ++ (element_bytes 4 name ++ b))
        (ap (λ b. b ++ pieces_bytes (counted_end code)) (sym (joined-interfaces (i ∷ is)))
          ∙ bytes-many 10 address_bytes 0 count_interface (i ∷ is) (counted_end code))

  joined-read : joined response_parts ≡ pieces_bytes (read_pieces (the_ac d name (i ∷ is)) code)
  joined-read =
      ap (λ b. element_bytes 1 (ac_descriptor_bytes d) ++ (element_bytes 4 name ++ b))
        (ap (λ b. b ++ pieces_bytes (read_end code)) (sym (joined-interfaces (i ∷ is)))
          ∙ bytes-many 10 address_bytes 0 keep_interface (i ∷ is) (read_end code))

  -- What the termination point reads. No interface has an IPv6 address.
  abbrev pub response_of : JoinResponse
  response_of = record {
    descriptor = d;
    name = as_string name;
    ipv4_count = length (i ∷ is);
    ipv4_addresses = map read_interface (i ∷ is);
    ipv6_count = 0;
    ipv6_addresses = [];
    ipv4_list = [];
    ipv6_list = [];
    code = code;
  }

  abbrev counted_of : JoinResponse
  counted_of = record response_of { ipv4_addresses = [] }

  arrays-counted :
      (old : JoinResponse) (k : ℕ)
      → join_response_arrays
          (changed
            (counted_pieces (the_ac d name (i ∷ is)) code)
            (record old { ipv4_count = 0; ipv6_count = 0 }))
          (suc k)
        ≡ ok (counted_of, k)
  unfolding join_response_arrays
  arrays-counted old k =
      let start : JoinResponse = record (no_lists old) {
        descriptor = d;
        name = as_string name;
        ipv4_count = 0;
        ipv6_count = 0;
      } in
      let counted =
        changed-many 10 address_bytes 0 count_interface (i ∷ is) (counted_end code) start
        ∙ ap (changed (counted_end code)) (counting_lem (i ∷ is) start) in
      ap (λ v. join_response_arrays v (suc k)) counted
      ∙ ap (λ n. ok (record counted_of { ipv4_count = n }, k)) {x = 0 + length (i ∷ is)}
          (omega arith)

  changed-read : changed (read_pieces (the_ac d name (i ∷ is)) code) counted_of ≡ response_of
  changed-read =
      changed-many 10 address_bytes 0 keep_interface (i ∷ is) (read_end code) counted_of
      ∙ ap (changed (read_end code)) (keeping_lem (i ∷ is) counted_of)

  -- One allocation for each information and one for their array, one for the name, and one for the
  -- array of interfaces.
  abbrev pub parse_needs : ℕ → ℕ
  parse_needs k = grants (suc (length d.vendor_infos)) (suc (suc k))

  parse_costs :
      (k : ℕ)
      → parse_needs k
        ≡ grants
            (pieces_cost (counted_pieces (the_ac d name (i ∷ is)) code))
            (suc (grants (pieces_cost (read_pieces (the_ac d name (i ∷ is)) code)) k))
  parse_costs k = rw (
    cost-many 10 address_bytes 0 count_interface is (counted_end code),
    cost-many 10 address_bytes 0 keep_interface is (read_end code),
    nothing_each is 0,
    grants_assoc (length d.vendor_infos) 1 (suc k),
  )

  pub parse_join_response-sent :
      (seq_num k : ℕ) (old : JoinResponse)
      → IsAc (the_ac d name (i ∷ is))
      → code < 4294967296
      → seq_num < 256
      → length (joined response_parts) + 3 < 65536
      → parse_join_response
          (response_bytes seq_num)
          (length (response_bytes seq_num))
          seq_num
          old
          (parse_needs k)
        ≡ ok ((seq_num, response_of), k)
  unfolding parse_join_response
  parse_join_response-sent seq_num k old fits code_fits small_seq small_len =
      let start : JoinResponse = record old { ipv4_count = 0; ipv6_count = 0 } in
      ap
        (λ n.
          parse_join_response (response_bytes seq_num) (length (response_bytes seq_num)) seq_num old
            n)
        (parse_costs k)
      ∙ parse_control_message_twice-carrying join_response_count join_response_read
          join_response_arrays (λ s. s == seq_num) seq_num join_response response_parts
          (counted_pieces (the_ac d name (i ∷ is)) code) (read_pieces (the_ac d name (i ∷ is)) code)
          start counted_of 1 k (==_refl seq_num) joined-counted joined-read
          (counted-AreTaken (the_ac d name (i ∷ is)) code fits code_fits start)
          (read-AreTaken (the_ac d name (i ∷ is)) code fits code_fits counted_of (omega arith))
          (arrays-counted old) small_seq (omega arith) small_len
      ∙ ap (λ v. ok ((seq_num, v), k)) changed-read

  -- The response is kept at a success, else everything stays.
  saved-cases :
      (success : Bool) (changed_info g : AcInfo)
      → ◌≡◌ {A = Bool × AcInfo}
          (if success then (true, changed_info) else (false, g))
          (success, if success then changed_info else g)
  saved-cases true changed_info g = refl
  saved-cases false changed_info g = refl

  -- The Join Response of an access controller that has an interface, with the result code, if one
  -- packet holds it, is received, and CWParseJoinResponseMessage accepts its number and reads the
  -- descriptor, the name, all interfaces in order and the code; CWSaveJoinResponseMessage keeps
  -- the descriptor but for the policy of DTLS at a success, with or without address translation,
  -- and else changes nothing. The values fit their fields, the number has 8 bits, the packet has
  -- at most 65536 bytes, and the allocations succeed.
  pub join_response-received :
      (id pmtu seq_num is_crypted j k : ℕ) (old : JoinResponse) (g : AcInfo) (fs : List Fragment)
      (ds : List Datagram)
      → IsAc (the_ac d name (i ∷ is))
      → code < 4294967296
      → seq_num < 256
      → length (joined response_parts) + 16 ≤ 65536
      → fragments_num (length (response_bytes seq_num)) ((pmtu - 33) / 8 * 8) ≡ 1
      → let bytes : List ℕ = response_bytes seq_num in
        let packet : List ℕ = header_bytes (whole_values none is_crypted) ++ bytes in
        let success : Bool = (code == 0) || (code == 2) in
        (assemble_join_response id pmtu seq_num is_crypted
            (the_ac d name (i ∷ is))
            (wanted_code code)
            (suc (grants response_needs (suc (suc (suc (suc (suc k)))))))
          ≡ ok (written none packet 0 ∷ [], k))
        × (receive_message (record { packet = packet; grants = enough } ∷ ds) fs
            ≡ received false (written none bytes 0) ds)
        × (parse_join_response bytes (length bytes) seq_num old (parse_needs j)
            ≡ ok ((seq_num, response_of), j))
        × (save_join_response response_of g ≡ (
          success,
          if success
              then record g { descriptor = record d { dtls_policy = g.descriptor.dtls_policy } }
              else g,
        ))
  unfolding save_join_response
  join_response-received id pmtu seq_num is_crypted j k old g fs ds fits code_fits small_seq
        small_len one =
      let (sent, got) =
        assemble_message-whole id pmtu seq_num join_response is_crypted response_parts [] k fs ds
          one (omega arith) in
      (
        assemble_join_response-message id pmtu seq_num is_crypted _ ∙ sent,
        got,
        parse_join_response-sent seq_num j old fits code_fits small_seq (omega arith),
        saved-cases ((code == 0) || (code == 2))
            (record g { descriptor = record d { dtls_policy = g.descriptor.dtls_policy } }) g,
      )
