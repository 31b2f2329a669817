-- ===== src/Configure/Received.antt =====
-- The Configure Request from end to end.
use sicapwap.Prelude.{
  ℕ, suc, ◌+◌, ◌-◌, ◌*◌, ◌/◌, ◌<◌, ◌≤◌, ◌≡◌, refl, ap, ◌∙◌, true, false, none, List, [], ◌∷◌, ◌++◌,
  arith, length, map,
}
use sicapwap.Exec.{ok}
use sicapwap.Message.{be16, blank}
use sicapwap.Message.Written.{written}
use sicapwap.Message.Reads.{grants}
use sicapwap.Element.{RadioState}
use sicapwap.Element.RoundTrip.{element_bytes}
use sicapwap.Header.RoundTrip.{header_bytes}
use sicapwap.Fragment.{assemble_message, fragments_num, whole_values}
use sicapwap.Fragment.Control.{filled, message_bytes, joined}
use sicapwap.Reassembly.{Fragment}
use sicapwap.Receive.{Datagram, received, receive_message}
use sicapwap.Receive.AnyOrder.{enough}
use sicapwap.Receive.Whole.{assemble_message-whole}
use sicapwap.WtpProtocol.Assemble.{assemble_ac_name_with_index, assemble_statistics_timer}
use sicapwap.WtpProtocol.Events.{assemble_radio_admin_state}
use sicapwap.WtpProtocol.Written.{assemble_string-written}
use sicapwap.WtpProtocol.Joined.{
  grants_each, grants_each_assoc, nothing_each, admin_part, indexed_part,
  assemble_radio_admin_state-written, assemble_ac_name_with_index-written,
}
use sicapwap.AcProtocol.Statistics.{reboot_bytes, reboot-written}
use sicapwap.ElementLoop.Taken.{Piece, pieces_bytes, pieces_cost, changed}
use sicapwap.ElementLoop.Many.{many, changed-many, cost-many, bytes-many}
use sicapwap.ElementLoop.Twice.{parse_control_message_twice-carrying}
use sicapwap.ElementLoop.Made.{Makes, MakesOne, none_left, and_one, assemble_array-Makes}
use sicapwap.Configure.{
  WtpState, ConfigureRequest, Configuration, configure_request, configure_request_elements,
  assemble_configure_request, configure_request_count, configure_request_read,
  configure_request_arrays, parse_configure_request, save_configure_request,
}
use sicapwap.Configure.Pieces.{
  IsWtpState, name_bytes, radio_bytes, as_string, read_name, read_radio, count_name, count_radio,
  keep_name, keep_radio, counted_end, counted_pieces, read_end, read_pieces, counting_names_lem,
  counting_radios_lem, keeping_names_lem, keeping_radios_lem,
}
use sicapwap.Configure.Taken.{counted-AreTaken, read-AreTaken}

-- The parts of the message.
abbrev pub request_parts : WtpState → List (List ℕ × ℕ)
request_parts w =
    (element_bytes 4 w.ac_name, 2)
    ∷ (joined (map indexed_part w.ac_names), 0)
    ∷ (joined (map admin_part w.radios), 0)
    ∷ (element_bytes 36 (be16 w.statistics_timer), 2)
    ∷ (element_bytes 47 (reboot_bytes w.reboot_statistics), 2)
    ∷ []

abbrev pub request_bytes : WtpState → ℕ → List ℕ
request_bytes w seq_num = message_bytes seq_num configure_request (request_parts w) []

-- The allocations of the elements.
abbrev pub names_need : WtpState → ℕ
names_need w = suc (grants_each 2 w.ac_names 1)

abbrev pub radios_need : WtpState → ℕ
radios_need w = suc (suc (grants_each 2 w.radios 1))

abbrev pub request_needs : WtpState → ℕ
request_needs w = grants 2 (grants (names_need w) (grants (radios_need w) 4))

names-MakesOne :
    (w : WtpState)
    → MakesOne
        (assemble_ac_name_with_index blank w.ac_names)
        (names_need w)
        (joined (map indexed_part w.ac_names), 0)
names-MakesOne w k =
    rw (grants_each_assoc 2 1 w.ac_names k) (assemble_ac_name_with_index-written blank w.ac_names k)

radios-MakesOne :
    (w : WtpState)
    → MakesOne
        (assemble_radio_admin_state blank w.radios)
        (radios_need w)
        (joined (map admin_part w.radios), 0)
radios-MakesOne w k =
    rw (grants_each_assoc 2 1 w.radios k) (assemble_radio_admin_state-written blank w.radios k)

timer-MakesOne :
    (timer : ℕ)
    → MakesOne (assemble_statistics_timer blank timer) 2 (element_bytes 36 (be16 timer), 2)
unfolding assemble_statistics_timer sicapwap.Element.assemble_msg_elem
timer-MakesOne timer k = refl

request-Makes :
    (w : WtpState) → Makes (configure_request_elements w) (request_parts w) (request_needs w)
request-Makes w = and_one 2 (assemble_string-written blank 4 w.ac_name) (
    and_one (names_need w) (names-MakesOne w) (
      and_one (radios_need w) (radios-MakesOne w) (
        and_one 2 (timer-MakesOne w.statistics_timer)
          (and_one 2 (reboot-written w.reboot_statistics blank) none_left))))

assemble_configure_request-message :
    (w : WtpState) (id pmtu seq_num is_crypted k : ℕ)
    → assemble_configure_request id pmtu seq_num is_crypted w (suc (grants (request_needs w) k))
      ≡ assemble_message id pmtu seq_num configure_request is_crypted
          (filled (request_parts w))
          []
          k
unfolding assemble_configure_request
assemble_configure_request-message w id pmtu seq_num is_crypted k =
    rw (assemble_array-Makes k (request-Makes w))

-- What is assembled is what both rounds go through.
joined-counted : (w : WtpState) → joined (request_parts w) ≡ pieces_bytes (counted_pieces w)
joined-counted w =
    ap (λ b. element_bytes 4 w.ac_name ++ b)
      (ap (λ b. joined (map indexed_part w.ac_names) ++ b)
          (bytes-many 31 radio_bytes 0 count_radio w.radios (counted_end w))
        ∙ bytes-many 5 name_bytes 0 count_name w.ac_names
            (many 31 radio_bytes 0 count_radio w.radios (counted_end w)))

joined-read :
    (w : WtpState) (unset : ℕ) → joined (request_parts w) ≡ pieces_bytes (read_pieces w unset)
joined-read w unset =
    ap (λ b. element_bytes 4 w.ac_name ++ b)
      (ap (λ b. joined (map indexed_part w.ac_names) ++ b)
          (bytes-many 31 radio_bytes 0 (keep_radio unset) w.radios (read_end w))
        ∙ bytes-many 5 name_bytes 1 keep_name w.ac_names
            (many 31 radio_bytes 0 (keep_radio unset) w.radios (read_end w)))

-- What the access controller reads.
abbrev pub request_of : WtpState → ℕ → ConfigureRequest
request_of w unset = record {
  ac_name = as_string w.ac_name;
  ac_names_count = length w.ac_names;
  ac_names = map read_name w.ac_names;
  radios_count = length w.radios;
  radios = map (read_radio unset) w.radios;
  statistics_timer = w.statistics_timer;
  reboot_statistics = w.reboot_statistics;
}

-- What it keeps.
abbrev pub configuration_of : WtpState → ℕ → Configuration
configuration_of w unset = record {
  ac_name = as_string w.ac_name;
  ac_names_count = length w.ac_names;
  ac_names = map read_name w.ac_names;
  radios_count = length w.radios;
  radios = map (read_radio unset) w.radios;
  statistics_timer = w.statistics_timer;
  reboot_statistics = w.reboot_statistics;
}

-- The values after the first round, with the arrays empty.
abbrev pub counted_of : WtpState → ConfigureRequest
counted_of w = record (request_of w 0) { ac_names = []; radios = [] }

arrays-counted :
    (w : WtpState) (old : ConfigureRequest) (k : ℕ)
    → configure_request_arrays
        (changed (counted_pieces w) (record old { ac_names_count = 0; radios_count = 0 }))
        (suc (suc k))
      ≡ ok (counted_of w, k)
unfolding configure_request_arrays
arrays-counted w old k =
    let start : ConfigureRequest = record old {
      ac_name = as_string w.ac_name;
      ac_names_count = 0;
      radios_count = 0;
    } in
    let tail : List (Piece ConfigureRequest) =
      many 31 radio_bytes 0 count_radio w.radios (counted_end w) in
    let names : ℕ = 0 + length w.ac_names in
    let counted =
      changed-many 5 name_bytes 0 count_name w.ac_names tail start
      ∙ ap (changed tail) (counting_names_lem w.ac_names start)
      ∙ changed-many 31 radio_bytes 0 count_radio w.radios (counted_end w)
          (record start { ac_names_count = names })
      ∙ ap (changed (counted_end w))
          (counting_radios_lem w.radios (record start { ac_names_count = names })) in
    ap (λ v. configure_request_arrays v (suc (suc k))) counted
    ∙ ap
        (λ n.
          ok (record (counted_of w) { ac_names_count = n; radios_count = 0 + length w.radios }, k))
        {x = names} (omega arith)
    ∙ ap (λ n. ok (record (counted_of w) { radios_count = n }, k)) {x = 0 + length w.radios}
        (omega arith)

changed-read :
    (w : WtpState) (unset : ℕ) → changed (read_pieces w unset) (counted_of w) ≡ request_of w unset
changed-read w unset =
    let tail : List (Piece ConfigureRequest) =
      many 31 radio_bytes 0 (keep_radio unset) w.radios (read_end w) in
    let named : ConfigureRequest = record (counted_of w) { ac_names = map read_name w.ac_names } in
    changed-many 5 name_bytes 1 keep_name w.ac_names tail (counted_of w)
    ∙ ap (changed tail) (keeping_names_lem w.ac_names (counted_of w))
    ∙ changed-many 31 radio_bytes 0 (keep_radio unset) w.radios (read_end w) named
    ∙ ap (changed (read_end w)) (keeping_radios_lem unset w.radios named)

-- One allocation for the name and one for the statistics, two for the arrays, and one for each name
-- with an index.
abbrev pub parse_needs : WtpState → ℕ → ℕ
parse_needs w k = suc (suc (suc (suc (grants_each 1 w.ac_names k))))

parse_costs :
    (w : WtpState) (unset k : ℕ)
    → parse_needs w k
      ≡ grants
          (pieces_cost (counted_pieces w))
          (suc (suc (grants (pieces_cost (read_pieces w unset)) k)))
parse_costs w unset k = rw (
  cost-many 5 name_bytes 0 count_name w.ac_names
      (many 31 radio_bytes 0 count_radio w.radios (counted_end w)),
  cost-many 31 radio_bytes 0 count_radio w.radios (counted_end w),
  cost-many 5 name_bytes 1 keep_name w.ac_names
      (many 31 radio_bytes 0 (keep_radio unset) w.radios (read_end w)),
  cost-many 31 radio_bytes 0 (keep_radio unset) w.radios (read_end w),
  nothing_each w.radios 1,
  nothing_each w.radios 0,
  nothing_each w.ac_names 1,
  grants_each_assoc 1 0 w.ac_names k,
)

parse_configure_request-sent :
    (w : WtpState) (unset seq_num k : ℕ) (old : ConfigureRequest)
    → IsWtpState w
    → seq_num < 256
    → length (joined (request_parts w)) + 3 < 65536
    → parse_configure_request unset
        (request_bytes w seq_num)
        (length (request_bytes w seq_num))
        old
        (parse_needs w k)
      ≡ ok ((seq_num, request_of w unset), k)
unfolding parse_configure_request
parse_configure_request-sent w unset seq_num k old fits small_seq small_len =
    let start : ConfigureRequest = record old { ac_names_count = 0; radios_count = 0 } in
    ap
      (λ n.
        parse_configure_request unset (request_bytes w seq_num) (length (request_bytes w seq_num))
          old n)
      (parse_costs w unset k)
    ∙ parse_control_message_twice-carrying configure_request_count (configure_request_read unset)
        configure_request_arrays (λ n. true) seq_num configure_request (request_parts w)
        (counted_pieces w) (read_pieces w unset) start (counted_of w) 2 k refl (joined-counted w)
        (joined-read w unset) (counted-AreTaken w fits start)
        (read-AreTaken w fits unset (counted_of w) (omega arith) (omega arith))
        (arrays-counted w old) small_seq (omega arith) small_len
    ∙ ap (λ v. ok ((seq_num, v), k)) (changed-read w unset)

-- The Configure Request of a termination point whose values fit their fields, if one packet holds
-- it, is received, and CWParseConfigureRequestMessage counts its names and radios in one round and
-- reads them in another, in order and without leaving the arrays, up to the causes of the radios,
-- which are not set; CWSaveConfigureRequestMessage keeps the values. The number of the request has
-- 8 bits, the packet has at most 65536 bytes, and the allocations succeed.
pub configure_request-received :
    (w : WtpState) (id pmtu seq_num is_crypted unset j k : ℕ) (old : ConfigureRequest)
    (g : Configuration) (fs : List Fragment) (ds : List Datagram)
    → IsWtpState w
    → seq_num < 256
    → length (joined (request_parts w)) + 16 ≤ 65536
    → fragments_num (length (request_bytes w seq_num)) ((pmtu - 33) / 8 * 8) ≡ 1
    → let bytes : List ℕ = request_bytes w seq_num in
      let packet : List ℕ = header_bytes (whole_values none is_crypted) ++ bytes in
      (assemble_configure_request id pmtu seq_num is_crypted w
          (suc (grants (request_needs w) (suc (suc (suc (suc (suc k)))))))
        ≡ ok (written none packet 0 ∷ [], k))
      × (receive_message (record { packet = packet; grants = enough } ∷ ds) fs
          ≡ received false (written none bytes 0) ds)
      × (parse_configure_request unset bytes (length bytes) old (parse_needs w j)
          ≡ ok ((seq_num, request_of w unset), j))
      × (save_configure_request (request_of w unset) g ≡ configuration_of w unset)
unfolding save_configure_request
configure_request-received w id pmtu seq_num is_crypted unset j k old g fs ds fits small_seq
      small_len one =
    let (sent, got) =
      assemble_message-whole id pmtu seq_num configure_request is_crypted (request_parts w) [] k fs
        ds one (omega arith) in
    (
      assemble_configure_request-message w id pmtu seq_num is_crypted _ ∙ sent,
      got,
      parse_configure_request-sent w unset seq_num j old fits small_seq (omega arith),
      refl,
    )
