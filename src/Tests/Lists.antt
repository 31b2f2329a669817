-- ===== src/Tests/Lists.antt =====
-- CWList.c and ACRetransmission.c: concrete states.
use sicapwap.Prelude.{◌≡◌, refl, true, false, none, some, List, [], ◌∷◌, arith, ◌==◌}
use sicapwap.Message.{blank}
use sicapwap.Cells.{Store, update}
use sicapwap.LinkedList.{ListElement, delete_in_list, count_from}
use sicapwap.LinkedList.Chain.{
  Link, start_of, Chained, Unshared, contents_of, count_from-Chained, delete_in_list-Chained,
}
use sicapwap.LinkedList.Added.{Shows}
use sicapwap.AcRetransmission.{
  WtpManager, send_each, ac_send_acknowledged_packet, ac_resend_acknowledged_packet,
  ac_send_fragments,
}
use sicapwap.AcRetransmission.Once.{expirations, send_acknowledged-once}

abbrev links : List Link
links = record { address = 1; contents = 70 } ∷ record { address = 2; contents = 80 } ∷ []

abbrev cells : Store ListElement
cells = record {
  next = 3;
  cell = λ p.
      update (update (λ q. none) 1 (some (record { contents = 70; next = some 2 }))) 2
        (some (record { contents = 80; next = none })) p;
  grants = 1;
}

links-Chained : Chained cells.cell links
links-Chained = (refl, (refl, tt))

links-Unshared : Unshared links
links-Unshared = ((omega arith, tt), (tt, tt))

links-Shows : Shows cells links (70 ∷ 80 ∷ [])
links-Shows = (links-Chained, links-Unshared, (omega arith, (omega arith, tt)), refl)

count_from-Chained_example : count_from 3 0 (some 1) cells ≡ some (2, cells)
count_from-Chained_example = count_from-Chained cells 3 0 links links-Chained (omega arith)

delete_in_list-Chained_example :
    (s' : Store ListElement) × (ms : List Link) × (delete_in_list 3 (some 1) (λ x. x == 80) cells
      ≡ some ((some 80, start_of ms), s'))
    × Chained s'.cell ms
    × Unshared ms
    × (contents_of ms ≡ 70 ∷ [])
delete_in_list-Chained_example =
    delete_in_list-Chained cells (λ x. x == 80) links links-Chained links-Unshared

abbrev manager : WtpManager
manager = record {
  messages = some (blank ∷ []);
  messages_count = 1;
  is_retransmitting = false;
  retransmission_count = 0;
  response_type = 0;
  response_seq_num = 0;
  timer = false;
  is_request_close = false;
  closed = false;
  sent = [];
}

send_acknowledged-once_example :
    let w' = (ac_send_acknowledged_packet (λ m. true) true 8 5 manager).1 in
    (w'.sent ≡ blank ∷ [])
    × (w'.is_retransmitting ≡ true)
    × (expirations 9 5 (λ m. true) true w' ≡ w')
unfolding ac_send_acknowledged_packet ac_resend_acknowledged_packet ac_send_fragments send_each
send_acknowledged-once_example =
    send_acknowledged-once (λ m. true) (λ m. true) true 8 5 9 5 (blank ∷ []) manager refl refl refl
