-- ===== src/Receive/AnyOrder.antt =====
-- `CWReceiveMessage` on the fragments of one packet, in the order in which they happen to arrive.
use sicapwap.Prelude.{
  ℕ, suc, ◌+◌, ◌-◌, ◌*◌, ◌%◌, ◌<◌, ◌≤◌, ◌≡◌, refl, ap, ◌∙◌, Bool, Option, none, some, List, [], ◌∷◌,
  map, arith, length, replicate, false, ltb,
}
use sicapwap.Prelude.Weights.{one_at, range, weight-range, weight-perm}
use mathlib.Core.List.{Perm}
use sicapwap.Exec.{need_resource}
use sicapwap.Message.Written.{written}
use sicapwap.Header.{BindingValues, has_binding}
use sicapwap.Header.RoundTrip.{data_type_read, budget_read}
use sicapwap.Fragment.{fragment_values}
use sicapwap.Fragment.Assembled.{fragment_packet}
use sicapwap.Reassembly.{Fragment, complete, failed, max_offset, parse_fragment, check_complete}
use sicapwap.Reassembly.Arrival.{kept}
use sicapwap.Reassembly.Packet.{parse_fragment-new}
use sicapwap.Reassembly.Complete.{Parts, check_complete-missing, check_complete-all}
use sicapwap.Receive.{Datagram, received, buffer_size, filled_buffer, after_reply, receive_message}

-- Allocations for one fragment: its transport header takes one or two, its list element, its bytes
-- and the list's node three, and the whole packet one.
abbrev pub enough : ℕ
enough = 6

pub in_buffer : (n : ℕ) → n ≤ buffer_size → ltb buffer_size n ≡ false
in_buffer n h = ground arith

-- What a round does when a fragment is still missing, and when the packet is complete.
receive_message_again :
    (d : Datagram) (ds : List Datagram) (fs fs' : List Fragment)
    → length d.packet ≤ buffer_size
    → parse_fragment (filled_buffer d.packet) (length d.packet) fs d.grants
      ≡ (failed need_resource, fs')
    → receive_message (d ∷ ds) fs ≡ receive_message ds fs'
unfolding receive_message after_reply
receive_message_again d ds fs fs' short e =
    rw (in_buffer (length d.packet) short) (ap (λ r. after_reply r ds (receive_message ds r.1)) e)

receive_message_done :
    (d : Datagram) (ds : List Datagram) (fs : List Fragment) (flag : Bool) (m : _)
    → length d.packet ≤ buffer_size
    → parse_fragment (filled_buffer d.packet) (length d.packet) fs d.grants ≡ (complete flag m, [])
    → receive_message (d ∷ ds) fs ≡ received flag m ds
unfolding receive_message after_reply
receive_message_done d ds fs flag m short e =
    rw (in_buffer (length d.packet) short) (ap (λ r. after_reply r ds (receive_message ds r.1)) e)

-- The budget that is left for the packet's buffer.
spare : Option BindingValues → ℕ
spare none = 2
spare (some b) = 1

spare_lem : (b : Option BindingValues) → budget_read b 2 ≡ suc (spare b)
unfolding spare
spare_lem none = refl
spare_lem (some b) = refl

module _ (binding : Option BindingValues) (payload_type id groups num : ℕ) (bytes : List ℕ) where
  abbrev pub datagram : ℕ → Datagram
  datagram i = record {
    packet = fragment_packet binding payload_type id (groups * 8) num bytes i;
    grants = enough;
  }

  abbrev kept_all : List ℕ → List Fragment
  kept_all = map (kept (id % 65536) groups num bytes)

  -- The data flag, and the message.
  abbrev is_data : Bool
  is_data = has_binding (fragment_values binding payload_type id 0 0)

  module _ (pos : 0 < groups) (covers : length bytes ≤ num * (groups * 8))
      (least : (num - 1) * (groups * 8) < length bytes) (reach : (num - 1) * groups < 8192)
      (short : (i : ℕ) → length (datagram i).packet ≤ buffer_size) where
    fits : (i : ℕ) → i < num → i * groups < 8192
    fits i h =
        let n : ℕ = num - 1 in let below : i * groups ≤ n * groups = grind arith in omega arith

    few : num ≤ max_offset + 2
    few = let n : ℕ = num - 1 in let small : n ≤ n * groups = grind arith in omega arith

    arrives :
        (i : ℕ) (seen rest : List ℕ)
        → Parts num seen (i ∷ rest)
        → parse_fragment
            (filled_buffer (datagram i).packet)
            (length (datagram i).packet)
            (kept_all seen)
            enough
          ≡ check_complete is_data
              (data_type_read binding none)
              (kept_all (i ∷ seen))
              (budget_read binding 2)
    unfolding filled_buffer
    arrives i seen rest parts =
        let below : i < num = ground (arith, parts (one_at i), weight-range 0 num i) in
        parse_fragment-new binding payload_type id groups num bytes
          (replicate (buffer_size - length (datagram i).packet) 0) i 2 seen pos (fits i below)
          (ground (arith, parts (one_at i), weight-range 0 num i))

    move : (i : ℕ) (seen rest : List ℕ) → Parts num seen (i ∷ rest) → Parts num (i ∷ seen) rest
    move i seen rest parts w = omega (arith, parts w)

    -- The rounds for the fragments that are still to come.
    receive_message-rest :
        (i : ℕ) (rest seen : List ℕ)
        → Parts num seen (i ∷ rest)
        → receive_message (map datagram (i ∷ rest)) (kept_all seen)
          ≡ received is_data (written (data_type_read binding none) bytes 0) []
    receive_message-rest i [] seen parts =
        receive_message_done (datagram i) [] (kept_all seen) is_data
          (written (data_type_read binding none) bytes 0) (short i)
          (arrives i seen [] parts
            ∙ ap (check_complete is_data (data_type_read binding none) (kept_all (i ∷ seen)))
                (spare_lem binding)
            ∙ check_complete-all (id % 65536) groups num bytes is_data (data_type_read binding none)
                pos covers least (i ∷ seen) (spare binding)
                (ground (arith, parts (one_at i), weight-range 0 num i)) few (move i seen [] parts))
    receive_message-rest i (j ∷ rest) seen parts =
        receive_message_again (datagram i) (map datagram (j ∷ rest)) (kept_all seen)
          (kept_all (i ∷ seen)) (short i)
          (arrives i seen (j ∷ rest) parts
            ∙ check_complete-missing (id % 65536) groups num bytes is_data
                (data_type_read binding none) pos covers least (i ∷ seen) rest j
                (budget_read binding 2) (move i seen (j ∷ rest) parts))
        ∙ receive_message-rest j rest (i ∷ seen) (move i seen (j ∷ rest) parts)

    -- All fragments, in any order.
    pub receive_message-perm :
        (js : List ℕ)
        → 0 < num
        → Perm js (range 0 num)
        → receive_message (map datagram js) []
          ≡ received is_data (written (data_type_read binding none) bytes 0) []
    receive_message-perm [] some_num p =
        absurd (ground (arith, weight-perm (one_at 0) p, weight-range 0 num 0))
    receive_message-perm (j ∷ js) some_num p =
        receive_message-rest j js [] (λ w. omega (arith, weight-perm w p))
