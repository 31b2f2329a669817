-- ===== src/ElementLoop/Twice.antt =====
-- A control message whose elements are gone through twice, as it was assembled.
use sicapwap.Prelude.{
  ℕ, suc, ◌+◌, ◌-◌, ◌%◌, ◌<◌, ◌≡◌, sym, ap, ◌∙◌, Bool, true, none, List, [], ◌∷◌, ◌++◌, arith,
  length, length-append, append-nil, ==_refl, lt→ltb,
}
use sicapwap.Exec.{Exec, ok, ◌>>◌, alloc}
use sicapwap.Message.{Message}
use sicapwap.Message.Reading.{reading-append}
use sicapwap.Message.Reads.{grants, Reads}
use sicapwap.Header.{parse_control_header}
use sicapwap.Header.RoundTrip.{control_bytes}
use sicapwap.Fragment.Control.{joined, control_values, message_bytes}
use sicapwap.Receive.RoundTrip.{received-control}
use sicapwap.ElementLoop.{parse_elements_of, parse_control_message_twice, skip, put, put_into}
use sicapwap.ElementLoop.Taken.{Piece, pieces_bytes, pieces_cost, changed, AreTaken}
use sicapwap.ElementLoop.Received.{elements-carried}

-- An element that is passed by.
pub Reads-skip {ℓ} :
    {V : Type ℓ} (bytes : List ℕ) (v : V) → Reads 0 (λ m. skip (length bytes) v m) bytes v
Reads-skip bytes v = record {
  run = λ d front rest k. ap (λ m. ok ((v, m), k)) (reading-append d front rest bytes);
}

-- An element for which memory is allocated first.
pub Reads-alloc {ℓ} :
    {A : Type ℓ} {n : ℕ} {act : Message → Exec (A × Message)} {bytes : List ℕ} {a : A}
    → Reads n act bytes a
    → Reads (suc n) (λ m. alloc >> act m) bytes a
Reads-alloc r = record { run = λ d front rest k. r.run d front rest k }

-- An element that is put into an array which has room.
pub Reads-put_into {ℓ κ} :
    {A : Type ℓ} {V : Type κ} {n : ℕ} {part : Message → Exec (A × Message)} {bytes : List ℕ} {a : A}
    (count : ℕ) (array : List A) (change : List A → V)
    → Reads n part bytes a
    → length array < count
    → Reads n (λ m. put_into (part m) count array change) bytes (change (array ++ (a ∷ [])))
unfolding put
Reads-put_into count array change r room = record {
  run = λ d front rest k. rw (r.run d front rest k, lt→ltb (length array) count room);
}

module _ {ℓ} {V : Type ℓ} (count read : ℕ → ℕ → V → Message → Exec (V × Message))
    (between : V → Exec V) where
  -- `ps` is what the first round makes of the elements, `qs` what the second one does.
  pub parse_control_message_twice-carrying :
      (accepts : ℕ → Bool) (seq_num msg_type : ℕ) (bs : List (List ℕ × ℕ)) (ps qs : List (Piece V))
      (v w : V) (n k : ℕ)
      → accepts seq_num ≡ true
      → joined bs ≡ pieces_bytes ps
      → joined bs ≡ pieces_bytes qs
      → AreTaken count v ps
      → AreTaken read w qs
      → ((k : ℕ) → between (changed ps v) (grants n k) ≡ ok (w, k))
      → seq_num < 256
      → msg_type < 4294967296
      → length (joined bs) + 3 < 65536
      → parse_control_message_twice count read between accepts msg_type
          (message_bytes seq_num msg_type bs [])
          (length (message_bytes seq_num msg_type bs []))
          v
          (grants (pieces_cost ps) (grants n (grants (pieces_cost qs) k)))
        ≡ ok ((seq_num, changed qs w), k)
  unfolding parse_control_message_twice parse_elements_of
  parse_control_message_twice-carrying accepts seq_num msg_type bs ps qs v w n k accepted first
        second counted taken got small_seq small_type small_len =
      let head : List ℕ = control_bytes (control_values seq_num msg_type bs []) in
      let all : List ℕ = joined bs in
      let len : (length all + 0 + 3 + 65536 - 3) % 65536 ≡ length all = omega arith in
      let rest : ℕ = grants n (grants (pieces_cost qs) k) in
      let enough : ℕ = grants (pieces_cost ps) rest in
      let whole : List ℕ = message_bytes seq_num msg_type bs [] in
      let nothing_left : length (head ++ all) ≡ length whole =
        omega
          (arith, length-append head all, length-append head (all ++ []), length-append all []) in
      let control =
        ap (λ r. parse_control_header (record { msg = r; offset = 0; data_msg_type = none }) enough)
          (sym (append-nil whole))
        ∙ received-control seq_num msg_type enough bs [] small_seq small_type (omega arith) in
      rw (
        control,
        ==_refl msg_type,
        accepted,
        len,
        elements-carried count ps v rest counted head all first,
        nothing_left,
        ==_refl (length whole),
        got (grants (pieces_cost qs) k),
        elements-carried read qs w k taken head all second,
      )
