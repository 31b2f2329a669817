-- ===== src/ElementLoop/Received.antt =====
-- A control message whose elements the handler takes, as it was assembled.
use sicapwap.Prelude.{
  ℕ, suc, ◌+◌, ◌-◌, ◌%◌, ◌<◌, ◌≤◌, ◌≡◌, refl, sym, ap, subst, ◌∙◌, none, List, [], ◌∷◌, ◌++◌, All,
  arith, length, length-append, append-nil, ==_refl,
}
use sicapwap.Exec.{Exec, ok}
use sicapwap.Message.{Message}
use sicapwap.Message.Reading.{reading}
use sicapwap.Message.Reads.{grants}
use sicapwap.Header.{parse_control_header}
use sicapwap.Header.RoundTrip.{control_bytes}
use sicapwap.Element.RoundTrip.{element_bytes}
use sicapwap.Fragment.Control.{joined, control_values, message_bytes}
use sicapwap.Receive.RoundTrip.{received-control}
use sicapwap.ElementLoop.{parse_elements, parse_elements_of, parse_control_message}
use sicapwap.ElementLoop.Taken.{
  Piece, pieces_bytes, pieces_cost, changed, IsTaken, AreTaken, AreTaken-All, parse_elements-taken,
}

module _ {ℓ} {V : Type ℓ} where
  -- The elements as the assemblers leave them, with two bytes behind each that are not used.
  abbrev pub assembled : List (Piece V) → List (List ℕ × ℕ)
  assembled [] = []
  assembled (p ∷ ps) = (element_bytes p.type p.body, 2) ∷ assembled ps

  pub joined-assembled : (ps : List (Piece V)) → joined (assembled ps) ≡ pieces_bytes ps
  joined-assembled [] = refl
  joined-assembled (p ∷ ps) = ap (λ r. element_bytes p.type p.body ++ r) (joined-assembled ps)

  length-le-pieces_bytes : (ps : List (Piece V)) → length ps ≤ length (pieces_bytes ps)
  length-le-pieces_bytes [] = omega arith
  length-le-pieces_bytes (p ∷ ps) =
      omega (arith, length-append p.body (pieces_bytes ps), length-le-pieces_bytes ps)

  -- The loop over all that stands behind the control header.
  pub elements-carried :
      (one : ℕ → ℕ → V → Message → Exec (V × Message)) (ps : List (Piece V)) (v : V) (k : ℕ)
      → AreTaken one v ps
      → (head all : List ℕ) → all ≡ pieces_bytes ps
      → parse_elements one
          (suc (length all))
          (length head)
          (length all)
          v
          (reading none head (all ++ []))
          (grants (pieces_cost ps) k)
        ≡ ok ((changed ps v, reading none (head ++ all) []), k)
  elements-carried one ps v k taken head all parts =
      let size : ℕ = length (pieces_bytes ps) in
      subst
        (λ b.
          parse_elements one (suc (length b)) (length head) (length b) v
            (reading none head (b ++ [])) (grants (pieces_cost ps) k)
          ≡ ok ((changed ps v, reading none (head ++ b) []), k))
        (sym parts)
        (parse_elements-taken one (length head) size none head [] ps v (suc size) k taken
          (omega (arith, length-le-pieces_bytes ps)) (omega arith) (omega arith))

  -- A message whose parts are these elements.
  pub parse_control_message-carrying :
      (one : ℕ → ℕ → V → Message → Exec (V × Message)) (seq_num msg_type : ℕ)
      (bs : List (List ℕ × ℕ)) (ps : List (Piece V)) (v : V) (k : ℕ)
      → joined bs ≡ pieces_bytes ps
      → All (IsTaken one) ps
      → seq_num < 256
      → msg_type < 4294967296
      → length (pieces_bytes ps) + 3 < 65536
      → parse_control_message one msg_type
          (message_bytes seq_num msg_type bs [])
          (length (message_bytes seq_num msg_type bs []))
          v
          (grants (pieces_cost ps) k)
        ≡ ok ((seq_num, changed ps v), k)
  unfolding parse_control_message parse_elements_of
  parse_control_message-carrying one seq_num msg_type bs ps v k parts taken small_seq small_type
        small_len =
      let head : List ℕ = control_bytes (control_values seq_num msg_type bs []) in
      let all : List ℕ = joined bs in
      let sizes : length all ≡ length (pieces_bytes ps) = ap length parts in
      let len : (length all + 0 + 3 + 65536 - 3) % 65536 ≡ length all = omega arith in
      let enough : ℕ = grants (pieces_cost ps) k in
      let whole : List ℕ = message_bytes seq_num msg_type bs [] in
      let nothing_left : length (head ++ all) ≡ length whole =
        omega
          (arith, length-append head all, length-append head (all ++ []), length-append all []) in
      let control =
        ap (λ r. parse_control_header (record { msg = r; offset = 0; data_msg_type = none }) enough)
          (sym (append-nil whole))
        ∙ received-control seq_num msg_type enough bs [] small_seq small_type (omega arith) in
      rw (
        control,
        ==_refl msg_type,
        len,
        elements-carried one ps v k (AreTaken-All one v ps taken) head all parts,
        nothing_left,
        ==_refl (length whole),
      )
