-- ===== src/Fragment/Control.antt =====
-- What `CWAssembleMessage` puts in one buffer before it cuts it.
use sicapwap.Prelude.{
  ℕ, suc, ◌+◌, ◌≡◌, refl, sym, ap, ◌∙◌, List, [], ◌∷◌, ◌++◌, Option, none, arith, length,
  length-append, append-nil, append_assoc,
}
use sicapwap.Exec.{ok, ◌>>=◌}
use sicapwap.Message.{Message, blank}
use sicapwap.Message.Written.{written, create_message-written, store_message-written}
use sicapwap.Header.{ControlValues}
use sicapwap.Header.RoundTrip.{control_bytes, assemble_control_header-written}
use sicapwap.Fragment.{store_messages, elems_len, control_message}

-- Elements: the bytes of each, and how many it has behind them that are not used.
abbrev pub filled : List (List ℕ × ℕ) → List Message
filled [] = []
filled ((b, spare) ∷ bs) = written none b spare ∷ filled bs

abbrev pub joined : List (List ℕ × ℕ) → List ℕ
joined [] = []
joined ((b, spare) ∷ bs) = b ++ joined bs

pub elems_len-filled : (bs : List (List ℕ × ℕ)) → elems_len (filled bs) ≡ length (joined bs)
unfolding elems_len
elems_len-filled [] = refl
elems_len-filled ((b, spare) ∷ bs) = omega (arith, elems_len-filled bs, length-append b (joined bs))

pub store_messages-written :
    (d : Option ℕ) (front : List ℕ) (bs : List (List ℕ × ℕ)) (free k : ℕ)
    → store_messages (written d front (length (joined bs) + free)) (filled bs) k
      ≡ ok (written d (front ++ joined bs) free, k)
unfolding store_messages
store_messages-written d front [] free k =
    ap (λ n. ok (written d front n, k)) {x = 0 + free} {y = free} (omega arith)
    ∙ ap (λ r. ok (written d r free, k)) (sym (append-nil front))
store_messages-written d front ((b, spare) ∷ bs) free k =
    let rest : ℕ = length (joined bs) + free in
    let room : length (joined ((b, spare) ∷ bs)) + free ≡ length b + rest =
      omega (arith, length-append b (joined bs)) in
    rw
      (
        room,
        store_message-written d front rest k none b spare,
        store_messages-written d (front ++ b) bs free k,
      )
      (ap (λ r. ok (written d r free, k)) (append_assoc front b (joined bs)))

-- The values of the control header for elements of so many bytes.
abbrev pub control_values : ℕ → ℕ → List (List ℕ × ℕ) → List (List ℕ × ℕ) → ControlValues
control_values seq_num msg_type bs binding_bs = record {
  message_type_value = msg_type;
  seq_num = seq_num;
  msg_elems_len = length (joined bs) + length (joined binding_bs);
}

-- The bytes of a control message.
abbrev pub message_bytes : ℕ → ℕ → List (List ℕ × ℕ) → List (List ℕ × ℕ) → List ℕ
message_bytes seq_num msg_type bs binding_bs =
    control_bytes (control_values seq_num msg_type bs binding_bs)
    ++ (joined bs ++ joined binding_bs)

pub length-message_bytes :
    (seq_num msg_type : ℕ) (bs binding_bs : List (List ℕ × ℕ))
    → length (message_bytes seq_num msg_type bs binding_bs)
      ≡ 8 + (length (joined bs) + length (joined binding_bs))
unfolding control_bytes
length-message_bytes seq_num msg_type bs binding_bs =
    omega (arith, length-append (joined bs) (joined binding_bs))

-- Both lists, behind what is there.
both_stored :
    (front : List ℕ) (bs binding_bs : List (List ℕ × ℕ)) (k : ℕ)
    → (store_messages
            (written none front (length (joined bs) + length (joined binding_bs)))
            (filled bs)
          >>= (λ m. store_messages m (filled binding_bs)))
        k
      ≡ ok (written none (front ++ (joined bs ++ joined binding_bs)) 0, k)
both_stored front bs binding_bs k =
    let more : ℕ = length (joined binding_bs) + 0 in
    ap
      (λ n.
        (store_messages (written none front (length (joined bs) + n)) (filled bs)
            >>= (λ m. store_messages m (filled binding_bs)))
          k)
      {y = more} (omega arith)
    ∙ rw
        (
          store_messages-written none front bs more k,
          store_messages-written none (front ++ joined bs) binding_bs 0 k,
        )
        (ap (λ r. ok (written none r 0, k)) (append_assoc front (joined bs) (joined binding_bs)))

-- The control header, then all elements in their order.
pub control_message-written :
    (seq_num msg_type : ℕ) (bs binding_bs : List (List ℕ × ℕ)) (k : ℕ)
    → control_message seq_num msg_type (filled bs) (filled binding_bs) (suc (suc k))
      ≡ ok (written none (message_bytes seq_num msg_type bs binding_bs) 0, k)
unfolding control_message
control_message-written seq_num msg_type bs binding_bs k =
    let v = control_values seq_num msg_type bs binding_bs in
    let len : ℕ = length (joined bs) + length (joined binding_bs) in
    rw
      (
        elems_len-filled bs,
        elems_len-filled binding_bs,
        assemble_control_header-written blank v (suc k),
        create_message-written blank (length (control_bytes v) + len) k,
        store_message-written none [] len k none (control_bytes v) 0,
      )
      (both_stored (control_bytes v) bs binding_bs k)
