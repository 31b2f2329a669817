-- ===== src/Acknowledged/Copies.antt =====
-- The messages that are sent several times, and broken off at last.
use sicapwap.Prelude.{
  ℕ, zero, suc, ◌+◌, ◌-◌, ◌<◌, ◌≤◌, ◌≡◌, refl, sym, ap, ◌∙◌, append_assoc, append-nil, Bool, inl,
  inr, List, [], ◌∷◌, ◌++◌, arith, Bool-cases,
}
use sicapwap.Message.{Message}
use sicapwap.AcRetransmission.{send_each}
use sicapwap.Acknowledged.Answered.{copies}

copies-add :
    (n m : ℕ) (messages : List Message)
    → copies (n + m) messages ≡ copies n messages ++ copies m messages
copies-add zero m messages = ap (λ n. copies n messages) {x = 0 + m} {y = m} (omega arith)
copies-add (suc n) m messages =
    ap (λ k. copies k messages) {x = suc n + m} {y = suc (n + m)} (omega arith)
    ∙ ap (λ r. messages ++ r) (copies-add n m messages)
    ∙ sym (append_assoc messages (copies n messages) (copies m messages))

pub copies-next :
    (n : ℕ) (messages : List Message) → copies n messages ++ messages ≡ copies (suc n) messages
copies-next n messages =
    ap (λ r. copies n messages ++ r) (sym (append-nil messages))
    ∙ sym (copies-add n 1 messages)
    ∙ ap (λ k. copies k messages) {x = n + 1} {y = suc n} (omega arith)

-- The messages that are sent until one is not.
send_each-begins :
    (send : Message → Bool) (ms : List Message)
    → (rest : List Message) × ((send_each send ms).1 ++ rest ≡ ms)
unfolding send_each
send_each-begins send [] = ([], refl)
send_each-begins send (m ∷ ms) = elim (Bool-cases (send m)) [
  | inl e ↦ let (rest, begins) = send_each-begins send ms in rw e (rest, ap (λ r. m ∷ r) begins)
  | inr e ↦ rw e (m ∷ ms, refl)
]

-- What is sent begins so many copies of the messages.
abbrev pub Begins : List Message → ℕ → List Message → Type 0
Begins sent n messages = (rest : List Message) × (sent ++ rest ≡ copies n messages)

pub copies-Begins :
    (n max : ℕ) (messages : List Message) → n ≤ max → Begins (copies n messages) max messages
copies-Begins n max messages below = (
  copies (max - n) messages,
  sym (copies-add n (max - n) messages) ∙ ap (λ n. copies n messages) (omega arith),
)

pub broken-Begins :
    (send : Message → Bool) (n max : ℕ) (messages : List Message)
    → n < max
    → Begins (copies n messages ++ (send_each send messages).1) max messages
broken-Begins send n max messages below =
    let (rest, begins) = send_each-begins send messages in
    let (more, ends) = copies-Begins (suc n) max messages below in
    (
      rest ++ more,
      append_assoc (copies n messages) (send_each send messages).1 (rest ++ more)
          ∙ ap (λ r. copies n messages ++ r)
              (sym (append_assoc (send_each send messages).1 rest more)
                ∙ ap (λ r. r ++ more) begins)
          ∙ sym (append_assoc (copies n messages) messages more)
          ∙ ap (λ r. r ++ more) (copies-next n messages)
          ∙ ends,
    )
