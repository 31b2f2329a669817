-- ===== src/WtpProtocol/Joined.antt =====
-- What the assemblers write that copy an element for each value to one message.
use sicapwap.Prelude.{
  ℕ, suc, ◌+◌, ◌≡◌, refl, ap, ◌∙◌, subst, none, List, [], ◌∷◌, ◌++◌, map, arith, length,
}
use sicapwap.Exec.{Exec, ok, ◌>>=◌}
use sicapwap.Message.{Message, be8, blank, create_message, store8, store_str}
use sicapwap.Message.Writes.{Writes8, Writes-str}
use sicapwap.Element.Filled.{Completes-end, Completes-then, Completes-last, Completes-created}
use sicapwap.Message.Written.{written}
use sicapwap.Message.Reads.{grants, grants_assoc}
use sicapwap.Element.{RadioState, assemble_msg_elem}
use sicapwap.Element.RoundTrip.{element_bytes}
use sicapwap.Fragment.{store_messages}
use sicapwap.Fragment.Control.{filled, joined, elems_len-filled, store_messages-written}
use sicapwap.WtpProtocol.Assemble.{assemble_array, assemble_joined, assemble_ac_name_with_index}
use sicapwap.WtpProtocol.Events.{assemble_radio_admin_state, assemble_radio_operational_state}

-- `n` allocations for each value.
abbrev pub grants_each {ℓ} : {A : Type ℓ} → ℕ → List A → ℕ → ℕ
grants_each n [] k = k
grants_each n (a ∷ rest) k = grants n (grants_each n rest k)

pub grants_each_assoc {ℓ} :
    {A : Type ℓ} (n m : ℕ) (values : List A) (k : ℕ)
    → grants (grants_each n values m) k ≡ grants_each n values (grants m k)
grants_each_assoc n m [] k = refl
grants_each_assoc n m (a ∷ rest) k =
    grants_assoc n (grants_each n rest m) k ∙ ap (grants n) (grants_each_assoc n m rest k)

pub nothing_each : {A : Type 0} (values : List A) (k : ℕ) → grants_each 0 values k ≡ k
nothing_each [] k = refl
nothing_each (a ∷ rest) k = nothing_each rest k

module _ {ℓ} {A : Type ℓ} (one : A → Exec Message) (part : A → List ℕ × ℕ) (n : ℕ)
    (made : (a : A) (k : ℕ) → one a (grants n k) ≡ ok (written none (part a).0 (part a).1, k)) where
  assemble_array-each :
      (values : List A) (k : ℕ)
      → assemble_array one values (grants_each n values k) ≡ ok (filled (map part values), k)
  unfolding assemble_array
  assemble_array-each [] k = refl
  assemble_array-each (a ∷ rest) k = rw (made a (grants_each n rest k), assemble_array-each rest k)

  store_messages-exact :
      (m : Message) (bs : List (List ℕ × ℕ)) (k : ℕ)
      → store_messages (written m.data_msg_type [] (length (joined bs))) (filled bs) k
        ≡ ok (written m.data_msg_type (joined bs) 0, k)
  store_messages-exact m bs k =
      subst
        (λ free.
          store_messages (written m.data_msg_type [] free) (filled bs) k
          ≡ ok (written m.data_msg_type (joined bs) 0, k))
        {x = length (joined bs) + 0} (omega arith)
        (store_messages-written m.data_msg_type [] bs 0 k)

  pub assemble_joined-written :
      (m : Message) (values : List A) (k : ℕ)
      → assemble_joined m one values (suc (grants_each n values (suc k)))
        ≡ ok (written m.data_msg_type (joined (map part values)) 0, k)
  unfolding assemble_joined
  assemble_joined-written m values k = rw (
    assemble_array-each values (suc k),
    elems_len-filled (map part values),
    store_messages-exact m (map part values) k,
  )

-- The elements of radios, and of names with an index.
abbrev pub operational_part : RadioState → List ℕ × ℕ
operational_part r = (element_bytes 32 (be8 r.id ++ (be8 r.state ++ be8 r.cause)), 2)

abbrev pub admin_part : RadioState → List ℕ × ℕ
admin_part r = (element_bytes 31 (be8 r.id ++ be8 r.state), 2)

abbrev pub indexed_part : ℕ × List ℕ → List ℕ × ℕ
indexed_part name = (element_bytes 5 (be8 name.0 ++ name.1), 2)

pub assemble_radio_operational_state-written :
    (m : Message) (radios : List RadioState) (k : ℕ)
    → assemble_radio_operational_state m radios (suc (suc (grants_each 2 radios (suc k))))
      ≡ ok (written m.data_msg_type (joined (map operational_part radios)) 0, k)
unfolding assemble_radio_operational_state sicapwap.Element.assemble_msg_elem
assemble_radio_operational_state-written m radios k =
    assemble_joined-written _ operational_part 2 (λ r k. refl) m radios k

pub assemble_radio_admin_state-written :
    (m : Message) (radios : List RadioState) (k : ℕ)
    → assemble_radio_admin_state m radios (suc (suc (grants_each 2 radios (suc k))))
      ≡ ok (written m.data_msg_type (joined (map admin_part radios)) 0, k)
unfolding assemble_radio_admin_state sicapwap.Element.assemble_msg_elem
assemble_radio_admin_state-written m radios k =
    assemble_joined-written _ admin_part 2 (λ r k. refl) m radios k

name-written :
    (name : ℕ × List ℕ) (k : ℕ)
    → (create_message blank (1 + length name.1) >>= λ m.
          store8 m name.0 >>= λ m. store_str m name.1 >>= λ m. assemble_msg_elem m 5)
        (suc (suc k))
      ≡ ok (written none (indexed_part name).0 2, k)
name-written name k =
    Completes-created (1 + length name.1) (omega arith)
      (Completes-then _ (Writes8 name.0) (Completes-last _ (Writes-str name.1) (Completes-end 5)))
      blank k

pub assemble_ac_name_with_index-written :
    (m : Message) (names : List (ℕ × List ℕ)) (k : ℕ)
    → assemble_ac_name_with_index m names (suc (grants_each 2 names (suc k)))
      ≡ ok (written m.data_msg_type (joined (map indexed_part names)) 0, k)
unfolding assemble_ac_name_with_index
assemble_ac_name_with_index-written m names k =
    assemble_joined-written _ indexed_part 2 name-written m names k
