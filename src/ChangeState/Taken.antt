-- ===== src/ChangeState/Taken.antt =====
-- The elements of the Change State Event: assembled by the termination point, counted and read by
-- the access controller.
use sicapwap.Prelude.{
  ℕ, ◌+◌, ◌<◌, ◌≡◌, refl, sym, ap, ◌∙◌, List, [], ◌∷◌, ◌++◌, All, map, arith, length, length-append,
  append_assoc, append-nil,
}
use sicapwap.Message.{be8, be32}
use sicapwap.Message.Reads.{Reads, Reads-return, Reads-then, Reads-pure, Reads8_fits, Reads32_fits}
use sicapwap.Element.{
  RadioState, parse_wtp_radio_operational_state, parse_result_code, result_code_type,
}
use sicapwap.Element.Body.{Reads-element}
use sicapwap.Element.RoundTrip.{element_bytes}
use sicapwap.Fragment.Control.{joined}
use sicapwap.WtpProtocol.Joined.{operational_part}
use sicapwap.ElementLoop.Taken.{Piece, pieces_bytes, pieces_cost, changed, AreTaken}
use sicapwap.ElementLoop.Twice.{Reads-skip, Reads-put_into}
use sicapwap.ChangeState.{ChangeStateEvent, change_state_event_count, change_state_event_read}

-- The fields of a radio's state are bytes.
pub record IsRadioState (r : RadioState) : Type 0 where
  pub id_fits : r.id < 256
  pub state_fits : r.state < 256
  pub cause_fits : r.cause < 256

abbrev pub state_bytes : RadioState → List ℕ
state_bytes r = be8 r.id ++ (be8 r.state ++ be8 r.cause)

pub Reads-parse_wtp_radio_operational_state :
    (r : RadioState)
    → IsRadioState r
    → Reads 0 (λ m. parse_wtp_radio_operational_state m 3) (state_bytes r) r
unfolding parse_wtp_radio_operational_state
Reads-parse_wtp_radio_operational_state r fits =
    Reads-element
      (Reads-then _ (Reads8_fits r.id fits.id_fits) (
        Reads-then _ (Reads8_fits r.state fits.state_fits)
          (Reads-return _ (Reads8_fits r.cause fits.cause_fits) (Reads-pure r))))
      3 refl

pub Reads-parse_result_code :
    (code : ℕ) → code < 4294967296 → Reads 0 (λ m. parse_result_code m 4) (be32 code) code
unfolding parse_result_code
Reads-parse_result_code code fits = Reads-element (Reads32_fits code fits) 4 refl

-- The radios behind those that were read, and then the result code.
abbrev pub counted_pieces : List RadioState → List (Piece ChangeStateEvent)
counted_pieces [] =
    record { type = 33; body = be32 0; cost = 0; change = λ v. record v { result_code = 0 } } ∷ []
counted_pieces (r ∷ rs) =
    record {
      type = 32;
      body = state_bytes r;
      cost = 0;
      change = λ v. record v { radios_count = v.radios_count + 1 };
    }
    ∷ counted_pieces rs

abbrev pub read_pieces : List RadioState → List (Piece ChangeStateEvent)
read_pieces [] = record { type = 33; body = be32 0; cost = 0; change = λ v. v } ∷ []
read_pieces (r ∷ rs) =
    record {
      type = 32;
      body = state_bytes r;
      cost = 0;
      change = λ v. record v { radios = v.radios ++ (r ∷ []) };
    }
    ∷ read_pieces rs

pub counted-AreTaken :
    (rs : List RadioState) (v : ChangeStateEvent)
    → AreTaken change_state_event_count v (counted_pieces rs)
unfolding change_state_event_count
counted-AreTaken [] v = (
  record {
    type_fits = omega arith;
    length_fits = omega arith;
    takes = Reads-return _ (Reads-parse_result_code 0 (omega arith)) (Reads-pure _);
  },
  tt,
)
counted-AreTaken (r ∷ rs) v = (
  record {
    type_fits = omega arith;
    length_fits = omega arith;
    takes = Reads-skip (state_bytes r) (record v { radios_count = v.radios_count + 1 });
  },
  counted-AreTaken rs (record v { radios_count = v.radios_count + 1 }),
)

pub read-AreTaken :
    (rs : List RadioState) (v : ChangeStateEvent)
    → All IsRadioState rs
    → length v.radios + length rs ≡ v.radios_count
    → AreTaken change_state_event_read v (read_pieces rs)
unfolding change_state_event_read
read-AreTaken [] v fits room = (
  record { type_fits = omega arith; length_fits = omega arith; takes = Reads-skip (be32 0) v },
  tt,
)
read-AreTaken (r ∷ rs) v (fit, fits) room = (
  record {
    type_fits = omega arith;
    length_fits = omega arith;
    takes =
        Reads-put_into v.radios_count v.radios (λ s. record v { radios = s })
          (Reads-parse_wtp_radio_operational_state r fit) (omega arith);
  },
  read-AreTaken rs (record v { radios = v.radios ++ (r ∷ []) }) fits
      (omega (arith, length-append v.radios (r ∷ []))),
)

-- What is assembled is what is counted, and what is read.
abbrev pub event_parts : List RadioState → List (List ℕ × ℕ)
event_parts radios =
    (joined (map operational_part radios), 0) ∷ ((element_bytes result_code_type (be32 0), 2) ∷ [])

pub joined-counted :
    (rs : List RadioState) → joined (event_parts rs) ≡ pieces_bytes (counted_pieces rs)
joined-counted [] = refl
joined-counted (r ∷ rs) =
    append_assoc (operational_part r).0 (joined (map operational_part rs)) _
    ∙ ap (λ b. (operational_part r).0 ++ b) (joined-counted rs)

pub counted-read :
    (rs : List RadioState) → pieces_bytes (counted_pieces rs) ≡ pieces_bytes (read_pieces rs)
counted-read [] = refl
counted-read (r ∷ rs) = ap (λ b. (operational_part r).0 ++ b) (counted-read rs)

-- What the rounds make of the values.
pub changed-counted :
    (rs : List RadioState) (v : ChangeStateEvent)
    → changed (counted_pieces rs) v
      ≡ record v { radios_count = v.radios_count + length rs; result_code = 0 }
changed-counted [] v = ap (λ n. record v { radios_count = n; result_code = 0 }) (omega arith)
changed-counted (r ∷ rs) v =
    changed-counted rs (record v { radios_count = v.radios_count + 1 })
    ∙ ap (λ n. record v { radios_count = n; result_code = 0 }) {x = v.radios_count + 1 + length rs}
        (omega arith)

pub changed-read :
    (rs : List RadioState) (v : ChangeStateEvent)
    → changed (read_pieces rs) v ≡ record v { radios = v.radios ++ rs }
changed-read [] v = ap (λ s. record v { radios = s }) (sym (append-nil v.radios))
changed-read (r ∷ rs) v =
    changed-read rs (record v { radios = v.radios ++ (r ∷ []) })
    ∙ ap (λ s. record v { radios = s }) (append_assoc v.radios (r ∷ []) rs)

pub cost-counted : (rs : List RadioState) → pieces_cost (counted_pieces rs) ≡ 0
cost-counted [] = refl
cost-counted (r ∷ rs) = cost-counted rs

pub cost-read : (rs : List RadioState) → pieces_cost (read_pieces rs) ≡ 0
cost-read [] = refl
cost-read (r ∷ rs) = cost-read rs
