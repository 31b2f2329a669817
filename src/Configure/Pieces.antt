-- ===== src/Configure/Pieces.antt =====
-- The elements of the Configure Request, in both rounds of the parser.
use sicapwap.Prelude.{
  ℕ, ◌+◌, ◌-◌, ◌<◌, ◌≡◌, refl, sym, ap, subst, ◌∙◌, Option, some, List, [], ◌∷◌, ◌++◌, All, map,
  arith, length, append_assoc, append-nil,
}
use sicapwap.Message.{be8, be16}
use sicapwap.Message.Reads.{
  Reads, Reads-return, Reads-then, Reads-pure, Reads8_fits, Reads-str, Reads-str_fits,
}
use sicapwap.Element.{RadioState, parse_ac_name, parse_wtp_radio_admin_state}
use sicapwap.Element.Body.{Reads-element}
use sicapwap.AcProtocol.Events.{parse_ac_name_with_index}
use sicapwap.AcProtocol.Statistics.{IsReboot, reboot_bytes}
use sicapwap.ElementLoop.Taken.{Piece}
use sicapwap.ElementLoop.Many.{many, changed_by}
use sicapwap.Configure.{WtpState, ConfigureRequest}

-- The values of a termination point fit their fields.
pub record IsRadio (r : RadioState) : Type 0 where
  pub id_fits : r.id < 256
  pub state_fits : r.state < 256

pub record IsIndexed (name : ℕ × List ℕ) : Type 0 where
  pub index_fits : name.0 < 256
  pub name_fits : length name.1 < 65535

pub record IsWtpState (w : WtpState) : Type 0 where
  pub name_fits : length w.ac_name < 65536
  pub names_fit : All IsIndexed w.ac_names
  pub radios_fit : All IsRadio w.radios
  pub timer_fits : w.statistics_timer < 65536
  pub reboot_fits : IsReboot w.reboot_statistics

abbrev pub name_bytes : ℕ × List ℕ → List ℕ
name_bytes name = be8 name.0 ++ name.1

abbrev pub radio_bytes : RadioState → List ℕ
radio_bytes r = be8 r.id ++ be8 r.state

abbrev pub as_string : List ℕ → Option (List ℕ)
as_string str = some (str ++ (0 ∷ []))

-- A name, and a radio, as the access controller reads them.
abbrev pub read_name : ℕ × List ℕ → ℕ × Option (List ℕ)
read_name name = (name.0, as_string name.1)

abbrev pub read_radio : ℕ → RadioState → RadioState
read_radio unset r = record { id = r.id; state = r.state; cause = unset }

pub Reads-parse_ac_name :
    (str : List ℕ) → Reads 1 (λ m. parse_ac_name m (length str)) str (as_string str)
unfolding parse_ac_name
Reads-parse_ac_name str = Reads-element (Reads-str str) (length str) refl

pub Reads-parse_ac_name_with_index :
    (name : ℕ × List ℕ)
    → IsIndexed name
    → Reads 1
        (λ m. parse_ac_name_with_index m (length (name_bytes name)))
        (name_bytes name)
        (read_name name)
unfolding parse_ac_name_with_index
Reads-parse_ac_name_with_index name fits =
    Reads-element
      (Reads-then _ (Reads8_fits name.0 fits.index_fits) (
        Reads-return _ (Reads-str_fits name.1 (length (name_bytes name) - 1) (omega arith))
          (Reads-pure (read_name name))))
      (length (name_bytes name)) refl

pub Reads-parse_wtp_radio_admin_state :
    (unset : ℕ) (r : RadioState)
    → IsRadio r
    → Reads 0
        (λ m. parse_wtp_radio_admin_state m 2 (record { id = 0; state = 0; cause = unset }))
        (radio_bytes r)
        (read_radio unset r)
unfolding parse_wtp_radio_admin_state
Reads-parse_wtp_radio_admin_state unset r fits =
    Reads-element
      (Reads-then _ (Reads8_fits r.id fits.id_fits)
        (Reads-return _ (Reads8_fits r.state fits.state_fits) (Reads-pure (read_radio unset r))))
      2 refl

-- What each element does in the first round, and in the second.
abbrev pub count_name : ℕ × List ℕ → ConfigureRequest → ConfigureRequest
count_name name v = record v { ac_names_count = v.ac_names_count + 1 }

abbrev pub count_radio : RadioState → ConfigureRequest → ConfigureRequest
count_radio r v = record v { radios_count = v.radios_count + 1 }

abbrev pub keep_name : ℕ × List ℕ → ConfigureRequest → ConfigureRequest
keep_name name v = record v { ac_names = v.ac_names ++ (read_name name ∷ []) }

abbrev pub keep_radio : ℕ → RadioState → ConfigureRequest → ConfigureRequest
keep_radio unset r v = record v { radios = v.radios ++ (read_radio unset r ∷ []) }

module _ (w : WtpState) where
  abbrev pub counted_end : List (Piece ConfigureRequest)
  counted_end =
      record {
        type = 36;
        body = be16 w.statistics_timer;
        cost = 0;
        change = λ v. record v { statistics_timer = w.statistics_timer };
      }
      ∷ record {
        type = 47;
        body = reboot_bytes w.reboot_statistics;
        cost = 1;
        change = λ v. record v { reboot_statistics = w.reboot_statistics };
      }
      ∷ []

  abbrev pub counted_pieces : List (Piece ConfigureRequest)
  counted_pieces =
      record {
        type = 4;
        body = w.ac_name;
        cost = 1;
        change = λ v. record v { ac_name = as_string w.ac_name };
      }
      ∷ many 5 name_bytes 0 count_name w.ac_names
          (many 31 radio_bytes 0 count_radio w.radios counted_end)

  abbrev pub read_end : List (Piece ConfigureRequest)
  read_end =
      record { type = 36; body = be16 w.statistics_timer; cost = 0; change = λ v. v }
      ∷ record { type = 47; body = reboot_bytes w.reboot_statistics; cost = 0; change = λ v. v }
      ∷ []

  abbrev pub read_pieces : ℕ → List (Piece ConfigureRequest)
  read_pieces unset =
      record { type = 4; body = w.ac_name; cost = 0; change = λ v. v }
      ∷ many 5 name_bytes 1 keep_name w.ac_names
          (many 31 radio_bytes 0 (keep_radio unset) w.radios read_end)

-- What many elements make of the values.
abbrev pub counting_names : List (ℕ × List ℕ) → ConfigureRequest → ConfigureRequest
counting_names names v = changed_by 5 name_bytes 0 count_name names v

abbrev pub counting_radios : List RadioState → ConfigureRequest → ConfigureRequest
counting_radios radios v = changed_by 31 radio_bytes 0 count_radio radios v

abbrev pub keeping_names : List (ℕ × List ℕ) → ConfigureRequest → ConfigureRequest
keeping_names names v = changed_by 5 name_bytes 1 keep_name names v

abbrev pub keeping_radios : ℕ → List RadioState → ConfigureRequest → ConfigureRequest
keeping_radios unset radios v = changed_by 31 radio_bytes 0 (keep_radio unset) radios v

pub counting_names_lem :
    (names : List (ℕ × List ℕ)) (v : ConfigureRequest)
    → counting_names names v ≡ record v { ac_names_count = v.ac_names_count + length names }
counting_names_lem [] v = ap (λ n. record v { ac_names_count = n }) (omega arith)
counting_names_lem (name ∷ rest) v =
    counting_names_lem rest (count_name name v)
    ∙ ap (λ n. record v { ac_names_count = n }) {x = v.ac_names_count + 1 + length rest}
        (omega arith)

pub counting_radios_lem :
    (radios : List RadioState) (v : ConfigureRequest)
    → counting_radios radios v ≡ record v { radios_count = v.radios_count + length radios }
counting_radios_lem [] v = ap (λ n. record v { radios_count = n }) (omega arith)
counting_radios_lem (r ∷ rest) v =
    counting_radios_lem rest (count_radio r v)
    ∙ ap (λ n. record v { radios_count = n }) {x = v.radios_count + 1 + length rest} (omega arith)

pub keeping_names_lem :
    (names : List (ℕ × List ℕ)) (v : ConfigureRequest)
    → keeping_names names v ≡ record v { ac_names = v.ac_names ++ map read_name names }
keeping_names_lem [] v = ap (λ s. record v { ac_names = s }) (sym (append-nil v.ac_names))
keeping_names_lem (name ∷ rest) v =
    keeping_names_lem rest (keep_name name v)
    ∙ ap (λ s. record v { ac_names = s })
        (append_assoc v.ac_names (read_name name ∷ []) (map read_name rest))

pub keeping_radios_lem :
    (unset : ℕ) (radios : List RadioState) (v : ConfigureRequest)
    → keeping_radios unset radios v
      ≡ record v { radios = v.radios ++ map (read_radio unset) radios }
keeping_radios_lem unset [] v = ap (λ s. record v { radios = s }) (sym (append-nil v.radios))
keeping_radios_lem unset (r ∷ rest) v =
    keeping_radios_lem unset rest (keep_radio unset r v)
    ∙ ap (λ s. record v { radios = s })
        (append_assoc v.radios (read_radio unset r ∷ []) (map (read_radio unset) rest))

-- The names do not change the room for the radios.
pub names_leave_radios :
    (names : List (ℕ × List ℕ)) (radios : List RadioState) (v : ConfigureRequest)
    → length v.radios + length radios ≡ v.radios_count
    → length (keeping_names names v).radios + length radios ≡ (keeping_names names v).radios_count
names_leave_radios names radios v room =
    subst (λ v. length v.radios + length radios ≡ v.radios_count) (sym (keeping_names_lem names v))
      room
