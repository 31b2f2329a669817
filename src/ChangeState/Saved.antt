-- ===== src/ChangeState/Saved.antt =====
-- CWSaveChangeStateEventRequestMessage of the access controller.
use sicapwap.Prelude.{
  ℕ, arith, ◌≡◌, ◌≢◌, refl, ap, ◌∙◌, Bool, true, false, List, [], ◌∷◌, map, ◌==◌, if◌then◌else◌,
  ◌&&◌,
}
use sicapwap.Element.{RadioState}
use sicapwap.Join.{RadioInfo}
use sicapwap.ChangeState.{
  ChangeStateEvent, reported, save_report, save_reports, save_change_state_event,
}

-- A radio after all reports: those of its id, one after the other.
abbrev pub after : List RadioState → RadioInfo → RadioInfo
after [] info = info
after (r ∷ rs) info = after rs (reported r info)

-- The report is of the first radio, or there is none.
abbrev pub names_first : List RadioInfo → RadioState → Bool
names_first [] r = true
names_first (info ∷ infos) r = info.radio_id == r.id

abbrev pub all_name_first : List RadioState → List RadioInfo → Bool
all_name_first [] infos = true
all_name_first (r ∷ rs) infos = names_first infos r && all_name_first rs infos

if_both : {A : Type 0} (b : Bool) (a : A) → (if b then a else a) ≡ a
if_both true a = refl
if_both false a = refl

save_report-found :
    (r : RadioState) (ret : Bool) (infos : List RadioInfo)
    → save_report r true ret infos ≡ (ret, map (reported r) infos)
unfolding save_report
save_report-found r ret [] = refl
save_report-found r ret (info ∷ infos) =
    rw (if_both (info.radio_id == r.id) true, save_report-found r ret infos)

save_report-failed :
    (r : RadioState) (found : Bool) (infos : List RadioInfo)
    → save_report r found false infos ≡ (false, map (reported r) infos)
unfolding save_report
save_report-failed r found [] = refl
save_report-failed r found (info ∷ infos) =
    let now : Bool = if info.radio_id == r.id then true else found in
    rw (if_both now false, save_report-failed r now infos)

-- What the first radio decides.
first_decides :
    (r : RadioState) (ret matches : Bool) (info : RadioInfo) (infos : List RadioInfo)
    → ◌≡◌ {A = Bool × List RadioInfo}
        (let found = if matches then true else false in
          let (ret, rest) = save_report r found (if found then ret else false) infos in
          (ret, info ∷ rest))
        (matches && ret, info ∷ map (reported r) infos)
first_decides r ret true info infos = rw (save_report-found r ret infos)
first_decides r ret false info infos = rw (save_report-failed r false infos)

save_report-first :
    (r : RadioState) (ret : Bool) (infos : List RadioInfo)
    → save_report r false ret infos ≡ (names_first infos r && ret, map (reported r) infos)
unfolding save_report
save_report-first r ret [] = refl
save_report-first r ret (info ∷ infos) =
    first_decides r ret (info.radio_id == r.id) (reported r info) infos

-- The ids stay.
either_id :
    (b : Bool) (x y : RadioInfo)
    → x.radio_id ≡ y.radio_id
    → (if b then x else y).radio_id ≡ y.radio_id
either_id true x y e = e
either_id false x y e = refl

reported-id : (r : RadioState) (info : RadioInfo) → (reported r info).radio_id ≡ info.radio_id
unfolding reported
reported-id r info = either_id (info.radio_id == r.id) _ info refl

names_first-reported :
    (q r : RadioState) (infos : List RadioInfo)
    → names_first (map (reported q) infos) r ≡ names_first infos r
names_first-reported q r [] = refl
names_first-reported q r (info ∷ infos) = ap (λ id. id == r.id) (reported-id q info)

all_name_first-reported :
    (q : RadioState) (rs : List RadioState) (infos : List RadioInfo)
    → all_name_first rs (map (reported q) infos) ≡ all_name_first rs infos
all_name_first-reported q [] infos = refl
all_name_first-reported q (r ∷ rs) infos =
    rw (names_first-reported q r infos, all_name_first-reported q rs infos)

map-after :
    (r : RadioState) (rs : List RadioState) (infos : List RadioInfo)
    → map (after rs) (map (reported r) infos) ≡ map (after (r ∷ rs)) infos
map-after r rs [] = refl
map-after r rs (info ∷ infos) = ap (λ is. after rs (reported r info) ∷ is) (map-after r rs infos)

map-after_nothing : (infos : List RadioInfo) → infos ≡ map (after []) infos
map-after_nothing [] = refl
map-after_nothing (info ∷ infos) = ap (λ is. info ∷ is) (map-after_nothing infos)

and_assoc : (a b c : Bool) → a && (b && c) ≡ (b && a) && c
and_assoc true true c = refl
and_assoc true false c = refl
and_assoc false true c = refl
and_assoc false false c = refl

save_reports_lem :
    (ret : Bool) (rs : List RadioState) (infos : List RadioInfo)
    → save_reports ret rs infos ≡ (all_name_first rs infos && ret, map (after rs) infos)
unfolding save_reports
save_reports_lem ret [] infos = ap (λ is. (ret, is)) (map-after_nothing infos)
save_reports_lem ret (r ∷ rs) infos = rw (
  save_report-first r ret infos,
  save_reports_lem (names_first infos r && ret) rs (map (reported r) infos),
  all_name_first-reported r rs infos,
  and_assoc (all_name_first rs infos) (names_first infos r) ret,
  map-after r rs infos,
)

and_true : (b : Bool) → b && true ≡ b
and_true true = refl
and_true false = refl

-- CWSaveChangeStateEventRequestMessage sets every radio of the manager to the last state that was
-- reported for its id, and returns success only if every report is of the first radio, or the
-- manager has none.
pub save_change_state_event_lem :
    (v : ChangeStateEvent) (infos : List RadioInfo)
    → save_change_state_event v infos ≡ (all_name_first v.radios infos, map (after v.radios) infos)
unfolding save_change_state_event
save_change_state_event_lem v infos =
    save_reports_lem true v.radios infos
    ∙ ap (λ b. (b, map (after v.radios) infos)) (and_true (all_name_first v.radios infos))

-- Two numbers that differ are not both another one.
not_both : (a b c : ℕ) (rest : Bool) → a ≢ b → (c == a) && ((c == b) && rest) ≡ false
not_both a b c rest differ = ground arith

-- Reports that begin with those of two different ids fail, if the manager has a radio.
pub save_change_state_event-two_ids :
    (q r : RadioState) (rs : List RadioState) (v : ChangeStateEvent) (info : RadioInfo)
    (infos : List RadioInfo)
    → v.radios ≡ q ∷ (r ∷ rs)
    → q.id ≢ r.id
    → (save_change_state_event v (info ∷ infos)).0 ≡ false
save_change_state_event-two_ids q r rs v info infos both differ =
    ap (λ p. p.0) (save_change_state_event_lem v (info ∷ infos))
    ∙ ap (λ ps. all_name_first ps (info ∷ infos)) both
    ∙ not_both q.id r.id info.radio_id (all_name_first rs (info ∷ infos)) differ
