-- ===== src/Reassembly/Loop.antt =====
-- The loop of `CWProtocolParseFragment` that joins the fragments, round by round.
use sicapwap.Prelude.{
  ℕ, zero, suc, ◌+◌, ◌/◌, ◌<◌, ◌≤◌, ◌≡◌, ◌≢◌, refl, sym, ◌∙◌, true, false, none, some, List, [],
  ◌∷◌, arith, All, Bool-cases, inl, inr, ◌⊎◌, ◌==◌, Option-cases, ==_iff, ne→==, leb, length, take,
  drop, ◌++◌,
}
use mathlib.Core.Path.{subst}
use sicapwap.Exec.{ok, raised, fault, out_of_fuel, invalid_format}
use sicapwap.Message.{Message, store_raw_bytes}
use sicapwap.Reassembly.{Fragment, find_offset, join_fragments, max_offset}

-- What is found in a list of fragments has what all of them have, and the offset looked for.
pub find_offset-All :
    (P : Fragment → Type 0) (offset : ℕ) (fs : List Fragment) (f : Fragment)
    → All P fs
    → find_offset offset fs ≡ some f
    → P f × (f.fragment_offset ≡ offset)
unfolding find_offset
find_offset-All P offset [] f h e = cc
find_offset-All P offset (g ∷ gs) f h e = elim (Bool-cases (g.fragment_offset == offset)) [
  | inl here ↦
      let same : g ≡ f = cc (rw here at e) in
      subst (λ x. P x × (x.fragment_offset ≡ offset)) same
        (h.0, (==_iff g.fragment_offset offset).0 here)
  | inr there ↦ find_offset-All P offset gs f h.1 (rw there at e)
]

-- A fragment that moves the loop on: its offset is one that a header can hold, and if it is not the
-- last it has a group of 8 bytes at least.
abbrev pub Advances : Fragment → Type 0
Advances f = (f.fragment_offset < max_offset) × (f.last ≢ 1 → 8 ≤ f.data_len)

-- A store fills the buffer on or runs over its end, and takes no allocation.
store_raw_bytes-cases :
    (m : Message) (bytes : List ℕ) (k : ℕ)
    → (store_raw_bytes m bytes k ≡ fault)
      ⊎ ((m' : Message) × (store_raw_bytes m bytes k ≡ ok (m', k)))
unfolding store_raw_bytes
store_raw_bytes-cases m bytes k = elim (Bool-cases (leb (m.offset + length bytes) (length m.msg))) [
  | inl fits ↦ inr (
    record m {
      msg = take m.offset m.msg ++ (bytes ++ drop (m.offset + length bytes) m.msg);
      offset = m.offset + length bytes;
    },
    rw fits,
  )
  | inr over ↦ inl (rw over)
]

-- One round, by what it finds and stores.
module _ (fuel : ℕ) (fs : List Fragment) (offset : ℕ) (m : Message) (k : ℕ) where
  pub join_missing :
      find_offset offset fs ≡ none → join_fragments (suc fuel) fs offset m k ≡ raised invalid_format
  unfolding join_fragments
  join_missing e = rw (e, join_fragments)

  pub join_over :
      (f : Fragment)
      → find_offset offset fs ≡ some f
      → store_raw_bytes m f.data_bytes k ≡ fault
      → join_fragments (suc fuel) fs offset m k ≡ fault
  unfolding join_fragments
  join_over f e s = rw (e, join_fragments) (rw s)

  pub join_last :
      (f : Fragment) (m' : Message)
      → find_offset offset fs ≡ some f
      → store_raw_bytes m f.data_bytes k ≡ ok (m', k)
      → (f.last == 1) ≡ true
      → join_fragments (suc fuel) fs offset m k ≡ ok (m', k)
  unfolding join_fragments
  join_last f m' e s l = rw (e, join_fragments) (rw (s, l))

  pub join_more :
      (f : Fragment) (m' : Message)
      → find_offset offset fs ≡ some f
      → store_raw_bytes m f.data_bytes k ≡ ok (m', k)
      → (f.last == 1) ≡ false
      → join_fragments (suc fuel) fs offset m k
        ≡ join_fragments fuel fs (offset + f.data_len / 8) m' k
  unfolding join_fragments
  join_more f m' e s l = rw (e, join_fragments) (rw (s, l))

-- `r` is what a run returned, and is not what the fuel's end returns.
ne_of_eq : {A : Type 0} {r x y : A} → r ≡ x → x ≢ y → r ≢ y
ne_of_eq e n p = n (sym e ∙ p)

-- If every fragment that is not the last has 8 bytes or more and every offset is below 8192, the
-- loop that joins the fragments ends within one round for each offset.
pub join_fragments-ne-out_of_fuel :
    (fuel : ℕ) (fs : List Fragment) (offset : ℕ) (m : Message) (k : ℕ)
    → All Advances fs
    → max_offset < fuel + offset
    → 0 < fuel
    → join_fragments fuel fs offset m k ≢ out_of_fuel
join_fragments-ne-out_of_fuel zero fs offset m k h e pos = absurd (omega arith)
join_fragments-ne-out_of_fuel (suc fuel) fs offset m k h e pos =
    elim (Option-cases (find_offset offset fs)) [
      | inl missing ↦ ne_of_eq (join_missing fuel fs offset m k missing) (λ p. cc)
      | inr (f, found) ↦ elim (store_raw_bytes-cases m f.data_bytes k) [
        | inl over ↦ ne_of_eq (join_over fuel fs offset m k f found over) (λ p. cc)
        | inr (m', stored) ↦ elim (Bool-cases (f.last == 1)) [
          | inl l ↦ ne_of_eq (join_last fuel fs offset m k f m' found stored l) (λ p. cc)
          | inr l ↦
              let ((below, group), at_offset) = find_offset-All Advances offset fs f h found in
              let more : 8 ≤ f.data_len = group (λ p. cc (l, (==_iff f.last 1).1 p)) in
              ne_of_eq (join_more fuel fs offset m k f m' found stored l) (
                join_fragments-ne-out_of_fuel fuel fs (offset + f.data_len / 8) m' k h (omega arith)
                  (omega arith))
        ]
      ]
    ]

-- Where the loop that joins the fragments is at the offset of a fragment with less than 8 bytes
-- that is not the last, it ends, for every number of rounds, outside the buffer or not at all.
pub join_fragments_stall :
    (fuel : ℕ) (fs : List Fragment) (offset : ℕ) (m : Message) (k : ℕ) (f : Fragment)
    → find_offset offset fs ≡ some f
    → f.last ≢ 1
    → f.data_len < 8
    → (join_fragments fuel fs offset m k ≡ fault)
      ⊎ (join_fragments fuel fs offset m k ≡ out_of_fuel)
join_fragments_stall zero fs offset m k f found l short = inr (unfold join_fragments in refl)
join_fragments_stall (suc fuel) fs offset m k f found l short =
    elim (store_raw_bytes-cases m f.data_bytes k) [
      | inl over ↦ inl (join_over fuel fs offset m k f found over)
      | inr (m', stored) ↦
          let stay : offset + f.data_len / 8 ≡ offset = omega arith in
          rw (join_more fuel fs offset m k f m' found stored (ne→== f.last 1 l), stay)
            (join_fragments_stall fuel fs offset m' k f found l short)
    ]
