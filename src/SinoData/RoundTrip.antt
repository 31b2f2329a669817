-- ===== src/SinoData/RoundTrip.antt =====
-- sino_comm.c: elements that are pushed, and popped in the same order.
use sicapwap.Prelude.{
  ℕ, zero, suc, ◌+◌, ◌-◌, ◌<◌, ◌≤◌, ◌≡◌, refl, sym, subst, length-append, Option, none, some, List,
  [], ◌∷◌, ◌++◌, All, arith, length, map, append_assoc, append-nil,
}
use sicapwap.SinoData.{
  SinoData, head_size, sino_data_init, sino_data_head, sino_assemble_head, sino_data_push,
  sino_data_elem_pop_init, sino_data_elem_pop,
}
use sicapwap.SinoData.Elements.{Pushed, all_bytes, sino_data_push-Pushed}
use sicapwap.SinoData.Popped.{sino_data_elem_pop-Pushed}

-- One push for each element; `none` where one of them returns 0.
unfoldable pub push_all : SinoData → List (ℕ × List ℕ) → Option SinoData
push_all sino [] = some sino
push_all sino (e ∷ es) = elim (sino_data_push sino e.0 e.1) [
  | none ↦ none
  | some sino' ↦ push_all sino' es
]

-- So many pops; `none` where one of them returns 0 or reads outside the buffer.
unfoldable pub pop_all : ℕ → SinoData → Option (List (ℕ × ℕ × List ℕ))
pop_all zero sino = some []
pop_all (suc n) sino = elim (sino_data_elem_pop sino) [
  | none ↦ none
  | some (none, sino') ↦ none
  | some (some e, sino') ↦ elim (pop_all n sino') [ none ↦ none | some es ↦ some (e ∷ es) ]
]

-- What a pop returns of an element: its type, its length and its bytes.
abbrev pub popped : ℕ × List ℕ → ℕ × ℕ × List ℕ
popped (type, info) = (type, length info, info)

headed-Pushed : (sino : SinoData) → Pushed (sino_data_head (sino_data_init sino)) [] 2040
unfolding sino_data_head sino_data_init sino_assemble_head
headed-Pushed sino = record { buffer = refl; filled = refl; room = refl }

push_all-Pushed :
    (sino : SinoData) (done es : List (ℕ × List ℕ)) (free : ℕ)
    → Pushed sino done free
    → length (all_bytes es) ≤ free
    → (sino' : SinoData) × (push_all sino es ≡ some sino')
      × Pushed sino' (done ++ es) (free - length (all_bytes es))
unfolding push_all
push_all-Pushed sino done [] free h fits = (
  sino,
  refl,
  subst (λ n. Pushed sino (done ++ []) n) (omega arith)
      (subst (λ l. Pushed sino l free) (sym (append-nil done)) h),
)
push_all-Pushed sino done ((type, info) ∷ es) free h fits =
    let size = length-append info (all_bytes es) in
    let (sino', pushed, h') =
      sino_data_push-Pushed sino done free type info h (omega (arith, size)) in
    let left : ℕ = free - (4 + length info) in
    let (last, all_pushed, h'') =
      push_all-Pushed sino' (done ++ ((type, info) ∷ [])) es left h' (omega (arith, size)) in
    let same_left : left - length (all_bytes es) ≡ free - length (all_bytes ((type, info) ∷ es)) =
      omega (arith, size) in
    (
      last,
      rw (push_all, pushed) all_pushed,
      subst (λ n. Pushed last (done ++ ((type, info) ∷ es)) n) same_left
          (subst (λ l. Pushed last l (left - length (all_bytes es)))
            (append_assoc done ((type, info) ∷ []) es) h''),
    )

pop_all-Pushed :
    (sino : SinoData) (done rest : List (ℕ × List ℕ)) (free : ℕ)
    → Pushed sino (done ++ rest) free
    → sino.pos ≡ head_size + length (all_bytes done)
    → All (λ e. e.0 < 65536) rest
    → pop_all (length rest) sino ≡ some (map popped rest)
unfolding pop_all
pop_all-Pushed sino done [] free h at small = refl
pop_all-Pushed sino done ((type, info) ∷ rest) free h at (small, all_small) =
    let next : SinoData = record sino {
      pos = head_size + length (all_bytes (done ++ ((type, info) ∷ [])));
    } in
    let moved : Pushed next (done ++ ((type, info) ∷ rest)) free = record {
      buffer = h.buffer;
      filled = h.filled;
      room = h.room;
    } in
    rw (
      pop_all,
      sino_data_elem_pop-Pushed sino done rest type info free h at small,
      pop_all-Pushed next (done ++ ((type, info) ∷ [])) rest free
          (subst (λ l. Pushed next l free) (sym (append_assoc done ((type, info) ∷ []) rest)) moved)
          refl all_small,
    )

-- After sino_data_init and sino_data_head, whatever the buffer held, elements that are pushed with
-- sino_data_push are all taken, and popped by as many calls of sino_data_elem_pop in the same
-- order, each with its type, its length and its bytes, if their types have 16 bits and they fit
-- behind the head.
pub pushed-popped :
    (sino : SinoData) (es : List (ℕ × List ℕ))
    → All (λ e. e.0 < 65536) es
    → length (all_bytes es) ≤ 2040
    → (sino' : SinoData) × (push_all (sino_data_head (sino_data_init sino)) es ≡ some sino')
      × (pop_all (length es) (sino_data_elem_pop_init sino') ≡ some (map popped es))
unfolding sino_data_elem_pop_init
pushed-popped sino es small fits =
    let (last, pushed, h) =
      push_all-Pushed (sino_data_head (sino_data_init sino)) [] es 2040 (headed-Pushed sino) fits in
    let first : SinoData = record last { pos = head_size } in
    (
      last,
      pushed,
      pop_all-Pushed first [] es (2040 - length (all_bytes es))
          (record { buffer = h.buffer; filled = h.filled; room = h.room }) (omega arith) small,
    )
