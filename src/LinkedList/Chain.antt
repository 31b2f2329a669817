-- ===== src/LinkedList/Chain.antt =====
-- The elements behind a list pointer, and what CWList.c does to them.
use sicapwap.Prelude.{
  ℕ, zero, suc, ◌+◌, ◌<◌, ◌≡◌, ◌≢◌, refl, sym, ap, ◌∙◌, Bool, true, Option, none, some, inl, inr,
  List, [], ◌∷◌, map, arith, All, Bool-cases, ne→==, ==_refl, if◌then◌else◌, length,
}
use sicapwap.Cells.{Store, update, continue}
use sicapwap.LinkedList.{
  ListElement, search_in_list, delete_from, delete_in_list, delete_list, count_from,
}

-- An element's address and contents.
pub record Link : Type 0 where
  pub address : ℕ
  pub contents : ℕ

abbrev pub start_of : List Link → Option ℕ
start_of [] = none
start_of (n ∷ ns) = some n.address

-- The cells of a list that starts at the first link and ends with `NULL`.
abbrev pub Chained : (ℕ → Option ListElement) → List Link → Type 0
Chained cell [] = Unit {0}
Chained cell (n ∷ ns) =
    (cell n.address ≡ some (record { contents = n.contents; next = start_of ns })) × Chained cell ns

-- No address stands twice.
abbrev pub Unshared : List Link → Type 0
Unshared [] = Unit {0}
Unshared (n ∷ ns) = All (λ m. m.address ≢ n.address) ns × Unshared ns

pub Chained-update :
    (cell : ℕ → Option ListElement) (p : ℕ) (o : Option ListElement) (ns : List Link)
    → All (λ m. m.address ≢ p) ns
    → Chained cell ns
    → Chained (update cell p o) ns
Chained-update cell p o [] h c = tt
Chained-update cell p o (n ∷ ns) h c =
    (rw (ne→== p n.address (λ e. h.0 (sym e))) c.0, Chained-update cell p o ns h.1 c.1)

abbrev pub contents_of : List Link → List ℕ
contents_of ns = map (λ n. n.contents) ns

-- What a search through a list of contents finds, and what a deletion leaves.
abbrev pub find_first : (ℕ → Bool) → List ℕ → Option ℕ
find_first matches [] = none
find_first matches (x ∷ xs) = if matches x then some x else find_first matches xs

abbrev pub delete_first : (ℕ → Bool) → List ℕ → List ℕ
delete_first matches [] = []
delete_first matches (x ∷ xs) = if matches x then xs else x ∷ delete_first matches xs

module _ (s : Store ListElement) (matches : ℕ → Bool) where
  -- CWSearchInList, given more rounds than the chain has elements, returns the first contents that
  -- match, or nothing, and changes no cell.
  pub search_in_list-Chained :
      (fuel : ℕ) (ns : List Link)
      → Chained s.cell ns
      → length ns < fuel
      → search_in_list fuel (start_of ns) matches s ≡ some (find_first matches (contents_of ns), s)
  unfolding search_in_list
  search_in_list-Chained zero ns c enough = absurd (omega arith)
  search_in_list-Chained (suc fuel) [] c enough = refl
  search_in_list-Chained (suc fuel) (n ∷ ns) c enough = elim (Bool-cases (matches n.contents)) [
    | inl e ↦ rw (c.0, continue, e)
    | inr e ↦ rw (c.0, continue, e) (search_in_list-Chained fuel ns c.1 (omega arith))
  ]

pub count_from-Chained :
    (s : Store ListElement) (fuel count : ℕ) (ns : List Link)
    → Chained s.cell ns
    → length ns < fuel
    → count_from fuel count (start_of ns) s ≡ some (count + length ns, s)
unfolding count_from
count_from-Chained s zero count ns c enough = absurd (omega arith)
count_from-Chained s (suc fuel) count [] c enough =
    ap (λ n. some (n, s)) {y = count + 0} (omega arith)
count_from-Chained s (suc fuel) count (n ∷ ns) c enough =
    rw (c.0, continue, count_from-Chained s fuel (count + 1) ns c.1 (omega arith))
      (ap (λ n. some (n, s)) (omega arith))

-- The elements are freed, and other cells stay.
delete_list_frees :
    (fuel : ℕ) (s : Store ListElement) (ns : List Link)
    → Chained s.cell ns
    → Unshared ns
    → length ns < fuel
    → (s' : Store ListElement) × (delete_list fuel (start_of ns) s ≡ some (contents_of ns, s'))
      × All (λ n. s'.cell n.address ≡ none) ns
      × ((p : ℕ) → All (λ n. n.address ≢ p) ns → s'.cell p ≡ s.cell p)
unfolding delete_list
delete_list_frees zero s ns c u enough = absurd (omega arith)
delete_list_frees (suc fuel) s [] c u enough = (s, refl, tt, λ p h. refl)
delete_list_frees (suc fuel) s (n ∷ ns) c u enough =
    let s1 : Store ListElement = record s { cell = update s.cell n.address none } in
    let (s', run, freed, rest) =
      delete_list_frees fuel s1 ns (Chained-update s.cell n.address none ns u.0 c.1) u.1
        (omega arith) in
    (
      s',
      rw (c.0, continue, c.0, continue, run),
      (rest n.address u.0 ∙ rw (==_refl n.address), freed),
      λ p h. rest p h.1 ∙ rw (ne→== n.address p h.0),
    )

-- CWDeleteList on a chain of cells without sharing calls the delete function on all contents from
-- the head on, and frees every cell of the chain.
pub delete_list-Chained :
    (s : Store ListElement) (ns : List Link)
    → Chained s.cell ns
    → Unshared ns
    → (s' : Store ListElement) × (delete_list (suc (length ns)) (start_of ns) s
        ≡ some (contents_of ns, s'))
      × All (λ n. s'.cell n.address ≡ none) ns
delete_list-Chained s ns c u =
    let (s', run, freed, rest) = delete_list_frees (suc (length ns)) s ns c u (omega arith) in
    (s', run, freed)

-- What a deletion behind the link `m` leaves: its contents, the cells of others, and links that
-- were there before.
abbrev DeletesBehind : ℕ → Store ListElement → (ℕ → Bool) → Option ℕ → Link → List Link → Type 1
DeletesBehind fuel s matches list m ns =
    (s' : Store ListElement) × (ms : List Link) × (delete_from fuel list (some m.address)
        (start_of ns) matches s
      ≡ some ((find_first matches (contents_of ns), list), s'))
    × Chained s'.cell (m ∷ ms)
    × (contents_of ms ≡ delete_first matches (contents_of ns))
    × ((p : ℕ) → All (λ n. n.address ≢ p) (m ∷ ns) → s'.cell p ≡ s.cell p)
    × Unshared (m ∷ ms)
    × ((P : Link → Type 0) → All P ns → All P ms)

delete_next :
    (fuel : ℕ) (s : Store ListElement) (matches : ℕ → Bool) (list : Option ℕ) (m n : Link)
    (ns : List Link)
    → Chained s.cell (m ∷ n ∷ ns)
    → Unshared (m ∷ n ∷ ns)
    → matches n.contents ≡ true
    → DeletesBehind (suc fuel) s matches list m (n ∷ ns)
unfolding delete_from
delete_next fuel s matches list m n ns c u e =
    let linked = some (record { contents = m.contents; next = start_of ns }) in
    let cell1 = update s.cell m.address linked in
    let apart_n : n.address ≢ m.address = u.0.0 in
    (
      record s { cell = update cell1 n.address none },
      ns,
      rw (c.1.0, continue, e, c.0, ne→== m.address n.address (λ q. apart_n (sym q)), c.1.0),
      (
        rw (ne→== n.address m.address apart_n, ==_refl m.address),
        Chained-update cell1 n.address none ns u.1.0
            (Chained-update s.cell m.address linked ns u.0.1 c.1.1),
      ),
      rw e,
      (λ p h. rw (ne→== n.address p h.1.0, ne→== m.address p h.0)),
      (u.0.1, u.1.1),
      λ P h. h.1,
    )

delete_behind :
    (fuel : ℕ) (s : Store ListElement) (matches : ℕ → Bool) (list : Option ℕ) (m : Link)
    (ns : List Link)
    → Chained s.cell (m ∷ ns)
    → Unshared (m ∷ ns)
    → length ns < fuel
    → DeletesBehind fuel s matches list m ns
unfolding delete_from
delete_behind zero s matches list m ns c u enough = absurd (omega arith)
delete_behind (suc fuel) s matches list m [] c u enough =
    (s, [], refl, c, refl, (λ p h. refl), u, λ P h. tt)
delete_behind (suc fuel) s matches list m (n ∷ ns) c u enough =
    elim (Bool-cases (matches n.contents)) [
      | inl e ↦ delete_next fuel s matches list m n ns c u e
      | inr e ↦
          let (s', ms, run, c', cut, same, u', sub) =
            delete_behind fuel s matches list n ns c.1 u.1 (omega arith) in
          (
            s',
            n ∷ ms,
            rw (c.1.0, continue, e, run),
            (same m.address u.0 ∙ c.0, c'),
            rw e (ap (λ r. n.contents ∷ r) cut),
            (λ p h. same p h.1),
            ((u.0.0, sub (λ k. k.address ≢ m.address) u.0.1), u'),
            λ P h. (h.0, sub P h.1),
          )
    ]

-- CWDeleteInList on a chain of cells without sharing ends within one round for each element and
-- one, returns the first contents that match, or nothing, and leaves a chain without these
-- contents.
pub delete_in_list-Chained :
    (s : Store ListElement) (matches : ℕ → Bool) (ns : List Link)
    → Chained s.cell ns
    → Unshared ns
    → (s' : Store ListElement) × (ms : List Link) × (delete_in_list
          (suc (length ns))
          (start_of ns)
          matches
          s
        ≡ some ((find_first matches (contents_of ns), start_of ms), s'))
      × Chained s'.cell ms
      × Unshared ms
      × (contents_of ms ≡ delete_first matches (contents_of ns))
unfolding delete_in_list delete_from
delete_in_list-Chained s matches [] c u = (s, [], refl, tt, tt, refl)
delete_in_list-Chained s matches (n ∷ ns) c u = elim (Bool-cases (matches n.contents)) [
  | inl e ↦ (
    record s { cell = update s.cell n.address none },
    ns,
    rw (c.0, continue, e, c.0),
    Chained-update s.cell n.address none ns u.0 c.1,
    u.1,
    rw e,
  )
  | inr e ↦
      let (s', ms, run, c', cut, same, u', sub) =
        delete_behind (suc (length ns)) s matches (some n.address) n ns c u (omega arith) in
      (s', n ∷ ms, rw (c.0, continue, e, run), c', u', rw e (ap (λ r. n.contents ∷ r) cut))
]
