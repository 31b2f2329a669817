-- ===== src/LinkedList/Added.antt =====
-- CWList.c: additions at the head and at the tail.
use sicapwap.Prelude.{
  ℕ, zero, suc, ◌+◌, ◌<◌, ◌≡◌, ◌≢◌, refl, sym, ap, ◌∙◌, true, false, Option, none, some, List, [],
  ◌∷◌, ◌++◌, arith, All, ne→==, ==_refl, ◌==◌, length,
}
use sicapwap.Cells.{Store, update, continue}
use sicapwap.LinkedList.{ListElement, add_element_to_list, add_behind, add_element_to_list_tail}
use sicapwap.LinkedList.Chain.{Link, start_of, Chained, Unshared, Chained-update, contents_of}

-- The cells hold a list with these contents, and all its addresses are in use.
abbrev pub Shows : Store ListElement → List Link → List ℕ → Type 0
Shows s ns xs =
    Chained s.cell ns × Unshared ns × All (λ n. n.address < s.next) ns × (contents_of ns ≡ xs)

new_apart : (p : ℕ) (ns : List Link) → All (λ n. n.address < p) ns → All (λ n. n.address ≢ p) ns
new_apart p [] h = tt
new_apart p (n ∷ ns) h = (omega arith, new_apart p ns h.1)

still_old : (p : ℕ) (ns : List Link) → All (λ n. n.address < p) ns → All (λ n. n.address < p + 1) ns
still_old p [] h = tt
still_old p (n ∷ ns) h = (omega arith, still_old p ns h.1)

-- CWAddElementToList puts an element that is not NULL in front of the others, if its allocation
-- succeeds.
pub add_element_to_list-Shows :
    (s : Store ListElement) (ns : List Link) (xs : List ℕ) (element k : ℕ)
    → Shows s ns xs
    → element ≢ 0
    → s.grants ≡ suc k
    → (s' : Store ListElement) × (ms : List Link) × (add_element_to_list (start_of ns) element s
        ≡ some ((true, start_of ms), s'))
      × Shows s' ms (element ∷ xs)
unfolding add_element_to_list
add_element_to_list-Shows s ns xs element k (c, u, old, e) some_data granted =
    let new : Link = record { address = s.next; contents = element } in
    let cell : Option ListElement = some (record { contents = element; next = start_of ns }) in
    (
      record { next = s.next + 1; cell = update s.cell s.next cell; grants = k },
      new ∷ ns,
      rw (ne→== element 0 some_data, granted),
      (
        (rw (==_refl s.next), Chained-update s.cell s.next cell ns (new_apart s.next ns old) c),
        (new_apart s.next ns old, u),
        (omega arith, still_old s.next ns old),
        ap (λ r. element ∷ r) e,
      ),
    )

-- What following the links from `n` on and adding one makes.
add_behind-Chained :
    (fuel : ℕ) (s : Store ListElement) (n : Link) (ns : List Link) (element k : ℕ)
    → Chained s.cell (n ∷ ns)
    → Unshared (n ∷ ns)
    → All (λ m. m.address < s.next) (n ∷ ns)
    → length ns < fuel
    → s.grants ≡ suc k
    → (s' : Store ListElement) × (ms : List Link) × (add_behind fuel n.address element s
        ≡ some (true, s'))
      × Chained s'.cell (n ∷ ms)
      × Unshared (n ∷ ms)
      × All (λ m. m.address < s'.next) (n ∷ ms)
      × (contents_of ms ≡ contents_of ns ++ (element ∷ []))
      × ((p : ℕ) → p < s.next → All (λ m. m.address ≢ p) (n ∷ ns) → s'.cell p ≡ s.cell p)
      × (s'.next ≡ s.next + 1)
      × ((p : ℕ) → p < s.next → All (λ m. m.address ≢ p) ns → All (λ m. m.address ≢ p) ms)
unfolding add_behind
add_behind-Chained zero s n ns element k c u old enough granted = absurd (omega arith)
add_behind-Chained (suc fuel) s n [] element k c u old enough granted =
    let new : Link = record { address = s.next; contents = element } in
    let fresh : Option ListElement = some (record { contents = element; next = none }) in
    let linked : Option ListElement = some (record { contents = n.contents; next = some s.next }) in
    let cell1 : ℕ → Option ListElement = update s.cell s.next fresh in
    let apart_n : n.address ≢ s.next = omega arith in
    let apart_new : (s.next == n.address) ≡ false = ne→== s.next n.address (λ e. apart_n (sym e)) in
    (
      record { next = s.next + 1; cell = update cell1 n.address linked; grants = k },
      new ∷ [],
      rw (c.0, continue, granted, apart_new, c.0),
      (rw (==_refl n.address), (rw (ne→== n.address s.next apart_n, ==_refl s.next), tt)),
      (((λ e. apart_n (sym e)), tt), (tt, tt)),
      (omega arith, (omega arith, tt)),
      refl,
      (λ p below h. rw (ne→== n.address p h.0, ne→== s.next p (omega arith))),
      refl,
      λ p below h. (omega arith, tt),
    )
add_behind-Chained (suc fuel) s n (m ∷ ns) element k c u old enough granted =
    let (s', ms, run, c', u', old', shown, same, next, sub) =
      add_behind-Chained fuel s m ns element k c.1 u.1 old.1 (omega arith) granted in
    (
      s',
      m ∷ ms,
      rw (c.0, continue, run),
      (same n.address old.0 u.0 ∙ c.0, c'),
      ((u.0.0, sub n.address old.0 u.0.1), u'),
      (omega (arith, old.0), old'),
      ap (λ r. m.contents ∷ r) shown,
      (λ p below h. same p below h.1),
      next,
      λ p below h. (h.0, sub p below h.1),
    )

-- CWAddElementToListTail puts an element that is not NULL behind all others, if its allocation
-- succeeds, within one round for each element and one.
pub add_element_to_list_tail-Shows :
    (s : Store ListElement) (ns : List Link) (xs : List ℕ) (element k : ℕ)
    → Shows s ns xs
    → element ≢ 0
    → s.grants ≡ suc k
    → (s' : Store ListElement) × (ms : List Link) × (add_element_to_list_tail
          (suc (length ns))
          (start_of ns)
          element
          s
        ≡ some ((true, start_of ms), s'))
      × Shows s' ms (xs ++ (element ∷ []))
unfolding add_element_to_list_tail
add_element_to_list_tail-Shows s [] xs element k (c, u, old, e) some_data granted =
    let new : Link = record { address = s.next; contents = element } in
    let cell : Option ListElement = some (record { contents = element; next = none }) in
    (
      record { next = s.next + 1; cell = update s.cell s.next cell; grants = k },
      new ∷ [],
      rw (ne→== element 0 some_data, granted),
      ((rw (==_refl s.next), tt), (tt, tt), (omega arith, tt), ap (λ r. r ++ (element ∷ [])) e),
    )
add_element_to_list_tail-Shows s (n ∷ ns) xs element k (c, u, old, e) some_data granted =
    let (s', ms, run, c', u', old', shown, same, next, sub) =
      add_behind-Chained (suc (length (n ∷ ns))) s n ns element k c u old (omega arith) granted in
    (
      s',
      n ∷ ms,
      rw (ne→== element 0 some_data, run),
      (c', u', old', ap (λ r. n.contents ∷ r) shown ∙ ap (λ r. r ++ (element ∷ [])) e),
    )
