-- ===== src/SafeList/Contents.antt =====
-- The safe list seen from outside, as the sequence of its items: where the elements stand in
-- memory and how they are linked is forgotten.
use mathlib.Core.Path.{subst}
use sicapwap.Prelude.{
  Bool-cases, ◌==◌, ◌⊎◌, inl, inr, ℕ, suc, ◌+◌, ◌≡◌, ◌≢◌, refl, sym, ap, ◌∙◌, true, false, none,
  some, List, [], ◌∷◌, ◌++◌, map, arith, length, All, append_assoc, append-nil, length-map,
}
use sicapwap.Cells.{Store, Run, pure, ◌>>=◌}
use sicapwap.SafeList.{
  Element, SafeList, create_safe_list, add_head, add_tail, remove_head, remove_tail, get_head,
  clean, null,
}
use sicapwap.SafeList.Linked.{Node}
use sicapwap.SafeList.Deque.{Holds, add_head-Holds, add_tail-Holds}
use sicapwap.SafeList.Removal.{
  remove_head-Holds, remove_head-empty, remove_tail-Holds, remove_tail-empty, get_head-Holds,
  clean-Holds,
}

-- The list holds these data and sizes, from the head to the tail.
abbrev pub Contents : SafeList → Store Element → List (ℕ × ℕ) → Type 0
Contents l s items = (ns : List Node) × Holds l s ns × (map (λ n. n.item) ns ≡ items)

map-append_one :
    (ns : List Node) (n : Node)
    → map (λ m. m.item) (ns ++ (n ∷ [])) ≡ map (λ m. m.item) ns ++ (n.item ∷ [])
map-append_one [] n = refl
map-append_one (m ∷ ns) n = ap (λ r. m.item ∷ r) (map-append_one ns n)

nil_shown : (ns : List Node) → map (λ n. n.item) ns ≡ [] → ns ≡ []
nil_shown [] e = refl
nil_shown (n ∷ ns) e = absurd cc

-- A list of nodes that shows some items has these at its head and its tail.
shown_cons :
    (ns : List Node) (x : ℕ × ℕ) (xs : List (ℕ × ℕ))
    → map (λ n. n.item) ns ≡ x ∷ xs
    → (n : Node) × (ms : List Node) × (ns ≡ n ∷ ms) × (n.item ≡ x) × (map (λ m. m.item) ms ≡ xs)
shown_cons [] x xs e = absurd cc
shown_cons (n ∷ ns) x xs e = (n, ns, refl, cc, cc)

-- CWAddElementToSafeListHead puts data that is not NULL in front of the others, if its allocation
-- succeeds.
pub add_head-Contents :
    (l : SafeList) (s : Store Element) (items : List (ℕ × ℕ)) (p_data n_size k : ℕ)
    → Contents l s items
    → p_data ≢ null
    → s.grants ≡ suc k
    → (l' : SafeList) × (s' : Store Element) × (add_head l p_data n_size s ≡ some ((true, l'), s'))
      × (s'.grants ≡ k)
      × Contents l' s' ((p_data, n_size) ∷ items)
add_head-Contents l s items p_data n_size k (ns, h, e) some_data granted =
    let (l', s', run, left, h') = add_head-Holds l s ns p_data n_size k h some_data granted in
    (l', s', run, left, (_, h', ap (λ r. (p_data, n_size) ∷ r) e))

-- CWAddElementToSafeListTail puts data that is not NULL behind the others, if its allocation
-- succeeds.
pub add_tail-Contents :
    (l : SafeList) (s : Store Element) (items : List (ℕ × ℕ)) (p_data n_size k : ℕ)
    → Contents l s items
    → p_data ≢ null
    → s.grants ≡ suc k
    → (l' : SafeList) × (s' : Store Element) × (add_tail l p_data n_size s ≡ some ((true, l'), s'))
      × (s'.grants ≡ k)
      × Contents l' s' (items ++ ((p_data, n_size) ∷ []))
add_tail-Contents l s items p_data n_size k (ns, h, e) some_data granted =
    let (l', s', run, left, h') = add_tail-Holds l s p_data n_size k some_data granted ns h in
    (l', s', run, left, (_, h', map-append_one ns _ ∙ ap (λ r. r ++ ((p_data, n_size) ∷ [])) e))

-- CWRemoveHeadElementFromSafeList on a list that is not empty returns the first data and size, and
-- leaves the rest.
pub remove_head-Contents :
    (l : SafeList) (s : Store Element) (x : ℕ × ℕ) (items : List (ℕ × ℕ))
    → Contents l s (x ∷ items)
    → (l' : SafeList) × (s' : Store Element) × (remove_head l s ≡ some ((some x, l'), s'))
      × Contents l' s' items
remove_head-Contents l s x items (ns, h, e) =
    let (n, ms, cut, at, rest) = shown_cons ns x items e in
    let (l', s', run, h') = remove_head-Holds l s n ms (subst (Holds l s) cut h) in
    (l', s', run ∙ ap (λ i. some ((some i, l'), s')) at, (ms, h', rest))

shown_snoc :
    (ns : List Node) (items : List (ℕ × ℕ)) (x : ℕ × ℕ)
    → map (λ n. n.item) ns ≡ items ++ (x ∷ [])
    → (ms : List Node) × (n : Node) × (ns ≡ ms ++ (n ∷ []))
      × (n.item ≡ x)
      × (map (λ m. m.item) ms ≡ items)
shown_snoc ns [] x e =
    let (n, ms, cut, at, rest) = shown_cons ns x [] e in
    ([], n, cut ∙ ap (λ r. n ∷ r) (nil_shown ms rest), at, refl)
shown_snoc ns (y ∷ items) x e =
    let (n, ms, cut, at, rest) = shown_cons ns y (items ++ (x ∷ [])) e in
    let (front, last, cut', at', shown) = shown_snoc ms items x rest in
    (n ∷ front, last, cut ∙ ap (λ r. n ∷ r) cut', at', cc)

-- CWRemoveTailElementFromSafeList on a list that is not empty returns the last data and size, and
-- leaves the rest.
pub remove_tail-Contents :
    (l : SafeList) (s : Store Element) (items : List (ℕ × ℕ)) (x : ℕ × ℕ)
    → Contents l s (items ++ (x ∷ []))
    → (l' : SafeList) × (s' : Store Element) × (remove_tail l s ≡ some ((some x, l'), s'))
      × Contents l' s' items
remove_tail-Contents l s items x (ns, h, e) =
    let (ms, n, cut, at, rest) = shown_snoc ns items x e in
    let (l', s', run, h') = remove_tail-Holds l s ms n (subst (Holds l s) cut h) in
    (l', s', run ∙ ap (λ i. some ((some i, l'), s')) at, (ms, h', rest))

-- A run of additions at the tail, as the frame receiver makes them.
abbrev pub add_all : List (ℕ × ℕ) → SafeList → Run Element SafeList
add_all [] l = pure l
add_all ((p_data, n_size) ∷ items) l = do (done, l') ← add_tail l p_data n_size; add_all items l'

add_all-Contents :
    (items before : List (ℕ × ℕ)) (l : SafeList) (s : Store Element) (k : ℕ)
    → Contents l s before
    → All (λ i. i.0 ≢ null) items
    → s.grants ≡ length items + k
    → (l' : SafeList) × (s' : Store Element) × (add_all items l s ≡ some (l', s'))
      × Contents l' s' (before ++ items)
add_all-Contents [] before l s k c some_data granted =
    (l, s, refl, subst (Contents l s) (sym (append-nil before)) c)
add_all-Contents ((p_data, n_size) ∷ items) before l s k c some_data granted =
    let (l1, s1, step, left, c1) =
      add_tail-Contents l s before p_data n_size (length items + k) c some_data.0 (omega arith) in
    let (l2, s2, rest, c2) =
      add_all-Contents items (before ++ ((p_data, n_size) ∷ [])) l1 s1 k c1 some_data.1 left in
    (
      l2,
      s2,
      rw (step, rest),
      subst (Contents l2 s2) (append_assoc before ((p_data, n_size) ∷ []) items) c2,
    )

map-data : (ns : List Node) → map (λ n. n.item.0) ns ≡ map (λ i. i.0) (map (λ n. n.item) ns)
map-data [] = refl
map-data (n ∷ ns) = ap (λ r. n.item.0 ∷ r) (map-data ns)

-- CWCleanSafeList ends after as many rounds as the list has elements, and one; it hands out all
-- data from the head on and leaves an empty list.
pub clean-Contents :
    (l : SafeList) (s : Store Element) (items : List (ℕ × ℕ))
    → Contents l s items
    → (l' : SafeList) × (s' : Store Element) × (clean (suc (length items)) l s
        ≡ some (some (map (λ i. i.0) items, l'), s'))
      × Contents l' s' []
clean-Contents l s items (ns, h, e) =
    let size : length ns ≡ length items = sym (length-map ns (λ n. n.item)) ∙ ap length e in
    let (l', s', run, h') = clean-Holds l s ns (suc (length items)) h (omega arith) in
    (
      l',
      s',
      run ∙ ap (λ r. some (some (r, l'), s')) (map-data ns ∙ ap (map (λ i. i.0)) e),
      ([], h', refl),
    )

-- Data added at the tail of a new safe list, none of it NULL and with an allocation for each, is
-- handed out by CWCleanSafeList in the same order, and the list is empty then.
pub add_all-clean :
    (s : Store Element) (items : List (ℕ × ℕ)) (k : ℕ)
    → All (λ i. i.0 ≢ null) items
    → s.grants ≡ length items + k
    → (l' : SafeList) × (s' : Store Element) × ((add_all items create_safe_list
            >>= clean (suc (length items)))
          s
        ≡ some (some (map (λ i. i.0) items, l'), s'))
      × Contents l' s' []
unfolding create_safe_list
add_all-clean s items k some_data granted =
    let empty : Contents create_safe_list s [] = (
      [],
      record {
        first_held = refl;
        last_held = refl;
        count_held = refl;
        linked = tt;
        apart = tt;
        old = tt;
      },
      refl,
    ) in
    let (l1, s1, filled, c1) =
      add_all-Contents items [] create_safe_list s k empty some_data granted in
    let (l2, s2, drained, c2) = clean-Contents l1 s1 items c1 in (l2, s2, rw (filled, drained), c2)

-- On an empty list both removals and the look at the head return nothing and change nothing.
pub removes_none :
    (l : SafeList) (s : Store Element)
    → Contents l s []
    → (remove_head l s ≡ some ((none, l), s))
      × (remove_tail l s ≡ some ((none, l), s))
      × (get_head l s ≡ some (none, s))
removes_none l s (ns, h, e) =
    let h' : Holds l s [] = subst (Holds l s) (nil_shown ns e) h in
    (remove_head-empty l s h', remove_tail-empty l s h', get_head-Holds l s [] h')

-- With NULL data, or a failing allocation, both additions return CW_FALSE and change nothing.
pub adds_none :
    (l : SafeList) (s : Store Element) (p_data n_size : ℕ)
    → (p_data ≡ null) ⊎ (s.grants ≡ 0)
    → (add_head l p_data n_size s ≡ some ((false, l), s))
      × (add_tail l p_data n_size s ≡ some ((false, l), s))
unfolding add_head add_tail
adds_none l s p_data n_size (inl z) = (rw z, rw z)
adds_none l s p_data n_size (inr z) = elim (Bool-cases (p_data == null)) [
  | inl e ↦ (rw e, rw e)
  | inr e ↦ (rw (e, z), rw (e, z))
]
