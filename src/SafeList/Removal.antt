-- ===== src/SafeList/Removal.antt =====
-- The safe list's removals, at either end and of all elements.
use sicapwap.Prelude.{
  inl, inr, ℕ, zero, suc, ◌+◌, ◌-◌, ◌%◌, ◌<◌, ◌≡◌, ◌≢◌, refl, sym, ap, ◌∙◌, false, none, some, List,
  [], ◌∷◌, ◌++◌, map, arith, ne→==, ◌==◌, length,
}
use sicapwap.Cells.{Store, update}
use sicapwap.SafeList.{Element, SafeList, long_range, remove_head, remove_tail, get_head, clean}
use sicapwap.SafeList.Linked.{
  Node, first_of, last_of, element, Linked-update, last_of-append, Linked-append_front,
  Linked-append_last, All-append_front, All-append_last, Apart-append_front, Apart-append_last,
  Linked-relink_last, Linked-relink_first, unsnoc,
}
use sicapwap.SafeList.Deque.{Holds, count_less, first_of-append_more, length-snoc}

-- Removing at the head: its item is returned, and the rest held.
abbrev RemovesHead : SafeList → Store Element → Node → List Node → Type 0
RemovesHead l s n ns =
    (l' : SafeList) × (s' : Store Element) × (remove_head l s ≡ some ((some n.item, l'), s'))
    × Holds l' s' ns

abbrev RemovesTail : SafeList → Store Element → List Node → Node → Type 0
RemovesTail l s ns n =
    (l' : SafeList) × (s' : Store Element) × (remove_tail l s ≡ some ((some n.item, l'), s'))
    × Holds l' s' ns

module _ (l : SafeList) (s : Store Element) where
  pub remove_head-Holds : (n : Node) (ns : List Node) → Holds l s (n ∷ ns) → RemovesHead l s n ns
  unfolding remove_head
  remove_head-Holds n [] h = (
    record l { first = none; last = none; count = (l.count + (long_range - 1)) % long_range },
    record s { cell = update s.cell n.address none },
    rw (h.first_held, h.linked.0, h.linked.0),
    record {
      first_held = refl;
      last_held = refl;
      count_held = count_less l.count 0 h.count_held;
      linked = tt;
      apart = tt;
      old = tt;
    },
  )
  remove_head-Holds n (m ∷ ns) h =
      let head = element m none (first_of ns none) in
      let apart_n = h.apart.0 in
      let differs : (m.address == n.address) ≡ false = ne→== m.address n.address apart_n.0 in
      let cell' = update s.cell m.address (some head) in
      (
        record l { first = some m.address; count = (l.count + (long_range - 1)) % long_range },
        record s { cell = update cell' n.address none },
        rw (h.first_held, h.linked.0, h.linked.1.0, differs, h.linked.0),
        record {
          first_held = refl;
          last_held = h.last_held;
          count_held = count_less l.count (length (m ∷ ns)) h.count_held;
          linked =
              Linked-update cell' n.address none none (m ∷ ns) none apart_n
                (Linked-relink_first s.cell (some n.address) none m ns none h.apart.1 h.linked.1);
          apart = h.apart.1;
          old = h.old.1;
        },
      )

  pub remove_head-empty : Holds l s [] → remove_head l s ≡ some ((none, l), s)
  unfolding remove_head
  remove_head-empty h = rw h.first_held

  pub remove_tail-empty : Holds l s [] → remove_tail l s ≡ some ((none, l), s)
  unfolding remove_tail
  remove_tail-empty h = rw h.last_held

  -- What is at the head, if there is something.
  pub get_head-Holds :
      (ns : List Node)
      → Holds l s ns
      → get_head l s ≡ some (elim ns [ [] ↦ none | m ∷ ms ↦ some m.item ], s)
  unfolding get_head
  get_head-Holds [] h = rw h.first_held
  get_head-Holds (n ∷ ns) h = rw (h.first_held, h.linked.0)

  remove_tail-single : (n : Node) → Holds l s (n ∷ []) → RemovesTail l s [] n
  unfolding remove_tail
  remove_tail-single n h = (
    record l { first = none; last = none; count = (l.count + (long_range - 1)) % long_range },
    record s { cell = update s.cell n.address none },
    rw (h.last_held, h.linked.0, h.linked.0),
    record {
      first_held = refl;
      last_held = refl;
      count_held = count_less l.count 0 h.count_held;
      linked = tt;
      apart = tt;
      old = tt;
    },
  )

  remove_tail-more :
      (ns : List Node) (m n : Node)
      → Holds l s ((ns ++ (m ∷ [])) ++ (n ∷ []))
      → RemovesTail l s (ns ++ (m ∷ [])) n
  unfolding remove_tail
  remove_tail-more ns m n h =
      let front = ns ++ (m ∷ []) in
      let tail = element m (last_of none ns) none in
      let apart_n = Apart-append_last front n h.apart in
      let apart_m : m.address ≢ n.address =
        All-append_last (λ k. k.address ≢ n.address) ns m apart_n in
      let at_end : l.last ≡ some n.address = h.last_held ∙ last_of-append none front n in
      let end_cell : s.cell n.address ≡ some (element n (some m.address) none) =
        Linked-append_last s.cell none front n none h.linked
        ∙ ap (λ o. some (element n o none)) (last_of-append none ns m) in
      let front_linked = Linked-append_front s.cell none front n none h.linked in
      let cell' = update s.cell m.address (some tail) in
      (
        record l {
          first = first_of front none;
          last = some m.address;
          count = (l.count + (long_range - 1)) % long_range;
        },
        record s { cell = update cell' n.address none },
        rw (
          at_end,
          end_cell,
          Linked-append_last s.cell none ns m (some n.address) front_linked,
          ne→== m.address n.address apart_m,
          end_cell,
          h.first_held,
          first_of-append_more ns m n,
        ),
        record {
          first_held = refl;
          last_held = sym (last_of-append none ns m);
          count_held =
              count_less l.count (length front)
                (h.count_held ∙ ap (λ c. c % long_range) (length-snoc front n));
          linked = Linked-update cell' n.address none none front none apart_n (
              Linked-relink_last s.cell none ns m (some n.address) none
                (Apart-append_front front n h.apart) front_linked);
          apart = Apart-append_front front n h.apart;
          old = All-append_front (λ k. k.address < s.next) front n h.old;
        },
      )

  -- Removing at the tail.
  pub remove_tail-Holds :
      (ns : List Node) (n : Node) → Holds l s (ns ++ (n ∷ [])) → RemovesTail l s ns n
  remove_tail-Holds ns n = elim (unsnoc ns) [
    | inl e ↦ rw e (remove_tail-single n)
    | inr (ms, m, e) ↦ rw e (remove_tail-more ms m n)
  ]

-- `CWCleanSafeList` ends with an empty list, and has handed out all data from the head on.
pub clean-Holds :
    (l : SafeList) (s : Store Element) (ns : List Node) (fuel : ℕ)
    → Holds l s ns
    → length ns < fuel
    → (l' : SafeList) × (s' : Store Element) × (clean fuel l s
        ≡ some (some (map (λ n. n.item.0) ns, l'), s'))
      × Holds l' s' []
unfolding clean
clean-Holds l s ns zero h enough = absurd (omega arith)
clean-Holds l s [] (suc fuel) h enough = (l, s, rw (remove_head-empty l s h), h)
clean-Holds l s (n ∷ ns) (suc fuel) h enough =
    let (l1, s1, step, h1) = remove_head-Holds l s n ns h in
    let (l2, s2, rest, h2) = clean-Holds l1 s1 ns fuel h1 (omega arith) in
    (l2, s2, rw (step, rest), h2)
