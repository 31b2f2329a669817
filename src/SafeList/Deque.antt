-- ===== src/SafeList/Deque.antt =====
-- The safe list as a queue with two ends.
use sicapwap.Prelude.{
  inl, inr, ℕ, suc, ◌+◌, ◌-◌, ◌%◌, ◌<◌, ◌≡◌, ◌≢◌, refl, sym, ap, ◌∙◌, true, false, none, some, List,
  [], ◌∷◌, ◌++◌, arith, All, ne→==, ==_refl, ◌==◌, length, length-append,
}
use sicapwap.Cells.{Store, update}
use sicapwap.SafeList.{
  Element, SafeList, signal_element_safe_list, or_else, long_range, add_head, add_tail, null,
}
use sicapwap.SafeList.Linked.{
  Node, first_of, last_of, element, Linked, Apart, Linked-update, Linked-append, last_of-append,
  Linked-append_last, All-append, All-append_last, All-map, Apart-append, Linked-relink_last,
  Linked-relink_first, unsnoc,
}

-- The list's fields and the cells hold these nodes.
pub record Holds (l : SafeList) (s : Store Element) (ns : List Node) : Type 0 where
  pub first_held : l.first ≡ first_of ns none
  pub last_held : l.last ≡ last_of none ns
  pub count_held : l.count ≡ length ns % long_range
  pub linked : Linked s.cell none ns none
  pub apart : Apart ns
  pub old : All (λ n. n.address < s.next) ns

-- No old cell is at the address of the next one.
old_apart : (p : ℕ) (ns : List Node) → All (λ n. n.address < p) ns → All (λ n. n.address ≢ p) ns
old_apart p ns h = All-map (λ n. n.address < p) (λ n. n.address ≢ p) ns (λ n lt. omega arith) h

older : (p : ℕ) (ns : List Node) → All (λ n. n.address < p) ns → All (λ n. n.address < p + 1) ns
older p ns h = All-map (λ n. n.address < p) (λ n. n.address < p + 1) ns (λ n lt. omega arith) h

count_more : (c n : ℕ) → c ≡ n % long_range → (c + 1) % long_range ≡ suc n % long_range
count_more c n h = omega arith

pub count_less :
    (c n : ℕ) → c ≡ suc n % long_range → (c + (long_range - 1)) % long_range ≡ n % long_range
count_less c n h = omega arith

or_else-last_of : (a p : ℕ) (ns : List Node) → or_else (last_of (some a) ns) p ≡ last_of (some a) ns
or_else-last_of a p [] = refl
or_else-last_of a p (n ∷ ns) = or_else-last_of n.address p ns

or_else-first_of :
    (ns : List Node) (n : Node) (p : ℕ)
    → or_else (first_of (ns ++ (n ∷ [])) none) p ≡ first_of (ns ++ (n ∷ [])) none
or_else-first_of [] n p = refl
or_else-first_of (m ∷ ns) n p = refl

pub first_of-append_more :
    (ns : List Node) (n m : Node)
    → first_of ((ns ++ (n ∷ [])) ++ (m ∷ [])) none ≡ first_of (ns ++ (n ∷ [])) none
first_of-append_more [] n m = refl
first_of-append_more (k ∷ ns) n m = refl

pub length-snoc : (ns : List Node) (n : Node) → length (ns ++ (n ∷ [])) ≡ suc (length ns)
length-snoc ns n = omega (arith, length-append ns (n ∷ []))

-- Adding at the head.
pub add_head-Holds :
    (l : SafeList) (s : Store Element) (ns : List Node) (p_data n_size k : ℕ)
    → Holds l s ns
    → p_data ≢ null
    → s.grants ≡ suc k
    → (l' : SafeList) × (s' : Store Element) × (add_head l p_data n_size s ≡ some ((true, l'), s'))
      × (s'.grants ≡ k)
      × Holds l' s' (record { address = s.next; item = (p_data, n_size) } ∷ ns)
unfolding add_head signal_element_safe_list
add_head-Holds l s [] p_data n_size k h some_data granted =
    let new : Node = record { address = s.next; item = (p_data, n_size) } in
    let count : ℕ = (l.count + 1) % long_range in
    (
      (signal_element_safe_list
          (record l { first = some s.next; last = some s.next; count = count })).1,
      record {
        next = s.next + 1;
        cell = update s.cell s.next (some (element new none none));
        grants = k;
      },
      rw (ne→== p_data null some_data, granted, h.first_held, h.last_held),
      refl,
      record {
        first_held = refl;
        last_held = refl;
        count_held = count_more l.count 0 h.count_held;
        linked = (rw (==_refl s.next), tt);
        apart = (tt, tt);
        old = (omega arith, tt);
      },
    )
add_head-Holds l s (n ∷ ns) p_data n_size k h some_data granted =
    let new : Node = record { address = s.next; item = (p_data, n_size) } in
    let count : ℕ = (l.count + 1) % long_range in
    let fresh_cell = update s.cell s.next (some (element new none (some n.address))) in
    let head = element n (some s.next) (first_of ns none) in
    let apart_new = old_apart s.next (n ∷ ns) h.old in
    let differs : (s.next == n.address) ≡ false =
      ne→== s.next n.address (λ e. apart_new.0 (sym e)) in
    let differs' : (n.address == s.next) ≡ false = ne→== n.address s.next apart_new.0 in
    (
      (signal_element_safe_list
          (record l { first = some s.next; last = last_of (some n.address) ns; count = count })).1,
      record { next = s.next + 1; cell = update fresh_cell n.address (some head); grants = k },
      rw (
        ne→== p_data null some_data,
        granted,
        h.first_held,
        h.last_held,
        differs,
        h.linked.0,
        or_else-last_of n.address s.next ns,
      ),
      refl,
      record {
        first_held = refl;
        last_held = refl;
        count_held = count_more l.count (length (n ∷ ns)) h.count_held;
        linked = (
          rw (differs', ==_refl s.next),
          Linked-relink_first fresh_cell none (some s.next) n ns none h.apart (
              Linked-update s.cell s.next (some (element new none (some n.address))) none (n ∷ ns)
                none apart_new h.linked),
        );
        apart = (apart_new, h.apart);
        old = (omega arith, older s.next (n ∷ ns) h.old);
      },
    )

-- What adding at the tail makes of a list.
abbrev AddsTail : SafeList → Store Element → ℕ → ℕ → ℕ → List Node → Type 0
AddsTail l s p_data n_size k ns =
    (l' : SafeList) × (s' : Store Element) × (add_tail l p_data n_size s ≡ some ((true, l'), s'))
    × (s'.grants ≡ k)
    × Holds l' s' (ns ++ (record { address = s.next; item = (p_data, n_size) } ∷ []))

module _ (l : SafeList) (s : Store Element) (p_data n_size k : ℕ) (some_data : p_data ≢ null)
    (granted : s.grants ≡ suc k) where
  add_tail-empty : Holds l s [] → AddsTail l s p_data n_size k []
  unfolding add_tail signal_element_safe_list
  add_tail-empty h =
      let new : Node = record { address = s.next; item = (p_data, n_size) } in
      let count : ℕ = (l.count + 1) % long_range in
      (
        (signal_element_safe_list
            (record l { first = some s.next; last = some s.next; count = count })).1,
        record {
          next = s.next + 1;
          cell = update s.cell s.next (some (element new none none));
          grants = k;
        },
        rw (ne→== p_data null some_data, granted, h.first_held, h.last_held),
        refl,
        record {
          first_held = refl;
          last_held = refl;
          count_held = count_more l.count 0 h.count_held;
          linked = (rw (==_refl s.next), tt);
          apart = (tt, tt);
          old = (omega arith, tt);
        },
      )

  add_tail-more :
      (ns : List Node) (n : Node)
      → Holds l s (ns ++ (n ∷ []))
      → AddsTail l s p_data n_size k (ns ++ (n ∷ []))
  unfolding add_tail signal_element_safe_list
  add_tail-more ns n h =
      let all = ns ++ (n ∷ []) in
      let new : Node = record { address = s.next; item = (p_data, n_size) } in
      let count : ℕ = (l.count + 1) % long_range in
      let fresh = element new (some n.address) none in
      let fresh_cell = update s.cell s.next (some fresh) in
      let tail = element n (last_of none ns) (some s.next) in
      let apart_new = old_apart s.next all h.old in
      let differs' : n.address ≢ s.next =
        All-append_last (λ m. m.address ≢ s.next) ns n apart_new in
      let differs : (s.next == n.address) ≡ false =
        ne→== s.next n.address (λ e. differs' (sym e)) in
      let at_end : l.last ≡ some n.address = h.last_held ∙ last_of-append none ns n in
      let end_cell = Linked-append_last s.cell none ns n none h.linked in
      (
        (signal_element_safe_list
            (record l { first = first_of all none; last = some s.next; count = count })).1,
        record { next = s.next + 1; cell = update fresh_cell n.address (some tail); grants = k },
        rw (
          ne→== p_data null some_data,
          granted,
          at_end,
          h.first_held,
          differs,
          end_cell,
          or_else-first_of ns n s.next,
        ),
        refl,
        record {
          first_held = sym (first_of-append_more ns n new);
          last_held = sym (last_of-append none all new);
          count_held =
              count_more l.count (length all) h.count_held
              ∙ ap (λ c. c % long_range) (sym (length-snoc all new));
          linked =
              Linked-append (update fresh_cell n.address (some tail)) none all new none
                (Linked-relink_last fresh_cell none ns n none (some s.next) h.apart
                  (Linked-update s.cell s.next (some fresh) none all none apart_new h.linked))
                (rw (ne→== n.address s.next differs', ==_refl s.next, last_of-append none ns n));
          apart = Apart-append all new h.apart apart_new;
          old =
              All-append (λ m. m.address < s.next + 1) all new (older s.next all h.old)
                (omega arith);
        },
      )

  -- Adding at the tail.
  pub add_tail-Holds : (ns : List Node) → Holds l s ns → AddsTail l s p_data n_size k ns
  add_tail-Holds ns = elim (unsnoc ns) [
    | inl e ↦ rw e add_tail-empty
    | inr (ms, m, e) ↦ rw e (add_tail-more ms m)
  ]
