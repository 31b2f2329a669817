-- ===== src/LinkedList.antt =====
-- CWList.c: a singly linked list. The functions that follow the links take fuel, a round for each
-- element. The static cursor of `CWListGetNext` is passed and returned.
pub mod Chain
pub mod Added
use sicapwap.Prelude.{
  ℕ, zero, suc, ◌+◌, Bool, true, false, Option, none, some, List, [], ◌∷◌, ◌==◌, if◌then◌else◌,
}
use sicapwap.Cells.{Store, Run, pure, ◌>>=◌, ◌>>◌, malloc, load, modify, free}

-- `CWListElement`.
pub record ListElement : Type 0 where
  pub contents : ℕ
  pub next : Option ℕ

-- A loop that did not end in the rounds that it was given.
abbrev pub unfinished : {A : Type 0} → Run ListElement A
unfinished s = none

-- `CWAddElementToList`. Both ways of the source, for the empty list and for another, come to this.
unfoldable pub add_element_to_list : Option ℕ → ℕ → Run ListElement (Bool × Option ℕ)
add_element_to_list list element = if element == 0 then pure (false, list) else (do
  new ← malloc (record { contents = element; next = list })
  elim new [ none ↦ pure (false, list) | some p ↦ pure (true, some p) ])

-- The loop of `CWAddElementToListTail` from `p` on, and the link that it adds.
unfoldable pub add_behind : ℕ → ℕ → ℕ → Run ListElement Bool
add_behind zero p element = unfinished
add_behind (suc fuel) p element = do
  e ← load p
  elim e.next [
    | some q ↦ add_behind fuel q element
    | none ↦ do
      new ← malloc (record { contents = element; next = none })
      elim new [
        | none ↦ pure false
        | some q ↦ do modify p (λ c. record c { next = some q }); pure true
      ]
  ]

unfoldable pub add_element_to_list_tail : ℕ → Option ℕ → ℕ → Run ListElement (Bool × Option ℕ)
add_element_to_list_tail fuel list element =
    if element == 0 then pure (false, list) else elim list [
      | none ↦ do
        new ← malloc (record { contents = element; next = none })
        elim new [ none ↦ pure (false, none) | some p ↦ pure (true, some p) ]
      | some p ↦ do added ← add_behind fuel p element; pure (added, some p)
    ]

-- `CWListGetFirstElem`: the first element is taken off the list.
unfoldable pub list_get_first_elem : Option ℕ → Run ListElement (Option ℕ × Option ℕ)
list_get_first_elem none = pure (none, none)
list_get_first_elem (some p) = do
  e ← load p
  modify p (λ c. record c { next = none })
  pure (some p, e.next)

-- `CWListGetNext`; `reset` is `CW_LIST_ITERATE_RESET`.
unfoldable pub list_get_next : Option ℕ → Option ℕ → Bool → Run ListElement (Option ℕ × Option ℕ)
list_get_next cursor none reset = pure (none, cursor)
list_get_next cursor (some p) reset = elim (if reset then some p else cursor) [
  | none ↦ pure (none, cursor)
  | some q ↦ do e ← load q; pure (some e.contents, e.next)
]

-- `CWSearchInList`; `matches` is `compareFunc` with the base element.
unfoldable pub search_in_list : ℕ → Option ℕ → (ℕ → Bool) → Run ListElement (Option ℕ)
search_in_list zero list matches = unfinished
search_in_list (suc fuel) none matches = pure none
search_in_list (suc fuel) (some p) matches = do
  e ← load p
  elim (matches e.contents) [
    | true ↦ pure (some e.contents)
    | false ↦ search_in_list fuel e.next matches
  ]

-- The loop of `CWDeleteInList` at `el`, behind `old_el`.
unfoldable pub delete_from :
    ℕ → Option ℕ → Option ℕ → Option ℕ → (ℕ → Bool) → Run ListElement (Option ℕ × Option ℕ)
delete_from zero list old_el el matches = unfinished
delete_from (suc fuel) list old_el none matches = pure (none, list)
delete_from (suc fuel) list old_el (some p) matches = do
  e ← load p
  elim (matches e.contents) [
    | false ↦ delete_from fuel list (some p) e.next matches
    | true ↦ elim old_el [
      | none ↦ do free p; pure (some e.contents, e.next)
      | some q ↦ do modify q (λ c. record c { next = e.next }); free p; pure (some e.contents, list)
    ]
  ]

unfoldable pub delete_in_list : ℕ → Option ℕ → (ℕ → Bool) → Run ListElement (Option ℕ × Option ℕ)
delete_in_list fuel list matches = delete_from fuel list none list matches

-- `CWDeleteList`: the data that `deleteFunc` is called with, in order.
unfoldable pub delete_list : ℕ → Option ℕ → Run ListElement (List ℕ)
delete_list fuel none = pure []
delete_list zero (some p) = unfinished
delete_list (suc fuel) (some p) = do
  e ← load p
  free p
  rest ← delete_list fuel e.next
  pure (e.contents ∷ rest)

unfoldable pub count_from : ℕ → ℕ → Option ℕ → Run ListElement ℕ
count_from zero count list = unfinished
count_from (suc fuel) count none = pure count
count_from (suc fuel) count (some p) = do e ← load p; count_from fuel (count + 1) e.next

unfoldable pub count_element_in_list : ℕ → Option ℕ → Run ListElement ℕ
count_element_in_list fuel list = count_from fuel 0 list
