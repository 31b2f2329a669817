-- ===== src/SafeList.antt =====
-- CWSafeList.c: a doubly linked list of data and sizes, with a count, a mutex and a condition that
-- is signalled when an element is added. Locks and waiting are not modelled.
pub mod Linked
pub mod Deque
pub mod Removal
pub mod Contents
use sicapwap.Prelude.{
  ℕ, zero, suc, ◌+◌, ◌-◌, ◌%◌, Bool, true, false, Option, none, some, List, [], ◌∷◌, ◌==◌,
  if◌then◌else◌,
}
use sicapwap.Cells.{Store, Run, pure, ◌>>=◌, ◌>>◌, malloc, load, modify, free}

-- `nCount` is an `unsigned long` of 64 bits.
abbrev pub long_range : ℕ
long_range = 18446744073709551616

-- `CWPrivateSafeElement`.
pub record Element : Type 0 where
  pub p_data : ℕ
  pub n_size : ℕ
  pub prev : Option ℕ
  pub next : Option ℕ

-- `CWPrivateSafeList`. `signals` counts the signals sent to its condition.
pub record SafeList : Type 0 where
  pub mutex : Option ℕ
  pub cond : Option ℕ
  pub count : ℕ
  pub first : Option ℕ
  pub last : Option ℕ
  pub signals : ℕ

abbrev pub null : ℕ
null = 0

-- `CWCreateSafeList`, where its object is allocated.
unfoldable pub create_safe_list : SafeList
create_safe_list = record {
  mutex = none;
  cond = none;
  count = 0;
  first = none;
  last = none;
  signals = 0;
}

unfoldable pub set_mutex_safe_list : SafeList → Option ℕ → SafeList
set_mutex_safe_list l m = record l { mutex = m }

unfoldable pub set_condition_safe_list : SafeList → Option ℕ → SafeList
set_condition_safe_list l c = record l { cond = c }

unfoldable pub signal_element_safe_list : SafeList → Bool × SafeList
signal_element_safe_list l = (
  elim l.cond [ none ↦ false | some c ↦ true ],
  record l { signals = elim l.cond [ none ↦ l.signals | some c ↦ l.signals + 1 ] },
)

unfoldable pub get_count_element_from_safe_list : SafeList → ℕ
get_count_element_from_safe_list l = l.count

-- `o`, or else `p`.
abbrev pub or_else : Option ℕ → ℕ → Option ℕ
or_else none p = some p
or_else (some q) p = some q

-- An assignment through a pointer that is not `NULL`.
abbrev pub modify_at : Option ℕ → (Element → Element) → Run Element (Unit {0})
modify_at none f = pure tt
modify_at (some p) f = modify p f

unfoldable pub add_head : SafeList → ℕ → ℕ → Run Element (Bool × SafeList)
unfolding signal_element_safe_list
add_head l p_data n_size = if p_data == null then pure (false, l) else (do
  new ← malloc (record { p_data = p_data; n_size = n_size; prev = none; next = l.first })
  elim new [
    | none ↦ pure (false, l)
    | some p ↦ do
      modify_at l.first (λ e. record e { prev = some p })
      let l' = record l {
        first = some p;
        last = or_else l.last p;
        count = (l.count + 1) % long_range;
      }
      pure (true, (signal_element_safe_list l').1)
  ])

unfoldable pub add_tail : SafeList → ℕ → ℕ → Run Element (Bool × SafeList)
unfolding signal_element_safe_list
add_tail l p_data n_size = if p_data == null then pure (false, l) else (do
  new ← malloc (record { p_data = p_data; n_size = n_size; prev = l.last; next = none })
  elim new [
    | none ↦ pure (false, l)
    | some p ↦ do
      modify_at l.last (λ e. record e { next = some p })
      let l' = record l {
        first = or_else l.first p;
        last = some p;
        count = (l.count + 1) % long_range;
      }
      pure (true, (signal_element_safe_list l').1)
  ])

-- The data and the size at the head.
unfoldable pub get_head : SafeList → Run Element (Option (ℕ × ℕ))
get_head l = elim l.first [
  | none ↦ pure none
  | some p ↦ do e ← load p; pure (some (e.p_data, e.n_size))
]

unfoldable pub remove_head : SafeList → Run Element (Option (ℕ × ℕ) × SafeList)
remove_head l = elim l.first [
  | none ↦ pure (none, l)
  | some p ↦ do
    e ← load p
    modify_at e.next (λ e'. record e' { prev = none })
    free p
    pure (
      some (e.p_data, e.n_size),
      record l {
        first = e.next;
        last = elim e.next [ none ↦ none | some q ↦ l.last ];
        count = (l.count + (long_range - 1)) % long_range;
      },
    )
]

unfoldable pub remove_tail : SafeList → Run Element (Option (ℕ × ℕ) × SafeList)
remove_tail l = elim l.last [
  | none ↦ pure (none, l)
  | some p ↦ do
    e ← load p
    modify_at e.prev (λ e'. record e' { next = none })
    free p
    pure (
      some (e.p_data, e.n_size),
      record l {
        last = e.prev;
        first = elim e.prev [ none ↦ none | some q ↦ l.first ];
        count = (l.count + (long_range - 1)) % long_range;
      },
    )
]

-- `CWCleanSafeList`, by fuel: the data that is handed to `deleteFunc`, in order, and the list.
unfoldable pub clean : ℕ → SafeList → Run Element (Option (List ℕ × SafeList))
clean zero l = pure none
clean (suc fuel) l = do
  (item, l') ← remove_head l
  elim item [
    | none ↦ pure (some ([], l'))
    | some (p_data, n_size) ↦ do
      rest ← clean fuel l'
      pure (elim rest [ none ↦ none | some (deleted, l'') ↦ some (p_data ∷ deleted, l'') ])
  ]
