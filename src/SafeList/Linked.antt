-- ===== src/SafeList/Linked.antt =====
-- Elements that are linked in both directions, and what a change of one cell does to them.
use sicapwap.Prelude.{
  ◌⊎◌, inl, inr, ℕ, ◌≡◌, ◌≢◌, refl, sym, ap, ◌∙◌, Option, some, List, [], ◌∷◌, ◌++◌, All, ne→==,
  ==_refl,
}
use sicapwap.Cells.{update}
use sicapwap.SafeList.{Element}

-- An element's address, and what it holds.
pub record Node : Type 0 where
  pub address : ℕ
  pub item : ℕ × ℕ

abbrev pub first_of : List Node → Option ℕ → Option ℕ
first_of [] next = next
first_of (n ∷ ns) next = some n.address

abbrev pub last_of : Option ℕ → List Node → Option ℕ
last_of prev [] = prev
last_of prev (n ∷ ns) = last_of (some n.address) ns

abbrev pub element : Node → Option ℕ → Option ℕ → Element
element n prev next = record { p_data = n.item.0; n_size = n.item.1; prev = prev; next = next }

-- The cells of a stretch of the list, between `prev` and `next`.
abbrev pub Linked : (ℕ → Option Element) → Option ℕ → List Node → Option ℕ → Type 0
Linked cell prev [] next = Unit {0}
Linked cell prev (n ∷ ns) next =
    (cell n.address ≡ some (element n prev (first_of ns next)))
    × Linked cell (some n.address) ns next

-- No address stands twice.
abbrev pub Apart : List Node → Type 0
Apart [] = Unit {0}
Apart (n ∷ ns) = All (λ m. m.address ≢ n.address) ns × Apart ns

-- A cell that the stretch does not own.
pub Linked-update :
    (cell : ℕ → Option Element) (p : ℕ) (o : Option Element) (prev : Option ℕ) (ns : List Node)
    (next : Option ℕ)
    → All (λ m. m.address ≢ p) ns
    → Linked cell prev ns next
    → Linked (update cell p o) prev ns next
Linked-update cell p o prev [] next h l = tt
Linked-update cell p o prev (n ∷ ns) next h l = (
  rw (ne→== p n.address (λ e. h.0 (sym e))) l.0,
  Linked-update cell p o (some n.address) ns next h.1 l.1,
)

first_of-append :
    (ns : List Node) (n : Node) (next : Option ℕ)
    → first_of (ns ++ (n ∷ [])) next ≡ first_of ns (some n.address)
first_of-append [] n next = refl
first_of-append (m ∷ ns) n next = refl

pub last_of-append :
    (prev : Option ℕ) (ns : List Node) (n : Node) → last_of prev (ns ++ (n ∷ [])) ≡ some n.address
last_of-append prev [] n = refl
last_of-append prev (m ∷ ns) n = last_of-append (some m.address) ns n

-- A stretch and one element behind it.
pub Linked-append :
    (cell : ℕ → Option Element) (prev : Option ℕ) (ns : List Node) (n : Node) (next : Option ℕ)
    → Linked cell prev ns (some n.address)
    → cell n.address ≡ some (element n (last_of prev ns) next)
    → Linked cell prev (ns ++ (n ∷ [])) next
Linked-append cell prev [] n next l h = (h, tt)
Linked-append cell prev (m ∷ ns) n next l h = (
  l.0 ∙ ap (λ o. some (element m prev o)) (sym (first_of-append ns n next)),
  Linked-append cell (some m.address) ns n next l.1 h,
)

pub Linked-append_front :
    (cell : ℕ → Option Element) (prev : Option ℕ) (ns : List Node) (n : Node) (next : Option ℕ)
    → Linked cell prev (ns ++ (n ∷ [])) next
    → Linked cell prev ns (some n.address)
Linked-append_front cell prev [] n next l = tt
Linked-append_front cell prev (m ∷ ns) n next l = (
  l.0 ∙ ap (λ o. some (element m prev o)) (first_of-append ns n next),
  Linked-append_front cell (some m.address) ns n next l.1,
)

pub Linked-append_last :
    (cell : ℕ → Option Element) (prev : Option ℕ) (ns : List Node) (n : Node) (next : Option ℕ)
    → Linked cell prev (ns ++ (n ∷ [])) next
    → cell n.address ≡ some (element n (last_of prev ns) next)
Linked-append_last cell prev [] n next l = l.0
Linked-append_last cell prev (m ∷ ns) n next l =
    Linked-append_last cell (some m.address) ns n next l.1

pub All-append :
    (P : Node → Type 0) (ns : List Node) (n : Node) → All P ns → P n → All P (ns ++ (n ∷ []))
All-append P [] n h p = (p, tt)
All-append P (m ∷ ns) n h p = (h.0, All-append P ns n h.1 p)

pub All-append_front :
    (P : Node → Type 0) (ns : List Node) (n : Node) → All P (ns ++ (n ∷ [])) → All P ns
All-append_front P [] n h = tt
All-append_front P (m ∷ ns) n h = (h.0, All-append_front P ns n h.1)

pub All-append_last : (P : Node → Type 0) (ns : List Node) (n : Node) → All P (ns ++ (n ∷ [])) → P n
All-append_last P [] n h = h.0
All-append_last P (m ∷ ns) n h = All-append_last P ns n h.1

pub All-map :
    (P Q : Node → Type 0) (ns : List Node) → ((n : Node) → P n → Q n) → All P ns → All Q ns
All-map P Q [] f h = tt
All-map P Q (n ∷ ns) f h = (f n h.0, All-map P Q ns f h.1)

pub Apart-append :
    (ns : List Node) (n : Node)
    → Apart ns
    → All (λ m. m.address ≢ n.address) ns
    → Apart (ns ++ (n ∷ []))
Apart-append [] n a h = (tt, tt)
Apart-append (m ∷ ns) n a h =
    (All-append (λ k. k.address ≢ m.address) ns n a.0 (λ e. h.0 (sym e)), Apart-append ns n a.1 h.1)

pub Apart-append_front : (ns : List Node) (n : Node) → Apart (ns ++ (n ∷ [])) → Apart ns
Apart-append_front [] n a = tt
Apart-append_front (m ∷ ns) n a =
    (All-append_front (λ k. k.address ≢ m.address) ns n a.0, Apart-append_front ns n a.1)

pub Apart-append_last :
    (ns : List Node) (n : Node) → Apart (ns ++ (n ∷ [])) → All (λ m. m.address ≢ n.address) ns
Apart-append_last [] n a = tt
Apart-append_last (m ∷ ns) n a = (
  (λ e. All-append_last (λ k. k.address ≢ m.address) ns n a.0 (sym e)),
  Apart-append_last ns n a.1,
)

-- The link of the last element of a stretch, set anew.
pub Linked-relink_last :
    (cell : ℕ → Option Element) (prev : Option ℕ) (ns : List Node) (n : Node)
    (next next' : Option ℕ)
    → Apart (ns ++ (n ∷ []))
    → Linked cell prev (ns ++ (n ∷ [])) next
    → Linked
        (update cell n.address (some (element n (last_of prev ns) next')))
        prev
        (ns ++ (n ∷ []))
        next'
Linked-relink_last cell prev ns n next next' a l =
    let e = element n (last_of prev ns) next' in
    Linked-append (update cell n.address (some e)) prev ns n next'
      (Linked-update cell n.address (some e) prev ns (some n.address) (Apart-append_last ns n a)
        (Linked-append_front cell prev ns n next l))
      (rw (==_refl n.address))

-- The link of the first element, set anew.
pub Linked-relink_first :
    (cell : ℕ → Option Element) (prev prev' : Option ℕ) (n : Node) (ns : List Node)
    (next : Option ℕ)
    → Apart (n ∷ ns)
    → Linked cell prev (n ∷ ns) next
    → Linked (update cell n.address (some (element n prev' (first_of ns next)))) prev' (n ∷ ns) next
Linked-relink_first cell prev prev' n ns next a l = (
  rw (==_refl n.address),
  Linked-update cell n.address (some (element n prev' (first_of ns next))) (some n.address) ns next
      a.0 l.1,
)

-- A list is empty, or has a last element.
pub unsnoc : (ns : List Node) → (ns ≡ []) ⊎ ((ms : List Node) × (n : Node) × (ns ≡ ms ++ (n ∷ [])))
unsnoc [] = inl refl
unsnoc (n ∷ ns) = elim (unsnoc ns) [
  | inl e ↦ inr ([], n, ap (λ r. n ∷ r) e)
  | inr (ms, m, e) ↦ inr (n ∷ ms, m, ap (λ r. n ∷ r) e)
]
