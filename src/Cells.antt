-- ===== src/Cells.antt =====
-- Objects behind pointers: a store of cells, and runs that allocate, read, write and free them.
use mathlib.Core.Option
use sicapwap.Prelude.{ℕ, zero, suc, ◌+◌, Option, none, some, ◌==◌, if◌then◌else◌}

-- The address of the next new cell, the cells, and how many allocations succeed.
pub record Store (C : Type 0) : Type 0 where
  pub next : ℕ
  pub cell : ℕ → Option C
  pub grants : ℕ

-- `none` is an access to what is no cell.
abbrev pub Run : Type 0 → Type 0 → Type 0
Run C A = Store C → Option (A × Store C)

module _ {C : Type 0} where
  abbrev pub pure : {A : Type 0} → A → Run C A
  pure a s = some (a, s)

  abbrev pub continue : {A B : Type 0} → Option (A × Store C) → (A → Run C B) → Option (B × Store C)
  continue none f = none
  continue (some (a, s)) f = f a s

  infixl 5 ◌>>=◌ ◌>>◌
  abbrev pub ◌>>=◌ : {A B : Type 0} → Run C A → (A → Run C B) → Run C B
  ◌>>=◌ m f s = continue (m s) f

  abbrev pub ◌>>◌ : {B : Type 0} → Run C (Unit {0}) → Run C B → Run C B
  m >> n = m >>= λ _. n

  abbrev pub update : (ℕ → Option C) → ℕ → Option C → ℕ → Option C
  update cell p o q = if p == q then o else cell q

  -- The address of a new cell, which the caller fills with `c`, or `NULL`.
  abbrev pub malloc_when : ℕ → C → Run C (Option ℕ)
  malloc_when zero c s = some (none, s)
  malloc_when (suc k) c s =
      some (
        some s.next,
        record { next = s.next + 1; cell = update s.cell s.next (some c); grants = k },
      )

  abbrev pub malloc : C → Run C (Option ℕ)
  malloc c s = malloc_when s.grants c s

  abbrev pub load : ℕ → Run C C
  load p s = Option.map (λ c. (c, s)) (s.cell p)

  -- An assignment to fields of a cell.
  abbrev pub modify : ℕ → (C → C) → Run C (Unit {0})
  modify p f s = Option.map (λ c. (tt, record s { cell = update s.cell p (some (f c)) })) (s.cell p)

  abbrev pub free : ℕ → Run C (Unit {0})
  free p s = Option.map (λ c. (tt, record s { cell = update s.cell p none })) (s.cell p)
