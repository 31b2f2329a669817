-- ===== src/Prelude/Weights.antt =====
-- Sums over lists of numbers, which do not depend on the order.
use Prim.Native.Nat.{ℕ, zero, suc, ◌+◌}
use mathlib.Core.Path.{◌≡◌, refl, ap, ◌∙◌}
use mathlib.Core.Logic.{∥∥₁_elim}
use mathlib.Core.List.{List, [], ◌∷◌, ◌++◌, Perm, Permᴰ}
use native.Mathlib.Nat.{ℕ_set}
use native.Mathlib.Omega.{arith}
use sicapwap.Prelude.Tests.{ltb, ◌==◌, if◌then◌else◌}

abbrev pub weight : (ℕ → ℕ) → List ℕ → ℕ
weight w [] = 0
weight w (i ∷ is) = w i + weight w is

-- `i`, `i + 1`, …, `n` of them.
abbrev pub range : ℕ → ℕ → List ℕ
range i zero = []
range i (suc n) = i ∷ range (i + 1) n

-- How often `i` is in a list, as a weight.
abbrev pub one_at : ℕ → ℕ → ℕ
one_at i j = if i == j then 1 else 0

pub weight-append : (w : ℕ → ℕ) (is js : List ℕ) → weight w (is ++ js) ≡ weight w is + weight w js
weight-append w [] js = omega arith
weight-append w (i ∷ is) js = omega (arith, weight-append w is js)

weight-permᴰ : (w : ℕ → ℕ) {is js : List ℕ} → Permᴰ is js → weight w is ≡ weight w js
weight-permᴰ w Permᴰ.nil = refl
weight-permᴰ w (Permᴰ.cons e p) = omega (arith, ap w e, weight-permᴰ w p)
weight-permᴰ w (Permᴰ.swap {l} e f) = omega (arith, ap w e, ap w f)
weight-permᴰ w (Permᴰ.trans p q) = weight-permᴰ w p ∙ weight-permᴰ w q

pub weight-perm : (w : ℕ → ℕ) {is js : List ℕ} → Perm is js → weight w is ≡ weight w js
weight-perm w p = ∥∥₁_elim p (ℕ_set _ _) (weight-permᴰ w)

-- A number is in a range exactly if it lies between the ends, and then once.
pub weight-range :
    (i n j : ℕ)
    → weight (one_at j) (range i n) ≡ (if ltb j i then 0 else if ltb j (i + n) then 1 else 0)
weight-range i zero j = ground arith
weight-range i (suc n) j = ground (arith, weight-range (i + 1) n j)
