-- ===== src/Common/Chains.antt =====
-- Lists in a store: blocks that a pointer in each links.
use Prim.Native.Nat.{ℕ}
use mathlib.Core.Path.{◌≡◌}
use mathlib.Core.Bool.{Bool, true, not, ◌&&◌}
use mathlib.Core.Option.{Option, none, some}
use mathlib.Core.List.{List, [], ◌∷◌}
use native.Mathlib.Omega.{arith}
use toppers_hrp3_gr_rose.Common.Lists.{has}

-- The blocks that `next` links from `p` on.
abbrev pub Chain : (ℕ → Option ℕ) → Option ℕ → List ℕ → Type 0
Chain next p [] = p ≡ none
Chain next p (x ∷ xs) = (p ≡ some x) × Chain next (next x) xs

-- No address is in the list twice.
abbrev pub distinct : List ℕ → Bool
distinct [] = true
distinct (x ∷ xs) = not (has x xs) && distinct xs

pub Chain-cong :
    (f g : ℕ → Option ℕ) (p : Option ℕ) (xs : List ℕ)
    → ((x : ℕ) → has x xs ≡ true → g x ≡ f x)
    → Chain f p xs
    → Chain g p xs
Chain-cong f g p [] c h = h
Chain-cong f g p (x ∷ xs) c h =
    let at : g x ≡ f x = c x (ground arith) in
    (h.0, rw at (Chain-cong f g (f x) xs (λ y r. c y (ground arith)) h.1))
