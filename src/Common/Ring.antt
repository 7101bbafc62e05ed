-- ===== src/Common/Ring.antt =====
-- Ring buffers: the entries in an area, oldest first.
use Prim.Native.Nat.{ℕ, zero, suc, ◌+◌, ◌-◌, ◌≤◌, ◌<◌}
use mathlib.Core.Path.{◌≡◌, refl}
use mathlib.Core.List.{List, [], ◌∷◌, ◌++◌}
use native.Mathlib.Omega.{arith}
use toppers_hrp3_gr_rose.Common.Tests.{leb, if◌then◌else◌}
use toppers_hrp3_gr_rose.Common.Store.{update}

-- The place after one of an area of `size` places.
abbrev pub next_index : ℕ → ℕ → ℕ
next_index size n = if leb size (n + 1) then 0 else n + 1

-- The data in `count` places from `head` on, in an area of `size` places.
unfoldable pub ring_list : {A : Type 0} → (ℕ → A) → (size head count : ℕ) → List A
ring_list dtqmb size head zero = []
ring_list dtqmb size head (suc count) =
    dtqmb head ∷ ring_list dtqmb size (next_index size head) count

abbrev pub wrap : ℕ → ℕ → ℕ
wrap size n = if leb size n then n - size else n

-- The number of steps from one place to another.
abbrev steps : ℕ → ℕ → ℕ → ℕ
steps size h p = if leb h p then p - h else p + size - h

pub ring_list-update :
    {A : Type 0} (mb : ℕ → A) (n h c p : ℕ) (v : A)
    → h < n
    → p < n
    → c ≤ steps n h p
    → ring_list (update mb p v) n h c ≡ ring_list mb n h c
unfolding ring_list
ring_list-update mb n h zero p v a b d = refl
ring_list-update mb n h (suc c) p v a b d =
    ground (arith, ring_list-update mb n (next_index n h) c p v)

pub ring_list_snoc :
    {A : Type 0} (mb : ℕ → A) (n h c : ℕ)
    → h < n
    → c < n
    → ring_list mb n h (suc c) ≡ ring_list mb n h c ++ mb (wrap n (h + c)) ∷ []
unfolding ring_list
ring_list_snoc mb n h zero a b = ground arith
ring_list_snoc mb n h (suc c) a b = ground (arith, ring_list_snoc mb n (next_index n h) c)

pub ring_list_first :
    {A : Type 0} (mb : ℕ → A) (n h c : ℕ)
    → 0 < c
    → ring_list mb n h c ≡ mb h ∷ ring_list mb n (next_index n h) (c - 1)
unfolding ring_list
ring_list_first mb n h zero a = absurd (omega arith)
ring_list_first mb n h (suc c) a = ground arith

-- A full area, read from the place after `h`, ends with the datum at `h`.
pub full_ring :
    {A : Type 0} (mb : ℕ → A) (n h : ℕ)
    → h < n
    → ring_list mb n (next_index n h) n ≡ ring_list mb n (next_index n h) (n - 1) ++ mb h ∷ []
full_ring mb zero h a = absurd (omega arith)
full_ring mb (suc n) h a = ground (arith, ring_list_snoc mb (suc n) (next_index (suc n) h) n)
