-- ===== src/Task/Bitmap.antt =====
-- The search of the ready bitmap.
use native.Mathlib.Nat.{zero-add}
use toppers_hrp3_gr_rose.Common.{
  ℕ, zero, suc, ◌+◌, ◌-◌, ◌/◌, ◌%◌, ◌^◌, ◌<◌, ◌≡◌, refl, inl, inr, Bool, true, false, arith, sym,
  ◌∙◌, ◌≢◌, ◌&&◌, ◌||◌, ltb, bit, bit_and, bit_and-mask, bit-low, bit-div, Bool-cases, ◌==◌, ◌≤◌,
  if◌then◌else◌,
}
use toppers_hrp3_gr_rose.Task.{bitmap_search, bitmap_search_table, table_at}

-- Bit `n` is set and no lower one is.
pub record IsLowest (bitmap n : ℕ) : Type 0 where
  pub here : bit n bitmap ≡ true
  pub lower : (i : ℕ) → i < n → bit i bitmap ≡ false

-- What the table holds for a nibble that is not 0, as a test on all of them.
nibble_ok : ℕ → Bool
unfolding bit
nibble_ok x =
    let r = table_at bitmap_search_table (x - 1) in
    (x == 0) || (ltb r 4 && ((x % 2 ^ r == 0) && bit r x))

-- The test holds of the `count` numbers from `first` on.
holds_from : (count first : ℕ) → (ℕ → Bool) → Bool
holds_from zero first test = true
holds_from (suc count) first test = if test first then holds_from count (first + 1) test else false

holds_from-at :
    (test : ℕ → Bool) (i count first : ℕ)
    → holds_from count first test ≡ true
    → first ≤ i
    → i < first + count
    → test i ≡ true
unfolding holds_from
holds_from-at test i zero first all low high = absurd (omega arith)
holds_from-at test i (suc count) first all low high =
    ground (arith, holds_from-at test i count (first + 1))

nibbles_ok : holds_from 16 0 nibble_ok ≡ true
unfolding holds_from nibble_ok
nibbles_ok = refl

mod_nibble : (r y : ℕ) → r < 4 → y % 16 % 2 ^ r ≡ y % 2 ^ r
mod_nibble zero y h = omega arith
mod_nibble (suc zero) y h = omega arith
mod_nibble (suc (suc zero)) y h = omega arith
mod_nibble (suc (suc (suc zero))) y h = omega arith
mod_nibble (suc (suc (suc (suc r)))) y h = absurd (omega arith)

bit_nibble : (r y : ℕ) → r < 4 → bit r (y % 16) ≡ bit r y
unfolding bit
bit_nibble zero y h = ground arith
bit_nibble (suc zero) y h = ground arith
bit_nibble (suc (suc zero)) y h = ground arith
bit_nibble (suc (suc (suc zero))) y h = ground arith
bit_nibble (suc (suc (suc (suc r)))) y h = absurd (omega arith)

-- The lowest bit of a word whose low nibble is not 0.
low_nibble : (y : ℕ) → y % 16 ≢ 0 → IsLowest y (table_at bitmap_search_table (y % 16 - 1))
low_nibble y h =
    let x = y % 16 in
    let r = table_at bitmap_search_table (x - 1) in
    let good : nibble_ok x ≡ true =
      holds_from-at nibble_ok x 16 0 nibbles_ok (omega arith) (omega arith) in
    let facts : (r < 4) × (x % 2 ^ r ≡ 0) × (bit r x ≡ true) = unfold nibble_ok in ground arith in
    record {
      here = sym (bit_nibble r y facts.0) ∙ facts.2;
      lower = λ i p. bit-low i r y p (sym (mod_nibble r y facts.0) ∙ facts.1);
    }

-- Low zeros that were skipped are added again.
IsLowest-shift : (w m n : ℕ) → m % 2 ^ w ≡ 0 → IsLowest (m / 2 ^ w) n → IsLowest m (w + n)
IsLowest-shift w m n e v = record {
  here = sym (bit-div n w m) ∙ v.here;
  lower = λ i p. elim (Bool-cases (ltb i w)) [
    | inl skipped ↦ bit-low i w m (ground arith) e
    | inr above ↦
        let at : w + (i - w) ≡ i = ground arith in
        rw at at (sym (bit-div (i - w) w m) ∙ v.lower (i - w) (ground arith))
  ];
}

-- bitmap_search finds the lowest bit of any bitmap of 16 bits that is not empty.
pub bitmap_search-IsLowest :
    (bitmap : ℕ) → bitmap ≢ 0 → bitmap < 2 ^ 16 → IsLowest bitmap (bitmap_search bitmap)
unfolding bitmap_search
bitmap_search-IsLowest m nz h =
    let mask8 : bit_and m 0xff ≡ m % 256 = bit_and-mask 8 m in
    elim (Bool-cases (bit_and m 0xff == 0)) [
      | inl e8 ↦
          let high : bit_and (m / 2 ^ 8) 0x0f ≡ m / 256 % 16 = bit_and-mask 4 (m / 2 ^ 8) in
          elim (Bool-cases (bit_and (m / 2 ^ 8) 0x0f == 0)) [
            | inl e4 ↦
                let top : m / 2 ^ 8 / 2 ^ 4 ≡ m / 2 ^ 12 = omega arith in
                rw (e8, e4, bit_and-mask 4 (m / 2 ^ 8 / 2 ^ 4), top)
                  (IsLowest-shift 12 m _ (ground arith)
                    (low_nibble (m / 2 ^ 12) (λ z. ground arith)))
            | inr n4 ↦
                rw (e8, n4, bit_and-mask 4 (m / 2 ^ 8))
                  (IsLowest-shift 8 m _ (ground arith) (low_nibble (m / 2 ^ 8) (λ z. ground arith)))
          ]
      | inr n8 ↦
          let low : bit_and m 0x0f ≡ m % 16 = bit_and-mask 4 m in
          elim (Bool-cases (bit_and m 0x0f == 0)) [
            | inl e4 ↦
                rw (n8, e4, bit_and-mask 4 (m / 2 ^ 4))
                  (IsLowest-shift 4 m _ (ground arith) (low_nibble (m / 2 ^ 4) (λ z. ground arith)))
            | inr n4 ↦ rw (n8, n4, low, zero-add) (low_nibble m (λ z. ground arith))
          ]
    ]
