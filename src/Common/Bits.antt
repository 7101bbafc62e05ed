-- ===== src/Common/Bits.antt =====
-- The bits of unsigned words: what `|`, `&` and `~` do to each bit.
use Prim.Native.Nat.{
  ℕ, zero, suc, ◌+◌, ◌-◌, ◌*◌, ◌/◌, ◌%◌, ◌^◌, ◌≤◌, ◌<◌, min, max, digits, bitwise, bit_and, bit_or,
  bit_and-bitwise, bit_or-bitwise,
}
use mathlib.Core.Path.{◌≡◌, refl, sym, ap, ◌∙◌}
use mathlib.Core.Bool.{Bool, true, false}
use native.Mathlib.Nat.{
  pow-suc, one-le-pow, mod-lt, div-add-mod, mod-eq_of_lt, add-mul-mod_self_right, zero-add,
  div-div-eq-div-mul,
}
use mathlib.Core.Logic.{◌≢◌, inl, inr}
use native.Mathlib.Omega.{arith}
use toppers_hrp3_gr_rose.Common.Tests.{◌==◌, if◌then◌else◌, Bool-cases}

-- The native operations recur on binary digits as long as their fuel lasts, and more fuel than the
-- number itself changes nothing. The proof is by induction on a bound of the fuel.
enough_fuel :
    (last : ℕ → ℕ) (digit : ℕ → ℕ → ℕ) (bound fuel x y : ℕ)
    → fuel ≤ bound
    → x ≤ fuel
    → digits last digit fuel x y ≡ digits last digit x x y
enough_fuel last digit bound zero zero y below fits = refl
enough_fuel last digit bound zero (suc x) y below fits = absurd (omega arith)
enough_fuel last digit bound (suc fuel) zero y below fits = refl
enough_fuel last digit zero (suc fuel) (suc x) y below fits = absurd (omega arith)
enough_fuel last digit (suc bound) (suc fuel) (suc x) y below fits =
    let half = suc x / 2 in
    let outer = enough_fuel last digit bound fuel half (y / 2) (omega arith) (omega arith) in
    let inner = enough_fuel last digit bound x half (y / 2) (omega arith) (omega arith) in
    ap (λ (high : ℕ). high * 2 + digit (suc x % 2) (y % 2)) (outer ∙ sym inner)

-- One step of each operation, from the lowest digits.
pub bit_or_step : (a b : ℕ) → bit_or a b ≡ bit_or (a / 2) (b / 2) * 2 + max (a % 2) (b % 2)
bit_or_step a b = rw (bit_or-bitwise a b, bit_or-bitwise (a / 2) (b / 2)) (first a)
  where
    first :
        (x : ℕ)
        → bitwise (λ r. r) max x b ≡ bitwise (λ r. r) max (x / 2) (b / 2) * 2 + max (x % 2) (b % 2)
    first zero = omega arith
    first (suc x) =
        ap (λ (high : ℕ). high * 2 + max (suc x % 2) (b % 2))
          (enough_fuel (λ r. r) max x x (suc x / 2) (b / 2) (omega arith) (omega arith))

pub bit_and_step : (a b : ℕ) → bit_and a b ≡ bit_and (a / 2) (b / 2) * 2 + min (a % 2) (b % 2)
bit_and_step a b = rw (bit_and-bitwise a b, bit_and-bitwise (a / 2) (b / 2)) (first a)
  where
    first :
        (x : ℕ)
        → bitwise (λ _. 0) min x b ≡ bitwise (λ _. 0) min (x / 2) (b / 2) * 2 + min (x % 2) (b % 2)
    first zero = omega arith
    first (suc x) =
        ap (λ (high : ℕ). high * 2 + min (suc x % 2) (b % 2))
          (enough_fuel (λ _. 0) min x x (suc x / 2) (b / 2) (omega arith) (omega arith))

-- Bit `i` of a word, from the lowest.
unfoldable pub bit : ℕ → ℕ → Bool
bit zero a = a % 2 == 1
bit (suc i) a = bit i (a / 2)

bit-bit_or : (i a b : ℕ) → bit i (bit_or a b) ≡ (if bit i a then true else bit i b)
unfolding bit
bit-bit_or zero a b = ground (arith, bit_or_step a b)
bit-bit_or (suc i) a b =
    let half : bit_or a b / 2 ≡ bit_or (a / 2) (b / 2) = omega (arith, bit_or_step a b) in
    rw half (bit-bit_or i (a / 2) (b / 2))

pub bit-bit_and : (i a b : ℕ) → bit i (bit_and a b) ≡ (if bit i a then bit i b else false)
unfolding bit
bit-bit_and zero a b = ground (arith, bit_and_step a b)
bit-bit_and (suc i) a b =
    let half : bit_and a b / 2 ≡ bit_and (a / 2) (b / 2) = omega (arith, bit_and_step a b) in
    rw half (bit-bit_and i (a / 2) (b / 2))

pub bit_zero : (i : ℕ) → bit i 0 ≡ false
unfolding bit
bit_zero zero = refl
bit_zero (suc i) = bit_zero i

bits_ext_below : (n a b : ℕ) → a ≤ n → b ≤ n → ((i : ℕ) → bit i a ≡ bit i b) → a ≡ b
unfolding bit
bits_ext_below zero a b l m h = omega arith
bits_ext_below (suc n) a b l m h =
    let half = bits_ext_below n (a / 2) (b / 2) (omega arith) (omega arith) (λ i. h (suc i)) in
    let last = h 0 in ground (arith, half, last)

-- Words with the same bits are the same.
pub bits_ext : (a b : ℕ) → ((i : ℕ) → bit i a ≡ bit i b) → a ≡ b
bits_ext a b h = bits_ext_below (a + b) a b (omega arith) (omega arith) h

some_bit_below : (n a : ℕ) → a ≤ n → a ≢ 0 → (i : ℕ) × (bit i a ≡ true)
unfolding bit
some_bit_below zero a l h = absurd (h (omega arith))
some_bit_below (suc n) a l h = elim (Bool-cases (a % 2 == 1)) [
  | inl e ↦ (0, e)
  | inr e ↦
      let (i, one) = some_bit_below n (a / 2) (omega arith) (λ z. h (ground arith)) in (suc i, one)
]

-- A word other than 0 has a bit.
pub some_bit : (a : ℕ) → a ≢ 0 → (i : ℕ) × (bit i a ≡ true)
some_bit a h = some_bit_below a a (omega arith) h

bit_pow : (i k : ℕ) → bit i (2 ^ k) ≡ (k == i)
unfolding bit
bit_pow zero zero = refl
bit_pow zero (suc k) = ground (arith, pow-suc 2 k)
bit_pow (suc i) zero = ground (arith, bit_zero i)
bit_pow (suc i) (suc k) =
    let half : 2 ^ suc k / 2 ≡ 2 ^ k = omega (arith, pow-suc 2 k) in
    rw half (ground (arith, bit_pow i k))

-- `~x` at width `w`.
abbrev pub bit_not : ℕ → ℕ → ℕ
bit_not w x = 2 ^ w - 1 - x

bit_ones : (i w : ℕ) → i < w → bit i (2 ^ w - 1) ≡ true
unfolding bit
bit_ones i zero h = absurd (omega arith)
bit_ones zero (suc w) h = ground (arith, pow-suc 2 w, one-le-pow w 2)
bit_ones (suc i) (suc w) h =
    let half : (2 ^ suc w - 1) / 2 ≡ 2 ^ w - 1 = omega (arith, pow-suc 2 w, one-le-pow w 2) in
    rw half (bit_ones i w (omega arith))

pow_lt : (k w : ℕ) → k < w → 2 ^ k + 1 ≤ 2 ^ w
pow_lt k zero h = absurd (omega arith)
pow_lt zero (suc w) h = omega (arith, pow-suc 2 w, one-le-pow w 2)
pow_lt (suc k) (suc w) h = omega (arith, pow-suc 2 w, pow-suc 2 k, pow_lt k w (omega arith))

bit_not_pow :
    (i w k : ℕ) → i < w → k < w → bit i (bit_not w (2 ^ k)) ≡ (if k == i then false else true)
unfolding bit
bit_not_pow i zero k h p = absurd (omega arith)
bit_not_pow zero (suc w) zero h p = ground (arith, pow-suc 2 w, one-le-pow w 2)
bit_not_pow zero (suc w) (suc k) h p =
    ground (arith, pow-suc 2 w, one-le-pow w 2, pow-suc 2 k, pow_lt k w (omega arith))
bit_not_pow (suc i) (suc w) zero h p =
    let half : bit_not (suc w) (2 ^ 0) / 2 ≡ 2 ^ w - 1 =
      omega (arith, pow-suc 2 w, one-le-pow w 2) in
    rw half (ground (arith, bit_ones i w))
bit_not_pow (suc i) (suc w) (suc k) h p =
    let half : bit_not (suc w) (2 ^ suc k) / 2 ≡ bit_not w (2 ^ k) =
      omega (arith, pow-suc 2 w, pow-suc 2 k, one-le-pow w 2, pow_lt k w (omega arith)) in
    rw half (ground (arith, bit_not_pow i w k))

-- `word |= 1U << k` sets bit `k` alone.
pub bit-set : (i k a : ℕ) → bit i (bit_or a (2 ^ k)) ≡ (if k == i then true else bit i a)
bit-set i k a = ground (arith, bit-bit_or i a (2 ^ k), bit_pow i k)

-- `word &= ~(1U << k)` clears bit `k` alone.
pub bit-clear :
    (i k w a : ℕ)
    → i < w
    → k < w
    → bit i (bit_and a (bit_not w (2 ^ k))) ≡ (if k == i then false else bit i a)
bit-clear i k w a h p = ground (arith, bit-bit_and i a (bit_not w (2 ^ k)), bit_not_pow i w k h p)

mod_half : (a m : ℕ) → 0 < m → a % (2 * m) ≡ a / 2 % m * 2 + a % 2
mod_half a m h =
    let low : ℕ = a / 2 % m * 2 + a % 2 in
    let fits : low < 2 * m = omega (arith, mod-lt (a / 2) h) in
    let whole : a ≡ low + a / 2 / m * (2 * m) = omega (arith, div-add-mod (a / 2) m) in
    (ap (λ (t : ℕ). t % (2 * m)) whole ∙ add-mul-mod_self_right low (a / 2 / m) (2 * m))
    ∙ mod-eq_of_lt fits

-- No bit is left of a word under an empty mask, within `fuel` halvings.
bit_and-empty : (fuel a : ℕ) → a ≤ fuel → bit_and a 0 ≡ 0
bit_and-empty fuel zero h = refl
bit_and-empty zero (suc a) h = absurd (omega arith)
bit_and-empty (suc fuel) (suc a) h =
    omega (arith, bit_and_step (suc a) 0, bit_and-empty fuel (suc a / 2) (omega arith))

-- A mask of low bits takes the remainder.
pub bit_and-mask : (w a : ℕ) → bit_and a (2 ^ w - 1) ≡ a % 2 ^ w
bit_and-mask zero a = omega (arith, bit_and-empty a a (omega arith))
bit_and-mask (suc w) a = ground (
  arith,
  bit_and_step a (2 ^ suc w - 1),
  pow-suc 2 w,
  one-le-pow w 2,
  bit_and-mask w (a / 2),
  mod_half a (2 ^ w) (one-le-pow w 2 (omega arith)),
)

-- A remainder of 0 by a power of two has no low bits.
pub bit-low : (i w a : ℕ) → i < w → a % 2 ^ w ≡ 0 → bit i a ≡ false
unfolding bit
bit-low i zero a h e = absurd (omega arith)
bit-low zero (suc w) a h e =
    ground (arith, pow-suc 2 w, one-le-pow w 2, mod_half a (2 ^ w) (one-le-pow w 2 (omega arith)))
bit-low (suc i) (suc w) a h e =
    bit-low i w (a / 2) (omega arith)
      (ground (arith, pow-suc 2 w, mod_half a (2 ^ w) (one-le-pow w 2 (omega arith))))

pub bit-div : (i w a : ℕ) → bit i (a / 2 ^ w) ≡ bit (w + i) a
unfolding bit
bit-div i zero a = rw (zero-add i) (ap (bit i) (omega arith))
bit-div i (suc w) a =
    let halves : a / 2 ^ suc w ≡ a / 2 / 2 ^ w =
      rw (div-div-eq-div-mul a 2 (2 ^ w)) (ap (λ (t : ℕ). a / t) (omega (arith, pow-suc 2 w))) in
    let next : suc w + i ≡ suc (w + i) = omega arith in rw (halves, next) (bit-div i w (a / 2))

-- Words of `w` bits are closed under `|`, and under `&` with any word.
pub bit_or-lt : (w a b : ℕ) → a < 2 ^ w → b < 2 ^ w → bit_or a b < 2 ^ w
bit_or-lt zero a b h p = ground (arith, bit_or_step a b)
bit_or-lt (suc w) a b h p = omega (
  arith,
  bit_or_step a b,
  pow-suc 2 w,
  bit_or-lt w (a / 2) (b / 2) (omega (arith, pow-suc 2 w)) (omega (arith, pow-suc 2 w)),
)

pub bit_and-lt : (w a b : ℕ) → a < 2 ^ w → bit_and a b < 2 ^ w
bit_and-lt zero a b h =
    let empty : a ≡ 0 = omega arith in rw empty (omega (arith, bit_and-bitwise 0 b))
bit_and-lt (suc w) a b h = omega (
  arith,
  bit_and_step a b,
  pow-suc 2 w,
  bit_and-lt w (a / 2) (b / 2) (omega (arith, pow-suc 2 w)),
)

-- A word of `w` bits has no higher bit.
pub bit-high : (i w a : ℕ) → w ≤ i → a < 2 ^ w → bit i a ≡ false
unfolding bit
bit-high zero zero a h p = ground arith
bit-high zero (suc w) a h p = absurd (omega arith)
bit-high (suc i) zero a h p = bit-high i zero (a / 2) (omega arith) (omega arith)
bit-high (suc i) (suc w) a h p = bit-high i w (a / 2) (omega arith) (omega (arith, pow-suc 2 w))

pub pow-lt : (k w : ℕ) → k < w → 2 ^ k < 2 ^ w
pow-lt k w h = omega (arith, pow_lt k w h)

pub bit-empty : (i : ℕ) → bit i 0 ≡ false
bit-empty i = bit_zero i
