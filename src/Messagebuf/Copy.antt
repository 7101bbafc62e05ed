-- ===== src/Messagebuf/Copy.antt =====
-- The copies of kernel/messagebuf.c into the ring of bytes and out of it.
use toppers_hrp3_gr_rose.Common.{
  ℕ, zero, suc, ◌+◌, ◌-◌, ◌^◌, ◌≤◌, ◌<◌, ◌≡◌, refl, sym, ap, ◌∙◌, inl, inr, false, List, [], ◌∷◌,
  ◌++◌, arith, ltb, length, update, Bool-cases,
}
use toppers_hrp3_gr_rose.Messagebuf.{
  copy_in, copy_out, take, drop, put_bytes, get_bytes, word_bytes, word_at,
}

-- A copy changes the area only where it goes.
pub copy_in-before :
    (area : ℕ → ℕ) (pos : ℕ) (bs : List ℕ) (j : ℕ) → j < pos → copy_in area pos bs j ≡ area j
unfolding copy_in
copy_in-before area pos [] j h = refl
copy_in-before area pos (b ∷ bs) j h =
    ground (arith, copy_in-before (update area pos b) (pos + 1) bs j)

pub copy_in-after :
    (area : ℕ → ℕ) (pos : ℕ) (bs : List ℕ) (j : ℕ)
    → pos + length bs ≤ j
    → copy_in area pos bs j ≡ area j
unfolding copy_in
copy_in-after area pos [] j h = refl
copy_in-after area pos (b ∷ bs) j h =
    copy_in-after (update area pos b) (pos + 1) bs j (omega arith) ∙ ground arith

-- What was copied in is copied out.
copy_out-copy_in :
    (area : ℕ → ℕ) (pos : ℕ) (bs : List ℕ) → copy_out (copy_in area pos bs) pos (length bs) ≡ bs
unfolding copy_in copy_out
copy_out-copy_in area pos [] = refl
copy_out-copy_in area pos (b ∷ bs) =
    let area1 = update area pos b in
    let at : copy_in area1 (pos + 1) bs pos ≡ b =
      copy_in-before area1 (pos + 1) bs pos (omega arith) ∙ ground arith in
    rw (at, copy_out-copy_in area1 (pos + 1) bs) refl

copy_out-cong :
    (f g : ℕ → ℕ) (pos n : ℕ)
    → ((j : ℕ) → pos ≤ j → j < pos + n → f j ≡ g j)
    → copy_out f pos n ≡ copy_out g pos n
unfolding copy_out
copy_out-cong f g pos zero h = refl
copy_out-cong f g pos (suc n) h =
    rw
      (
        h pos (omega arith) (omega arith),
        copy_out-cong f g (pos + 1) n (λ j a b. h j (omega arith) (omega arith)),
      )
      refl

take-drop : (n : ℕ) (xs : List ℕ) → take n xs ++ drop n xs ≡ xs
unfolding take drop
take-drop zero xs = refl
take-drop (suc n) [] = refl
take-drop (suc n) (x ∷ xs) = ap (λ (ys : List ℕ). x ∷ ys) (take-drop n xs)

length-take : (n : ℕ) (xs : List ℕ) → n ≤ length xs → length (take n xs) ≡ n
unfolding take
length-take zero xs h = refl
length-take (suc n) [] h = absurd (omega arith)
length-take (suc n) (x ∷ xs) h = omega (arith, length-take n xs)

length-drop : (n : ℕ) (xs : List ℕ) → length (drop n xs) ≡ length xs - n
unfolding drop
length-drop zero xs = omega arith
length-drop (suc n) [] = omega arith
length-drop (suc n) (x ∷ xs) = omega (arith, length-drop n xs)

-- The area after a copy in two pieces.
abbrev split_area : ℕ → (ℕ → ℕ) → ℕ → List ℕ → ℕ → ℕ
split_area mbfsz area pos msg =
    copy_in (copy_in area pos (take (mbfsz - pos) msg)) 0 (drop (mbfsz - pos) msg)

split-out :
    (mbfsz : ℕ) (area : ℕ → ℕ) (pos : ℕ) (msg : List ℕ)
    → pos ≤ mbfsz
    → mbfsz - pos < length msg
    → length msg ≤ mbfsz
    → copy_out (split_area mbfsz area pos msg) pos (mbfsz - pos)
        ++ copy_out (split_area mbfsz area pos msg) 0 (length msg - (mbfsz - pos))
      ≡ msg
split-out mbfsz area pos msg p r l =
    let n = mbfsz - pos in
    let first = copy_in area pos (take n msg) in
    let t = length-take n msg (omega arith) in
    let d = length-drop n msg in
    let front : copy_out (split_area mbfsz area pos msg) pos n ≡ take n msg =
      copy_out-cong (split_area mbfsz area pos msg) first pos n
        (λ j a b. copy_in-after first 0 (drop n msg) j (omega arith))
      ∙ ap (λ (c : ℕ). copy_out first pos c) (sym t)
      ∙ copy_out-copy_in area pos (take n msg) in
    let back : copy_out (split_area mbfsz area pos msg) 0 (length msg - n) ≡ drop n msg =
      ap (λ (c : ℕ). copy_out (split_area mbfsz area pos msg) 0 c) (sym d)
      ∙ copy_out-copy_in first 0 (drop n msg) in
    rw (front, back) (take-drop n msg)

-- Where a message fits in the ring, the bytes that go in come out, and the head moves to where the
-- tail has moved.
pub get_bytes-put_bytes :
    (mbfsz : ℕ) (area : ℕ → ℕ) (pos : ℕ) (msg : List ℕ)
    → pos ≤ mbfsz
    → length msg ≤ mbfsz
    → get_bytes mbfsz (put_bytes mbfsz area pos msg).0 pos (length msg)
      ≡ (msg, (put_bytes mbfsz area pos msg).1)
unfolding get_bytes put_bytes
get_bytes-put_bytes mbfsz area pos msg p l = elim (Bool-cases (ltb (mbfsz - pos) (length msg))) [
  | inl two ↦ rw two (rw (split-out mbfsz area pos msg p (ground arith) l) refl)
  | inr one ↦ rw one (rw (copy_out-copy_in area pos msg) refl)
]

-- A byte before the place of the message keeps its value, unless the second piece reaches it.
pub put_bytes-before :
    (mbfsz : ℕ) (area : ℕ → ℕ) (pos : ℕ) (msg : List ℕ) (j : ℕ)
    → j < pos
    → length msg ≤ mbfsz - pos + j
    → (put_bytes mbfsz area pos msg).0 j ≡ area j
unfolding put_bytes
put_bytes-before mbfsz area pos msg j b s =
    let n = mbfsz - pos in
    elim (Bool-cases (ltb n (length msg))) [
      | inl two ↦ rw two (
          copy_in-after (copy_in area pos (take n msg)) 0 (drop n msg) j
            (omega (arith, length-drop n msg))
          ∙ copy_in-before area pos (take n msg) j b)
      | inr one ↦ rw one (copy_in-before area pos msg j b)
    ]

-- So does a byte behind a message in one piece.
pub put_bytes-after :
    (mbfsz : ℕ) (area : ℕ → ℕ) (pos : ℕ) (msg : List ℕ) (j : ℕ)
    → pos + length msg ≤ j
    → length msg ≤ mbfsz - pos
    → (put_bytes mbfsz area pos msg).0 j ≡ area j
unfolding put_bytes
put_bytes-after mbfsz area pos msg j b s =
    let one : ltb (mbfsz - pos) (length msg) ≡ false = ground arith in
    rw one (copy_in-after area pos msg j b)

-- The word of a size, read back.
pub word_at-copy_in :
    (area : ℕ → ℕ) (pos n : ℕ) → n < 2 ^ 32 → word_at (copy_in area pos (word_bytes n)) pos ≡ n
unfolding copy_in
word_at-copy_in area pos n h = ground arith
