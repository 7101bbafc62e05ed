-- ===== src/Pridataq/Sorted.antt =====
-- The place that enqueue_pridata of kernel/pridataq.c finds for a block.
use toppers_hrp3_gr_rose.Common.{
  ℕ, zero, suc, ◌≤◌, ◌≡◌, refl, ◌∙◌, inl, inr, Bool, true, false, Option, none, some, List, [], ◌∷◌,
  arith, ltb, ==_refl, ==_ne, has, Chain, Chain-cong, distinct, length, same_ptr, if◌then◌else◌,
  Bool-cases,
}
use toppers_hrp3_gr_rose.Kernel.{Kernel}
use toppers_hrp3_gr_rose.Wait.{insert_tpri}
use toppers_hrp3_gr_rose.Pridataq.{pointed, set_pointed, find_place, link_pdqmb}

-- A pointer to a block of the list.
abbrev pub ptr_in : Option ℕ → List ℕ → Bool
ptr_in none xs = false
ptr_in (some y) xs = has y xs

same_ptr_refl : (p : Option ℕ) → same_ptr p p ≡ true
same_ptr_refl none = refl
same_ptr_refl (some x) = ==_refl x

same_ptr_comm : (p : Option ℕ) (m : ℕ) → same_ptr p (some m) ≡ same_ptr (some m) p
same_ptr_comm none m = refl
same_ptr_comm (some x) m = ground arith

off :
    (p : Option ℕ) (x : ℕ) (xs : List ℕ)
    → ptr_in p (x ∷ xs) ≡ false
    → (same_ptr (some x) p ≡ false) × (ptr_in p xs ≡ false)
off none x xs e = (refl, refl)
off (some y) x xs e = (ground arith, ground arith)

-- A pointer out of a list differs from those to its blocks.
pub differs :
    (p : Option ℕ) (y : ℕ) (xs : List ℕ)
    → ptr_in p xs ≡ false
    → has y xs ≡ true
    → same_ptr p (some y) ≡ false
differs none y xs o h = refl
differs (some x) y xs o h = ==_ne x y (λ (e : x ≡ y). ground arith)

pointed-link_pdqmb :
    (i m : ℕ) (prev o : Option ℕ) (k : Kernel)
    → pointed i o (link_pdqmb i m prev k) ≡ (
        if same_ptr prev o
        then some m
        else if same_ptr (some m) o
        then pointed i prev k
        else pointed i o k)
unfolding link_pdqmb set_pointed pointed
pointed-link_pdqmb i m none none k = ground arith
pointed-link_pdqmb i m none (some y) k = ground arith
pointed-link_pdqmb i m (some x) none k = ground arith
pointed-link_pdqmb i m (some x) (some y) k = ground arith

-- The pointers after a block has been linked into the list that starts at `prev`.
pub record Placed (i m : ℕ) (prev : Option ℕ) (xs : List ℕ) (k k' : Kernel) : Type 0 where
  pub chain : Chain (k'.pdq.p_next i) (pointed i prev k') (insert_tpri (k.pdq.datapri i) m xs)
  pub others :
      (o : Option ℕ)
      → same_ptr (some m) o ≡ false
      → same_ptr prev o ≡ false
      → ptr_in o xs ≡ false
      → pointed i o k' ≡ pointed i o k

module _ (i m : ℕ) where
  -- The block comes first.
  link-Placed :
      (prev : Option ℕ) (xs : List ℕ) (k : Kernel)
      → Chain (k.pdq.p_next i) (pointed i prev k) xs
      → has m xs ≡ false
      → ptr_in prev xs ≡ false
      → same_ptr (some m) prev ≡ false
      → insert_tpri (k.pdq.datapri i) m xs ≡ m ∷ xs
      → Placed i m prev xs k (link_pdqmb i m prev k)
  unfolding pointed
  link-Placed prev xs k c fresh out apart first =
      let k' = link_pdqmb i m prev k in
      let at = λ (o : Option ℕ). pointed-link_pdqmb i m prev o k in
      let next : pointed i (some m) k' ≡ pointed i prev k =
        at (some m) ∙ rw (same_ptr_comm prev m, apart, ==_refl m) refl in
      let rest =
        Chain-cong (k.pdq.p_next i) (k'.pdq.p_next i) (pointed i prev k) xs
          (λ y r. at (some y) ∙ rw (differs prev y xs out r, differs (some m) y xs fresh r) refl)
          c in
      record {
        chain = rw first (at prev ∙ rw (same_ptr_refl prev) refl, rw next rest);
        others = λ o a b d. at o ∙ rw (b, a) refl;
      }

  find_place-none :
      (fuel : ℕ) (prev : Option ℕ) (k : Kernel)
      → pointed i prev k ≡ none
      → find_place fuel i (k.pdq.datapri i m) prev k ≡ prev
  unfolding find_place
  find_place-none zero prev k e = refl
  find_place-none (suc fuel) prev k e = rw (e, find_place) refl

  find_place_stop :
      (fuel x : ℕ) (prev : Option ℕ) (k : Kernel)
      → pointed i prev k ≡ some x
      → ltb (k.pdq.datapri i m) (k.pdq.datapri i x) ≡ true
      → find_place (suc fuel) i (k.pdq.datapri i m) prev k ≡ prev
  unfolding find_place
  find_place_stop fuel x prev k e l = rw (e, find_place) (rw l refl)

  find_place_next :
      (fuel x : ℕ) (prev : Option ℕ) (k : Kernel)
      → pointed i prev k ≡ some x
      → ltb (k.pdq.datapri i m) (k.pdq.datapri i x) ≡ false
      → find_place (suc fuel) i (k.pdq.datapri i m) prev k
        ≡ find_place fuel i (k.pdq.datapri i m) (some x) k
  unfolding find_place
  find_place_next fuel x prev k e l = rw (e, find_place) (rw l refl)

  -- The place that the loop finds is the one of queue_insert_tpri.
  pub find_place-Placed :
      (xs : List ℕ) (fuel : ℕ) (prev : Option ℕ) (k : Kernel)
      → Chain (k.pdq.p_next i) (pointed i prev k) xs
      → length xs ≤ fuel
      → distinct xs ≡ true
      → has m xs ≡ false
      → ptr_in prev xs ≡ false
      → same_ptr (some m) prev ≡ false
      → Placed i m prev xs k (link_pdqmb i m (find_place fuel i (k.pdq.datapri i m) prev k) k)
  unfolding pointed insert_tpri
  find_place-Placed [] fuel prev k c l d fresh out apart =
      rw (find_place-none fuel prev k c) (link-Placed prev [] k c fresh out apart refl)
  find_place-Placed (x ∷ xs) zero prev k c l d fresh out apart = absurd (omega arith)
  find_place-Placed (x ∷ xs) (suc fuel) prev k c l d fresh out apart =
      elim (Bool-cases (ltb (k.pdq.datapri i m) (k.pdq.datapri i x))) [
        | inl before ↦
            rw (find_place_stop fuel x prev k c.0 before)
              (link-Placed prev (x ∷ xs) k c fresh out apart (rw before refl))
        | inr after ↦
            let r =
              find_place-Placed xs fuel (some x) k c.1 (omega arith) (ground arith) (ground arith)
                (ground arith) (differs (some m) x (x ∷ xs) fresh (ground arith)) in
            rw (find_place_next fuel x prev k c.0 after) (record {
              chain =
                  rw after (
                    r.others prev apart (off prev x xs out).0 (off prev x xs out).1 ∙ c.0,
                    r.chain,
                  );
              others = λ o a b e. r.others o a (off o x xs e).0 (off o x xs e).1;
            })
      ]
