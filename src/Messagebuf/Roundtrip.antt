-- ===== src/Messagebuf/Roundtrip.antt =====
-- A message that kernel/messagebuf.c stores comes out again.
use toppers_hrp3_gr_rose.Common.{
  ℕ, ◌+◌, ◌-◌, ◌^◌, ◌≤◌, ◌<◌, ◌≡◌, refl, sym, subst, ◌∙◌, inl, inr, List, arith, leb, length,
  update_self, ==_refl, Bool-cases,
}
use toppers_hrp3_gr_rose.Kernel.{Kernel}
use toppers_hrp3_gr_rose.Messagebuf.{
  mbfinib_of, copy_in, put_bytes, get_bytes, word_bytes, word_at, wrap, alloc_sz, store_message,
  dequeue_message,
}
use toppers_hrp3_gr_rose.Messagebuf.Copy.{
  get_bytes-put_bytes, put_bytes-before, put_bytes-after, word_at-copy_in,
}

-- The word with the size stays as it is when the message is copied in.
module _ (mbfsz : ℕ) (area : ℕ → ℕ) (t : ℕ) (msg : List ℕ) (room : t + 4 ≤ mbfsz)
    (fits : length msg + 4 ≤ mbfsz) where
  abbrev stored : ℕ → ℕ
  stored = (put_bytes mbfsz area (wrap mbfsz (t + 4)) msg).0

  word_kept : (j : ℕ) → t ≤ j → j < t + 4 → stored j ≡ area j
  word_kept j a b = elim (Bool-cases (leb mbfsz (t + 4))) [
    | inl at_end ↦
        let at : wrap mbfsz (t + 4) ≡ 0 = ground arith in
        subst (λ (p : ℕ). (put_bytes mbfsz area p msg).0 j ≡ area j) (sym at)
          (put_bytes-after mbfsz area 0 msg j (ground arith) (omega arith))
    | inr inside ↦
        let at : wrap mbfsz (t + 4) ≡ t + 4 = ground arith in
        subst (λ (p : ℕ). (put_bytes mbfsz area p msg).0 j ≡ area j) (sym at)
          (put_bytes-before mbfsz area (t + 4) msg j (omega arith) (ground arith))
  ]

  word_at-stored : word_at stored t ≡ word_at area t
  word_at-stored =
      rw
        (
          word_kept t (omega arith) (omega arith),
          word_kept (t + 1) (omega arith) (omega arith),
          word_kept (t + 2) (omega arith) (omega arith),
          word_kept (t + 3) (omega arith) (omega arith),
        )
        refl

-- What dequeue_message does, by what it reads.
dequeue_at :
    (i n tail : ℕ) (area : ℕ → ℕ) (msg : List ℕ) (k : Kernel)
    → k.mbf.mbuffer i ≡ area
    → word_at area (k.mbf.head i) ≡ n
    → get_bytes (mbfinib_of i k).mbfsz area (wrap (mbfinib_of i k).mbfsz (k.mbf.head i + 4)) n
      ≡ (msg, tail)
    → ((dequeue_message i k).0 ≡ msg)
      × (((dequeue_message i k).1.mbf.head i ≡ tail)
          × (((dequeue_message i k).1.mbf.fmbfsz i ≡ k.mbf.fmbfsz i + alloc_sz n)
              × ((dequeue_message i k).1.mbf.smbfcnt i ≡ k.mbf.smbfcnt i - 1)))
unfolding dequeue_message
dequeue_at i n tail area msg k a w g = rw (a, w, g, ==_refl i) (refl, (refl, (refl, refl)))

-- From a message buffer that is empty, so that its head is its tail, dequeue_message takes the
-- message that store_message has put there, byte for byte; the head is the tail again, the free
-- size and the number of messages are as before. The message and the word with its size fit in the
-- area and in the free size, the word that starts at the tail lies in the area, and sizes have 32
-- bits.
pub dequeue_message-store_message :
    (i : ℕ) (msg : List ℕ) (k : Kernel)
    → k.mbf.head i ≡ k.mbf.tail i
    → k.mbf.tail i + 4 ≤ (mbfinib_of i k).mbfsz
    → length msg + 4 ≤ (mbfinib_of i k).mbfsz
    → (mbfinib_of i k).mbfsz < 2 ^ 32
    → alloc_sz (length msg) ≤ k.mbf.fmbfsz i
    → ((dequeue_message i (store_message i msg k)).0 ≡ msg)
      × (((dequeue_message i (store_message i msg k)).1.mbf.head i
            ≡ (store_message i msg k).mbf.tail i)
          × (((dequeue_message i (store_message i msg k)).1.mbf.fmbfsz i ≡ k.mbf.fmbfsz i)
              × ((dequeue_message i (store_message i msg k)).1.mbf.smbfcnt i ≡ k.mbf.smbfcnt i)))
unfolding store_message
dequeue_message-store_message i msg k empty room fits bound free =
    let mbfsz = (mbfinib_of i k).mbfsz in
    let t = k.mbf.tail i in
    let n = length msg in
    let area = copy_in (k.mbf.mbuffer i) t (word_bytes n) in
    let put = put_bytes mbfsz area (wrap mbfsz (t + 4)) msg in
    let k1 = store_message i msg k in
    let word : word_at put.0 t ≡ n =
      word_at-stored mbfsz area t msg room fits
      ∙ word_at-copy_in (k.mbf.mbuffer i) t n (omega arith) in
    let r = dequeue_at i n put.1 put.0 msg k1 (update_self k.mbf.mbuffer i put.0) (rw empty word) (
      rw empty
        (get_bytes-put_bytes mbfsz area (wrap mbfsz (t + 4)) msg (ground arith) (omega arith))) in
    let size : k1.mbf.fmbfsz i ≡ k.mbf.fmbfsz i - alloc_sz n =
      update_self k.mbf.fmbfsz i (k.mbf.fmbfsz i - alloc_sz n) in
    let number : k1.mbf.smbfcnt i ≡ k.mbf.smbfcnt i + 1 =
      update_self k.mbf.smbfcnt i (k.mbf.smbfcnt i + 1) in
    (
      r.0,
      (
        r.1.0 ∙ sym (update_self k.mbf.tail i put.1),
        (ground (arith, r.1.1.0, size, free), ground (arith, r.1.1.1, number)),
      ),
    )
