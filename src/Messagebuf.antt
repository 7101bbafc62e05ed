-- ===== src/Messagebuf.antt =====
-- kernel/messagebuf.c: messages of any length in a ring of bytes, each behind a word with its
-- size. The service calls are in Messagebuf/Calls.
pub mod Calls
pub mod Copy
pub mod Roundtrip
use toppers_hrp3_gr_rose.Common.{
  ℕ, zero, suc, ◌+◌, ◌-◌, ◌*◌, ◌/◌, ◌%◌, ◌^◌, Bool, true, false, none, some, List, [], ◌∷◌, ◌++◌,
  ltb, leb, if◌then◌else◌, update, length,
}
use toppers_hrp3_gr_rose.Kernel.{
  Kernel, Mbfinib, value, mbf_swait_queue, mbf_rwait_queue, head?, queue_delete, queue_delete_next,
  queue_empty,
}
use toppers_hrp3_gr_rose.Wait.{make_non_wait, wait_dequeue_tmevtb, wait_complete, set_wercd}

-- INDEX_MBF.
abbrev pub index_mbf : ℕ → ℕ
index_mbf mbfid = mbfid - 1

abbrev pub mbfinib_of : ℕ → Kernel → Mbfinib
mbfinib_of i k = k.cfg.mbfinib i

-- The management area of a buffer that is empty.
abbrev pub reset_messagebuf : ℕ → Kernel → Kernel
reset_messagebuf i k = record k {
  mbf = record (k.mbf) {
    fmbfsz = update k.mbf.fmbfsz i (mbfinib_of i k).mbfsz;
    head = update k.mbf.head i 0;
    tail = update k.mbf.tail i 0;
    smbfcnt = update k.mbf.smbfcnt i 0;
  };
}

-- The loop of initialize_messagebuf, over the buffers below `n`.
unfoldable initialize_messagebuf : ℕ → Kernel → Kernel
initialize_messagebuf zero k = k
initialize_messagebuf (suc i) k = initialize_messagebuf i (
    reset_messagebuf i
      (record k { queue = update (update k.queue (mbf_swait_queue i) []) (mbf_rwait_queue i) [] }))

-- TOPPERS_ROUND_SZ with sizeof(uint_t), at 32 bits: the lowest two bits are cleared.
unfoldable pub round_sz : ℕ → ℕ
round_sz sz = (sz + 3) % 2 ^ 32 / 4 * 4

abbrev pub sizeof_uint_t : ℕ
sizeof_uint_t = 4

-- The size that a message takes in the management area.
abbrev pub alloc_sz : ℕ → ℕ
alloc_sz msgsz = (sizeof_uint_t + round_sz msgsz) % 2 ^ 32

-- `if (n >= mbfsz) n = 0;`
abbrev pub wrap : ℕ → ℕ → ℕ
wrap mbfsz n = if leb mbfsz n then 0 else n

-- memcpy to and from the area.
unfoldable pub copy_in : (ℕ → ℕ) → ℕ → List ℕ → ℕ → ℕ
copy_in area pos [] = area
copy_in area pos (b ∷ bs) = copy_in (update area pos b) (pos + 1) bs

unfoldable pub copy_out : (ℕ → ℕ) → ℕ → ℕ → List ℕ
copy_out area pos zero = []
copy_out area pos (suc n) = area pos ∷ copy_out area (pos + 1) n

unfoldable pub take : ℕ → List ℕ → List ℕ
take zero xs = []
take (suc n) [] = []
take (suc n) (x ∷ xs) = x ∷ take n xs

unfoldable pub drop : ℕ → List ℕ → List ℕ
drop zero xs = xs
drop (suc n) [] = []
drop (suc n) (x ∷ xs) = drop n xs

-- The bytes of a word of 32 bits, the lowest first, and the word of four bytes.
abbrev pub word_bytes : ℕ → List ℕ
word_bytes n = n % 256 ∷ n / 256 % 256 ∷ n / 65536 % 256 ∷ n / 16777216 % 256 ∷ []

abbrev pub word_at : (ℕ → ℕ) → ℕ → ℕ
word_at area pos =
    area pos + area (pos + 1) * 256 + area (pos + 2) * 65536 + area (pos + 3) * 16777216

-- The copy of a message into the area from `pos` on, in one piece or in two: the area, and the
-- tail after it.
unfoldable pub put_bytes : ℕ → (ℕ → ℕ) → ℕ → List ℕ → (ℕ → ℕ) × ℕ
unfolding copy_in take drop round_sz
put_bytes mbfsz area pos msg =
    let remsz = mbfsz - pos in
    let msgsz = length msg in
    if ltb remsz msgsz
    then (
      copy_in (copy_in area pos (take remsz msg)) 0 (drop remsz msg),
      wrap mbfsz (0 + round_sz (msgsz - remsz)),
    )
    else (copy_in area pos msg, wrap mbfsz (pos + round_sz msgsz))

unfoldable pub store_message : ℕ → List ℕ → Kernel → Kernel
unfolding put_bytes
store_message i msg k =
    let mbfsz = (mbfinib_of i k).mbfsz in
    let area = copy_in (k.mbf.mbuffer i) (k.mbf.tail i) (word_bytes (length msg)) in
    let (area1, tail1) = put_bytes mbfsz area (wrap mbfsz (k.mbf.tail i + sizeof_uint_t)) msg in
    record k {
      mbf = record (k.mbf) {
        mbuffer = update k.mbf.mbuffer i area1;
        tail = update k.mbf.tail i tail1;
        fmbfsz = update k.mbf.fmbfsz i (k.mbf.fmbfsz i - alloc_sz (length msg));
        smbfcnt = update k.mbf.smbfcnt i (k.mbf.smbfcnt i + 1);
      };
    }

unfoldable pub enqueue_message : ℕ → List ℕ → Kernel → Bool × Kernel
unfolding store_message
enqueue_message i msg k =
    if leb (alloc_sz (length msg)) (k.mbf.fmbfsz i)
    then (true, store_message i msg k)
    else (false, k)

-- The copy of `msgsz` bytes out of the area from `pos` on, in one piece or in two: the message,
-- and the head after it.
unfoldable pub get_bytes : ℕ → (ℕ → ℕ) → ℕ → ℕ → List ℕ × ℕ
unfolding copy_out round_sz
get_bytes mbfsz area pos msgsz =
    let remsz = mbfsz - pos in
    if ltb remsz msgsz
    then (
      copy_out area pos remsz ++ copy_out area 0 (msgsz - remsz),
      wrap mbfsz (0 + round_sz (msgsz - remsz)),
    )
    else (copy_out area pos msgsz, wrap mbfsz (pos + round_sz msgsz))

-- The message that goes to `msg`, and the buffer without it.
unfoldable pub dequeue_message : ℕ → Kernel → List ℕ × Kernel
unfolding get_bytes
dequeue_message i k =
    let mbfsz = (mbfinib_of i k).mbfsz in
    let area = k.mbf.mbuffer i in
    let msgsz = word_at area (k.mbf.head i) in
    let (msg, head1) = get_bytes mbfsz area (wrap mbfsz (k.mbf.head i + sizeof_uint_t)) msgsz in
    (
      msg,
      record k {
        mbf = record (k.mbf) {
          head = update k.mbf.head i head1;
          fmbfsz = update k.mbf.fmbfsz i (k.mbf.fmbfsz i + alloc_sz msgsz);
          smbfcnt = update k.mbf.smbfcnt i (k.mbf.smbfcnt i - 1);
        };
      },
    )

-- The first task that waits to receive takes the message.
unfoldable pub hand_over_message : ℕ → ℕ → List ℕ → Kernel → Kernel
hand_over_message i t msg k =
    let k1 = queue_delete_next (mbf_rwait_queue i) k in
    let k2 = wait_dequeue_tmevtb t (record k1 { wmsg = update k1.wmsg t msg }) in
    make_non_wait t (set_wercd t (value (length msg)) k2)

unfoldable pub send_message : ℕ → List ℕ → Kernel → Bool × Kernel
unfolding enqueue_message hand_over_message
send_message i msg k = elim (head? (k.queue (mbf_rwait_queue i))) [
  | some t ↦ (true, hand_over_message i t msg k)
  | none ↦ if queue_empty (mbf_swait_queue i) k then enqueue_message i msg k else (false, k)
]

-- The loop of messagebuf_signal, with fuel.
unfoldable pub signal_loop : ℕ → ℕ → Kernel → Kernel
unfolding enqueue_message
signal_loop zero i k = k
signal_loop (suc fuel) i k = elim (head? (k.queue (mbf_swait_queue i))) [
  | none ↦ k
  | some t ↦ elim (leb (alloc_sz (length (k.wmsg t))) (k.mbf.fmbfsz i)) [
    | true ↦ signal_loop fuel i (wait_complete t (queue_delete t (store_message i (k.wmsg t) k)))
    | false ↦ k
  ]
]

-- Each round takes one entry, so the length of the queue is fuel enough.
unfoldable pub messagebuf_signal : ℕ → Kernel → Kernel
unfolding signal_loop
messagebuf_signal i k = signal_loop (length (k.queue (mbf_swait_queue i))) i k

-- The message that goes to `msg`; the empty one stands for the result 0, where there is none.
unfoldable pub receive_message : ℕ → Kernel → List ℕ × Kernel
unfolding dequeue_message messagebuf_signal
receive_message i k =
    if ltb 0 (k.mbf.smbfcnt i)
    then (let (msg, k1) = dequeue_message i k in (msg, messagebuf_signal i k1))
    else elim (head? (k.queue (mbf_swait_queue i))) [
      | some t ↦ let k1 = queue_delete_next (mbf_swait_queue i) k in (k1.wmsg t, wait_complete t k1)
      | none ↦ ([], k)
    ]

-- The index of the buffer that a task waits for, from the address of its queue.
abbrev pub p_mbfcb : ℕ → Kernel → ℕ
p_mbfcb t k = (k.p_wobjcb t - 9) / 16

unfoldable pub messagebuf_dequeue_wobj : ℕ → Kernel → Kernel
unfolding messagebuf_signal
messagebuf_dequeue_wobj t k = messagebuf_signal (p_mbfcb t k) k
