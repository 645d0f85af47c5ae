-- ===== src/Transfer/Buckets.antt =====
-- The buckets of a large buffer, and what the receiver makes of them.
use distributed_storage_syst.Prelude.{
  ℕ, zero, suc, ◌+◌, ◌-◌, ◌*◌, ◌/◌, ◌%◌, ◌^◌, ◌<◌, ◌≤◌, ◌≡◌, ◌≢◌, refl, ◌∙◌, ap, sym, true, false,
  List, [], ◌∷◌, ◌++◌, Option, some, arith, length, take, drop, take-append-drop, length-take,
  length-drop, length-append, slice, read_block_in_range, write_block-append, ltb, lt→ltb, ge→ltb,
  take-length, take-slice, drop-slice, ap₂, drop-drop, drop_all,
}
use native.Mathlib.Numerals.{add-one}
use mathlib.Core.List.{append_assoc, append-nil}
use distributed_storage_syst.Transfer.{
  bucket_size, send_buckets, send_large_buffer_to, done, blocked, wait_buckets,
  wait_large_buffer_from, packets,
}

-- `k` full buckets, and one with what is left.
abbrev pub chunks : ℕ → List ℕ → List (List ℕ)
chunks zero bytes = bytes ∷ []
chunks (suc k) bytes = take bucket_size bytes ∷ chunks k (drop bucket_size bytes)

-- From round `i` on, with `r` full buckets to come.
send_buckets-chunks :
    (r i curptr size : ℕ) (buffer : List ℕ)
    → i + r ≡ size / bucket_size
    → curptr ≡ i * bucket_size
    → size ≤ length buffer
    → size + bucket_size < 2 ^ 31
    → send_buckets (suc r) i curptr size buffer
      ≡ some (chunks r (slice curptr (size - curptr) buffer))
unfolding send_buckets
send_buckets-chunks zero i curptr size buffer e at h fits =
    let last : ltb size (i * bucket_size + bucket_size) ≡ true = lt→ltb _ _ (omega arith) in
    let fit : ltb (i * bucket_size + bucket_size) (2 ^ 31) ≡ true = lt→ltb _ _ (omega arith) in
    rw (last, fit)
      (let same : size - i * bucket_size ≡ size - curptr = omega arith in
        rw (same, read_block_in_range curptr (size - curptr) buffer (omega arith)) refl)
send_buckets-chunks (suc r) i curptr size buffer e at h fits =
    let more : ltb size (i * bucket_size + bucket_size) ≡ false = ge→ltb _ _ (omega arith) in
    let fit : ltb (i * bucket_size + bucket_size) (2 ^ 31) ≡ true = lt→ltb _ _ (omega arith) in
    let full : i * bucket_size + bucket_size - i * bucket_size ≡ bucket_size = omega arith in
    let left : size - curptr ≡ bucket_size + (size - (curptr + bucket_size)) = omega arith in
    rw (more, fit)
      (rw
        (
          full,
          read_block_in_range curptr bucket_size buffer (omega arith),
          send_buckets-chunks r (i + 1) (curptr + bucket_size) size buffer (omega arith)
              (omega arith) h fits,
        )
        (ap some (
          ap₂ ◌∷◌ (sym (take-slice (size - curptr) bucket_size curptr buffer (omega arith))) (
            ap (chunks r) (
              sym (
                ap (λ n. drop bucket_size (slice curptr n buffer)) left
                ∙ drop-slice (size - (curptr + bucket_size)) bucket_size curptr buffer))))))

-- server_send_large_buffer_to cuts the first buffer_size bytes of a buffer that has as many, fewer
-- than 2^31 - 4096, into full buckets and one that is shorter, empty where the size is a multiple
-- of the bucket size; it reads nothing behind them.
pub send_large_buffer_to-chunks :
    (size : ℕ) (buffer : List ℕ)
    → size ≤ length buffer
    → size + bucket_size < 2 ^ 31
    → send_large_buffer_to size buffer ≡ some (chunks (size / bucket_size) (take size buffer))
unfolding send_large_buffer_to
send_large_buffer_to-chunks size buffer h fits =
    let all : size - 0 ≡ size = omega arith in
    rw (add-one (size / bucket_size)) (
      send_buckets-chunks (size / bucket_size) 0 0 size buffer (omega arith) (omega arith) h fits
      ∙ ap (λ n. some (chunks (size / bucket_size) (take n buffer))) all)

packets-cons :
    (b : List ℕ) (bs : List (List ℕ)) → 0 < length b → packets (b ∷ bs) ≡ some b ∷ packets bs
packets-cons [] bs h = elim h [ ]
packets-cons (c ∷ cs) bs h = refl

packets-end : (b : List ℕ) → length b ≡ 0 → packets (b ∷ []) ≡ []
packets-end [] h = refl
packets-end (c ∷ cs) h = absurd (omega arith)

-- One packet into the buffer, behind the part `pre` that is filled.
wait_buckets-packet :
    (rounds : ℕ) (b pre hole : List ℕ) (rest : List (Option (List ℕ)))
    → length b ≤ length hole
    → wait_buckets (suc rounds) (some b ∷ rest) (length pre) (pre ++ hole)
      ≡ wait_buckets rounds rest (length (pre ++ b)) ((pre ++ b) ++ drop (length b) hole)
unfolding wait_buckets
wait_buckets-packet rounds b pre hole rest h =
    rw (write_block-append pre b hole h, wait_buckets)
      (rw (append_assoc pre b (drop (length b) hole), length-append pre b) refl)

-- A full bucket at the front.
wait_buckets-full :
    (rounds k : ℕ) (bytes pre hole : List ℕ)
    → bucket_size ≤ length bytes
    → bucket_size ≤ length hole
    → wait_buckets (suc rounds) (packets (chunks (suc k) bytes)) (length pre) (pre ++ hole)
      ≡ wait_buckets rounds
          (packets (chunks k (drop bucket_size bytes)))
          (length (pre ++ take bucket_size bytes))
          ((pre ++ take bucket_size bytes) ++ drop bucket_size hole)
wait_buckets-full rounds k bytes pre hole h room =
    let size : length (take bucket_size bytes) ≡ bucket_size =
      omega (arith, length-take bucket_size bytes) in
    rw (packets-cons (take bucket_size bytes) (chunks k (drop bucket_size bytes)) (omega arith)) (
      wait_buckets-packet rounds (take bucket_size bytes) pre hole
        (packets (chunks k (drop bucket_size bytes))) (omega arith)
      ∙ ap
          (λ n.
            wait_buckets rounds (packets (chunks k (drop bucket_size bytes)))
              (length (pre ++ take bucket_size bytes))
              ((pre ++ take bucket_size bytes) ++ drop n hole))
          size)

wait_buckets-end :
    (populated : ℕ) (buffer : List ℕ) → wait_buckets 0 [] populated buffer ≡ done buffer
unfolding wait_buckets
wait_buckets-end populated buffer = refl

wait_buckets-done :
    (k r : ℕ) (bytes pre hole : List ℕ)
    → length bytes ≡ k * bucket_size + r
    → 0 < r
    → length bytes ≤ length hole
    → wait_buckets (suc k) (packets (chunks k bytes)) (length pre) (pre ++ hole)
      ≡ done (pre ++ (bytes ++ drop (length bytes) hole))
wait_buckets-done zero r bytes pre hole e pos room = rw (packets-cons bytes [] (omega arith)) (
    wait_buckets-packet 0 bytes pre hole [] room
    ∙ wait_buckets-end (length (pre ++ bytes)) ((pre ++ bytes) ++ drop (length bytes) hole)
    ∙ ap done (append_assoc pre bytes (drop (length bytes) hole)))
wait_buckets-done (suc k) r bytes pre hole e pos room =
    let rest : List ℕ = drop bucket_size bytes in
    let n : length rest ≡ length bytes - bucket_size = length-drop bucket_size bytes in
    let total : bucket_size + length rest ≡ length bytes = omega arith in
    wait_buckets-full (suc k) k bytes pre hole (omega arith) (omega arith)
    ∙ wait_buckets-done k r rest (pre ++ take bucket_size bytes) (drop bucket_size hole)
        (omega arith) pos (omega (arith, length-drop bucket_size hole))
    ∙ ap done (
        append_assoc pre (take bucket_size bytes)
          (rest ++ drop (length rest) (drop bucket_size hole))
        ∙ ap (λ x. pre ++ x)
            (sym (
                append_assoc (take bucket_size bytes) rest
                  (drop (length rest) (drop bucket_size hole)))
              ∙ ap₂ ◌++◌ (take-append-drop bucket_size bytes)
                  (drop-drop (length rest) bucket_size hole ∙ ap (λ j. drop j hole) total)))

wait_buckets-blocked :
    (k : ℕ) (bytes pre hole : List ℕ)
    → length bytes ≡ k * bucket_size
    → length bytes ≤ length hole
    → wait_buckets (suc k) (packets (chunks k bytes)) (length pre) (pre ++ hole) ≡ blocked
unfolding wait_buckets
wait_buckets-blocked zero bytes pre hole e room = rw (packets-end bytes (omega arith)) refl
wait_buckets-blocked (suc k) bytes pre hole e room =
    let n : length (drop bucket_size bytes) ≡ length bytes - bucket_size =
      length-drop bucket_size bytes in
    wait_buckets-full (suc k) k bytes pre hole (omega arith) (omega arith)
    ∙ wait_buckets-blocked k (drop bucket_size bytes) (pre ++ take bucket_size bytes)
        (drop bucket_size hole) (omega arith) (omega (arith, length-drop bucket_size hole))

-- A buffer of less than 2^31 - 4096 bytes whose length is no multiple of 4096 is sent without a
-- fault, and arrives whole in a buffer of its length that held anything, where the network keeps
-- the packets apart.
pub large_buffer_arrives :
    (bytes memory : List ℕ)
    → length memory ≡ length bytes
    → length bytes + bucket_size < 2 ^ 31
    → length bytes % bucket_size ≢ 0
    → (bs : List (List ℕ)) × (send_large_buffer_to (length bytes) bytes ≡ some bs)
      × (wait_large_buffer_from (packets bs) (length bytes) memory ≡ done bytes)
unfolding wait_large_buffer_from
large_buffer_arrives bytes memory same fits partial =
    let k : ℕ = length bytes / bucket_size in
    (
      chunks k (take (length bytes) bytes),
      send_large_buffer_to-chunks (length bytes) bytes (omega arith) fits,
      rw (take-length bytes, add-one k)
          (wait_buckets-done k (length bytes % bucket_size) bytes [] memory (omega arith)
              (omega arith) (omega arith)
            ∙ ap done (
                ap (λ r. bytes ++ r) (drop_all memory (length bytes) (omega arith))
                ∙ append-nil bytes)),
    )

-- A buffer of less than 2^31 - 4096 bytes whose length is a multiple of 4096 is sent without a
-- fault, but its receiver waits for one packet more after all bytes have come.
pub large_buffer_blocks :
    (bytes memory : List ℕ)
    → length memory ≡ length bytes
    → length bytes + bucket_size < 2 ^ 31
    → length bytes % bucket_size ≡ 0
    → (bs : List (List ℕ)) × (send_large_buffer_to (length bytes) bytes ≡ some bs)
      × (wait_large_buffer_from (packets bs) (length bytes) memory ≡ blocked)
unfolding wait_large_buffer_from
large_buffer_blocks bytes memory same fits whole =
    let k : ℕ = length bytes / bucket_size in
    (
      chunks k (take (length bytes) bytes),
      send_large_buffer_to-chunks (length bytes) bytes (omega arith) fits,
      rw (take-length bytes, add-one k)
          (wait_buckets-blocked k bytes [] memory (omega arith) (omega arith)),
    )
