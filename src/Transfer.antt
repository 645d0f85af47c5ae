-- ===== src/Transfer.antt =====
-- lib/tcplib.c `tcp_send`, and server.c's transfer of a large buffer in buckets.
pub mod Send
pub mod Buckets
use distributed_storage_syst.Text.Numbers.{ℤ, pos, negsuc}
use distributed_storage_syst.Prelude.{
  ◌%◌, ℕ, zero, suc, ◌+◌, ◌-◌, ◌*◌, ◌/◌, ◌^◌, List, [], ◌∷◌, ◌++◌, Option, none, some,
  if◌then◌else◌, ltb, ◌>>=◌, take, drop, read_block, write_block, min, length,
}

-- What one call of `send` does: it takes some bytes, at least one; it would block; it fails.
pub data SendResult : Type 0 where
  sends : ℕ → SendResult
  would_block : SendResult
  fails : SendResult

-- The `int` that a `size_t` is converted to: the remainder modulo 2 ^ 32, with its sign.
unfoldable pub as_int : ℕ → ℤ
as_int n = let k = n % 2 ^ 32 in if ltb k (2 ^ 31) then pos k else negsuc (2 ^ 32 - 1 - k)

-- What the socket has got, the `int` that is returned, and whether the loop has come to an end within the results that are given.
pub data SendState : Type 0 where
  returned : List ℕ → ℤ → SendState
  waiting : List ℕ → SendState

-- The `while` of `tcp_send`: `wire` is what has been sent, `total` its number, and `bytes` the rest.
-- `send` takes no more than it is given, and 1 at least where it takes any.
unfoldable pub send_loop : List SendResult → List ℕ → ℕ → List ℕ → SendState
unfolding as_int
send_loop results wire total [] = returned wire (as_int total)
send_loop [] wire total (b ∷ bytes) = waiting wire
send_loop (sends n ∷ results) wire total (b ∷ bytes) =
    let k = min n (length bytes) in
    send_loop results (wire ++ (b ∷ take k bytes)) (total + (k + 1)) (drop k bytes)
send_loop (would_block ∷ results) wire total (b ∷ bytes) = send_loop results wire total (b ∷ bytes)
send_loop (fails ∷ results) wire total (b ∷ bytes) = returned wire (as_int total)

unfoldable pub tcp_send : List SendResult → List ℕ → SendState
unfolding send_loop
tcp_send results bytes = send_loop results [] 0 bytes

-- SERVER_BUCKET_SIZE
abbrev pub bucket_size : ℕ
bucket_size = 4096

-- The loop of `server_send_large_buffer_to`, as the buckets that it hands to `tcp_send`. A sum that
-- an `int` does not hold and a read behind the buffer are faults.
unfoldable pub send_buckets : ℕ → ℕ → ℕ → ℕ → List ℕ → Option (List (List ℕ))
send_buckets zero i curptr buffer_size buffer = some []
send_buckets (suc rounds) i curptr buffer_size buffer =
    let st = i * bucket_size in
    let end = if ltb buffer_size (st + bucket_size) then buffer_size else st + bucket_size in
    let size = end - st in
    if ltb (st + bucket_size) (2 ^ 31)
    then (do
      bucket ← read_block curptr size buffer
      rest ← send_buckets rounds (i + 1) (curptr + size) buffer_size buffer
      some (bucket ∷ rest))
    else none

unfoldable pub send_large_buffer_to : ℕ → List ℕ → Option (List (List ℕ))
unfolding send_buckets
send_large_buffer_to buffer_size buffer =
    send_buckets (buffer_size / bucket_size + 1) 0 0 buffer_size buffer

-- The outcome of a loop that receives: it ends, it waits for a packet that does not come, or a
-- `memcpy` leaves its buffer.
pub data Wait {ℓ} (A : Type ℓ) : Type ℓ where
  done : A → Wait A
  blocked : Wait A
  fault : Wait A

-- The loop of `server_wait_large_buffer_from`. Each `recv` gives the bytes of one packet, or `none`
-- for an error, whose size -1 is then the length of a `memcpy`.
unfoldable pub wait_buckets : ℕ → List (Option (List ℕ)) → ℕ → List ℕ → Wait (List ℕ)
wait_buckets zero recvs populated buffer = done buffer
wait_buckets (suc rounds) [] populated buffer = blocked
wait_buckets (suc rounds) (none ∷ recvs) populated buffer = fault
wait_buckets (suc rounds) (some p ∷ recvs) populated buffer =
    elim (write_block populated p buffer) [
      | none ↦ fault
      | some buffer' ↦ wait_buckets rounds recvs (populated + length p) buffer'
    ]

unfoldable pub wait_large_buffer_from : List (Option (List ℕ)) → ℕ → List ℕ → Wait (List ℕ)
unfolding wait_buckets
wait_large_buffer_from recvs buffer_size buffer =
    wait_buckets (buffer_size / bucket_size + 1) recvs 0 buffer

-- The packets that the buckets become on the way, where the network keeps them apart: an empty
-- bucket sends no byte, so nothing arrives for it.
abbrev pub packets : List (List ℕ) → List (Option (List ℕ))
packets [] = []
packets ([] ∷ bs) = packets bs
packets ((c ∷ cs) ∷ bs) = some (c ∷ cs) ∷ packets bs
