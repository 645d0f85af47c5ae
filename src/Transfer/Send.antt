-- ===== src/Transfer/Send.antt =====
-- `tcp_send` sends a prefix of its bytes in order, and all of them unless `send` fails.
use distributed_storage_syst.Prelude.{
  ℕ, suc, ◌+◌, ◌%◌, ◌^◌, ◌<◌, lt→ltb, ◌≤◌, ◌≡◌, ◌≢◌, refl, ◌∙◌, ap, List, [], ◌∷◌, ◌++◌, arith, min,
  length, take, drop, take-append-drop, length-take, length-drop, length-append,
}
use mathlib.Core.List.{append_assoc, append-nil}
use distributed_storage_syst.Text.Numbers.{pos}
use distributed_storage_syst.Transfer.{
  as_int, SendResult, sends, would_block, fails, SendState, returned, waiting, send_loop, tcp_send,
}

-- The state after some results, when `bytes` are left of what follows `wire`: what went out and what
-- did not make up the bytes, and the count returned is that of the bytes that went out, as an `int`.
abbrev pub Prefix : List ℕ → SendState → Type 0
Prefix all (returned wire count) =
    (rest : List ℕ) × (wire ++ rest ≡ all) × (count ≡ as_int (length wire))
Prefix all (waiting wire) = (rest : List ℕ) × (wire ++ rest ≡ all) × (rest ≢ [])

send_loop-Prefix :
    (results : List SendResult) (wire : List ℕ) (total : ℕ) (bytes : List ℕ)
    → total ≡ length wire
    → Prefix (wire ++ bytes) (send_loop results wire total bytes)
unfolding send_loop
send_loop-Prefix [] wire total [] e = ([], refl, ap as_int e)
send_loop-Prefix (r ∷ results) wire total [] e = ([], refl, ap as_int e)
send_loop-Prefix [] wire total (b ∷ bytes) e = (b ∷ bytes, refl, λ h. cc)
send_loop-Prefix (sends n ∷ results) wire total (b ∷ bytes) e =
    let k : ℕ = min n (length bytes) in
    let all : (wire ++ (b ∷ take k bytes)) ++ drop k bytes ≡ wire ++ (b ∷ bytes) =
      append_assoc wire (b ∷ take k bytes) (drop k bytes)
      ∙ ap (λ (r : List ℕ). wire ++ (b ∷ r)) (take-append-drop k bytes) in
    rw all at (
      send_loop-Prefix results (wire ++ (b ∷ take k bytes)) (total + (k + 1)) (drop k bytes)
        (omega (arith, length-append wire (b ∷ take k bytes), length-take k bytes)))
send_loop-Prefix (would_block ∷ results) wire total (b ∷ bytes) e =
    send_loop-Prefix results wire total (b ∷ bytes) e
send_loop-Prefix (fails ∷ results) wire total (b ∷ bytes) e = (b ∷ bytes, refl, ap as_int e)

-- Whatever send does, the bytes that have gone out are a prefix of the buffer; a count that is
-- returned is their number, converted to an int (modulo 2^32, with its sign), and while tcp_send
-- waits some bytes are left.
pub tcp_send-Prefix :
    (results : List SendResult) (bytes : List ℕ) → Prefix bytes (tcp_send results bytes)
unfolding tcp_send
tcp_send-Prefix results bytes = send_loop-Prefix results [] 0 bytes refl

-- How many of the results take bytes; a failure among them is counted apart.
abbrev pub takes : List SendResult → ℕ
takes [] = 0
takes (sends n ∷ rs) = suc (takes rs)
takes (would_block ∷ rs) = takes rs
takes (fails ∷ rs) = takes rs

abbrev pub NoFailure : List SendResult → Type 0
NoFailure [] = Unit {0}
NoFailure (fails ∷ rs) = ⊥
NoFailure (r ∷ rs) = NoFailure rs

send_loop_total :
    (results : List SendResult) (wire : List ℕ) (total : ℕ) (bytes : List ℕ)
    → NoFailure results
    → length bytes ≤ takes results
    → total ≡ length wire
    → send_loop results wire total bytes
      ≡ returned (wire ++ bytes) (as_int (length (wire ++ bytes)))
unfolding send_loop
send_loop_total [] wire total [] f h e = rw (append-nil wire, e) refl
send_loop_total (r ∷ results) wire total [] f h e = rw (append-nil wire, e) refl
send_loop_total [] wire total (b ∷ bytes) f h e = absurd (omega arith)
send_loop_total (sends n ∷ results) wire total (b ∷ bytes) f h e =
    let k : ℕ = min n (length bytes) in
    let all : (wire ++ (b ∷ take k bytes)) ++ drop k bytes ≡ wire ++ (b ∷ bytes) =
      append_assoc wire (b ∷ take k bytes) (drop k bytes)
      ∙ ap (λ (r : List ℕ). wire ++ (b ∷ r)) (take-append-drop k bytes) in
    rw all at (
      send_loop_total results (wire ++ (b ∷ take k bytes)) (total + (k + 1)) (drop k bytes) f
        (omega (arith, length-drop k bytes))
        (omega (arith, length-append wire (b ∷ take k bytes), length-take k bytes)))
send_loop_total (would_block ∷ results) wire total (b ∷ bytes) f h e =
    send_loop_total results wire total (b ∷ bytes) f h e
send_loop_total (fails ∷ results) wire total (b ∷ bytes) f h e = absurd f

as_int_small : (n : ℕ) → n < 2 ^ 31 → as_int n ≡ pos n
unfolding as_int
as_int_small n small =
    let same : n % 2 ^ 32 ≡ n = omega arith in rw (same, lt→ltb n (2 ^ 31) small) refl

-- Where send does not fail and takes bytes often enough, once a byte at least, tcp_send sends the
-- whole of a buffer of fewer than 2^31 bytes and returns its length, through any number of
-- refusals for the time being.
pub tcp_send_total :
    (results : List SendResult) (bytes : List ℕ)
    → NoFailure results
    → length bytes ≤ takes results
    → length bytes < 2 ^ 31
    → tcp_send results bytes ≡ returned bytes (pos (length bytes))
unfolding tcp_send
tcp_send_total results bytes f h small =
    send_loop_total results [] 0 bytes f h refl
    ∙ ap (returned bytes) (as_int_small (length bytes) small)
