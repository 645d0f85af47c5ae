-- ===== src/Examples/Sending.antt =====
-- The theorems on buffers that are sent and received, at concrete inputs.
use distributed_storage_syst.Prelude.{
  ℕ, zero, suc, ◌<◌, ◌≡◌, refl, List, [], ◌∷◌, some, true, arith, replicate, length,
  length-replicate, inl, inr,
}
use distributed_storage_syst.Text.Numbers.{pos}
use distributed_storage_syst.Transfer.{
  SendResult, sends, would_block, fails, returned, tcp_send, send_large_buffer_to,
  wait_large_buffer_from, done, blocked, packets,
}
use distributed_storage_syst.Transfer.Send.{tcp_send-Prefix, tcp_send_total, Prefix}
use distributed_storage_syst.Transfer.Buckets.{large_buffer_arrives, large_buffer_blocks}
use distributed_storage_syst.FileServer.{FileContainer, zero_file}
use distributed_storage_syst.NetIndex.{FragmentPointer}
use distributed_storage_syst.FanOut.{Delivery, fan_out_from}
use distributed_storage_syst.FanOut.Shares.{Served, fan_out_from-Served}
use distributed_storage_syst.Reassembly.{Request, new_request, deliver_all, is_complete}
use distributed_storage_syst.Reassembly.Arrival.{Has, sent, reassembles}
use distributed_storage_syst.Examples.{addresses, index_node}

abbrev text : List ℕ
text = 10 ∷ 20 ∷ 30 ∷ 40 ∷ 50 ∷ []

abbrev results : List SendResult
results = sends 1 ∷ would_block ∷ sends 0 ∷ sends 0 ∷ sends 7 ∷ sends 0 ∷ []

tcp_send-Prefix_example : Prefix text (tcp_send (sends 1 ∷ fails ∷ []) text)
tcp_send-Prefix_example = tcp_send-Prefix (sends 1 ∷ fails ∷ []) text

tcp_send_total_example : tcp_send results text ≡ returned text (pos 5)
tcp_send_total_example = tcp_send_total results text tt (omega arith) (omega arith)

large_buffer_arrives_example :
    (bs : List (List ℕ)) × (send_large_buffer_to 5 text ≡ some bs)
    × (wait_large_buffer_from (packets bs) 5 (replicate 5 0) ≡ done text)
large_buffer_arrives_example =
    large_buffer_arrives text (replicate 5 0) refl (omega arith) (λ e. omega arith)

abbrev bucket : List ℕ
bucket = replicate 4096 7

large_buffer_blocks_example :
    (bs : List (List ℕ)) × (send_large_buffer_to (length bucket) bucket ≡ some bs)
    × (wait_large_buffer_from (packets bs) (length bucket) bucket ≡ blocked)
large_buffer_blocks_example =
    large_buffer_blocks bucket bucket refl (omega (arith, length-replicate {A = ℕ} 4096 7))
      (omega (arith, length-replicate {A = ℕ} 4096 7))

abbrev pointers : List FragmentPointer
pointers =
    record { fragment = 1; size = 2; node_id = 1 }
    ∷ record { fragment = 2; size = 3; node_id = 3 }
    ∷ []

fan_out_from-Served_example :
    (fc' : FileContainer) × (out : List Delivery) × (fan_out_from pointers 0 index_node addresses 2
        text zero_file
      ≡ some (fc', out))
    × Served index_node addresses 2 text pointers 0 zero_file fc' out
fan_out_from-Served_example =
    fan_out_from-Served index_node addresses 2 text (omega arith) pointers 0 zero_file (
      (omega arith, omega arith, omega arith, omega arith),
      ((omega arith, omega arith, omega arith, omega arith), tt),
    )

abbrev arrivals : List ℕ
arrivals = 2 ∷ 0 ∷ 1 ∷ []

covers : (k : ℕ) → k < 3 → Has text 3 (omega arith) k arrivals
covers zero h = inr (inl refl)
covers (suc zero) h = inr (inr (inl refl))
covers (suc (suc zero)) h = inl refl
covers (suc (suc (suc k))) h = absurd (omega arith)

reassembles_example :
    (r : Request) × (deliver_all (new_request 1 5 3) (sent text 3 (omega arith) arrivals) ≡ some r)
    × (is_complete r ≡ true)
    × (r.buffer ≡ text)
reassembles_example =
    reassembles text 3 (omega arith) 1 arrivals (omega arith)
      (omega arith, (omega arith, (omega arith, tt))) refl covers
