-- ===== src/Store/Relay.antt =====
-- A new file that a client sends to a node other than the index reaches the index.
use distributed_storage_syst.Prelude.{
  ℕ, zero, suc, ◌+◌, ◌/◌, ◌%◌, ◌^◌, ◌<◌, ◌≤◌, ◌≡◌, ◌≢◌, ◌∙◌, ap, sym, refl, true, false, List, [],
  ◌∷◌, Option, some, arith, if◌then◌else◌, length, take, drop, map,
}
use distributed_storage_syst.Server.{Server, ServerState, set_state, is_index}
use distributed_storage_syst.Transfer.{
  done, packets, bucket_size, wait_large_buffer_from, send_large_buffer_to,
}
use distributed_storage_syst.Transfer.Buckets.{
  large_buffer_arrives, chunks, send_large_buffer_to-chunks,
}
use distributed_storage_syst.Store.{begin_create, forwards, after_raw, wait_raw_packets}
use distributed_storage_syst.Store.Packets.{received, first_of, first_of_all, wait_raw_done}

length-chunks : (k : ℕ) (bytes : List ℕ) → length (chunks k bytes) ≡ k + 1
length-chunks zero bytes = refl
length-chunks (suc k) bytes = omega (arith, length-chunks k (drop bucket_size bytes))

length-packets-le : (bs : List (List ℕ)) → length (packets bs) ≤ length bs
length-packets-le [] = omega arith
length-packets-le ([] ∷ bs) = omega (arith, length-packets-le bs)
length-packets-le ((c ∷ cs) ∷ bs) = omega (arith, length-packets-le bs)

received-packets : (bs : List (List ℕ)) → map some (received (packets bs)) ≡ packets bs
received-packets [] = refl
received-packets ([] ∷ bs) = received-packets bs
received-packets ((c ∷ cs) ∷ bs) = ap (◌∷◌ (some (c ∷ cs))) (received-packets bs)

packets_fit :
    (bs : List (List ℕ)) (bytes : List ℕ)
    → length bytes + bucket_size < 2 ^ 31
    → send_large_buffer_to (length bytes) bytes ≡ some bs
    → length (packets bs) ≤ length bytes / bucket_size + 1
packets_fit bs bytes fits cut =
    let k : ℕ = length bytes / bucket_size in
    let e : ◌≡◌ {A = Option (List (List ℕ))} (some bs)
        (some (chunks k (take (length bytes) bytes))) =
      sym cut ∙ send_large_buffer_to-chunks (length bytes) bytes (omega arith) fits in
    let same : bs ≡ chunks k (take (length bytes) bytes) = cc in
    omega (
      arith,
      length-packets-le bs,
      ap (λ (b : List (List ℕ)). length b) same,
      length-chunks k (take (length bytes) bytes),
    )

-- The state at the node and at the index.
created :
    (sv : Server) (name bytes memory buffer : List ℕ) (fd now : ℕ) (recvs : List (Option (List ℕ)))
    → length bytes < 2 ^ 31
    → wait_large_buffer_from recvs (length bytes) memory ≡ done buffer
    → wait_raw_packets
        (begin_create sv name (length bytes) fd now).0
        (begin_create sv name (length bytes) fd now).1
        recvs
        memory
        now
      ≡ (if is_index sv
          then done (set_state sv ServerState.index_handle_new_file now, buffer, [])
          else done (
            set_state sv ServerState.idle now,
            buffer,
            received (first_of (length bytes / 4096 + 1) recvs),
          ))
unfolding begin_create forwards after_raw set_state is_index
created sv name bytes memory buffer fd now recvs small run =
    wait_raw_done (begin_create sv name (length bytes) fd now).0
      (begin_create sv name (length bytes) fd now).1 recvs memory buffer now small refl run
    ∙ ground arith

-- A new file of less than 2^31 - 4096 bytes, no multiple of 4096, that is sent to a node which is
-- not the index arrives there whole, and the packets that the node forwards give the index the
-- whole file too, where the network keeps them apart; the node is then idle, and the index goes on
-- to handle the new file.
pub create_file_relayed :
    (sv index : Server) (name bytes memory memory' : List ℕ) (fd fd' now : ℕ)
    → is_index sv ≡ false
    → is_index index ≡ true
    → length memory ≡ length bytes
    → length memory' ≡ length bytes
    → length bytes + bucket_size < 2 ^ 31
    → length bytes % bucket_size ≢ 0
    → (bs : List (List ℕ)) × (sent : List (List ℕ)) × (sv' index' : Server) × (send_large_buffer_to
          (length bytes)
          bytes
        ≡ some bs)
      × (wait_raw_packets
            (begin_create sv name (length bytes) fd now).0
            (begin_create sv name (length bytes) fd now).1
            (packets bs)
            memory
            now
          ≡ done (sv', bytes, sent))
      × (wait_raw_packets
            (begin_create index name (length bytes) fd' now).0
            (begin_create index name (length bytes) fd' now).1
            (map some sent)
            memory'
            now
          ≡ done (index', bytes, []))
      × (sv'.state ≡ ServerState.idle)
      × (index'.state ≡ ServerState.index_handle_new_file)
unfolding set_state
create_file_relayed sv index name bytes memory memory' fd fd' now client leader room room' fits
      partial =
    let n : ℕ = length bytes / 4096 + 1 in
    let (bs, cut, here) = large_buffer_arrives bytes memory room fits partial in
    let (bs', cut', there) = large_buffer_arrives bytes memory' room' fits partial in
    let twice : ◌≡◌ {A = Option (List (List ℕ))} (some bs') (some bs) = sym cut' ∙ cut in
    let same : bs' ≡ bs = cc in
    let sent : List (List ℕ) = received (first_of n (packets bs)) in
    let passed : map some sent ≡ packets bs' =
      ap (λ r. map some (received r)) (first_of_all n (packets bs) (packets_fit bs bytes fits cut))
      ∙ received-packets bs
      ∙ ap packets (sym same) in
    (
      bs,
      sent,
      set_state sv ServerState.idle now,
      set_state index ServerState.index_handle_new_file now,
      cut,
      created sv name bytes memory bytes fd now (packets bs) (omega arith) here ∙ rw client refl,
      created index name bytes memory' bytes fd' now (map some sent) (omega arith)
            (ap (λ r. wait_large_buffer_from r (length bytes) memory') passed ∙ there)
          ∙ rw leader refl,
      refl,
      refl,
    )
