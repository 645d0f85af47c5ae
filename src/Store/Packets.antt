-- ===== src/Store/Packets.antt =====
-- The loop over the packets of a buffer, against `server_wait_large_buffer_from`.
use distributed_storage_syst.Prelude.{
  ℕ, zero, suc, ◌+◌, ◌/◌, ◌^◌, ◌<◌, ◌≤◌, ◌≡◌, ◌∙◌, ap, refl, Bool, true, false, List, [], ◌∷◌,
  Option, none, some, arith, if◌then◌else◌, lt→ltb, length, write_block, Option-cases, inl, inr,
}
use distributed_storage_syst.Server.{Server, set_state}
use distributed_storage_syst.Transfer.{
  Wait, done, blocked, fault, bucket_size, wait_buckets, wait_large_buffer_from,
}
use distributed_storage_syst.Store.{
  RawPackets, forwards, forwarded, raw_loop, after_raw, wait_raw_packets,
}

-- The packets that came without an error.
abbrev pub received : List (Option (List ℕ)) → List (List ℕ)
received [] = []
received (none ∷ rs) = received rs
received (some p ∷ rs) = p ∷ received rs

abbrev pub first_of {ℓ} : {A : Type ℓ} → ℕ → List A → List A
first_of zero xs = []
first_of (suc n) [] = []
first_of (suc n) (x ∷ xs) = x ∷ first_of n xs

pub first_of_all {ℓ} : {A : Type ℓ} (n : ℕ) (xs : List A) → length xs ≤ n → first_of n xs ≡ xs
first_of_all zero [] h = refl
first_of_all zero (x ∷ xs) h = absurd (omega arith)
first_of_all (suc n) [] h = refl
first_of_all (suc n) (x ∷ xs) h = ap (◌∷◌ x) (first_of_all n xs (omega arith))

abbrev pub paired : List (List ℕ) → Wait (List ℕ) → Wait (List ℕ × List (List ℕ))
paired sent (done buffer) = done (buffer, sent)
paired sent blocked = blocked
paired sent fault = fault

forwarded-paired :
    (forward : Bool) (p : List ℕ) (sent : List (List ℕ)) (w : Wait (List ℕ))
    → forwarded forward p (paired (if forward then sent else []) w)
      ≡ paired (if forward then p ∷ sent else []) w
unfolding forwarded
forwarded-paired true p sent (done b) = refl
forwarded-paired true p sent blocked = refl
forwarded-paired true p sent fault = refl
forwarded-paired false p sent (done b) = refl
forwarded-paired false p sent blocked = refl
forwarded-paired false p sent fault = refl

-- The loop fills the buffer as `server_wait_large_buffer_from` does, and forwards every packet or none.
raw_loop_lem :
    (forward : Bool) (n : ℕ) (recvs : List (Option (List ℕ))) (populated : ℕ) (buffer : List ℕ)
    → raw_loop forward n recvs populated buffer
      ≡ paired
          (if forward then received (first_of n recvs) else [])
          (wait_buckets n recvs populated buffer)
unfolding raw_loop wait_buckets
raw_loop_lem true zero recvs populated buffer = refl
raw_loop_lem false zero recvs populated buffer = refl
raw_loop_lem forward (suc n) [] populated buffer = refl
raw_loop_lem forward (suc n) (none ∷ recvs) populated buffer = refl
raw_loop_lem forward (suc n) (some p ∷ recvs) populated buffer =
    elim (Option-cases (write_block populated p buffer)) [
      | inl e ↦ rw (e, raw_loop, wait_buckets) refl
      | inr (buffer', e) ↦
          rw (e, raw_loop, wait_buckets)
            (ap (forwarded forward p) (raw_loop_lem forward n recvs (populated + length p) buffer')
              ∙ forwarded-paired forward p (received (first_of n recvs))
                  (wait_buckets n recvs (populated + length p) buffer'))
    ]

-- Through the rest of the state.
pub wait_raw_done :
    (sv : Server) (raw : RawPackets) (recvs : List (Option (List ℕ))) (memory buffer : List ℕ)
    (now : ℕ)
    → raw.total_size < 2 ^ 31
    → raw.n_pkts ≡ raw.total_size / bucket_size + 1
    → wait_large_buffer_from recvs raw.total_size memory ≡ done buffer
    → wait_raw_packets sv raw recvs memory now
      ≡ done (
        set_state sv (after_raw sv raw.trigger) now,
        buffer,
        if forwards sv raw.trigger then received (first_of raw.n_pkts recvs) else [],
      )
unfolding wait_raw_packets wait_large_buffer_from
wait_raw_done sv raw recvs memory buffer now small count run =
    let run' : wait_buckets raw.n_pkts recvs 0 memory ≡ done buffer =
      ap (λ (n : ℕ). wait_buckets n recvs 0 memory) count ∙ run in
    rw
      (
        lt→ltb raw.total_size (2 ^ 31) small,
        raw_loop_lem (forwards sv raw.trigger) raw.n_pkts recvs 0 memory,
        run',
      )
      refl
