-- ===== src/Reassembly/Arrival.antt =====
-- What the fragments that have come make of the buffer, in whatever order they come.
use distributed_storage_syst.Prelude.{
  ℕ, ◌+◌, ◌-◌, ◌*◌, ◌/◌, ◌^◌, ◌<◌, ◌≤◌, ◌≡◌, ◌∙◌, ◌⊎◌, inl, inr, refl, sym, ap, subst, true, List,
  [], ◌∷◌, some, arith, >>=-some, to_int_lem, length-replicate, read_block, length, length-spliced,
  read_block_in_range, write_block_in_range, take-length, ℕ_discrete, map, ne→==, ==_iff, ap₂,
}
use distributed_storage_syst.Reassembly.{
  Request, new_request, deliver, deliver_all, offset_of, copy_fragment, is_complete,
}
use distributed_storage_syst.Reassembly.Covering.{
  piece, HasPiece, room, written, written_self, written_other, complete, fragment_end,
}

pub offset_of_lem :
    (size w k : ℕ)
    → k < w
    → size < 2 ^ 31
    → size / w * k ≤ size
    → offset_of size w (k + 1) ≡ some (size / w * k)
unfolding offset_of
offset_of_lem size w k h fits small =
    let one : k + 1 - 1 ≡ k = omega arith in
    rw (ne→== w 0 (omega arith), ne→== (k + 1) 0 (omega arith), one)
      (to_int_lem (size / w * k) (omega arith))

module _ (file : List ℕ) (w : ℕ) (fits : length file < 2 ^ 31) where
  -- The request is for the file, and its buffer has the file's length.
  pub record IsFor (r : Request) : Type 0 where
    pub sized : r.file_size ≡ length file
    pub counted : r.fragment_count ≡ w
    pub allocated : length r.buffer ≡ length file

  abbrev pub after : Request → ℕ → Request
  after r k = record r { fragment_found = r.fragment_found + 1; buffer = written file w k r.buffer }

  pub after-IsFor : (r : Request) (k : ℕ) → k < w → IsFor r → IsFor (after r k)
  after-IsFor r k h v = record {
    sized = v.sized;
    counted = v.counted;
    allocated =
        length-spliced (length file / w * k) (piece file w k) r.buffer
          (room file w k r.buffer h v.allocated)
        ∙ v.allocated;
  }

  pub deliver_lem :
      (r : Request) (k : ℕ)
      → k < w
      → IsFor r
      → deliver r (k + 1) (piece file w k) (length (piece file w k)) ≡ some (after r k)
  unfolding deliver copy_fragment
  deliver_lem r k h v =
      let at : offset_of r.file_size r.fragment_count (k + 1) ≡ some (length file / w * k) =
        ap₂ (λ s c. offset_of s c (k + 1)) v.sized v.counted
        ∙ offset_of_lem (length file) w k h fits
            (omega (arith, fragment_end (length file) w k h)) in
      let whole : read_block 0 (length (piece file w k)) (piece file w k) ≡ some (piece file w k) =
        read_block_in_range 0 (length (piece file w k)) (piece file w k) (omega arith)
        ∙ ap some (take-length (piece file w k)) in
      >>=-some _ at (
        >>=-some _ whole (
          >>=-some _
            (write_block_in_range (length file / w * k) (piece file w k) r.buffer
              (room file w k r.buffer h v.allocated))
            refl))

  -- The fragments with the given numbers, as the nodes send them.
  abbrev pub sent : List ℕ → List (ℕ × List ℕ)
  sent = map (λ k. (k + 1, piece file w k))

  abbrev pub AllBelow : List ℕ → Type 0
  AllBelow [] = Unit {0}
  AllBelow (k ∷ ks) = (k < w) × AllBelow ks

  abbrev pub Has : ℕ → List ℕ → Type 0
  Has k [] = ⊥
  Has k (j ∷ ks) = (j ≡ k) ⊎ Has k ks

  -- After the fragments `ks` their pieces are in place, and those that were there before still are.
  deliver_all_lem :
      (ks : List ℕ) (r : Request)
      → AllBelow ks
      → IsFor r
      → (r' : Request) × (deliver_all r (sent ks) ≡ some r')
        × IsFor r'
        × (r'.fragment_found ≡ r.fragment_found + length ks)
        × ((k : ℕ) → k < w → HasPiece file w k r.buffer ⊎ Has k ks → HasPiece file w k r'.buffer)
  unfolding deliver_all
  deliver_all_lem [] r below v =
      (r, refl, v, omega arith, λ k h. elim [ inl has ↦ has | inr none' ↦ absurd none' ])
  deliver_all_lem (j ∷ ks) r (h, below) v =
      let (r', run, v', found, pieces) =
        deliver_all_lem ks (after r j) below (after-IsFor r j h v) in
      (
        r',
        >>=-some _ (deliver_lem r j h v) run,
        v',
        omega arith,
        λ k k_lt cause. pieces k k_lt (step k k_lt cause),
      )
    where
      step :
          (k : ℕ)
          → k < w
          → HasPiece file w k r.buffer ⊎ Has k (j ∷ ks)
          → HasPiece file w k (after r j).buffer ⊎ Has k ks
      step k k_lt (inr (inr later)) = inr later
      step k k_lt (inr (inl same)) = inl (
          subst (λ x. HasPiece file w x (after r j).buffer) same
            (written_self file w j r.buffer h v.allocated))
      step k k_lt (inl has) = elim (ℕ_discrete k j) [
        | yes same ↦ inl (
            subst (λ x. HasPiece file w x (after r j).buffer) (sym same)
              (written_self file w j r.buffer h v.allocated))
        | no other ↦ inl (written_other file w k j r.buffer k_lt h other v.allocated has)
      ]

  pub new_request-IsFor : (file_id : ℕ) → IsFor (new_request file_id (length file) w)
  unfolding new_request
  new_request-IsFor file_id = record {
    sized = refl;
    counted = refl;
    allocated = length-replicate (length file) b'.';
  }

  -- From a new request, the fragments of a file of less than 2^31 bytes cut into w (0 < w), all w
  -- of them in any order, complete the request without a fault, and its buffer is then the file.
  pub reassembles :
      (file_id : ℕ) (ks : List ℕ)
      → 0 < w
      → AllBelow ks
      → length ks ≡ w
      → ((k : ℕ) → k < w → Has k ks)
      → (r : Request) × (deliver_all (new_request file_id (length file) w) (sent ks) ≡ some r)
        × (is_complete r ≡ true)
        × (r.buffer ≡ file)
  unfolding new_request is_complete
  reassembles file_id ks pos below count cover =
      let fresh : Request = new_request file_id (length file) w in
      let (r, run, v, found, pieces) = deliver_all_lem ks fresh below (new_request-IsFor file_id) in
      let all : r.fragment_found ≡ r.fragment_count = omega (arith, v.counted) in
      (
        r,
        run,
        (==_iff r.fragment_count r.fragment_found).1 (sym all),
        complete file w r.buffer pos v.allocated (λ k h. pieces k h (inr (cover k h))),
      )
