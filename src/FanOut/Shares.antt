-- ===== src/FanOut/Shares.antt =====
-- Every entry of the index gives its node the bytes of its fragment.
use distributed_storage_syst.Prelude.{
  ℕ, zero, suc, ◌+◌, ◌-◌, ◌*◌, ◌/◌, ◌%◌, ◌^◌, ℕ_discrete, ◌<◌, ◌≤◌, ◌≡◌, ◌≢◌, ◌∙◌, ◌⊎◌, inl, inr,
  refl, ap, true, List, [], ◌∷◌, ◌++◌, none, some, arith, ◌==◌, if◌then◌else◌, >>=-some, to_int,
  to_int_lem, read_block_in_range, get_elem?, get_elem?_of_lt, length, length-drop, take, drop,
  slice, Bool-cases, ne→==, ==_iff, take-append-drop,
}
use mathlib.Core.List.{append-nil}
use distributed_storage_syst.Server.{Server, IndexData}
use distributed_storage_syst.FileServer.{FileContainer, FileFragment}
use distributed_storage_syst.NetIndex.{FragmentPointer}
use distributed_storage_syst.Transfer.{bucket_size}
use distributed_storage_syst.Transfer.Buckets.{chunks, send_large_buffer_to-chunks}
use distributed_storage_syst.FanOut.{
  FragmentCreation, Delivery, new_creation, keep_own, fan_out_from,
}

abbrev pub joined : List (List ℕ) → List ℕ
joined [] = []
joined (b ∷ bs) = b ++ joined bs

pub joined-chunks : (k : ℕ) (bytes : List ℕ) → joined (chunks k bytes) ≡ bytes
joined-chunks zero bytes = append-nil bytes
joined-chunks (suc k) bytes =
    ap (◌++◌ (take bucket_size bytes)) (joined-chunks k (drop bucket_size bytes))
    ∙ take-append-drop bucket_size bytes

-- An entry that the loop can serve: a numbered fragment inside the buffer, at a node of the table.
abbrev pub IsServable : ℕ → IndexData → List ℕ → FragmentPointer → Type 0
IsServable base d buffer frag =
    (0 < frag.fragment)
    × (base * (frag.fragment - 1) + frag.size ≤ length buffer)
    × (0 < frag.node_id)
    × (frag.node_id ≤ length d.peer_ips)

abbrev pub AllServable : ℕ → IndexData → List ℕ → List FragmentPointer → Type 0
AllServable base d buffer [] = Unit {0}
AllServable base d buffer (frag ∷ frags) =
    IsServable base d buffer frag × AllServable base d buffer frags

-- The bytes of an own entry stand in the first slot of the container if it was free, and in the second
-- otherwise, with the number of the fragment, cut to 8 bits, and its size; nothing else is changed.
abbrev pub Keeps : FragmentPointer → List ℕ → FileContainer → FileContainer → Type 0
Keeps frag bytes fc kept =
    let own : FileFragment = record {
      fragment_id = frag.fragment % 2 ^ 8;
      fragment_bytes = some bytes;
      fragment_size = frag.size;
    } in
    ((fc.slot0.fragment_id ≡ 0) × (kept ≡ record fc { slot0 = own }))
    ⊎ ((fc.slot0.fragment_id ≢ 0) × (kept ≡ record fc { slot1 = own }))

-- What is said of entry `i` before its bytes: the file, the number of the entry, and the number and
-- the size of the fragment.
abbrev pub announced : FileContainer → FragmentPointer → ℕ → FragmentCreation
announced fc frag i = record {
  file_name = fc.file_name;
  file_size = fc.size;
  file_id = fc.file_id;
  fragment_count_total = fc.fragment_count_total;
  ptr_index = i % 2 ^ 16;
  frag_id = frag.fragment;
  frag_size = frag.size;
}

-- What the loop does for the entries from `i` on, in their order: an own entry goes into the
-- container; any other goes to the address of its node, announced with its number and size, as buckets
-- that join to its bytes.
abbrev pub Served :
    Server
    → IndexData
    → ℕ
    → List ℕ
    → List FragmentPointer
    → ℕ
    → FileContainer
    → FileContainer
    → List Delivery
    → Type 0
Served sv d base buffer [] i fc fc' out = (fc' ≡ fc) × (out ≡ [])
Served sv d base buffer (frag ∷ frags) i fc fc' out =
    let bytes = slice (base * (frag.fragment - 1)) frag.size buffer in
    ((frag.node_id ≡ sv.me.node_id)
      × ((kept : FileContainer) × Keeps frag bytes fc kept
          × Served sv d base buffer frags (i + 1) kept fc' out))
    ⊎ ((frag.node_id ≢ sv.me.node_id)
        × ((sent : Delivery) × (rest : List Delivery) × (out ≡ sent ∷ rest)
            × (get_elem? d.peer_ips (frag.node_id - 1) ≡ some sent.to)
            × (sent.creation ≡ announced fc frag i)
            × (joined sent.buckets ≡ bytes)
            × Served sv d base buffer frags (i + 1) fc fc' rest))

keep_own-Keeps :
    (fc : FileContainer) (frag : FragmentPointer) (bytes : List ℕ)
    → Keeps frag bytes fc (keep_own fc frag bytes)
unfolding keep_own
keep_own-Keeps fc frag bytes = elim (ℕ_discrete fc.slot0.fragment_id 0) [
  | yes free ↦ inl (free, rw free refl)
  | no taken ↦ inr (taken, rw (ne→== fc.slot0.fragment_id 0 taken) refl)
]

new_creation-announced :
    (fc : FileContainer) (frag : FragmentPointer) (i : ℕ)
    → new_creation fc frag i ≡ announced fc frag i
unfolding new_creation
new_creation-announced fc frag i = refl

module _ (sv : Server) (d : IndexData) (base : ℕ) (buffer : List ℕ)
    (fits : length buffer + bucket_size < 2 ^ 31) where
  -- Over a buffer of less than 2^31 - 4096 bytes, the fan-out loop serves every entry whose
  -- fragment lies in the buffer and whose node is in the table: the bytes of an own entry go into
  -- the first slot of the container if it is free and into the second otherwise, under the number
  -- of the fragment cut to 8 bits and with its size, and any other entry goes to the address of
  -- its node, announced with the file's name, size, id and number of fragments, the number of the
  -- entry cut to 16 bits, and the number and size of the fragment, as buckets that join to its
  -- bytes.
  pub fan_out_from-Served :
      (frags : List FragmentPointer) (i : ℕ) (fc : FileContainer)
      → AllServable base d buffer frags
      → (fc' : FileContainer) × (out : List Delivery) × (fan_out_from frags i sv d base buffer fc
          ≡ some (fc', out))
        × Served sv d base buffer frags i fc fc' out
  unfolding fan_out_from
  fan_out_from-Served [] i fc s = (fc, [], refl, (refl, refl))
  fan_out_from-Served (frag ∷ frags) i fc ((numbered, inside, at, known), s) =
      let off : ℕ = base * (frag.fragment - 1) in
      let bytes : List ℕ = slice off frag.size buffer in
      let offset : (if frag.fragment == 0 then none else to_int off) ≡ some off =
        rw (ne→== frag.fragment 0 (omega arith)) (to_int_lem off (omega arith)) in
      elim (Bool-cases (frag.node_id == sv.me.node_id)) [
        | inl own ↦
            let (fc', out, run, served) =
              fan_out_from-Served frags (i + 1) (keep_own fc frag bytes) s in
            (
              fc',
              out,
              >>=-some _ offset
                  (rw own (>>=-some _ (read_block_in_range off frag.size buffer inside) run)),
              inl (
                (==_iff frag.node_id sv.me.node_id).0 own,
                (keep_own fc frag bytes, keep_own-Keeps fc frag bytes, served),
              ),
            )
        | inr other ↦
            let (to, found) = get_elem?_of_lt d.peer_ips (frag.node_id - 1) (omega arith) in
            let (fc', out, run, served) = fan_out_from-Served frags (i + 1) fc s in
            let cut =
              send_large_buffer_to-chunks frag.size (drop off buffer)
                (omega (arith, length-drop off buffer)) (omega arith) in
            let peer : (if frag.node_id == 0 then none else get_elem? d.peer_ips (frag.node_id - 1))
                ≡ some to =
              rw (ne→== frag.node_id 0 (omega arith)) found in
            let differs : frag.node_id ≢ sv.me.node_id = λ e.
              let t : (frag.node_id == sv.me.node_id) ≡ true =
                (==_iff frag.node_id sv.me.node_id).1 e in
              cc in
            (
              fc',
              record {
                to = to;
                creation = new_creation fc frag i;
                buckets = chunks (frag.size / bucket_size) bytes;
              }
                  ∷ out,
              >>=-some _ offset (rw other (>>=-some _ peer (>>=-some _ cut (>>=-some _ run refl)))),
              inr (
                differs,
                (
                  record {
                    to = to;
                    creation = new_creation fc frag i;
                    buckets = chunks (frag.size / bucket_size) bytes;
                  },
                  out,
                  refl,
                  found,
                  new_creation-announced fc frag i,
                  joined-chunks (frag.size / bucket_size) bytes,
                  served,
                ),
              ),
            )
      ]
